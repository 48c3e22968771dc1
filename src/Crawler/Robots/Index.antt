-- ===== src/Crawler/Robots/Index.antt =====
-- `strings.HasPrefix` and `strings.Index`: the leftmost occurrence.
use native.Mathlib.Nat.{zero-add, suc-add}
use feedla.Prelude.{
  ℕ, zero, suc, ◌+◌, ◌≤◌, ◌≡◌, refl, ap, true, some, List, [], ◌∷◌, ◌++◌, length, length-append,
  drop, arith, Bool-cases, Option-cases, inl, inr,
}
use feedla.Crawler.Robots.{Bytes, has_prefix, index}

drop-nil : {A : Type 0} (n : ℕ) → drop {A = A} n [] ≡ []
drop-nil zero = refl
drop-nil (suc n) = refl

pub drop-add : {A : Type 0} (a b : ℕ) (xs : List A) → drop b (drop a xs) ≡ drop (a + b) xs
drop-add zero b xs = rw zero-add
drop-add (suc a) b [] = rw (drop-nil b, drop-nil (suc a + b))
drop-add (suc a) b (x ∷ xs) = rw suc-add (drop-add a b xs)

pub drop-append_le :
    {A : Type 0} (n : ℕ) (xs ys : List A) → n ≤ length xs → drop n (xs ++ ys) ≡ drop n xs ++ ys
drop-append_le zero xs ys h = refl
drop-append_le (suc n) [] ys h = absurd (omega arith)
drop-append_le (suc n) (x ∷ xs) ys h = drop-append_le n xs ys (omega arith)

has_prefix-split :
    (seg path : Bytes) → has_prefix seg path ≡ true → path ≡ seg ++ drop (length seg) path
unfolding has_prefix
has_prefix-split [] path h = refl
has_prefix-split (x ∷ seg) [] h = cc
has_prefix-split (x ∷ seg) (y ∷ path) h = ground (arith, has_prefix-split seg path)

has_prefix-append : (seg rest : Bytes) → has_prefix seg (seg ++ rest) ≡ true
unfolding has_prefix
has_prefix-append [] rest = refl
has_prefix-append (x ∷ seg) rest = ground (arith, has_prefix-append seg rest)

length-prefix : (seg path : Bytes) → has_prefix seg path ≡ true → length seg ≤ length path
length-prefix seg path h =
    omega
      (arith, ap length (has_prefix-split seg path h), length-append seg (drop (length seg) path))

abbrev Found : Bytes → Bytes → ℕ → Type 0
Found seg path i =
    (i + length seg ≤ length path)
    × ((gap : Bytes) × (path ≡ gap ++ (seg ++ drop (i + length seg) path)))

at_start : (seg path : Bytes) (i : ℕ) → has_prefix seg path ≡ true → i ≡ 0 → Found seg path i
at_start seg path i h e =
    rw (e, zero-add) (length-prefix seg path h, ([], has_prefix-split seg path h))

one_on : (seg path : Bytes) (y i j : ℕ) → i ≡ suc j → Found seg path j → Found seg (y ∷ path) i
one_on seg path y i j e found =
    let (gap, there) = found.1 in
    let room = found.0 in rw (e, suc-add) (omega arith, (y ∷ gap, ap (◌∷◌ y) there))

-- Where `Index` finds a segment, the segment stands.
pub index_sound :
    (seg path : Bytes) (i : ℕ)
    → index seg path ≡ some i
    → (i + length seg ≤ length path)
      × ((gap : Bytes) × (path ≡ gap ++ (seg ++ drop (i + length seg) path)))
unfolding index
index_sound seg [] i h = elim (Bool-cases (has_prefix seg [])) [
  | inl here ↦ at_start seg [] i here (ground arith)
  | inr none_here ↦ absurd (ground arith)
]
index_sound seg (y ∷ path) i h = elim (Bool-cases (has_prefix seg (y ∷ path))) [
  | inl here ↦ at_start seg (y ∷ path) i here (ground arith)
  | inr later ↦ elim (Option-cases (index seg path)) [
    | inl nowhere ↦ absurd (ground arith)
    | inr (j, found) ↦ one_on seg path y i j (ground arith) (index_sound seg path j found)
  ]
]

at_zero : (seg path : Bytes) → has_prefix seg path ≡ true → index seg path ≡ some 0
unfolding index
at_zero seg [] h = ground arith
at_zero seg (y ∷ path) h = ground arith

-- `Index` finds a segment that stands anywhere, and no later than there.
pub index_complete :
    (gap seg rest : Bytes)
    → (i : ℕ) × (index seg (gap ++ (seg ++ rest)) ≡ some i) × (i ≤ length gap)
unfolding index
index_complete [] seg rest =
    (0, at_zero seg (seg ++ rest) (has_prefix-append seg rest), omega arith)
index_complete (y ∷ gap) seg rest =
    let (i, found, early) = index_complete gap seg rest in
    elim (Bool-cases (has_prefix seg (y ∷ gap ++ (seg ++ rest)))) [
      | inl here ↦ (0, ground arith, omega arith)
      | inr later ↦ (suc i, ground arith, omega arith)
    ]

-- A segment found at 0 stands at the start.
pub index-zero : (seg path : Bytes) → index seg path ≡ some 0 → path ≡ seg ++ drop (length seg) path
unfolding index
index-zero seg [] h = elim (Bool-cases (has_prefix seg [])) [
  | inl here ↦ has_prefix-split seg [] here
  | inr none_here ↦ absurd (ground arith)
]
index-zero seg (y ∷ path) h = elim (Bool-cases (has_prefix seg (y ∷ path))) [
  | inl here ↦ has_prefix-split seg (y ∷ path) here
  | inr later ↦ elim (Option-cases (index seg path)) [
    | inl nowhere ↦ absurd (ground arith)
    | inr (j, found) ↦ absurd (ground arith)
  ]
]
