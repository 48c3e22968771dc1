-- ===== src/Pagewatch/Diff/Bag.antt =====
-- The fallback path of the diff: a difference of multisets of keys.
use mathlib.Core.List.{map-append}
use feedla.Prelude.{
  ℕ, zero, suc, ◌+◌, ◌-◌, ◌≡◌, refl, ◌∙◌, String, string_discrete, false, List, [], ◌∷◌, ◌++◌, ite,
  if_pos, if_neg, get_or, take, drop, length, length-take, length-drop, ltb, if◌then◌else◌, count,
  count-append, contains, count-contains, contains-append, All, arith, Bool-cases, inl, inr,
}
use feedla.Pagewatch.Diff.{
  keys_at, positions, distinct, surplus_added, surplus_removed, gather, insert_sorted, sort_ints,
  set_diff_idx,
}
use feedla.Pagewatch.Diff.Positions.{get_or-drop, drop-next}

-- All the indices point at one key.
abbrev At : List String → String → List ℕ → Type 0
At keys k = All λ i. get_or keys i "" ≡ k

take-At :
    (keys : List String) (k : String) (n : ℕ) (idx : List ℕ)
    → At keys k idx
    → At keys k (take n idx)
take-At keys k zero idx a = tt
take-At keys k (suc n) [] a = tt
take-At keys k (suc n) (i ∷ idx) a = (a.0, take-At keys k n idx a.1)

drop-At :
    (keys : List String) (k : String) (n : ℕ) (idx : List ℕ)
    → At keys k idx
    → At keys k (drop n idx)
drop-At keys k zero idx a = a
drop-At keys k (suc n) [] a = tt
drop-At keys k (suc n) (i ∷ idx) a = drop-At keys k n idx a.1

positions-At :
    (keys : List String) (k : String) (i : ℕ) (xs : List String)
    → drop i keys ≡ xs
    → At keys k (positions k i xs)
unfolding positions
positions-At keys k i [] h = tt
positions-At keys k i (x ∷ xs) h =
    let rest = positions-At keys k (i + 1) xs (drop-next keys i h) in
    elim (string_discrete x k) [
      | yes e ↦ rw (if_pos _ e) (get_or-drop keys i "" h ∙ e, rest)
      | no n ↦ rw (if_neg _ n) rest
    ]

length-positions :
    (k : String) (i : ℕ) (xs : List String) → length (positions k i xs) ≡ count string_discrete k xs
unfolding positions
length-positions k i [] = refl
length-positions k i (x ∷ xs) = ground (arith, length-positions k (i + 1) xs)

count-At :
    (keys : List String) (k j : String) (idx : List ℕ)
    → At keys j idx
    → count string_discrete k (keys_at keys idx) ≡ ite (string_discrete j k) (length idx) 0
count-At keys k j [] a = ground arith
count-At keys k j (i ∷ idx) a = ground (arith, count-At keys k j idx a.1, a.0)

count-insert_sorted :
    (keys : List String) (k : String) (x : ℕ) (ys : List ℕ)
    → count string_discrete k (keys_at keys (insert_sorted x ys))
      ≡ count string_discrete k (keys_at keys (x ∷ ys))
unfolding insert_sorted
count-insert_sorted keys k x [] = refl
count-insert_sorted keys k x (y ∷ ys) = ground (arith, count-insert_sorted keys k x ys)

count-sort_ints :
    (keys : List String) (k : String) (xs : List ℕ)
    → count string_discrete k (keys_at keys (sort_ints xs))
      ≡ count string_discrete k (keys_at keys xs)
unfolding sort_ints
count-sort_ints keys k [] = refl
count-sort_ints keys k (x ∷ xs) =
    ground (arith, count-insert_sorted keys k x (sort_ints xs), count-sort_ints keys k xs)

contains-distinct :
    (xs : List String) (k : String)
    → contains string_discrete (distinct xs) k ≡ contains string_discrete xs k
unfolding distinct
contains-distinct [] k = refl
contains-distinct (x ∷ xs) k = ground (arith, contains-distinct xs k, contains-distinct xs x)

-- What the keys of a sequence, each taken once, gather for one key.
count-gather :
    (keys : List String) (f : String → List ℕ) (k : String) (ks : List String)
    → ((j : String) → At keys j (f j))
    → count string_discrete k (keys_at keys (gather f (distinct ks)))
      ≡ (if contains string_discrete ks k then length (f k) else 0)
unfolding gather distinct
count-gather keys f k [] a = refl
count-gather keys f k (x ∷ ks) a = ground (
  arith,
  count-gather keys f k ks a,
  map-append (λ i. get_or keys i "") (f x) (gather f (distinct ks)),
  count-append string_discrete k (keys_at keys (f x)) (keys_at keys (gather f (distinct ks))),
  count-At keys k x (f x) (a x),
  contains-distinct ks x,
)

module _ (prev curr : List String) where
  surplus_added-At : (k : String) → At curr k (surplus_added prev curr k)
  unfolding surplus_added
  surplus_added-At k =
      elim (Bool-cases (ltb (length (positions k 0 prev)) (length (positions k 0 curr)))) [
        | inl more ↦
            rw more (drop-At curr k _ (positions k 0 curr) (positions-At curr k 0 curr refl))
        | inr less ↦ rw less tt
      ]

  surplus_removed-At : (k : String) → At prev k (surplus_removed prev curr k)
  unfolding surplus_removed
  surplus_removed-At k =
      elim (Bool-cases (ltb (length (positions k 0 curr)) (length (positions k 0 prev)))) [
        | inl more ↦
            rw more (take-At prev k _ (positions k 0 prev) (positions-At prev k 0 prev refl))
        | inr less ↦ rw less tt
      ]

  length-surplus_added :
      (k : String)
      → length (surplus_added prev curr k)
        ≡ count string_discrete k curr - count string_discrete k prev
  unfolding surplus_added
  length-surplus_added k =
      let pi = length (positions k 0 prev) in
      let ci = length (positions k 0 curr) in
      ground (
        arith,
        length-positions k 0 prev,
        length-positions k 0 curr,
        length-drop (ci - (ci - pi)) (positions k 0 curr),
      )

  length-surplus_removed :
      (k : String)
      → length (surplus_removed prev curr k)
        ≡ count string_discrete k prev - count string_discrete k curr
  unfolding surplus_removed
  length-surplus_removed k =
      let pi = length (positions k 0 prev) in
      let ci = length (positions k 0 curr) in
      ground (
        arith,
        length-positions k 0 prev,
        length-positions k 0 curr,
        length-take (pi - ci) (positions k 0 prev),
      )

  absent :
      (k : String)
      → contains string_discrete (prev ++ curr) k ≡ false
      → (count string_discrete k prev ≡ 0) × (count string_discrete k curr ≡ 0)
  absent k h = ground (
    arith,
    contains-append string_discrete prev curr k,
    count-contains string_discrete k prev,
    count-contains string_discrete k curr,
  )

  -- For every key, the fallback path adds the surplus of the new side and removes that of the old.
  pub set_diff_idx_counts :
      (k : String)
      → let (added, removed) = set_diff_idx prev curr in
        (count string_discrete k (keys_at curr added)
          ≡ count string_discrete k curr - count string_discrete k prev)
        × (count string_discrete k (keys_at prev removed)
            ≡ count string_discrete k prev - count string_discrete k curr)
  unfolding set_diff_idx
  set_diff_idx_counts k =
      let seen = distinct (prev ++ curr) in
      ground (
        arith,
        count-sort_ints curr k (gather (surplus_added prev curr) seen),
        count-sort_ints prev k (gather (surplus_removed prev curr) seen),
        count-gather curr (surplus_added prev curr) k (prev ++ curr) surplus_added-At,
        count-gather prev (surplus_removed prev curr) k (prev ++ curr) surplus_removed-At,
        length-surplus_added k,
        length-surplus_removed k,
        absent k,
      )
