-- ===== src/Fulltext/Boilerplate/Evicted.antt =====
-- What the eviction deletes: as many signatures as are too many.
use feedla.Prelude.{
  ℕ, zero, suc, ◌+◌, ◌-◌, ◌≤◌, ◌≡◌, refl, String, string_discrete, none, List, [], ◌∷◌, leb,
  if◌then◌else◌, inl, inr, arith, Bool-cases, length, length-take, take, count, contains,
}
use feedla.Prelude.Dict.{Dict, lookup, delete, lookup-delete}
use feedla.Prelude.Keys.{keys, count-keys-delete, length-delete}
use feedla.Fulltext.Boilerplate.{SigCount, place, sort_sigs, delete_all, evict_to}

abbrev pub occurs : String → List String → ℕ
occurs a xs = count string_discrete a xs

abbrev pub IsSimple : Dict String SigCount → Type 0
IsSimple m = (j : String) → occurs j (keys m) ≤ 1

pub length-keys : (m : Dict String SigCount) → length (keys m) ≡ length m
length-keys [] = refl
length-keys ((k, v) ∷ m) = omega (arith, length-keys m)

count-place :
    (m : Dict String SigCount) (j a : String) (xs : List String)
    → occurs j (place m a xs) ≡ occurs j (a ∷ xs)
unfolding place
count-place m j a [] = refl
count-place m j a (x ∷ xs) = let ih = count-place m j a xs in ground (arith, ih)

pub count-sort_sigs :
    (m : Dict String SigCount) (j : String) (xs : List String)
    → occurs j (sort_sigs m xs) ≡ occurs j xs
unfolding sort_sigs
count-sort_sigs m j [] = refl
count-sort_sigs m j (x ∷ xs) =
    ground (arith, count-place m j x (sort_sigs m xs), count-sort_sigs m j xs)

length-place :
    (m : Dict String SigCount) (a : String) (xs : List String)
    → length (place m a xs) ≡ suc (length xs)
unfolding place
length-place m a [] = refl
length-place m a (x ∷ xs) = ground (arith, length-place m a xs)

pub length-sort_sigs :
    (m : Dict String SigCount) (xs : List String) → length (sort_sigs m xs) ≡ length xs
unfolding sort_sigs
length-sort_sigs m [] = refl
length-sort_sigs m (x ∷ xs) =
    ground (arith, length-place m x (sort_sigs m xs), length-sort_sigs m xs)

count-take : (j : String) (n : ℕ) (xs : List String) → occurs j (take n xs) ≤ occurs j xs
count-take j zero xs = omega arith
count-take j (suc n) [] = omega arith
count-take j (suc n) (x ∷ xs) = let ih = count-take j n xs in ground (arith, ih)

pub lookup-delete_all :
    (j : String) (sigs : List String) (m : Dict String SigCount)
    → lookup string_discrete j (delete_all sigs m)
      ≡ (if contains string_discrete sigs j then none else lookup string_discrete j m)
unfolding delete_all
lookup-delete_all j [] m = ground arith
lookup-delete_all j (sig ∷ sigs) m = ground (
  arith,
  lookup-delete_all j sigs (delete string_discrete sig m),
  lookup-delete string_discrete sig j m,
)

pub count-keys-delete_all :
    (j : String) (sigs : List String) (m : Dict String SigCount)
    → occurs j (keys (delete_all sigs m)) ≤ occurs j (keys m)
unfolding delete_all
count-keys-delete_all j [] m = omega arith
count-keys-delete_all j (sig ∷ sigs) m = ground (
  arith,
  count-keys-delete_all j sigs (delete string_discrete sig m),
  count-keys-delete string_discrete sig j m,
)

-- Distinct signatures that are all present leave the map one by one.
length-delete_all :
    (sigs : List String) (m : Dict String SigCount)
    → ((j : String) → occurs j sigs ≤ occurs j (keys m))
    → ((j : String) → occurs j sigs ≤ 1)
    → length (delete_all sigs m) + length sigs ≤ length m
unfolding delete_all
length-delete_all [] m h d = omega arith
length-delete_all (sig ∷ sigs) m h d = omega (
  arith,
  length-delete_all sigs (delete string_discrete sig m)
      (λ j. ground (arith, h j, d j, count-keys-delete string_discrete sig j m))
      (λ j. ground (arith, d j)),
  length-delete string_discrete sig m,
  present,
)
  where
    present : 1 ≤ occurs sig (keys m)
    present = ground (arith, h sig)

-- The map is trimmed to the limit.
pub evict_to-le :
    (limit : ℕ) (m : Dict String SigCount) → IsSimple m → length (evict_to limit m) ≤ limit
unfolding evict_to
evict_to-le limit m u = elim (Bool-cases (leb (length m) limit)) [
  | inl e ↦ rw (e, if◌then◌else◌) (ground (arith, e))
  | inr e ↦
      let gone = take (length m - limit) (sort_sigs m (keys m)) in
      let inside : (j : String) → occurs j gone ≤ occurs j (keys m) = λ j. omega (
        arith,
        count-take j (length m - limit) (sort_sigs m (keys m)),
        count-sort_sigs m j (keys m),
      ) in
      rw (e, if◌then◌else◌)
        (ground (
          arith,
          e,
          length-delete_all gone m inside (λ j. omega (arith, inside j, u j)),
          length-take (length m - limit) (sort_sigs m (keys m)),
          length-sort_sigs m (keys m),
          length-keys m,
        ))
]

pub evict_to-IsSimple :
    (limit : ℕ) (m : Dict String SigCount) → IsSimple m → IsSimple (evict_to limit m)
unfolding evict_to
evict_to-IsSimple limit m u j =
    ground (arith, u j, count-keys-delete_all j (take (length m - limit) (sort_sigs m (keys m))) m)
