-- ===== src/Fulltext/Boilerplate/Ranking.antt =====
-- The order of the sort in `evictTo`, and what the eviction keeps.
use feedla.Prelude.{
  ℕ, zero, suc, ◌+◌, ◌-◌, ◌≤◌, ◌<◌, ◌≡◌, refl, String, string_discrete, Bool, true, false, none,
  ◌⊎◌, subst, List, [], ◌∷◌, leb, if◌then◌else◌, inl, inr, arith, Bool-cases, length, take,
  contains, All,
}
use feedla.Prelude.Dict.{Dict, lookup}
use feedla.Prelude.Keys.{keys}
use feedla.Store.Table.{count_where}
use feedla.Fulltext.Boilerplate.{SigCount, entry_of, before, place, sort_sigs, evict_to}
use feedla.Fulltext.Boilerplate.Evicted.{length-keys, length-sort_sigs, lookup-delete_all}

-- In the order of eviction counts do not fall.
IsRising : Dict String SigCount → List String → Type 0
IsRising m [] = Unit
IsRising m (x ∷ xs) = All (λ y. (entry_of m x).count ≤ (entry_of m y).count) xs × IsRising m xs

All-place :
    (P : String → Type 0) (m : Dict String SigCount) (a : String) (xs : List String)
    → P a
    → All P xs
    → All P (place m a xs)
unfolding place
All-place P m a [] p h = (p, tt)
All-place P m a (x ∷ xs) p (q, h) = elim (Bool-cases (before m a x)) [
  | inl e ↦ rw (e, if◌then◌else◌) (p, (q, h))
  | inr e ↦ rw (e, if◌then◌else◌) (q, All-place P m a xs p h)
]

before-le :
    (m : Dict String SigCount) (a b : String)
    → before m a b ≡ true
    → (entry_of m a).count ≤ (entry_of m b).count
unfolding before
before-le m a b h = ground (arith, h)

not_before-le :
    (m : Dict String SigCount) (a b : String)
    → before m a b ≡ false
    → (entry_of m b).count ≤ (entry_of m a).count
unfolding before
not_before-le m a b h = ground (arith, h)

All-le :
    (m : Dict String SigCount) (a b : ℕ) (xs : List String)
    → a ≤ b
    → All (λ y. b ≤ (entry_of m y).count) xs
    → All (λ y. a ≤ (entry_of m y).count) xs
All-le m a b [] h t = tt
All-le m a b (x ∷ xs) h (p, t) = (omega arith, All-le m a b xs h t)

place-IsRising :
    (m : Dict String SigCount) (a : String) (xs : List String)
    → IsRising m xs
    → IsRising m (place m a xs)
unfolding place IsRising
place-IsRising m a [] h = (tt, tt)
place-IsRising m a (x ∷ xs) (p, h) = elim (Bool-cases (before m a x)) [
  | inl e ↦
      rw (e, if◌then◌else◌, IsRising)
        (
          (
            before-le m a x e,
            All-le m (entry_of m a).count (entry_of m x).count xs (before-le m a x e) p,
          ),
          (p, h),
        )
  | inr e ↦
      rw (e, if◌then◌else◌, IsRising)
        (
          All-place (λ y. (entry_of m x).count ≤ (entry_of m y).count) m a xs
              (not_before-le m a x e) p,
          place-IsRising m a xs h,
        )
]

sort_sigs-IsRising : (m : Dict String SigCount) (xs : List String) → IsRising m (sort_sigs m xs)
unfolding sort_sigs IsRising
sort_sigs-IsRising m [] = tt
sort_sigs-IsRising m (x ∷ xs) = place-IsRising m x (sort_sigs m xs) (sort_sigs-IsRising m xs)

abbrev pub at_least : Dict String SigCount → ℕ → String → Bool
at_least m n y = leb n (entry_of m y).count

count_where-place :
    (p : String → Bool) (m : Dict String SigCount) (a : String) (xs : List String)
    → count_where p (place m a xs) ≡ count_where p (a ∷ xs)
unfolding place count_where
count_where-place p m a [] = refl
count_where-place p m a (x ∷ xs) = let ih = count_where-place p m a xs in ground (arith, ih)

count_where-sort_sigs :
    (p : String → Bool) (m : Dict String SigCount) (xs : List String)
    → count_where p (sort_sigs m xs) ≡ count_where p xs
unfolding sort_sigs count_where
count_where-sort_sigs p m [] = refl
count_where-sort_sigs p m (x ∷ xs) =
    ground (arith, count_where-place p m x (sort_sigs m xs), count_where-sort_sigs p m xs)

count_where-all :
    (m : Dict String SigCount) (n : ℕ) (xs : List String)
    → All (λ y. n ≤ (entry_of m y).count) xs
    → count_where (at_least m n) xs ≡ length xs
unfolding count_where
count_where-all m n [] h = refl
count_where-all m n (x ∷ xs) (p, h) = ground (arith, p, count_where-all m n xs h)

-- Whoever is among the first n has all that follow, and itself, no lower.
above_taken :
    (m : Dict String SigCount) (n : ℕ) (a : String) (xs : List String)
    → IsRising m xs
    → contains string_discrete (take n xs) a ≡ true
    → length xs < count_where (at_least m (entry_of m a).count) xs + n
unfolding count_where IsRising
above_taken m zero a xs r h = cc h
above_taken m (suc n) a [] r h = cc h
above_taken m (suc n) a (x ∷ xs) (p, r) h = elim (string_discrete x a) [
  | yes e ↦ ground (
    arith,
    count_where-all m (entry_of m a).count xs
        (subst (λ z. All (λ y. (entry_of m z).count ≤ (entry_of m y).count) xs) e p),
    e,
  )
  | no n' ↦ ground (arith, above_taken m n a xs r, h, n')
]

-- A signature is kept where no more than the limit stand as high as it.
pub evict_to-keeps :
    (limit : ℕ) (m : Dict String SigCount) (sig : String)
    → count_where (at_least m (entry_of m sig).count) (keys m) ≤ limit
    → lookup string_discrete sig (evict_to limit m) ≡ lookup string_discrete sig m
unfolding evict_to
evict_to-keeps limit m sig h = elim (Bool-cases (leb (length m) limit)) [
  | inl e ↦ rw (e, if◌then◌else◌) refl
  | inr e ↦
      let sorted = sort_sigs m (keys m) in
      let n = length m - limit in
      rw (e, if◌then◌else◌, lookup-delete_all)
        (elim (Bool-cases (contains string_discrete (take n sorted) sig)) [
          | inl t ↦ absurd (
              ground (
                arith,
                e,
                h,
                above_taken m n sig sorted (sort_sigs-IsRising m (keys m)) t,
                count_where-sort_sigs (at_least m (entry_of m sig).count) m (keys m),
                length-sort_sigs m (keys m),
                length-keys m,
              ))
          | inr f ↦ rw (f, if◌then◌else◌) refl
        ])
]

-- Eviction leaves an entry as it is or drops it.
pub evict_to-lookup :
    (limit : ℕ) (m : Dict String SigCount) (sig : String)
    → (lookup string_discrete sig (evict_to limit m) ≡ lookup string_discrete sig m)
      ⊎ (lookup string_discrete sig (evict_to limit m) ≡ none)
unfolding evict_to
evict_to-lookup limit m sig =
    ground (arith, lookup-delete_all sig (take (length m - limit) (sort_sigs m (keys m))) m)
