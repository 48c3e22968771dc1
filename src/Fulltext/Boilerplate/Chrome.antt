-- ===== src/Fulltext/Boilerplate/Chrome.antt =====
-- What is on every page of a feed is recognized, whatever else its pages carry.
use feedla.Prelude.{
  suc, ◌+◌, ◌-◌, ◌≤◌, ◌≡◌, refl, sym, String, string_discrete, Bool, true, List, [], ◌∷◌, leb,
  if◌then◌else◌, ite, inl, inr, arith, Bool-cases, length, All, keep, leb→le, ap, min, subst, ◌∙◌,
}
use feedla.Prelude.Dict.{lookup}
use feedla.Prelude.Keys.{keys}
use feedla.Store.Table.{count_where}
use feedla.Fulltext.Boilerplate.{
  State, entry_of, or_zero, decay, observe, decay_pages, max_signatures, empty_state,
  is_boilerplate, maybe_decay,
}
use feedla.Fulltext.Boilerplate.Evicted.{IsSimple, occurs}
use feedla.Fulltext.Boilerplate.Ranking.{evict_to-keeps, at_least}
use feedla.Fulltext.Boilerplate.Learning.{
  IsSound, observe-IsSound, empty_state-IsSound, counted_page, count-keys-halve, count_all-count,
  count_all-IsSimple, halve-count,
}

-- The signatures of a page: distinct, no more than a state can hold, and this one among them.
pub record Bears (sig : String) (sigs : List String) : Type 0 where
  pub distinct : (j : String) → occurs j sigs ≤ 1
  pub not_many : length sigs ≤ max_signatures
  pub borne : occurs sig sigs ≡ 1

-- One occurrence less.
without : String → List String → List String
without a [] = []
without a (x ∷ xs) = let rest = without a xs in ite (string_discrete x a) xs (x ∷ rest)

count-without :
    (a j : String) (xs : List String)
    → occurs j (without a xs) ≡ occurs j xs - ite (string_discrete a j) 1 0
unfolding without
count-without a j [] = ground arith
count-without a j (x ∷ xs) = let ih = count-without a j xs in ground (arith, ih)

length-without :
    (a : String) (xs : List String) → 1 ≤ occurs a xs → suc (length (without a xs)) ≡ length xs
unfolding without
length-without a [] h = absurd (omega arith)
length-without a (x ∷ xs) h = ground (arith, h, length-without a xs)

-- A list with no element more often than another is no longer.
length-le-of_counts :
    (xs ys : List String) → ((j : String) → occurs j xs ≤ occurs j ys) → length xs ≤ length ys
length-le-of_counts [] ys h = omega arith
length-le-of_counts (x ∷ xs) ys h = omega (
  arith,
  length-le-of_counts xs (without x ys) (λ j. ground (arith, h j, count-without x j ys)),
  length-without x ys (ground (arith, h x)),
)

length-keep : (p : String → Bool) (xs : List String) → length (keep p xs) ≡ count_where p xs
unfolding count_where
length-keep p [] = refl
length-keep p (x ∷ xs) = ground (arith, length-keep p xs)

count-keep :
    (p : String → Bool) (j : String) (xs : List String)
    → occurs j (keep p xs) ≡ (if p j then occurs j xs else 0)
count-keep p j [] = ground arith
count-keep p j (x ∷ xs) = let ih = count-keep p j xs in ground (arith, ih)

count_where-le :
    (p : String → Bool) (xs ys : List String)
    → ((j : String) → p j ≡ true → occurs j xs ≤ occurs j ys)
    → count_where p xs ≤ length ys
count_where-le p xs ys h = omega (
  arith,
  length-keep p xs,
  length-le-of_counts (keep p xs) ys (λ j. ground (arith, h j, count-keep p j xs)),
)

maybe_decay-IsSimple : (s : State) → IsSimple s.counts → IsSimple (maybe_decay s).counts
unfolding decay
maybe_decay-IsSimple s u j = ground (arith, u j, count-keys-halve j s.counts)

-- Whoever is as high as the page count after the decay was so before it.
maybe_decay-at_least :
    (s : State) (j : String)
    → IsSimple s.counts
    → s.pages ≤ decay_pages
    → (maybe_decay s).pages ≤ (entry_of (maybe_decay s).counts j).count
    → s.pages ≤ (entry_of s.counts j).count
unfolding decay
maybe_decay-at_least s j u b h = ground (arith, b, h, halve-count j s.counts (u j))

-- The signatures as high as the page count are among the page's.
few_full :
    (sigs : List String) (s : State)
    → ((j : String) → occurs j sigs ≤ 1)
    → IsSound s
    → let t = maybe_decay (counted_page sigs s) in
      count_where (at_least t.counts t.pages) (keys t.counts) ≤ length sigs
few_full sigs s d h =
    let t = maybe_decay (counted_page sigs s) in
    count_where-le (at_least t.counts t.pages) (keys t.counts) sigs (λ j e. omega (
      arith,
      maybe_decay-IsSimple counted simple j,
      d j,
      maybe_decay-at_least counted j simple (omega (arith, h.bounded_pages)) (leb→le _ _ e),
      count_all-count (suc s.pages) sigs s.counts j,
      h.counted j,
    ))
  where
    counted : State
    counted = counted_page sigs s

    simple : IsSimple counted.counts
    simple = count_all-IsSimple (suc s.pages) sigs s.counts h.simple

pub record IsKnown (sig : String) (s : State) : Type 0 where
  pub sound : IsSound s
  pub full : (entry_of s.counts sig).count ≡ s.pages

maybe_decay-full :
    (sig : String) (s : State)
    → IsSimple s.counts
    → (entry_of s.counts sig).count ≡ s.pages
    → (entry_of (maybe_decay s).counts sig).count ≡ (maybe_decay s).pages
unfolding decay
maybe_decay-full sig s u e = elim (Bool-cases (leb decay_pages s.pages)) [
  | inl t ↦ rw (t, if◌then◌else◌) (omega (arith, halve-count sig s.counts (u sig), e))
  | inr f ↦ rw (f, if◌then◌else◌) e
]

observe-IsKnown :
    (sig : String) (sigs : List String) (s : State)
    → Bears sig sigs
    → IsKnown sig s
    → IsKnown sig (observe sigs s)
unfolding observe
observe-IsKnown sig sigs s b h =
    let t = maybe_decay (counted_page sigs s) in
    let e : (entry_of t.counts sig).count ≡ t.pages =
      maybe_decay-full sig (counted_page sigs s)
        (count_all-IsSimple (suc s.pages) sigs s.counts h.sound.simple)
        (omega (arith, count_all-count (suc s.pages) sigs s.counts sig, b.borne, h.full)) in
    record {
      sound = observe-IsSound sigs s b.distinct h.sound;
      full =
          ap (λ o. (or_zero o).count)
            (evict_to-keeps max_signatures t.counts sig (
              subst (λ n. count_where (at_least t.counts n) (keys t.counts) ≤ max_signatures)
                (sym e) (omega (arith, few_full sigs s b.distinct h.sound, b.not_many))))
          ∙ e;
    }

observe-pages : (sigs : List String) (s : State) → min 2 (suc s.pages) ≤ (observe sigs s).pages
unfolding observe decay
observe-pages sigs s = ground arith

-- `Observe` page after page.
unfoldable pub observe_all : List (List String) → State → State
observe_all [] s = s
observe_all (sigs ∷ pages) s = observe_all pages (observe sigs s)

observe_all-IsKnown :
    (sig : String) (pages : List (List String)) (s : State)
    → All (Bears sig) pages
    → IsKnown sig s
    → IsKnown sig (observe_all pages s)
unfolding observe_all
observe_all-IsKnown sig [] s h k = k
observe_all-IsKnown sig (sigs ∷ pages) s (b, h) k =
    observe_all-IsKnown sig pages (observe sigs s) h (observe-IsKnown sig sigs s b k)

observe_all-pages :
    (pages : List (List String)) (s : State)
    → min 2 (length pages + s.pages) ≤ (observe_all pages s).pages
unfolding observe_all
observe_all-pages [] s = omega arith
observe_all-pages (sigs ∷ pages) s =
    omega (arith, observe_all-pages pages (observe sigs s), observe-pages sigs s)

known_repeats :
    (sig : String) (s : State) → IsKnown sig s → 2 ≤ s.pages → is_boilerplate s sig ≡ true
unfolding is_boilerplate
known_repeats sig s k h = ground (arith, k.full, h)

-- On a feed with no history, a signature that is on each of two or more pages is boilerplate after
-- the last, where each page has distinct signatures and at most 2000 of them: neither the decay nor
-- the eviction loses it, whatever else the pages carry.
pub chrome_learned :
    (sig : String) (pages : List (List String))
    → All (Bears sig) pages
    → 2 ≤ length pages
    → is_boilerplate (observe_all pages empty_state) sig ≡ true
unfolding lookup
chrome_learned sig pages h n =
    known_repeats sig (observe_all pages empty_state)
      (observe_all-IsKnown sig pages empty_state h
        (record { sound = empty_state-IsSound; full = refl }))
      (omega (arith, n, observe_all-pages pages empty_state))
