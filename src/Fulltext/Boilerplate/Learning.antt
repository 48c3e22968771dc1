-- ===== src/Fulltext/Boilerplate/Learning.antt =====
-- What a feed's state is after any number of pages: bounded, with counts that no page exceeds.
use feedla.Prelude.{
  ℕ, suc, ◌+◌, ◌/◌, ◌≤◌, ◌<◌, ◌≡◌, refl, String, string_discrete, Option, none, some, List, [], ◌∷◌,
  leb, ◌==◌, if◌then◌else◌, inl, inr, arith, Bool-cases, length,
}
use feedla.Prelude.Dict.{Dict, lookup, insert, lookup-insert}
use feedla.Prelude.Keys.{keys, count-keys-insert, lookup_absent}
use feedla.Fulltext.Boilerplate.{
  SigCount, State, entry_of, count_all, halve, decay, evict_to, observe, decay_pages,
  max_signatures, empty_state, maybe_decay,
}
use feedla.Fulltext.Boilerplate.Evicted.{IsSimple, occurs, evict_to-le, evict_to-IsSimple}
use feedla.Fulltext.Boilerplate.Ranking.{evict_to-lookup}

abbrev pub IsPositive : Dict String SigCount → Type 0
IsPositive m = (j : String) (c : SigCount) → lookup string_discrete j m ≡ some c → 1 ≤ c.count

pub record IsSound (s : State) : Type 0 where
  pub bounded_pages : s.pages < decay_pages
  pub bounded_size : length s.counts ≤ max_signatures
  pub simple : IsSimple s.counts
  pub positive : IsPositive s.counts
  pub counted : (j : String) → (entry_of s.counts j).count ≤ s.pages

pub count_all-count :
    (pages : ℕ) (sigs : List String) (m : Dict String SigCount) (j : String)
    → (entry_of (count_all pages sigs m) j).count ≡ (entry_of m j).count + occurs j sigs
unfolding count_all
count_all-count pages [] m j = omega arith
count_all-count pages (sig ∷ sigs) m j =
    let c : SigCount = record { count = suc (entry_of m sig).count; last_seen = pages } in
    ground (
      arith,
      count_all-count pages sigs (insert string_discrete sig c m) j,
      lookup-insert string_discrete sig j c m,
    )

pub count_all-IsSimple :
    (pages : ℕ) (sigs : List String) (m : Dict String SigCount)
    → IsSimple m
    → IsSimple (count_all pages sigs m)
unfolding count_all
count_all-IsSimple pages [] m u = u
count_all-IsSimple pages (sig ∷ sigs) m u =
    let c : SigCount = record { count = suc (entry_of m sig).count; last_seen = pages } in
    count_all-IsSimple pages sigs (insert string_discrete sig c m)
      (λ j. ground (arith, u j, count-keys-insert string_discrete sig j c m))

count_all-IsPositive :
    (pages : ℕ) (sigs : List String) (m : Dict String SigCount)
    → IsPositive m
    → IsPositive (count_all pages sigs m)
unfolding count_all
count_all-IsPositive pages [] m p = p
count_all-IsPositive pages (sig ∷ sigs) m p =
    let c : SigCount = record { count = suc (entry_of m sig).count; last_seen = pages } in
    count_all-IsPositive pages sigs (insert string_discrete sig c m)
      (λ j d h. ground (arith, h, p j d, lookup-insert string_discrete sig j c m))

abbrev pub halved : Option SigCount → Option SigCount
halved none = none
halved (some c) = if c.count / 2 == 0 then none else some (record c { count = c.count / 2 })

pub count-keys-halve :
    (j : String) (m : Dict String SigCount) → occurs j (keys (halve m)) ≤ occurs j (keys m)
unfolding halve
count-keys-halve j [] = omega arith
count-keys-halve j ((sig, c) ∷ m) = let ih = count-keys-halve j m in ground (arith, ih)

length-halve : (m : Dict String SigCount) → length (halve m) ≤ length m
unfolding halve
length-halve [] = omega arith
length-halve ((sig, c) ∷ m) = ground (arith, length-halve m)

pub lookup-halve :
    (j : String) (m : Dict String SigCount)
    → occurs j (keys m) ≤ 1
    → lookup string_discrete j (halve m) ≡ halved (lookup string_discrete j m)
unfolding halve lookup
lookup-halve j [] u = refl
lookup-halve j ((sig, c) ∷ m) u =
    ground (arith, u, lookup-halve j m, lookup_absent string_discrete j m)

pub halve-count :
    (j : String) (m : Dict String SigCount)
    → occurs j (keys m) ≤ 1
    → (entry_of (halve m) j).count ≡ (entry_of m j).count / 2
halve-count j m u = rw (lookup-halve j m u) (ground arith)

-- What holds before the eviction: counts that are positive and at most the number of pages.
record IsTally (s : State) : Type 0 where
  unique : IsSimple s.counts
  some_page : IsPositive s.counts
  no_more : (j : String) → (entry_of s.counts j).count ≤ s.pages

abbrev pub counted_page : List String → State → State
counted_page sigs s = record { pages = suc s.pages; counts = count_all (suc s.pages) sigs s.counts }

counted_page-IsTally :
    (sigs : List String) (s : State)
    → ((j : String) → occurs j sigs ≤ 1)
    → IsSound s
    → IsTally (counted_page sigs s)
counted_page-IsTally sigs s d h = record {
  unique = count_all-IsSimple (suc s.pages) sigs s.counts h.simple;
  some_page = count_all-IsPositive (suc s.pages) sigs s.counts h.positive;
  no_more = λ j. omega (arith, count_all-count (suc s.pages) sigs s.counts j, d j, h.counted j);
}

decay-IsTally : (s : State) → IsTally s → IsTally (decay s)
unfolding decay
decay-IsTally s h = record {
  unique = λ j. omega (arith, count-keys-halve j s.counts, h.unique j);
  some_page = λ j c e. ground (arith, e, lookup-halve j s.counts (h.unique j));
  no_more = λ j. omega (arith, halve-count j s.counts (h.unique j), h.no_more j);
}

maybe_decay-IsTally : (s : State) → IsTally s → IsTally (maybe_decay s)
maybe_decay-IsTally s h = elim (Bool-cases (leb decay_pages s.pages)) [
  | inl e ↦ rw (e, if◌then◌else◌) (decay-IsTally s h)
  | inr e ↦ rw (e, if◌then◌else◌) h
]

pub maybe_decay-lt : (s : State) → s.pages ≤ decay_pages → (maybe_decay s).pages < decay_pages
unfolding decay
maybe_decay-lt s h = ground arith

evict-IsSound :
    (s : State)
    → s.pages < decay_pages
    → IsTally s
    → IsSound (record s { counts = evict_to max_signatures s.counts })
evict-IsSound s b h = record {
  bounded_pages = b;
  bounded_size = evict_to-le max_signatures s.counts h.unique;
  simple = evict_to-IsSimple max_signatures s.counts h.unique;
  positive = λ j c e. ground (arith, e, h.some_page j c, evict_to-lookup max_signatures s.counts j);
  counted = λ j. ground (arith, h.no_more j, evict_to-lookup max_signatures s.counts j);
}

-- `Observe` keeps a state sound, where the page's signatures are distinct: fewer than 64 pages, at
-- most 2000 signatures, and each count at least one and at most the number of pages.
pub observe-IsSound :
    (sigs : List String) (s : State)
    → ((j : String) → occurs j sigs ≤ 1)
    → IsSound s
    → IsSound (observe sigs s)
unfolding observe
observe-IsSound sigs s d h =
    evict-IsSound (maybe_decay (counted_page sigs s))
      (maybe_decay-lt (counted_page sigs s) (omega (arith, h.bounded_pages)))
      (maybe_decay-IsTally (counted_page sigs s) (counted_page-IsTally sigs s d h))

pub empty_state-IsSound : IsSound empty_state
unfolding lookup
empty_state-IsSound = record {
  bounded_pages = omega arith;
  bounded_size = omega arith;
  simple = λ j. omega arith;
  positive = λ j c e. cc e;
  counted = λ j. omega arith;
}
