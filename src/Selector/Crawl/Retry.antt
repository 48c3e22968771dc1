-- ===== src/Selector/Crawl/Retry.antt =====
-- Every article of a crawl is imported or counted as failed, and none is tried for ever.
use feedla.Prelude.{
  ℕ, zero, suc, ◌+◌, ◌≤◌, ◌<◌, ◌≡◌, refl, ◌⊎◌, String, string_discrete, Bool, true, none, some,
  List, [], ◌∷◌, count, arith, count-contains, contains-count, take, Option-cases,
}
use feedla.Prelude.Dict
use feedla.Prelude.Dict.{Dict}
use feedla.Selector.State.{State, is_in, count_at}
use feedla.Selector.State.Seen.{seen_candidate}
use feedla.Selector.State.Pending.{pending_lem}
use feedla.Selector.Extract.{Item}
use feedla.Selector.Crawl.{
  ArticleOps, Config, links, process, process_item, crawl_new, max_article_retries, attempted,
  commit_input, max_items_effective, fulltext_enabled,
}

module _ (ops : ArticleOps) (fulltext : Bool) (pending : Dict String ℕ) (now : ℕ) where
  -- Each article handled is imported or counted as failed, as often as it was handled.
  process_partition :
      (items : List Item) (x : String)
      → let p = process ops fulltext pending now items in
        count string_discrete x p.imported + count string_discrete x p.fetch_failed
        ≡ count string_discrete x (links items)
  unfolding process
  process_partition [] x = refl
  process_partition (item ∷ items) x = ground (
    arith,
    process_partition items x,
    Option-cases (
        process_item ops fulltext (count_at (Dict.lookup string_discrete item.link pending)) item
          now),
  )

  process_item_failed :
      (n : ℕ) (item : Item)
      → process_item ops fulltext n item now ≡ none
      → n + 1 < max_article_retries
  unfolding process_item
  process_item_failed n item h = ground arith

  -- An article fails only while it has tries left.
  failed_has_tries :
      (items : List Item) (x : String)
      → is_in (process ops fulltext pending now items).fetch_failed x ≡ true
      → count_at (Dict.lookup string_discrete x pending) + 1 < max_article_retries
  unfolding process
  failed_has_tries [] x h = cc
  failed_has_tries (item ∷ items) x h = ground (
    arith,
    process_item_failed (count_at (Dict.lookup string_discrete item.link pending)) item,
    failed_has_tries items x,
    Option-cases (
        process_item ops fulltext (count_at (Dict.lookup string_discrete item.link pending)) item
          now),
  )

count-take :
    (n : ℕ) (items : List Item) (x : String)
    → count string_discrete x (links (take n items)) ≤ count string_discrete x (links items)
count-take zero items x = omega arith
count-take (suc n) [] x = omega arith
count-take (suc n) (item ∷ items) x = ground (arith, count-take n items x)

count_in : (x : String) (xs : List String) → 0 < count string_discrete x xs → is_in xs x ≡ true
count_in = count-contains string_discrete

-- No retry count has reached the number of tries.
abbrev pub HasTries : State → Type 0
HasTries st =
    (x : String) (n : ℕ)
    → Dict.lookup string_discrete x st.pending ≡ some n
    → n < max_article_retries

count-attempted :
    (cfg : Config) (candidates : List Item) (x : String)
    → count string_discrete x (links (attempted cfg candidates))
      ≤ count string_discrete x (links candidates)
unfolding attempted
count-attempted cfg candidates x =
    count-take (max_items_effective cfg.max_items_per_crawl) candidates x

module _ (ops : ArticleOps) (cfg : Config) (st : State) (initial : Bool) (now : ℕ)
    (candidates : List Item) (x : String) where
  -- What one crawl does to the retry count of x, where the page lists x once at most.
  crawl_new_pending :
      count string_discrete x (links candidates) ≤ 1
      → let (done, st') = crawl_new ops cfg (st, true) initial now candidates in
        let before = Dict.lookup string_discrete x st.pending in
        let after = Dict.lookup string_discrete x st'.pending in
        (after ≡ none)
        ⊎ (after ≡ before)
        ⊎ ((after ≡ some (count_at before + 1)) × (count_at before + 1 < max_article_retries))
  unfolding crawl_new commit_input
  crawl_new_pending once =
      let ft = fulltext_enabled cfg.fulltext in
      let items = attempted cfg candidates in
      let done = process ops ft st.pending now items in
      ground (
        arith,
        pending_lem st (commit_input cfg initial candidates done) x,
        process_partition ops ft st.pending now items x,
        failed_has_tries ops ft st.pending now items x,
        count-attempted cfg candidates x,
        count_in x done.fetch_failed,
        count_in x done.imported,
      )

  -- An article that a crawl takes on, from a page that lists it once, is seen afterwards, or its
  -- retry count has grown by one and is still below the number of tries.
  pub retry_progress :
      count string_discrete x (links candidates) ≤ 1
      → is_in (links (attempted cfg candidates)) x ≡ true
      → let st' = (crawl_new ops cfg (st, true) initial now candidates).1 in
        let before = count_at (Dict.lookup string_discrete x st.pending) in
        (is_in st'.seen x ≡ true)
        ⊎ ((Dict.lookup string_discrete x st'.pending ≡ some (before + 1))
            × (before + 1 < max_article_retries))
  unfolding crawl_new commit_input
  retry_progress once taken =
      let ft = fulltext_enabled cfg.fulltext in
      let items = attempted cfg candidates in
      let done = process ops ft st.pending now items in
      let input = commit_input cfg initial candidates done in
      let listed = count-attempted cfg candidates x in
      let shown = contains-count string_discrete x (links items) taken in
      ground (
        arith,
        pending_lem st input x,
        seen_candidate st input x,
        process_partition ops ft st.pending now items x,
        failed_has_tries ops ft st.pending now items x,
        listed,
        shown,
        count_in x done.fetch_failed,
        count_in x done.imported,
        count_in x (links candidates),
      )

-- The retry counts stay below the number of tries, whatever the fetches give, as long as the page
-- lists each article once.
pub crawl_new-HasTries :
    (ops : ArticleOps) (cfg : Config) (st : State) (initial : Bool) (now : ℕ)
    (candidates : List Item)
    → ((x : String) → count string_discrete x (links candidates) ≤ 1)
    → HasTries st
    → HasTries (crawl_new ops cfg (st, true) initial now candidates).1
crawl_new-HasTries ops cfg st initial now candidates once h x n e =
    ground (arith, crawl_new_pending ops cfg st initial now candidates x (once x), h x n)
