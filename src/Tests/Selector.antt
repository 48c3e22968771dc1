-- ===== src/Tests/Selector.antt =====
-- One crawl of a page that lists two articles, of which one fails.
use feedla.Prelude.{
  ◌+◌, ◌≤◌, ◌<◌, ◌≡◌, refl, ◌⊎◌, String, Option, string_discrete, true, false, not, ◌&&◌, ◌||◌,
  none, some, [], ◌∷◌, length, count, All, arith, ◌==◌, if◌then◌else◌,
}
use feedla.Prelude.Dict
use feedla.Selector.State.{State, CommitInput, is_in, commit, parse_state, count_at, max_seen}
use feedla.Selector.State.Seen.{seen_capped}
use feedla.Selector.State.Pending.{pending_lem}
use feedla.Selector.Extract.{Item, Candidate, to_item, extract_result}
use feedla.Selector.Crawl.{
  ArticleOps, Config, attempted, crawl_new, max_article_retries, max_items_effective,
}
use feedla.Selector.Crawl.Retry.{retry_progress}
use feedla.Selector.Crawl.Shown.{crawl_new-shown}

abbrev before : State
before = record {
  version = 1;
  config_hash = "c";
  truncated = false;
  seen = "/old" ∷ [];
  pending = ("/bad", 1) ∷ [];
}

abbrev crawl : CommitInput
crawl = record {
  candidates = "/good" ∷ "/bad" ∷ [];
  imported = "/good" ∷ [];
  fetch_failed = "/bad" ∷ [];
  initial = false;
  truncated = false;
  config_hash = "c";
}

seen_capped_example :
    (length (commit before crawl).seen ≤ max_seen)
    ⊎ All (λ u. is_in crawl.candidates u ≡ true) (commit before crawl).seen
seen_capped_example = seen_capped before crawl

pending_lem_example : Dict.lookup string_discrete "/bad" (commit before crawl).pending ≡ (
    if count string_discrete "/bad" crawl.fetch_failed == 0
    then (if is_in crawl.candidates "/bad" && not (is_in crawl.imported "/bad")
        then Dict.lookup string_discrete "/bad" before.pending
        else none)
    else some (
        count_at (
          if is_in crawl.candidates "/bad" && not (is_in crawl.imported "/bad")
          then Dict.lookup string_discrete "/bad" before.pending
          else none)
        + count string_discrete "/bad" crawl.fetch_failed))
pending_lem_example = pending_lem before crawl "/bad"

abbrev no_network : ArticleOps
no_network = record {
  allowed = λ u. true;
  fetch = λ u. none;
  decode = λ b c. none;
  extract = λ u b. none;
  page_title = λ b. "";
  path_tail = λ u. u;
  published_in = λ b t. none;
}

abbrev config : Config
config = record { fulltext = none; max_items_per_crawl = 0; config_hash = "c" }

abbrev bad : Item
bad = record { title = ""; link = "/bad"; guid = "/bad"; content = ""; published = none }

retry_progress_example :
    (is_in (crawl_new no_network config (before, true) false 9 (bad ∷ [])).1.seen "/bad" ≡ true)
    ⊎ ((Dict.lookup string_discrete "/bad"
            (crawl_new no_network config (before, true) false 9 (bad ∷ [])).1.pending
          ≡ some (count_at (Dict.lookup string_discrete "/bad" before.pending) + 1))
        × (count_at (Dict.lookup string_discrete "/bad" before.pending) + 1 < max_article_retries))
unfolding attempted max_items_effective string_discrete
retry_progress_example =
    retry_progress no_network config before false 9 (bad ∷ []) "/bad" (omega arith) refl

abbrev stored : String → Option State
stored raw = some before

abbrev shown : String → Candidate
shown url = record { url = url; title = url; summary = ""; date = none }

-- The page shows an old article and a new one.
crawl_new-shown_example :
    is_in
      (crawl_new no_network config
        (parse_state stored "{}")
        false
        9
        (to_item (shown "/new") ∷ [])).1.seen
      "/new"
    ≡ (is_in
          (crawl_new no_network config
            (parse_state stored "{}")
            false
            9
            (to_item (shown "/new") ∷ [])).0.imported
          "/new"
        || (false
            && not (
                is_in
                  (crawl_new no_network config
                    (parse_state stored "{}")
                    false
                    9
                    (to_item (shown "/new") ∷ [])).0.fetch_failed
                  "/new")))
unfolding string_discrete extract_result parse_state
crawl_new-shown_example =
    crawl_new-shown stored no_network config "{}" false 2 9 (shown "/old" ∷ shown "/new" ∷ [])
      (to_item (shown "/new") ∷ []) "/new" refl refl refl
