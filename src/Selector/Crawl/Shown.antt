-- ===== src/Selector/Crawl/Shown.antt =====
-- From the listing page to the stored state: what becomes of a URL that the page shows for the
-- first time.
use feedla.Prelude.{
  ℕ, ◌≡◌, refl, sym, String, string_discrete, Bool, true, false, not, ◌&&◌, ◌||◌, Option, none,
  some, List, [], ◌∷◌, map, keep, ite, if◌then◌else◌, ◌==◌, arith, Bool-cases, inl, inr,
}
use feedla.Selector.State.{State, zero_state, is_in, parse_state, check_version}
use feedla.Selector.State.Seen.{seen_candidate}
use feedla.Selector.Extract.{Candidate, Item, to_item, extract_result}
use feedla.Selector.Crawl.{
  ArticleOps, Config, links, attempted, process, commit_input, fulltext_enabled, crawl_new,
}

-- The new candidates are those that are shown and not seen.
links-new :
    (seen : List String) (shown : List Candidate) (x : String)
    → is_in (links (map to_item (keep (λ c. not (is_in seen c.url)) shown))) x
      ≡ (is_in (map (λ c. c.url) shown) x && not (is_in seen x))
links-new seen [] x = refl
links-new seen (c ∷ shown) x = ground (arith, links-new seen shown x)

parse_state-unseen :
    (unmarshal : String → Option State) (raw : String)
    → (if (parse_state unmarshal raw).1 then (parse_state unmarshal raw).0.seen else [])
      ≡ (parse_state unmarshal raw).0.seen
unfolding parse_state
parse_state-unseen unmarshal raw =
    elim (string_discrete raw "")
      as (λ d.
        (if (ite d (zero_state, false) (check_version (unmarshal raw))).1
          then (ite d (zero_state, false) (check_version (unmarshal raw))).0.seen
          else [])
        ≡ (ite d (zero_state, false) (check_version (unmarshal raw))).0.seen) [
          | yes e ↦ refl
          | no n ↦ checked (unmarshal raw)
        ]
  where
    checked :
        (o : Option State)
        → (if (check_version o).1 then (check_version o).0.seen else []) ≡ (check_version o).0.seen
    checked none = refl
    checked (some st) = ground arith

new_items :
    {a b : List Item}
    → ◌≡◌ {A = Option (List Item × Option State)} (some (a, none)) (some (b, none))
    → a ≡ b
new_items e = cc e

extract_result-items :
    (unmarshal : String → Option State) (raw config_hash : String) (truncated : Bool) (matched : ℕ)
    (shown : List Candidate) (items : List Item)
    → extract_result unmarshal raw config_hash truncated matched shown ≡ some (items, none)
    → items
      ≡ map to_item (
          keep
            (λ c. not (
              is_in
                (if (parse_state unmarshal raw).1 then (parse_state unmarshal raw).0.seen else [])
                c.url))
            shown)
unfolding extract_result
extract_result-items unmarshal raw config_hash truncated matched shown items =
    elim (Bool-cases (matched == 0)) [
      | inl t ↦ rw (t, if◌then◌else◌) (λ h. cc h)
      | inr t ↦
          elim (Bool-cases
            (not (ite (string_discrete raw "") true false) && not (parse_state unmarshal raw).1)) [
              | inl r ↦ rw (t, if◌then◌else◌, r) (λ h. cc h)
              | inr r ↦ rw (t, if◌then◌else◌, r) (λ h. sym (new_items h))
            ]
    ]

extract_result-new :
    (unmarshal : String → Option State) (raw config_hash : String) (truncated : Bool) (matched : ℕ)
    (shown : List Candidate) (items : List Item) (x : String)
    → extract_result unmarshal raw config_hash truncated matched shown ≡ some (items, none)
    → is_in (links items) x
      ≡ (is_in (map (λ c. c.url) shown) x && not (is_in (parse_state unmarshal raw).0.seen x))
extract_result-new unmarshal raw config_hash truncated matched shown items x h =
    rw
      (
        extract_result-items unmarshal raw config_hash truncated matched shown items h,
        links-new (if (parse_state unmarshal raw).1 then (parse_state unmarshal raw).0.seen else [])
            shown x,
        parse_state-unseen unmarshal raw,
      )
      refl

-- Where `Extract` hands on new items and no state of its own, a URL that the listing page shows and
-- the stored state has not seen is seen after the crawl exactly if its article was imported, or on
-- an initial crawl, which has no stored state, did not fail; the cap evicts none of these.
pub crawl_new-shown :
    (unmarshal : String → Option State) (ops : ArticleOps) (cfg : Config) (raw : String)
    (truncated : Bool) (matched now : ℕ) (shown : List Candidate) (items : List Item) (x : String)
    → extract_result unmarshal raw cfg.config_hash truncated matched shown ≡ some (items, none)
    → is_in (map (λ c. c.url) shown) x ≡ true
    → is_in (parse_state unmarshal raw).0.seen x ≡ false
    → let initial = ite (string_discrete raw "") true false in
      let (done, st) = crawl_new ops cfg (parse_state unmarshal raw) initial now items in
      is_in st.seen x ≡ (is_in done.imported x || (initial && not (is_in done.fetch_failed x)))
unfolding crawl_new commit_input
crawl_new-shown unmarshal ops cfg raw truncated matched now shown items x h on_page fresh =
    let (prev, ok) = parse_state unmarshal raw in
    let initial = ite (string_discrete raw "") true false in
    let done =
      process ops (fulltext_enabled cfg.fulltext) (if ok then prev.pending else []) now
        (attempted cfg items) in
    ground (
      arith,
      on_page,
      fresh,
      extract_result-new unmarshal raw cfg.config_hash truncated matched shown items x h,
      seen_candidate prev (commit_input cfg initial items done) x,
    )
