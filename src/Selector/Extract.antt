-- ===== src/Selector/Extract.antt =====
-- internal/extract/selector/selector.go, `Extract` behind `extractCandidates`: the candidates of a
-- listing page against the seen URLs. The candidates are an argument.
use feedla.Prelude.{
  ℕ, String, string_discrete, Bool, true, false, not, ◌&&◌, Option, none, some, List, [], map, ltb,
  ◌==◌, if◌then◌else◌, ite, length, take, keep,
}
use feedla.Selector.State.{State, current_state_version, max_seen, is_in, parse_state}

-- One item_selector match; times are nanoseconds.
pub record Candidate : Type 0 where
  pub url : String
  pub title : String
  pub summary : String
  pub date : Option ℕ

-- The fields of `gofeed.Item` that the two packages use.
pub record Item : Type 0 where
  pub title : String
  pub link : String
  pub guid : String
  pub content : String
  pub published : Option ℕ

abbrev pub to_item : Candidate → Item
to_item c = record {
  title = c.title;
  link = c.url;
  guid = c.url;
  content = c.summary;
  published = c.date;
}

-- `State{…}` of resync mode.
unfoldable pub resync_state : String → Bool → List Candidate → State
resync_state config_hash truncated candidates =
    let urls = map (λ c. c.url) candidates in
    record {
      version = current_state_version;
      config_hash = config_hash;
      truncated = truncated;
      seen = if ltb max_seen (length urls) then take max_seen urls else urls;
      pending = [];
    }

-- The items of the feed that `Extract` returns, and the state, which only resync mode gives.
-- `matched` is the number of elements that item_selector matched: none of them is an error.
unfoldable pub extract_result :
    (String → Option State)
    → String
    → String
    → Bool
    → ℕ
    → List Candidate
    → Option (List Item × Option State)
unfolding parse_state resync_state
extract_result unmarshal raw config_hash truncated matched candidates =
    if matched == 0 then none else some (resync_or_new (parse_state unmarshal raw))
  where
    resync_or_new : State × Bool → List Item × Option State
    resync_or_new (st, valid) =
        if not (ite (string_discrete raw "") true false) && not valid
        then ([], some (resync_state config_hash truncated candidates))
        else (
          map to_item (keep (λ c. not (is_in (if valid then st.seen else []) c.url)) candidates),
          none,
        )
