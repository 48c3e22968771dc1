-- ===== src/Selector/State.antt =====
-- internal/extract/selector/state.go: the history of imported article URLs and its update after a
-- crawl. `encoding/json` is a parameter, `unmarshal` and `marshal`; `unmarshal` gives none on an
-- error. Go's sets of URLs are the lists of their members.
pub mod Seen
pub mod Pending
use feedla.Prelude.{
  ℕ, suc, ◌+◌, ◌-◌, String, string_discrete, Bool, true, false, not, ◌&&◌, ◌||◌, Option, none, some,
  List, [], ◌∷◌, ◌++◌, ltb, ◌==◌, if◌then◌else◌, ite, length, contains,
}
use feedla.Prelude.Dict
use feedla.Prelude.Dict.{Dict}

abbrev pub current_state_version : ℕ
current_state_version = 1

abbrev pub max_seen : ℕ
max_seen = 2000

pub record State : Type 0 where
  pub version : ℕ
  pub config_hash : String
  pub truncated : Bool
  pub seen : List String
  pub pending : Dict String ℕ

-- `State{}`
abbrev pub zero_state : State
zero_state = record { version = 0; config_hash = ""; truncated = false; seen = []; pending = [] }

unfoldable pub check_version : Option State → State × Bool
check_version none = (zero_state, false)
check_version (some st) =
    if st.version == current_state_version then (st, true) else (zero_state, false)

pub record CommitInput : Type 0 where
  pub candidates : List String
  pub imported : List String
  pub fetch_failed : List String
  pub initial : Bool
  pub truncated : Bool
  pub config_hash : String

-- `seenSet[url]`, `candSet[url]`, `failed[url]`
abbrev pub is_in : List String → String → Bool
is_in urls u = contains string_discrete urls u

-- The closure `add`, over a list.
unfoldable pub add_all : List String → List String → List String
add_all order [] = order
add_all order (u ∷ urls) = add_all (if is_in order u then order else order ++ u ∷ []) urls

-- Rule 3's loop: the candidates that did not fail.
unfoldable pub add_unfailed : List String → List String → List String → List String
add_unfailed failed order [] = order
add_unfailed failed order (u ∷ urls) =
    add_unfailed failed (if is_in failed u || is_in order u then order else order ++ u ∷ []) urls

-- `order` before the cap of rule 5.
unfoldable pub seen_order : State → CommitInput → List String
unfolding add_all add_unfailed
seen_order prev_state input =
    let order = add_all (add_all [] prev_state.seen) input.imported in
    if input.initial then add_unfailed input.fetch_failed order input.candidates else order

-- Rule 5's loop: `removed` counts the entries dropped so far.
unfoldable pub evict : ℕ → ℕ → List String → List String → List String
evict to_remove removed cand_set [] = []
evict to_remove removed cand_set (u ∷ order) =
    elim (ltb removed to_remove && not (is_in cand_set u)) [
      | true ↦ evict to_remove (removed + 1) cand_set order
      | false ↦ u ∷ evict to_remove removed cand_set order
    ]

unfoldable pub cap_seen : List String → List String → List String
unfolding evict
cap_seen cand_set order =
    if ltb max_seen (length order) then evict (length order - max_seen) 0 cand_set order else order

unfoldable pub delete_all : List String → Dict String ℕ → Dict String ℕ
delete_all [] pending = pending
delete_all (u ∷ urls) pending = delete_all urls (Dict.delete string_discrete u pending)

abbrev pub count_at : Option ℕ → ℕ
count_at none = 0
count_at (some n) = n

unfoldable pub count_failures : List String → Dict String ℕ → Dict String ℕ
count_failures [] pending = pending
count_failures (u ∷ urls) pending =
    count_failures urls
      (Dict.insert string_discrete u (count_at (Dict.lookup string_discrete u pending) + 1) pending)

-- Rules 4 and 2.
unfoldable pub new_pending : State → CommitInput → Dict String ℕ
unfolding delete_all count_failures
new_pending prev_state input = count_failures input.fetch_failed (
    delete_all input.imported
      (Dict.retain string_discrete (is_in input.candidates) prev_state.pending))

unfoldable pub commit : State → CommitInput → State
unfolding seen_order cap_seen new_pending
commit prev_state input = record {
  version = current_state_version;
  config_hash = input.config_hash;
  truncated = input.truncated;
  seen = cap_seen input.candidates (seen_order prev_state input);
  pending = new_pending prev_state input;
}

module _ (unmarshal : String → Option State) where
  unfoldable pub parse_state : String → State × Bool
  unfolding check_version
  parse_state raw = ite (string_discrete raw "") (zero_state, false) (check_version (unmarshal raw))

  unfoldable pub commit_state : (State → String) → String → CommitInput → String
  unfolding parse_state commit
  commit_state marshal prev input = marshal (commit (parse_state prev).0 input)
