-- ===== src/Fulltext/Boilerplate.antt =====
-- internal/fulltext/boilerplate/boilerplate.go: the state that a feed keeps of the subtrees that
-- repeat across its pages. Numbers are the naturals: what `Marshal` writes has no others. A Go map
-- is an association list, `sort.Slice` an insertion sort: the order is total on distinct
-- signatures, so every sort gives the same list.
pub mod Page
pub mod Learning
pub mod Evicted
pub mod Ranking
pub mod Chrome
pub mod Stored
pub mod Prose
pub mod Sweep
pub mod Session
use feedla.Prelude.{
  ℕ, suc, ◌+◌, ◌-◌, ◌*◌, ◌/◌, String, string_discrete, Bool, true, false, ◌&&◌, Option, none, some,
  List, [], ◌∷◌, ltb, leb, ◌==◌, if◌then◌else◌, length, take,
}
use feedla.Prelude.Dict.{Dict, lookup, insert, delete}
use feedla.Prelude.Keys.{keys}
use Prim.Native.String.{compare}
use text.Mathlib.Text.{is_lt}

abbrev pub state_version : ℕ
state_version = 1

abbrev pub max_signatures : ℕ
max_signatures = 2000

abbrev pub decay_pages : ℕ
decay_pages = 64

abbrev pub min_pages : ℕ
min_pages = 2

pub record SigCount : Type 0 where
  pub count : ℕ
  pub last_seen : ℕ

pub record State : Type 0 where
  pub pages : ℕ
  pub counts : Dict String SigCount

-- The wire format: a signature's count with the page it was last seen on. `counts` is a Go map: the
-- order of its list means nothing, and encoding/json writes the keys in an order of its own.
pub record StateJson : Type 0 where
  pub version : ℕ
  pub pages : ℕ
  pub counts : Dict String (ℕ × ℕ)

abbrev pub empty_state : State
empty_state = record { pages = 0; counts = [] }

unfoldable pub load : Dict String (ℕ × ℕ) → Dict String SigCount
unfolding insert string_discrete
load [] = []
load ((sig, pair) ∷ m) =
    let rest = load m in
    if pair.0 == 0
    then rest
    else insert string_discrete sig (record { count = pair.0; last_seen = pair.1 }) rest

unfoldable pub pairs : Dict String SigCount → Dict String (ℕ × ℕ)
pairs [] = []
pairs ((sig, c) ∷ m) = (sig, (c.count, c.last_seen)) ∷ pairs m

abbrev pub loaded : Option StateJson → State
loaded none = empty_state
loaded (some sj) =
    if sj.version == state_version
    then record { pages = sj.pages; counts = load sj.counts }
    else empty_state

-- `json.Unmarshal` into a state, none for an error, and `json.Marshal` of one.
module _ (unmarshal : List ℕ → Option StateJson) (marshal_json : StateJson → Option (List ℕ)) where
  unfoldable pub parse_state : List ℕ → State
  parse_state [] = empty_state
  parse_state (b ∷ raw) = loaded (unmarshal (b ∷ raw))

  unfoldable pub marshal : State → Option (List ℕ)
  marshal s =
      marshal_json (record { version = state_version; pages = s.pages; counts = pairs s.counts })

abbrev pub or_zero : Option SigCount → SigCount
or_zero none = record { count = 0; last_seen = 0 }
or_zero (some c) = c

-- `s.counts[sig]`, with Go's zero value for a missing key.
abbrev pub entry_of : Dict String SigCount → String → SigCount
entry_of m sig = or_zero (lookup string_discrete sig m)

abbrev pub repeats : ℕ → Option SigCount → Bool
repeats pages none = false
repeats pages (some c) = leb min_pages c.count && leb pages (c.count * 2)

unfoldable pub is_boilerplate : State → String → Bool
is_boilerplate s sig = repeats s.pages (lookup string_discrete sig s.counts)

-- The loop of `Observe`, on page `pages`.
unfoldable pub count_all : ℕ → List String → Dict String SigCount → Dict String SigCount
unfolding lookup insert string_discrete
count_all pages [] m = m
count_all pages (sig ∷ sigs) m = count_all pages sigs (
    insert string_discrete sig (record { count = suc (entry_of m sig).count; last_seen = pages }) m)

unfoldable pub halve : Dict String SigCount → Dict String SigCount
halve [] = []
halve ((sig, c) ∷ m) =
    let rest = halve m in
    if c.count / 2 == 0 then rest else (sig, record c { count = c.count / 2 }) ∷ rest

unfoldable pub decay : State → State
unfolding halve
decay s = record { pages = s.pages / 2; counts = halve s.counts }

-- `less` of the sort in `evictTo`.
unfoldable pub before : Dict String SigCount → String → String → Bool
unfolding lookup string_discrete
before m a b =
    if (entry_of m a).count == (entry_of m b).count
    then (if (entry_of m a).last_seen == (entry_of m b).last_seen
        then is_lt (compare a b)
        else ltb (entry_of m a).last_seen (entry_of m b).last_seen)
    else ltb (entry_of m a).count (entry_of m b).count

unfoldable pub place : Dict String SigCount → String → List String → List String
unfolding before
place m a [] = a ∷ []
place m a (x ∷ xs) = let rest = place m a xs in if before m a x then a ∷ x ∷ xs else x ∷ rest

unfoldable pub sort_sigs : Dict String SigCount → List String → List String
unfolding place
sort_sigs m [] = []
sort_sigs m (a ∷ xs) = place m a (sort_sigs m xs)

unfoldable pub delete_all : List String → Dict String SigCount → Dict String SigCount
unfolding delete string_discrete
delete_all [] m = m
delete_all (sig ∷ sigs) m = delete_all sigs (delete string_discrete sig m)

unfoldable pub evict_to : ℕ → Dict String SigCount → Dict String SigCount
unfolding sort_sigs delete_all
evict_to limit m =
    if leb (length m) limit
    then m
    else delete_all (take (length m - limit) (sort_sigs m (keys m))) m

abbrev pub evict : State → State
evict s = record s { counts = evict_to max_signatures s.counts }

abbrev pub maybe_decay : State → State
maybe_decay s = if leb decay_pages s.pages then decay s else s

unfoldable pub observe : List String → State → State
unfolding count_all decay evict_to
observe sigs s =
    evict
      (maybe_decay (record { pages = suc s.pages; counts = count_all (suc s.pages) sigs s.counts }))
