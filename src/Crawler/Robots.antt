-- ===== src/Crawler/Robots.antt =====
-- internal/crawler/robots.go: robots.txt, from its text to the verdict on a path. A string is the
-- list of its bytes. `strings.TrimSpace` and `strings.ToLower` go by Unicode tables: they are the
-- operations of a record.
pub mod Parse
pub mod Index
pub mod Glob
pub mod Scan
pub mod Matches
pub mod Verdict
use feedla.Prelude.{
  ℕ, zero, suc, ◌+◌, Bool, true, false, not, ◌&&◌, ◌||◌, Option, none, some, List, [], ◌∷◌, ◌++◌,
  ltb, ◌==◌, if◌then◌else◌, length, drop,
}

abbrev pub Bytes : Type 0
Bytes = List ℕ

abbrev pub bytes_eq : Bytes → Bytes → Bool
bytes_eq [] [] = true
bytes_eq [] (y ∷ ys) = false
bytes_eq (x ∷ xs) [] = false
bytes_eq (x ∷ xs) (y ∷ ys) = x == y && bytes_eq xs ys

-- `strings.HasPrefix(path, seg)`
unfoldable pub has_prefix : Bytes → Bytes → Bool
has_prefix [] path = true
has_prefix (x ∷ seg) [] = false
has_prefix (x ∷ seg) (y ∷ path) = x == y && has_prefix seg path

abbrev pub one_later : Option ℕ → Option ℕ
one_later none = none
one_later (some i) = some (suc i)

-- `strings.Index(path, seg)`, none for -1
unfoldable pub index : Bytes → Bytes → Option ℕ
unfolding has_prefix
index seg [] = if has_prefix seg [] then some 0 else none
index seg (y ∷ path) =
    let later = one_later (index seg path) in if has_prefix seg (y ∷ path) then some 0 else later

abbrev pub cons_first : ℕ → List Bytes → List Bytes
cons_first c [] = (c ∷ []) ∷ []
cons_first c (s ∷ segs) = (c ∷ s) ∷ segs

-- `strings.Split(p, sep)` at a separator of one byte
unfoldable pub split : ℕ → Bytes → List Bytes
split sep [] = [] ∷ []
split sep (c ∷ p) = let rest = split sep p in if c == sep then [] ∷ rest else cons_first c rest

-- `strings.HasSuffix(pattern, "$")` and `strings.TrimSuffix(pattern, "$")`
unfoldable pub has_dollar : Bytes → Bool
has_dollar [] = false
has_dollar (c ∷ []) = c == b'$'
has_dollar (c ∷ d ∷ p) = has_dollar (d ∷ p)

unfoldable pub trim_dollar : Bytes → Bytes
trim_dollar [] = []
trim_dollar (c ∷ []) = if c == b'$' then [] else c ∷ []
trim_dollar (c ∷ d ∷ p) = c ∷ trim_dollar (d ∷ p)

-- The loop of `pathMatches`: `first` is `i == 0`; the position behind the last segment, or none
-- where the loop returns false.
unfoldable pub scan : Bool → List Bytes → Bytes → ℕ → Option ℕ
unfolding index
scan first [] path pos = some pos
scan first ([] ∷ segs) path pos = scan false segs path pos
scan first ((c ∷ seg) ∷ segs) path pos = elim (index (c ∷ seg) (drop pos path)) [
  | none ↦ none
  | some idx ↦ elim (first && not (idx == 0)) [
    | true ↦ none
    | false ↦ scan false segs path (pos + (idx + length (c ∷ seg)))
  ]
]

abbrev pub ends_at : Bool → ℕ → Option ℕ → Bool
ends_at anchored n none = false
ends_at anchored n (some pos) = if anchored then pos == n else true

abbrev pub is_empty : Bytes → Bool
is_empty [] = true
is_empty (c ∷ p) = false

-- `pathMatches` behind the treatment of the dollar sign.
unfoldable pub matches_from : Bool → Bytes → Bytes → Bool
unfolding split scan
matches_from anchored p path =
    if is_empty p
    then not anchored || is_empty path
    else ends_at anchored (length path) (scan true (split b'*' p) path 0)

unfoldable pub path_matches : Bytes → Bytes → Bool
unfolding has_dollar trim_dollar matches_from
path_matches pattern path = matches_from (has_dollar pattern) (trim_dollar pattern) path

pub record RobotsRule : Type 0 where
  pub disallow : Bool
  pub pattern : Bytes

pub record RobotsGroup : Type 0 where
  pub agents : List Bytes
  pub rules : List RobotsRule

abbrev pub is_longer : Option (ℕ × Bool) → Bytes → Bool
is_longer none pattern = true
is_longer (some (best_len, _)) pattern = ltb best_len (length pattern)

-- `bestLen` and `bestDisallow`, none for `bestLen == -1`.
unfoldable pub best_rule : Option (ℕ × Bool) → List RobotsRule → Bytes → Option (ℕ × Bool)
unfolding path_matches
best_rule best [] path = best
best_rule best (r ∷ rules) path =
    best_rule
      (if path_matches r.pattern path && is_longer best r.pattern
        then some (length r.pattern, r.disallow)
        else best)
      rules path

abbrev pub verdict : Option (ℕ × Bool) → Bool
verdict none = true
verdict (some (_, disallow)) = not disallow

unfoldable pub match_rules : List RobotsRule → Bytes → Bool
unfolding best_rule
match_rules rules path = verdict (best_rule none rules path)
