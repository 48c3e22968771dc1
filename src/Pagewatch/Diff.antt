-- ===== src/Pagewatch/Diff.antt =====
-- internal/extract/pagewatch/diff.go: which blocks of a page were added and removed. Indices are
-- lists of numbers into the key sequences; `map[string]int` is the function that it stands for,
-- with 0 for a missing key. `dp` holds int32 values of at most 2000, so nothing wraps. The order in
-- which Go walks the map `seen` is not fixed: the keys are taken in the order of first occurrence
-- here, and the indices are sorted at the end.
pub mod Positions
pub mod Lcs
pub mod Bag
pub mod Cancel
pub mod Result
use feedla.Prelude.{
  ℕ, zero, suc, ◌+◌, ◌-◌, ◌<◌, String, string_discrete, Bool, true, false, Option, none, some, List,
  [], ◌∷◌, ◌++◌, map, ltb, leb, if◌then◌else◌, ite, ◌||◌, length, get_or, take, drop, contains,
  count,
}

pub record Block : Type 0 where
  pub html : String
  pub text : String
  pub key : String
  pub anchor : String
  pub head : String

pub record StateBlock : Type 0 where
  pub key : String
  pub html : String
  pub anchor : String
  pub head : String

abbrev pub lcs_block_limit : ℕ
lcs_block_limit = 2000

-- The keys that a list of indices points at.
abbrev pub keys_at : List String → List ℕ → List String
keys_at keys idx = map (λ i. get_or keys i "") idx

abbrev pub head_or_zero : List ℕ → ℕ
head_or_zero [] = 0
head_or_zero (x ∷ xs) = x

-- Row i of `dp` from row i + 1, filled from the right.
unfoldable pub lcs_row : String → List String → List ℕ → List ℕ
lcs_row p [] below = 0 ∷ []
lcs_row p (c ∷ cs) [] = 0 ∷ []
lcs_row p (c ∷ cs) (b ∷ below) =
    let rest = lcs_row p cs below in
    ite (string_discrete p c) (head_or_zero below + 1)
      (if leb (head_or_zero rest) b then b else head_or_zero rest)
    ∷ rest

unfoldable pub zero_row : List String → List ℕ
zero_row [] = 0 ∷ []
zero_row (c ∷ cs) = 0 ∷ zero_row cs

abbrev pub first_row : List (List ℕ) → List ℕ
first_row [] = []
first_row (r ∷ rs) = r

-- `dp`, rows 0 to n.
unfoldable pub lcs_table : List String → List String → List (List ℕ)
unfolding lcs_row zero_row
lcs_table [] cs = zero_row cs ∷ []
lcs_table (p ∷ ps) cs = let below = lcs_table ps cs in lcs_row p cs (first_row below) ∷ below

abbrev pub cell : List (List ℕ) → ℕ → ℕ → ℕ
cell dp i j = get_or (get_or dp i []) j 0

-- The indices from i on, one for each element.
unfoldable pub rest_of : ℕ → List String → List ℕ
rest_of i [] = []
rest_of i (x ∷ xs) = i ∷ rest_of (i + 1) xs

abbrev pub also_added : ℕ → List ℕ × List ℕ → List ℕ × List ℕ
also_added j (added, removed) = (j ∷ added, removed)

abbrev pub also_removed : ℕ → List ℕ × List ℕ → List ℕ × List ℕ
also_removed i (added, removed) = (added, i ∷ removed)

-- The walk from (i, j), where `ps` and `cs` are what is left of the two sequences.
unfoldable pub lcs_walk : List (List ℕ) → ℕ → ℕ → List String → List String → List ℕ × List ℕ
unfolding rest_of
lcs_walk dp i j [] cs = (rest_of j cs, [])
lcs_walk dp i j (p ∷ ps) [] = ([], rest_of i (p ∷ ps))
lcs_walk dp i j (p ∷ ps) (c ∷ cs) = elim (string_discrete p c) [
  | yes _ ↦ lcs_walk dp (i + 1) (j + 1) ps cs
  | no _ ↦ elim (leb (cell dp i (j + 1)) (cell dp (i + 1) j)) [
    | true ↦ also_removed i (lcs_walk dp (i + 1) j ps (c ∷ cs))
    | false ↦ also_added j (lcs_walk dp i (j + 1) (p ∷ ps) cs)
  ]
]

unfoldable pub lcs_diff_idx : List String → List String → List ℕ × List ℕ
unfolding lcs_table lcs_walk
lcs_diff_idx prev_keys curr_keys = lcs_walk (lcs_table prev_keys curr_keys) 0 0 prev_keys curr_keys

-- `prevPos[k]`: the positions of a key, counted from i.
unfoldable pub positions : String → ℕ → List String → List ℕ
positions k i [] = []
positions k i (x ∷ xs) =
    let rest = positions k (i + 1) xs in ite (string_discrete x k) (i ∷ rest) rest

-- The keys of `seen`, each once.
unfoldable pub distinct : List String → List String
distinct [] = []
distinct (x ∷ xs) =
    let rest = distinct xs in if contains string_discrete rest x then rest else x ∷ rest

unfoldable pub surplus_added : List String → List String → String → List ℕ
unfolding positions
surplus_added prev_keys curr_keys k =
    let pi = positions k 0 prev_keys in
    let ci = positions k 0 curr_keys in
    if ltb (length pi) (length ci) then drop (length ci - (length ci - length pi)) ci else []

unfoldable pub surplus_removed : List String → List String → String → List ℕ
unfolding positions
surplus_removed prev_keys curr_keys k =
    let pi = positions k 0 prev_keys in
    let ci = positions k 0 curr_keys in
    if ltb (length ci) (length pi) then take (length pi - length ci) pi else []

unfoldable pub gather : (String → List ℕ) → List String → List ℕ
gather f [] = []
gather f (k ∷ ks) = f k ++ gather f ks

-- `sort.Ints`.
unfoldable pub insert_sorted : ℕ → List ℕ → List ℕ
insert_sorted x [] = x ∷ []
insert_sorted x (y ∷ ys) = if leb x y then x ∷ y ∷ ys else y ∷ insert_sorted x ys

unfoldable pub sort_ints : List ℕ → List ℕ
unfolding insert_sorted
sort_ints [] = []
sort_ints (x ∷ xs) = insert_sorted x (sort_ints xs)

unfoldable pub set_diff_idx : List String → List String → List ℕ × List ℕ
unfolding distinct surplus_added surplus_removed gather sort_ints
set_diff_idx prev_keys curr_keys =
    let seen = distinct (prev_keys ++ curr_keys) in
    (
      sort_ints (gather (surplus_added prev_keys curr_keys) seen),
      sort_ints (gather (surplus_removed prev_keys curr_keys) seen),
    )

-- `cancel[k]`, from the counts of k among the added and among the removed keys.
unfoldable pub cancel : ℕ → ℕ → ℕ
cancel ac rc = if ltb 0 rc then (if ltb rc ac then rc else ac) else 0

abbrev pub bump : (String → ℕ) → String → String → ℕ
bump used k j = ite (string_discrete k j) (used k + 1) (used j)

-- The closure `filter`, with the counts `used` so far.
unfoldable pub filter_idx : (String → ℕ) → (String → ℕ) → List String → List ℕ → List ℕ
filter_idx cancelled used keys [] = []
filter_idx cancelled used keys (i ∷ idx) = elim (ltb (used k) (cancelled k)) [
  | true ↦ filter_idx cancelled (bump used k) keys idx
  | false ↦ i ∷ filter_idx cancelled used keys idx
]
  where
    k : String
    k = get_or keys i ""

unfoldable pub cancel_common_keys : List ℕ → List String → List ℕ → List String → List ℕ × List ℕ
unfolding cancel filter_idx
cancel_common_keys added_idx curr_keys removed_idx prev_keys = (
  filter_idx cancelled (λ _. 0) curr_keys added_idx,
  filter_idx cancelled (λ _. 0) prev_keys removed_idx,
)
  where
    cancelled : String → ℕ
    cancelled k =
        cancel (count string_discrete k (keys_at curr_keys added_idx))
          (count string_discrete k (keys_at prev_keys removed_idx))

-- The index part of `computeDiff`.
unfoldable pub diff_idx : List String → List String → List ℕ × List ℕ
unfolding lcs_diff_idx set_diff_idx cancel_common_keys
diff_idx prev_keys curr_keys =
    let (added_idx, removed_idx) =
      if ltb lcs_block_limit (length prev_keys) || ltb lcs_block_limit (length curr_keys)
      then set_diff_idx prev_keys curr_keys
      else lcs_diff_idx prev_keys curr_keys in
    cancel_common_keys added_idx curr_keys removed_idx prev_keys

abbrev pub no_block : Block
no_block = record { html = ""; text = ""; key = ""; anchor = ""; head = "" }

abbrev pub no_state_block : StateBlock
no_state_block = record { key = ""; html = ""; anchor = ""; head = "" }

-- `stripTags` goes through the standard library's regular expressions: a parameter.
module _ (strip_tags : String → String) where
  unfoldable pub removed_block : StateBlock → Block
  removed_block sb = record {
    html = sb.html;
    text = strip_tags sb.html;
    key = sb.key;
    anchor = sb.anchor;
    head = sb.head;
  }

  unfoldable pub compute_diff : List StateBlock → List Block → List Block × List Block
  unfolding diff_idx removed_block
  compute_diff prev curr =
      let (added_idx, removed_idx) = diff_idx (map (λ b. b.key) prev) (map (λ b. b.key) curr) in
      (
        map (λ i. get_or curr i no_block) added_idx,
        map (λ i. removed_block (get_or prev i no_state_block)) removed_idx,
      )
