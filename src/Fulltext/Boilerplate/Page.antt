-- ===== src/Fulltext/Boilerplate/Page.antt =====
-- internal/fulltext/boilerplate/boilerplate.go: the digests of a page's subtrees, and `Apply`.
-- `html.Node` is a tree: the document, comments and doctypes are `other`. Removal from the tree
-- that is being walked is a new tree; the digests are those of the page before it.
use feedla.Prelude.{
  ℕ, suc, ◌+◌, ◌*◌, String, string_discrete, Bool, true, false, ◌&&◌, ◌||◌, not, Option, none, some,
  List, [], ◌∷◌, leb, ◌==◌, if◌then◌else◌, contains, ◌++◌,
}
use feedla.Fulltext.Boilerplate.{State, is_boilerplate}
use Prim.Native.Char.{Char, code}
use Prim.Native.String.{compare, ◌++◌ as ◌<>◌, count as rune_count}
use package.text.Mathlib.Text.{is_lt, ◌==◌ as ◌is◌}

abbrev pub min_signature_text_len : ℕ
min_signature_text_len = 32

abbrev pub max_candidate_depth : ℕ
max_candidate_depth = 10

mutual
  pub data Node : Type 0 where
    text_node : String → Node
    element : String → List (String × String) → Nodes → Node
    other : Nodes → Node

  pub data Nodes : Type 0 where
    nil : Nodes
    child : Node → Nodes → Nodes

pub record NodeDigest : Type 0 where
  pub sig : String
  pub text_len : ℕ
  pub link_text_len : ℕ

-- `sort.Strings`
abbrev pub place_text : String → List String → List String
place_text a [] = a ∷ []
place_text a (x ∷ xs) =
    let rest = place_text a xs in if is_lt (compare a x) then a ∷ x ∷ xs else x ∷ rest

abbrev pub sort_texts : List String → List String
sort_texts [] = []
sort_texts (x ∷ xs) = place_text x (sort_texts xs)

-- `strings.Join(attrs, "\x00")`
abbrev pub join : List String → String
join [] = ""
join (x ∷ []) = x
join (x ∷ y ∷ xs) = x <> ("\0" <> join (y ∷ xs))

abbrev pub attr_texts : List (String × String) → List String
attr_texts [] = []
attr_texts ((k, v) ∷ attrs) = (k <> ("=" <> v)) ∷ attr_texts attrs

unfoldable pub is_candidate : NodeDigest → ℕ → Bool
is_candidate d depth = leb depth max_candidate_depth && leb min_signature_text_len d.text_len

unfoldable pub is_chrome_shaped : NodeDigest → Bool
is_chrome_shaped d = if d.text_len == 0 then true else leb d.text_len (d.link_text_len * 2)

-- What `Apply` counts and reports.
pub record Swept : Type 0 where
  pub removed : ℕ
  pub sigs : List String

unfoldable pub recorded : String → Swept → Swept
unfolding string_discrete
recorded sig w =
    if contains string_discrete w.sigs sig then w else record w { sigs = w.sigs ++ sig ∷ [] }

abbrev pub untouched : Swept
untouched = record { removed = 0; sigs = [] }

abbrev pub attach : Option Node → Nodes → Nodes
attach none ns = ns
attach (some n) ns = child n ns

-- internal/extract/common.go. The no-break space and the ideographic space become spaces.
abbrev pub plain_space : Char → Char
plain_space c = if (code c == 160) || (code c == 12288) then " " else c

abbrev pub replace_spaces : String → String
replace_spaces String.[] = ""
replace_spaces (String.◌∷◌ c s) = String.◌∷◌ (plain_space c) (replace_spaces s)

-- `unicode.IsSpace`
module _ (is_space : Char → Bool) where
  -- The loop of `NormalizeText`, with `prevSpace`.
  unfoldable pub squeeze : Bool → String → String
  squeeze prev String.[] = ""
  squeeze prev (String.◌∷◌ c s) =
      let later = squeeze true s in
      let next = squeeze false s in
      if is_space c then (if prev then later else String.◌∷◌ " " later) else String.◌∷◌ c next

  -- `strings.TrimSpace`
  abbrev pub trim_left : String → String
  trim_left String.[] = ""
  trim_left (String.◌∷◌ c s) = let rest = trim_left s in if is_space c then rest else String.◌∷◌ c s

  abbrev pub cons_unless_blank : Char → String → String
  cons_unless_blank c String.[] = if is_space c then "" else String.◌∷◌ c ""
  cons_unless_blank c (String.◌∷◌ d s) = String.◌∷◌ c (String.◌∷◌ d s)

  abbrev pub trim_right : String → String
  trim_right String.[] = ""
  trim_right (String.◌∷◌ c s) = cons_unless_blank c (trim_right s)

-- `unicode.IsSpace`, NFKC, and the hash of a signature: the first 8 bytes of SHA-256, in hex.
module _ (is_space : Char → Bool) (nfkc hash : String → String) where
  unfoldable pub normalize_text : String → String
  unfolding squeeze
  normalize_text s =
      trim_left is_space (trim_right is_space (squeeze is_space false (nfkc (replace_spaces s))))

  unfoldable mutual
    unfolding normalize_text

    pub compute_digest : Node → NodeDigest
    compute_digest (text_node t) = record {
      sig = hash (normalize_text t);
      text_len = rune_count (normalize_text t);
      link_text_len = 0;
    }
    compute_digest (element tag attrs ns) =
        let d = compute_digests ns in
        record {
          sig = hash (tag <> ("\0" <> (join (sort_texts (attr_texts attrs)) <> d.sig)));
          text_len = d.text_len;
          link_text_len = if tag is "a" then d.text_len else d.link_text_len;
        }
    compute_digest (other ns) =
        let d = compute_digests ns in
        record { sig = hash d.sig; text_len = d.text_len; link_text_len = d.link_text_len }

    -- What the children add to the hashed text, and their lengths.
    pub compute_digests : Nodes → NodeDigest
    compute_digests nil = record { sig = ""; text_len = 0; link_text_len = 0 }
    compute_digests (child n ns) =
        let d = compute_digest n in
        let ds = compute_digests ns in
        record {
          sig = "\0" <> (d.sig <> ds.sig);
          text_len = d.text_len + ds.text_len;
          link_text_len = d.link_text_len + ds.link_text_len;
        }

  unfoldable pub candidate : Node → String → ℕ → Bool
  unfolding compute_digest is_candidate
  candidate c tag depth =
      not (tag is "html") && not (tag is "body") && is_candidate (compute_digest c) depth

  unfoldable pub doomed : State → Node → String → ℕ → Bool
  unfolding candidate compute_digest is_boilerplate is_chrome_shaped
  doomed s c tag depth =
      candidate c tag depth
      && is_boilerplate s (compute_digest c).sig
      && is_chrome_shaped (compute_digest c)

  abbrev pub reported : Node → String → ℕ → Swept → Swept
  reported c tag depth w = if candidate c tag depth then recorded (compute_digest c).sig w else w

  -- The closure `walk`: what is left of a node, none where it is removed.
  unfoldable mutual
    unfolding doomed candidate recorded compute_digest

    pub visit : State → ℕ → Node → Swept → Option Node × Swept
    visit s depth (text_node t) w = (some (text_node t), w)
    visit s depth (other ns) w = (some (other ns), w)
    visit s depth (element tag attrs ns) w =
        let c = element tag attrs ns in
        let w' = reported c tag depth w in
        let inner = walk s (suc depth) ns w' in
        if tag is "head"
        then (some c, w)
        else (if doomed s c tag depth
            then (none, record w' { removed = suc w'.removed })
            else (some (element tag attrs inner.0), inner.1))

    pub walk : State → ℕ → Nodes → Swept → Nodes × Swept
    walk s depth nil w = (nil, w)
    walk s depth (child c ns) w =
        let first = visit s depth c w in
        let rest = walk s depth ns first.1 in (attach first.0 rest.0, rest.1)

  unfoldable pub apply : Node → State → Node × Swept
  unfolding walk
  apply (text_node t) s = (text_node t, untouched)
  apply (other ns) s = let r = walk s 0 ns untouched in (other r.0, r.1)
  apply (element tag attrs ns) s = let r = walk s 0 ns untouched in (element tag attrs r.0, r.1)
