-- ===== src/Fulltext/Boilerplate/Session.antt =====
-- internal/crawler/boilerplate.go: one crawl's use of a feed's state, with
-- internal/store/feed_boilerplate.go. The length test on floating point numbers is exact, since
-- lengths are far below 2^53: it is four times one length below the other.
use feedla.Prelude.{
  ℕ, ◌*◌, ◌≤◌, ◌≡◌, refl, String, Bool, true, false, Option, none, some, List, [], ltb, ◌==◌,
  if◌then◌else◌, arith, inl, inr, Bool-cases, ◌⊎◌, ◌||◌,
}
use feedla.Fulltext.Boilerplate.{State, StateJson, parse_state, marshal, observe}
use feedla.Fulltext.Boilerplate.Page.{Node, apply}
use Prim.Native.Char.{Char}

abbrev pub min_fulltext_chars : ℕ
min_fulltext_chars = 200

pub record Article : Type 0 where
  pub title : String
  pub content : String
  pub text_len : ℕ

-- `boilerplateSession`: the state once it is loaded.
pub record BoilerplateSession : Type 0 where
  pub state : Option State
  pub dirty : Bool

abbrev pub new_boilerplate_session : BoilerplateSession
new_boilerplate_session = record { state = none; dirty = false }

abbrev pub raw_state : Option (List ℕ) → List ℕ
raw_state none = []
raw_state (some raw) = raw

abbrev pub loaded_or : State → Option State → State
loaded_or s none = s
loaded_or s (some s') = s'

-- `float64(stripped.TextLen) < float64(original.TextLen)*minStrippedTextRatio`, where there is an
-- original.
abbrev pub lost_most : Option Article → Article → Bool
lost_most none stripped = false
lost_most (some original) stripped = ltb (stripped.text_len * 4) original.text_len

-- The `switch` on the stripped extraction.
unfoldable pub judged : Option Article → Option Article → Option Article
judged original none = original
judged original (some stripped) =
    if ltb stripped.text_len min_fulltext_chars
    then original
    else (if lost_most original stripped then original else some stripped)

-- `html.Parse`, `html.Render` and `fulltext.Extract` at the page's address, none for an error, and
-- the parameters of the state and of the digests.
module _ (unmarshal : List ℕ → Option StateJson) (marshal_json : StateJson → Option (List ℕ))
    (is_space : Char → Bool) (nfkc hash : String → String) (parse : List ℕ → Option Node)
    (render : Node → Option (List ℕ)) (extract_article : List ℕ → Option Article) where
  -- `row` is the stored state, none for a missing row or an error.
  unfoldable pub load_state : Option (List ℕ) → BoilerplateSession → State
  unfolding parse_state
  load_state row session =
      loaded_or (parse_state unmarshal marshal_json (raw_state row)) session.state

  abbrev pub chosen : Option Article → Option (List ℕ) → Option Article
  chosen original none = original
  chosen original (some page) = judged original (extract_article page)

  abbrev pub extract_doc : List ℕ → State → Option Node → BoilerplateSession × Option Article
  extract_doc page s none = (record { state = some s; dirty = false }, extract_article page)
  extract_doc page s (some doc) =
      let swept = apply is_space nfkc hash doc s in
      (
        record { state = some (observe swept.1.sigs s); dirty = true },
        if swept.1.removed == 0
            then extract_article page
            else chosen (extract_article page) (render swept.0),
      )

  -- A session once dirty stays so.
  unfoldable pub extract :
      Option (List ℕ) → List ℕ → BoilerplateSession → BoilerplateSession × Option Article
  unfolding load_state judged apply observe
  extract row page session =
      let r = extract_doc page (load_state row session) (parse page) in
      (record r.0 { dirty = session.dirty || r.0.dirty }, r.1)

  abbrev pub saved : Option (List ℕ) → Option State → Option (List ℕ)
  saved row none = row
  saved row (some s) = elim (marshal unmarshal marshal_json s) [ none ↦ row | some raw ↦ some raw ]

  -- The feed's row after `save`.
  unfoldable pub save : Option (List ℕ) → BoilerplateSession → Option (List ℕ)
  unfolding marshal
  save row session = if session.dirty then saved row session.state else row

  -- The article of a page is that of the page as fetched, or one of the stripped page with at
  -- least 200 characters that keeps a quarter of the other's text where there is another.
  unfoldable pub IsAcceptable : List ℕ → Option Article → Type 0
  IsAcceptable page a =
      (a ≡ extract_article page)
      ⊎ ((stripped : Article) × (a ≡ some stripped)
          × (min_fulltext_chars ≤ stripped.text_len)
          × ((original : Article)
              → extract_article page ≡ some original
              → original.text_len ≤ stripped.text_len * 4))

  not_most :
      (page : List ℕ) (stripped original : Article)
      → extract_article page ≡ some original
      → lost_most (extract_article page) stripped ≡ false
      → original.text_len ≤ stripped.text_len * 4
  not_most page stripped original h k = ground (arith, k, h)

  judged_lem :
      (page : List ℕ) (a : Option Article) → IsAcceptable page (judged (extract_article page) a)
  unfolding IsAcceptable judged
  judged_lem page none = inl refl
  judged_lem page (some stripped) = elim (Bool-cases (ltb stripped.text_len min_fulltext_chars)) [
    | inl e ↦ rw (e, if◌then◌else◌) (inl refl)
    | inr e ↦ elim (Bool-cases (lost_most (extract_article page) stripped)) [
      | inl k ↦ rw (e, k, if◌then◌else◌) (inl refl)
      | inr k ↦
          rw (e, k, if◌then◌else◌)
            (inr (
              stripped,
              refl,
              ground (arith, e),
              λ original h. not_most page stripped original h k,
            ))
    ]
  ]

  chosen-IsAcceptable :
      (page : List ℕ) (rendered : Option (List ℕ))
      → IsAcceptable page (chosen (extract_article page) rendered)
  unfolding IsAcceptable
  chosen-IsAcceptable page none = inl refl
  chosen-IsAcceptable page (some bytes) = judged_lem page (extract_article bytes)

  extract_doc-IsAcceptable :
      (page : List ℕ) (s : State) (doc : Option Node) → IsAcceptable page (extract_doc page s doc).1
  unfolding IsAcceptable
  extract_doc-IsAcceptable page s none = inl refl
  extract_doc-IsAcceptable page s (some doc) =
      let swept = apply is_space nfkc hash doc s in
      elim (Bool-cases (swept.1.removed == 0)) [
        | inl e ↦ rw (e, if◌then◌else◌) (inl refl)
        | inr e ↦ rw (e, if◌then◌else◌) (chosen-IsAcceptable page (render swept.0))
      ]

  -- The fallback: whatever the state has learned, the extraction answers with the article of the
  -- page as fetched or its error, or with a stripped article of at least 200 characters that has at
  -- least a quarter of the text of the article of the page as fetched, where that has one.
  pub extract-IsAcceptable :
      (row : Option (List ℕ)) (page : List ℕ) (session : BoilerplateSession)
      → IsAcceptable page (extract row page session).1
  unfolding extract IsAcceptable
  extract-IsAcceptable row page session =
      extract_doc-IsAcceptable page (load_state row session) (parse page)
