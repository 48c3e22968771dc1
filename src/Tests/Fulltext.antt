-- ===== src/Tests/Fulltext.antt =====
-- A feed whose pages share a navigation bar.
use feedla.Prelude.{
  ℕ, ◌+◌, ◌*◌, ◌≤◌, ◌≡◌, ◌≢◌, refl, String, string_discrete, Bool, true, false, ap, sym, Option,
  none, some, List, [], ◌∷◌, ◌==◌, arith, if◌then◌else◌, ◌&&◌, Bool-cases, inl, inr,
}
use feedla.Prelude.Dict.{Dict, lookup}
use feedla.Fulltext.Boilerplate.{
  State, StateJson, empty_state, is_boilerplate, parse_state, marshal, pairs,
}
use feedla.Fulltext.Boilerplate.Page.{Node, text_node, element, other, nil, child, apply}
use feedla.Fulltext.Boilerplate.Learning.{IsSound}
use feedla.Fulltext.Boilerplate.Chrome.{Bears, observe_all, chrome_learned}
use feedla.Fulltext.Boilerplate.Stored.{IsMap, IsSame, parse_state-marshal}
use feedla.Fulltext.Boilerplate.Prose.{apply_prose}
use feedla.Fulltext.Boilerplate.Sweep.{learn_all, learn_all-IsSound}
use feedla.Fulltext.Boilerplate.Session.{Article, extract, IsAcceptable, extract-IsAcceptable}
use feedla.Store.Unread.Fanout.{same_text}
use package.text.Mathlib.TextEquality.{eq_iff}
use Prim.Native.Char.{Char, code}

abbrev blank : Char → Bool
blank c = code c == 32

abbrev same : String → String
same s = s

abbrev one_hash : String → String
one_hash s = "h"

abbrev bar : Node
bar =
    element "nav" []
      (child (element "a" [] (child (text_node "Home page, archive and the links") nil)) nil)

abbrev page : Node
page = other (
    child
      (element "html" [] (
        child
          (element "body" []
            (child bar (child (element "p" [] (child (text_node "News") nil)) nil)))
          nil))
      nil)

abbrev learned : State
learned = record { pages = 2; counts = ("h", record { count = 2; last_seen = 2 }) ∷ [] }

bar_goes :
    (apply blank same one_hash page learned).0
    ≡ other (
        child
          (element "html" [] (
            child
              (element "body" [] (child (element "p" [] (child (text_node "News") nil)) nil))
              nil))
          nil)
unfolding apply lookup
bar_goes = refl

apply_prose_example : (4 ≤ 36) × (36 + 0 * 2 ≤ 4 + 32 * 2)
unfolding apply lookup
apply_prose_example = apply_prose blank same one_hash page learned

abbrev first_seen : State
first_seen = record { pages = 1; counts = ("h", record { count = 1; last_seen = 1 }) ∷ [] }

first_seen-IsSound : IsSound first_seen
unfolding lookup
first_seen-IsSound = record {
  bounded_pages = omega arith;
  bounded_size = omega arith;
  simple = λ j. ground arith;
  positive = λ j c e. ground (arith, e);
  counted = λ j. ground arith;
}

learn_all-IsSound_example :
    IsSound (learn_all blank same one_hash (page ∷ page ∷ page ∷ []) empty_state)
learn_all-IsSound_example = learn_all-IsSound blank same one_hash (page ∷ page ∷ page ∷ [])

Bears-bar : Bears "bar" ("bar" ∷ [])
unfolding string_discrete
Bears-bar = record { distinct = λ j. ground arith; not_many = omega arith; borne = refl }

other_bar : ◌≢◌ {A = String} "other" "bar"
other_bar = ground (arith, eq_iff "other" "bar")

Bears-more : Bears "bar" ("other" ∷ "bar" ∷ [])
unfolding string_discrete
Bears-more = record {
  distinct = λ j. ground (arith, other_bar);
  not_many = omega arith;
  borne = refl;
}

chrome_learned_example :
    is_boilerplate (observe_all (("bar" ∷ []) ∷ ("other" ∷ "bar" ∷ []) ∷ []) empty_state) "bar"
    ≡ true
chrome_learned_example =
    chrome_learned "bar" (("bar" ∷ []) ∷ ("other" ∷ "bar" ∷ []) ∷ []) (Bears-bar, (Bears-more, tt))
      (omega arith)

-- A codec for states with the signatures "a" and "b": like encoding/json it writes the keys in
-- their order, whatever order the map gives.
abbrev encode_two : ℕ → ℕ → ℕ × ℕ → ℕ × ℕ → Option (List ℕ)
encode_two v p a b = some (v ∷ p ∷ a.0 ∷ a.1 ∷ b.0 ∷ b.1 ∷ [])

abbrev encode_counts : ℕ → ℕ → Dict String (ℕ × ℕ) → Option (List ℕ)
encode_counts v p [] = none
encode_counts v p (x ∷ []) = none
encode_counts v p ((i, x) ∷ (j, y) ∷ []) =
    if same_text i "a" && same_text j "b"
    then encode_two v p x y
    else (if same_text i "b" && same_text j "a" then encode_two v p y x else none)
encode_counts v p (x ∷ y ∷ z ∷ m) = none

abbrev encode : StateJson → Option (List ℕ)
encode sj = encode_counts sj.version sj.pages sj.counts

abbrev both : ℕ → ℕ → ℕ × ℕ → ℕ × ℕ → StateJson
both v p a b = record { version = v; pages = p; counts = ("a", a) ∷ ("b", b) ∷ [] }

abbrev decode : List ℕ → Option StateJson
decode (v ∷ p ∷ a ∷ l ∷ b ∷ k ∷ []) = some (both v p (a, l) (b, k))
decode raw = none

-- What the codec promises of a state, its map given as a list.
abbrev IsKept : ℕ → ℕ → Dict String (ℕ × ℕ) → List ℕ → Type 0
IsKept v p m raw =
    (raw ≢ [])
    × (decoded : StateJson) × (decode raw ≡ some decoded)
    × IsMap decoded.counts
    × IsSame decoded (record { version = v; pages = p; counts = m })

a_is_not_b : ◌≢◌ {A = String} "a" "b"
unfolding string_discrete
a_is_not_b e = let t : true ≡ false = ap (λ s. same_text s "a") e in cc t

both-IsMap : (a b : ℕ × ℕ) → IsMap (("a", a) ∷ ("b", b) ∷ [])
both-IsMap a b j = ground (arith, a_is_not_b)

encode_two-IsKept :
    (v p : ℕ) (i j : String) (x y a b : ℕ × ℕ) (raw : List ℕ)
    → ((sig : String)
        → lookup string_discrete sig (("a", a) ∷ ("b", b) ∷ [])
          ≡ lookup string_discrete sig ((i, x) ∷ (j, y) ∷ []))
    → encode_two v p a b ≡ some raw
    → IsKept v p ((i, x) ∷ (j, y) ∷ []) raw
encode_two-IsKept v p i j x y a b raw same e =
    let r : v ∷ p ∷ a.0 ∷ a.1 ∷ b.0 ∷ b.1 ∷ [] ≡ raw = cc e in
    (
      λ z. cc (r, z),
      both v p a b,
      ap decode (sym r),
      both-IsMap a b,
      record { version = refl; pages = refl; looked_up = same },
    )

codec :
    (v p : ℕ) (m : Dict String (ℕ × ℕ)) (raw : List ℕ)
    → encode_counts v p m ≡ some raw
    → IsKept v p m raw
unfolding lookup
codec v p [] raw e = cc e
codec v p (x ∷ []) raw e = cc e
codec v p ((i, x) ∷ (j, y) ∷ []) raw e = elim (Bool-cases (same_text i "a" && same_text j "b")) [
  | inl t ↦ encode_two-IsKept v p i j x y x y raw (λ sig. ground (arith, t)) (ground (arith, t, e))
  | inr n ↦ elim (Bool-cases (same_text i "b" && same_text j "a")) [
    | inl t ↦
        encode_two-IsKept v p i j x y y x raw (λ sig. ground (arith, t)) (ground (arith, n, t, e))
    | inr m ↦ absurd (ground (arith, n, m, e))
  ]
]
codec v p (x ∷ y ∷ z ∷ m) raw e = cc e

abbrev two_seen : State
two_seen = record {
  pages = 2;
  counts =
      ("b", record { count = 2; last_seen = 2 }) ∷ ("a", record { count = 1; last_seen = 1 }) ∷ [];
}

two_seen-IsSound : IsSound two_seen
unfolding lookup
two_seen-IsSound = record {
  bounded_pages = omega arith;
  bounded_size = omega arith;
  simple = λ j. ground (arith, a_is_not_b);
  positive = λ j c e. ground (arith, e);
  counted = λ j. ground arith;
}

parse_state-marshal_example :
    ((parse_state decode encode (1 ∷ 2 ∷ 1 ∷ 1 ∷ 2 ∷ 2 ∷ [])).pages ≡ 2)
    × ((sig : String)
        → lookup string_discrete sig (parse_state decode encode (1 ∷ 2 ∷ 1 ∷ 1 ∷ 2 ∷ 2 ∷ [])).counts
          ≡ lookup string_discrete sig two_seen.counts)
unfolding marshal string_discrete pairs
parse_state-marshal_example =
    parse_state-marshal decode encode (λ sj raw u e. codec sj.version sj.pages sj.counts raw e)
      two_seen (1 ∷ 2 ∷ 1 ∷ 1 ∷ 2 ∷ 2 ∷ []) two_seen-IsSound refl

abbrev article : ℕ → Article
article n = record { title = "News"; content = "..."; text_len = n }

-- The page as fetched has 1000 characters, the stripped page 400.
abbrev extracted : List ℕ → Option Article
extracted [] = some (article 1000)
extracted (b ∷ bytes) = some (article 400)

stripped_wins :
    (extract decode encode blank same one_hash
      (λ bytes. some page)
      (λ doc. some (1 ∷ []))
      extracted
      none
      []
      (record { state = some learned; dirty = false })).1
    ≡ some (article 400)
unfolding extract string_discrete lookup
stripped_wins = refl

extract-IsAcceptable_example :
    IsAcceptable decode encode blank same one_hash
      (λ bytes. some page)
      (λ doc. some (1 ∷ []))
      extracted
      []
      (extract decode encode blank same one_hash
        (λ bytes. some page)
        (λ doc. some (1 ∷ []))
        extracted
        none
        []
        (record { state = some learned; dirty = false })).1
extract-IsAcceptable_example =
    extract-IsAcceptable decode encode blank same one_hash (λ bytes. some page)
      (λ doc. some (1 ∷ [])) extracted none [] (record { state = some learned; dirty = false })
