-- ===== src/Fulltext/Boilerplate/Stored.antt =====
-- A state that is stored and parsed again is the same map, whatever order the encoder and the
-- decoder give to the signatures.
use feedla.Prelude.{
  ℕ, ◌≡◌, ◌≤◌, ◌==◌, refl, ◌∙◌, ap, String, string_discrete, Option, some, none, List, [], ◌∷◌,
  arith, ◌≢◌, count, if◌then◌else◌,
}
use feedla.Prelude.Dict.{Dict, lookup, lookup-insert}
use feedla.Prelude.Keys.{keys, lookup_absent}
use feedla.Fulltext.Boilerplate.{SigCount, State, StateJson, load, pairs, parse_state, marshal}
use feedla.Fulltext.Boilerplate.Evicted.{IsSimple}
use feedla.Fulltext.Boilerplate.Learning.{IsSound}

-- A list of pairs is a map: no key stands twice in it.
abbrev pub IsMap : Dict String (ℕ × ℕ) → Type 0
IsMap m = (j : String) → count string_discrete j (keys m) ≤ 1

-- The same state, the order of its map left open.
pub record IsSame (a b : StateJson) : Type 0 where
  pub version : a.version ≡ b.version
  pub pages : a.pages ≡ b.pages
  pub looked_up :
      (j : String) → lookup string_discrete j a.counts ≡ lookup string_discrete j b.counts

-- What `ParseState` makes of a signature's pair.
abbrev counted : Option (ℕ × ℕ) → Option SigCount
counted none = none
counted (some pair) =
    if pair.0 == 0 then none else some (record { count = pair.0; last_seen = pair.1 })

abbrev pair_of : Option SigCount → Option (ℕ × ℕ)
pair_of none = none
pair_of (some c) = some (c.count, c.last_seen)

lookup-load :
    (m : Dict String (ℕ × ℕ)) (j : String)
    → IsMap m
    → lookup string_discrete j (load m) ≡ counted (lookup string_discrete j m)
unfolding lookup load
lookup-load [] j u = refl
lookup-load ((sig, pair) ∷ m) j u =
    let ih = lookup-load m j (λ i. ground (arith, u i)) in
    ground (
      arith,
      ih,
      u j,
      lookup_absent string_discrete j m,
      lookup-insert string_discrete sig j (record { count = pair.0; last_seen = pair.1 }) (load m),
    )

lookup-pairs :
    (m : Dict String SigCount) (j : String)
    → lookup string_discrete j (pairs m) ≡ pair_of (lookup string_discrete j m)
unfolding lookup pairs
lookup-pairs [] j = refl
lookup-pairs ((sig, c) ∷ m) j = ground (arith, lookup-pairs m j)

pairs-IsMap : (m : Dict String SigCount) → IsSimple m → IsMap (pairs m)
unfolding pairs
pairs-IsMap m u j = omega (arith, u j, same_keys m)
  where
    same_keys :
        (m : Dict String SigCount)
        → count string_discrete j (keys (pairs m)) ≡ count string_discrete j (keys m)
    same_keys [] = refl
    same_keys ((sig, c) ∷ m) = ground (arith, same_keys m)

counted-pair_of :
    (o : Option SigCount) → ((c : SigCount) → o ≡ some c → 1 ≤ c.count) → counted (pair_of o) ≡ o
counted-pair_of none p = refl
counted-pair_of (some c) p = ground (arith, p c refl)

-- A sound state that `Marshal` encodes is, parsed again, the same in its page count and at every
-- signature. Of the encoder and the decoder this takes that the bytes of an encoded map are not
-- empty and decode to a map with the same values at the same keys, in any order.
pub parse_state-marshal :
    (unmarshal : List ℕ → Option StateJson) (marshal_json : StateJson → Option (List ℕ))
    → ((sj : StateJson) (raw : List ℕ)
        → IsMap sj.counts
        → marshal_json sj ≡ some raw
        → (raw ≢ [])
          × (decoded : StateJson) × (unmarshal raw ≡ some decoded)
          × IsMap decoded.counts
          × IsSame decoded sj)
    → (s : State) (raw : List ℕ) → IsSound s
    → marshal unmarshal marshal_json s ≡ some raw
    → ((parse_state unmarshal marshal_json raw).pages ≡ s.pages)
      × ((sig : String)
          → lookup string_discrete sig (parse_state unmarshal marshal_json raw).counts
            ≡ lookup string_discrete sig s.counts)
unfolding parse_state marshal
parse_state-marshal unmarshal marshal_json codec s [] h e =
    let c = codec _ [] (pairs-IsMap s.counts h.simple) e in absurd (c.0 refl)
parse_state-marshal unmarshal marshal_json codec s (b ∷ raw) h e =
    let (full, sj, read, u, same) = codec _ (b ∷ raw) (pairs-IsMap s.counts h.simple) e in
    rw (read, same.version)
      (
        same.pages,
        λ sig.
            lookup-load sj.counts sig u
            ∙ ap counted (same.looked_up sig ∙ lookup-pairs s.counts sig)
            ∙ counted-pair_of (lookup string_discrete sig s.counts) (h.positive sig),
      )
