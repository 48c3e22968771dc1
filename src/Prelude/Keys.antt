-- ===== src/Prelude/Keys.antt =====
-- The keys of an association list: what assignment and deletion do to them.
use mathlib.Core.Path.{◌≡◌, refl}
use mathlib.Core.Logic.{ite, ◌≢◌}
use mathlib.Core.Option.{none, some}
use mathlib.Core.List.{List, [], ◌∷◌}
use native.Mathlib.Omega.{arith}
use Prim.Native.Nat.{◌+◌, ◌≤◌, max}
use feedla.Prelude.Lists.{length, count}
use feedla.Prelude.Dict.{Dict, lookup, insert, delete}

abbrev pub keys {ℓ} : {K V : Type ℓ} → Dict K V → List K
keys [] = []
keys ((k, v) ∷ m) = k ∷ keys m

module _ {K V : Type 0} (eq : Discrete K) where
  count-keys-insert_other :
      (k j : K) (v : V) (m : Dict K V)
      → k ≢ j
      → count eq j (keys (insert eq k v m)) ≡ count eq j (keys m)
  unfolding insert
  count-keys-insert_other k j v [] h = ground (arith, h)
  count-keys-insert_other k j v ((i, w) ∷ m) h =
      ground (arith, h, count-keys-insert_other k j v m h)

  count-keys-insert_same :
      (k : K) (v : V) (m : Dict K V)
      → count eq k (keys (insert eq k v m)) ≡ max 1 (count eq k (keys m))
  unfolding insert
  count-keys-insert_same k v [] = ground arith
  count-keys-insert_same k v ((i, w) ∷ m) =
      let ih = count-keys-insert_same k v m in ground (arith, ih)

  pub count-keys-insert :
      (k j : K) (v : V) (m : Dict K V)
      → count eq j (keys (insert eq k v m))
        ≡ ite (eq k j) (max 1 (count eq j (keys m))) (count eq j (keys m))
  count-keys-insert k j v m =
      ground (arith, count-keys-insert_other k j v m, count-keys-insert_same k v m)

  pub count-keys-delete :
      (k j : K) (m : Dict K V)
      → count eq j (keys (delete eq k m)) ≡ ite (eq k j) 0 (count eq j (keys m))
  unfolding delete
  count-keys-delete k j [] = ground arith
  count-keys-delete k j ((i, w) ∷ m) = ground (arith, count-keys-delete k j m)

  pub length-delete :
      (k : K) (m : Dict K V) → length (delete eq k m) + count eq k (keys m) ≡ length m
  unfolding delete
  length-delete k [] = refl
  length-delete k ((i, w) ∷ m) = ground (arith, length-delete k m)

  pub lookup_absent : (k : K) (m : Dict K V) → count eq k (keys m) ≡ 0 → lookup eq k m ≡ none
  unfolding lookup
  lookup_absent k [] h = refl
  lookup_absent k ((i, w) ∷ m) h = ground (arith, lookup_absent k m)

  pub count_present :
      (k : K) (v : V) (m : Dict K V) → lookup eq k m ≡ some v → 1 ≤ count eq k (keys m)
  unfolding lookup
  count_present k v [] h = cc h
  count_present k v ((i, w) ∷ m) h = ground (arith, h, count_present k v m)
