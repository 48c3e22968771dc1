-- ===== src/Prelude/Dict.antt =====
-- Go's `map[K]V` as an association list: lookup, assignment and `delete`, with their laws.
use mathlib.Core.Path.{◌≡◌, refl}
use mathlib.Core.Logic.{ite, ◌⊎◌, inl, inr}
use mathlib.Core.Bool.{Bool, true, false}
use mathlib.Core.Option.{Option, none, some}
use mathlib.Core.List.{List, [], ◌∷◌}
use native.Mathlib.Omega.{arith}
use feedla.Prelude.Tests.{Bool-cases}

abbrev pub Dict {ℓ} : Type ℓ → Type ℓ → Type ℓ
Dict K V = List (K × V)

module _ {ℓ} {K V : Type ℓ} (eq : Discrete K) where
  unfoldable pub lookup : K → Dict K V → Option V
  lookup k [] = none
  lookup k ((j, v) ∷ m) = ite (eq j k) (some v) (lookup k m)

  unfoldable pub insert : K → V → Dict K V → Dict K V
  insert k v [] = (k, v) ∷ []
  insert k v ((j, w) ∷ m) = ite (eq j k) ((k, v) ∷ m) ((j, w) ∷ insert k v m)

  unfoldable pub delete : K → Dict K V → Dict K V
  delete k [] = []
  delete k ((j, w) ∷ m) = ite (eq j k) (delete k m) ((j, w) ∷ delete k m)

  pub lookup-insert :
      (k j : K) (v : V) (m : Dict K V)
      → lookup j (insert k v m) ≡ ite (eq k j) (some v) (lookup j m)
  unfolding lookup insert
  lookup-insert k j v [] = refl
  lookup-insert k j v ((i, w) ∷ m) = ground (arith, lookup-insert k j v m)

  pub lookup-delete :
      (k j : K) (m : Dict K V) → lookup j (delete k m) ≡ ite (eq k j) none (lookup j m)
  unfolding lookup delete
  lookup-delete k j [] = ground arith
  lookup-delete k j ((i, w) ∷ m) = ground (arith, lookup-delete k j m)

  -- The entries whose key passes a test.
  unfoldable pub retain : (K → Bool) → Dict K V → Dict K V
  retain p [] = []
  retain p ((j, w) ∷ m) =
      let rest = retain p m in elim (p j) [ true ↦ (j, w) ∷ rest | false ↦ rest ]

  pub lookup-retain :
      (p : K → Bool) (k : K) (m : Dict K V)
      → ((p k ≡ true) × (lookup k (retain p m) ≡ lookup k m))
        ⊎ ((p k ≡ false) × (lookup k (retain p m) ≡ none))
  unfolding lookup retain
  lookup-retain p k [] = elim (Bool-cases (p k)) [ inl e ↦ inl (e, refl) | inr e ↦ inr (e, refl) ]
  lookup-retain p k ((j, w) ∷ m) = ground (arith, lookup-retain p k m)
