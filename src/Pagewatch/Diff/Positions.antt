-- ===== src/Pagewatch/Diff/Positions.antt =====
-- Indices into a sequence and what is left of it from there.
use native.Mathlib.Numerals.{add-one}
use feedla.Prelude.{ℕ, zero, suc, ◌+◌, ◌≡◌, refl, String, List, [], ◌∷◌, get_or, drop}
use feedla.Pagewatch.Diff.{keys_at, rest_of}

module _ {ℓ} {A : Type ℓ} where
  pub get_or-drop :
      (xs : List A) (j : ℕ) (d : A) {c : A} {cs : List A} → drop j xs ≡ c ∷ cs → get_or xs j d ≡ c
  get_or-drop [] zero d h = cc
  get_or-drop [] (suc j) d h = cc
  get_or-drop (x ∷ xs) zero d h = cc
  get_or-drop (x ∷ xs) (suc j) d h = get_or-drop xs j d h

  drop-suc : (xs : List A) (j : ℕ) {c : A} {cs : List A} → drop j xs ≡ c ∷ cs → drop (suc j) xs ≡ cs
  drop-suc [] zero h = cc
  drop-suc [] (suc j) h = cc
  drop-suc (x ∷ xs) zero h = cc
  drop-suc (x ∷ xs) (suc j) h = drop-suc xs j h

  pub drop-next :
      (xs : List A) (j : ℕ) {c : A} {cs : List A} → drop j xs ≡ c ∷ cs → drop (j + 1) xs ≡ cs
  drop-next xs j h = rw add-one (drop-suc xs j h)

pub keys_at-rest_of :
    (ys xs : List String) (j : ℕ) → drop j xs ≡ ys → keys_at xs (rest_of j ys) ≡ ys
unfolding rest_of
keys_at-rest_of [] xs j h = refl
keys_at-rest_of (y ∷ ys) xs j h =
    cc (get_or-drop xs j "" h, keys_at-rest_of ys xs (j + 1) (drop-next xs j h))
