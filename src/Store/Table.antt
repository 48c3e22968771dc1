-- ===== src/Store/Table.antt =====
-- SQL on a table that is a list of rows: UPDATE and DELETE with a condition, COUNT(*), the next
-- row id (SQLite's: one more than the largest), and the result of a call that can fail.
use feedla.Prelude.{
  ℕ, suc, ◌+◌, ◌≤◌, ◌<◌, ◌≡◌, refl, sym, subst, Bool, true, false, List, [], ◌∷◌, ◌++◌, max, arith,
  All, inl, inr, Bool-cases,
}

-- `ErrNotFound`, `ErrConflict`, `ErrLastAdmin`, `ErrInvitationInvalid`, and an error without a
-- name.
pub data StoreError : Type 0 where
  err_not_found : StoreError
  err_conflict : StoreError
  err_last_admin : StoreError
  err_invitation_invalid : StoreError
  err_other : StoreError

-- A transaction that fails is rolled back: it has no new tables.
pub data Result {ℓ} (A : Type ℓ) : Type ℓ where
  ok : A → Result A
  fail : StoreError → Result A

-- The tables after a transaction on them.
abbrev pub committed {ℓ} : {A : Type ℓ} → A → Result A → A
committed db (ok db') = db'
committed db (fail e) = db

module _ {ℓ} {A : Type ℓ} where
  -- `UPDATE ... WHERE p`
  unfoldable pub update : (A → Bool) → (A → A) → List A → List A
  update p f [] = []
  update p f (x ∷ xs) =
      let rest = update p f xs in elim (p x) [ true ↦ f x ∷ rest | false ↦ x ∷ rest ]

  -- `DELETE ... WHERE p`
  unfoldable pub remove : (A → Bool) → List A → List A
  remove p [] = []
  remove p (x ∷ xs) = let rest = remove p xs in elim (p x) [ true ↦ rest | false ↦ x ∷ rest ]

  -- `SELECT COUNT(*) ... WHERE p`
  unfoldable pub count_where : (A → Bool) → List A → ℕ
  count_where p [] = 0
  count_where p (x ∷ xs) =
      let rest = count_where p xs in elim (p x) [ true ↦ suc rest | false ↦ rest ]

  unfoldable pub next_id : (A → ℕ) → List A → ℕ
  next_id id [] = 1
  next_id id (x ∷ xs) = max (suc (id x)) (next_id id xs)

  pub next_id-lt : (id : A → ℕ) (xs : List A) → All (λ x. id x < next_id id xs) xs
  unfolding next_id
  next_id-lt id xs = bound xs (next_id id xs) (omega arith)
    where
      bound : (ys : List A) (n : ℕ) → next_id id ys ≤ n → All (λ x. id x < n) ys
      bound [] n h = tt
      bound (y ∷ ys) n h = (omega arith, bound ys n (omega arith))

  pub All-append {κ} : (P : A → Type κ) (xs ys : List A) → All P xs → All P ys → All P (xs ++ ys)
  All-append P [] ys a b = b
  All-append P (x ∷ xs) ys (p, a) b = (p, All-append P xs ys a b)

  pub All-map {κ} : {P Q : A → Type κ} (xs : List A) → ((x : A) → P x → Q x) → All P xs → All Q xs
  All-map [] f a = tt
  All-map (x ∷ xs) f (p, a) = (f x p, All-map xs f a)

  pub All-every {κ} : {P : A → Type κ} (xs : List A) → ((x : A) → P x) → All P xs
  All-every [] f = tt
  All-every (x ∷ xs) f = (f x, All-every xs f)

  update-hit :
      (t : A → Bool) (f : A → A) (x : A) (xs : List A)
      → t x ≡ true
      → update t f (x ∷ xs) ≡ f x ∷ update t f xs
  unfolding update
  update-hit t f x xs e = rw (e, update) refl

  update-miss :
      (t : A → Bool) (f : A → A) (x : A) (xs : List A)
      → t x ≡ false
      → update t f (x ∷ xs) ≡ x ∷ update t f xs
  unfolding update
  update-miss t f x xs e = rw (e, update) refl

  pub remove-hit :
      (t : A → Bool) (x : A) (xs : List A) → t x ≡ true → remove t (x ∷ xs) ≡ remove t xs
  unfolding remove
  remove-hit t x xs e = rw (e, remove) refl

  pub remove-miss :
      (t : A → Bool) (x : A) (xs : List A) → t x ≡ false → remove t (x ∷ xs) ≡ x ∷ remove t xs
  unfolding remove
  remove-miss t x xs e = rw (e, remove) refl

  pub All-update {κ} :
      {P Q : A → Type κ} (t : A → Bool) (f : A → A) (xs : List A)
      → ((x : A) → t x ≡ true → P x → Q (f x))
      → ((x : A) → t x ≡ false → P x → Q x)
      → All P xs
      → All Q (update t f xs)
  unfolding update
  All-update {Q = Q} t f [] g h a = tt
  All-update {Q = Q} t f (x ∷ xs) g h (p, a) = elim (Bool-cases (t x)) [
    | inl e ↦ subst (All Q) (sym (update-hit t f x xs e)) (g x e p, All-update t f xs g h a)
    | inr e ↦ subst (All Q) (sym (update-miss t f x xs e)) (h x e p, All-update t f xs g h a)
  ]

  pub All-remove {κ} :
      {P Q : A → Type κ} (t : A → Bool) (xs : List A)
      → ((x : A) → t x ≡ false → P x → Q x)
      → All P xs
      → All Q (remove t xs)
  unfolding remove
  All-remove {Q = Q} t [] h a = tt
  All-remove {Q = Q} t (x ∷ xs) h (p, a) = elim (Bool-cases (t x)) [
    | inl e ↦ subst (All Q) (sym (remove-hit t x xs e)) (All-remove t xs h a)
    | inr e ↦ subst (All Q) (sym (remove-miss t x xs e)) (h x e p, All-remove t xs h a)
  ]

  pub count_where-append :
      (t : A → Bool) (xs ys : List A)
      → count_where t (xs ++ ys) ≡ count_where t xs + count_where t ys
  unfolding count_where
  count_where-append t [] ys = omega arith
  count_where-append t (x ∷ xs) ys = ground (arith, count_where-append t xs ys)
