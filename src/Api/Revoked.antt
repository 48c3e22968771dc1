-- ===== src/Api/Revoked.antt =====
-- What a password change, a logout and a disabled account take away.
use feedla.Prelude.{
  ℕ, ◌≡◌, ◌≢◌, refl, subst, String, Bool, true, false, not, Option, none, some, List, [], ◌∷◌, ◌==◌,
  if◌then◌else◌, arith, inl, inr, Bool-cases, All, Option-cases,
}
use feedla.Store.Table.{
  Result, ok, fail, StoreError, err_not_found, err_conflict, err_last_admin, err_invitation_invalid,
  err_other, update, count_where, All-update, All-every,
}
use feedla.Store.Accounts.{Accounts, User, find_user}
use feedla.Store.Accounts.Users.{
  set_user_disabled, disable_rows, check_disable, get_user_by_id, set_user_admin,
}
use feedla.Store.Accounts.Sessions.Owner.{session_owner_enabled}
use feedla.Store.Accounts.Sessions.Rows.{session_row, token_row}
use feedla.Store.Accounts.Tokens.{ApiToken, token_owner, find_token, get_api_token_by_hash}
use feedla.Auth.Password.{PasswordOps}
use feedla.Api.{Server, Request, Response, store_err_status, write_store_error, write_error, unix}
use feedla.Api.Middleware.{next, auth_middleware}
use feedla.Api.Protected.{IsAdmitted, auth_middleware-IsAdmitted}
use feedla.Api.Login.{with_accounts}
use feedla.Api.Admin.{
  UserPatch, handle_admin_patch_user, patched_disabled, patched, row_of, patch_id,
}

token_owner_enabled :
    (users : List User) (s t : ApiToken) (u : User)
    → token_owner users s ≡ some (t, u)
    → u.is_disabled ≡ false
unfolding token_owner
token_owner_enabled [] s t u h = cc h
token_owner_enabled (x ∷ users) s t u h = ground (arith, h, token_owner_enabled users s t u)

find_token_enabled :
    (token : String) (users : List User) (tokens : List ApiToken) (s : ApiToken) (u : User)
    → find_token token users tokens ≡ some (s, u)
    → u.is_disabled ≡ false
unfolding find_token
find_token_enabled token users [] s u h = cc h
find_token_enabled token users (x ∷ tokens) s u h =
    ground (arith, h, token_owner_enabled users x s u, find_token_enabled token users tokens s u)

token_enabled :
    (token : String) (users : List User) (tokens : List ApiToken) (s : ApiToken) (u : User)
    → get_api_token_by_hash token users tokens ≡ ok (s, u)
    → u.is_disabled ≡ false
unfolding get_api_token_by_hash
token_enabled token users tokens s u h = elim (Option-cases (find_token token users tokens)) [
  | inl e ↦ cc (h, e)
  | inr ((t, v), e) ↦ find_token_enabled token users tokens s u (cc (h, e))
]

-- The account is disabled in each of its rows.
abbrev IsLocked : ℕ → List User → Type 0
IsLocked id users = All (λ (u : User). u.id ≡ id → u.is_disabled ≡ true) users

disable_rows-IsLocked :
    (id now : ℕ) (db db' : Accounts) → disable_rows id true now db ≡ ok db' → IsLocked id db'.users
unfolding disable_rows
disable_rows-IsLocked id now db db' h =
    elim (Bool-cases (count_where (λ (u : User). u.id == id) db.users == 0)) [
      | inl t ↦ absurd (refused t)
      | inr t ↦ subst (IsLocked id) (users_of t) (
          All-update {P = λ u. Unit} (λ (u : User). u.id == id)
            (λ u. record u { is_disabled = true; updated_at = now }) db.users (λ u e p k. refl)
            (λ u e p k. ground (arith, e, k)) (All-every db.users (λ u. tt)))
    ]
  where
    refused : (count_where (λ (u : User). u.id == id) db.users == 0) ≡ true → ⊥
    refused t = ground (arith, h, t)

    users_of :
        (count_where (λ (u : User). u.id == id) db.users == 0) ≡ false
        → update
            (λ (u : User). u.id == id)
            (λ u. record u { is_disabled = true; updated_at = now })
            db.users
          ≡ db'.users
    users_of t = ground (arith, h, t)

set_user_disabled-IsLocked :
    (id now : ℕ) (db db' : Accounts)
    → set_user_disabled id true now db ≡ ok db'
    → IsLocked id db'.users
unfolding set_user_disabled
set_user_disabled-IsLocked id now db db' h =
    go (check_disable id db.users (find_user id db.users)) h
  where
    go :
        (r : Result Bool)
        → elim r [ fail e ↦ fail e | ok b ↦ disable_rows id true now db ] ≡ ok db'
        → IsLocked id db'.users
    go (fail e) k = cc k
    go (ok b) k = disable_rows-IsLocked id now db db' k

refusal : (e : StoreError) → store_err_status e ≡ 200 → ⊥
refusal err_not_found h = omega arith
refusal err_conflict h = omega arith
refusal err_last_admin h = omega arith
refusal err_invitation_invalid h = omega arith
refusal err_other h = omega arith

patched_disabled-IsLocked :
    (now id : ℕ) (s : Server)
    → (patched_disabled now id (some true) s).1.status ≡ 200
    → IsLocked id (patched_disabled now id (some true) s).0.accounts.users
patched_disabled-IsLocked now id s h = go (set_user_disabled id true (unix now) s.accounts) refl h
  where
    done : Result Accounts → Server × Response
    done res = elim res [
      | fail e ↦ (s, write_store_error e)
      | ok db ↦ (with_accounts s db, row_of 200 (get_user_by_id id db))
    ]

    go :
        (res : Result Accounts)
        → set_user_disabled id true (unix now) s.accounts ≡ res
        → (done res).1.status ≡ 200
        → IsLocked id (done res).0.accounts.users
    go (fail e) k h' = absurd (refusal e h')
    go (ok db) k h' = set_user_disabled-IsLocked id (unix now) s.accounts db k

patched-IsLocked :
    (now id : ℕ) (a : Option Bool) (s : Server)
    → (patched now id (record { is_admin = a; is_disabled = some true }) a s).1.status ≡ 200
    → IsLocked id
        (patched now id (record { is_admin = a; is_disabled = some true }) a s).0.accounts.users
patched-IsLocked now id none s h = patched_disabled-IsLocked now id s h
patched-IsLocked now id (some a) s h = go (set_user_admin id a (unix now) s.accounts) h
  where
    done : Result Accounts → Server × Response
    done res = elim res [
      | fail e ↦ (s, write_store_error e)
      | ok db ↦ patched_disabled now id (some true) (with_accounts s db)
    ]

    go :
        (res : Result Accounts)
        → (done res).1.status ≡ 200
        → IsLocked id (done res).0.accounts.users
    go (fail e) h' = absurd (refusal e h')
    go (ok db) h' = patched_disabled-IsLocked now id (with_accounts s db) h'

patch_user-IsLocked :
    (now id : ℕ) (user : Option User) (a : Option Bool) (s : Server)
    → let w =
        handle_admin_patch_user now user
          (some id)
          (some (record { is_admin = a; is_disabled = some true }))
          s in
      w.1.status ≡ 200 → IsLocked id w.0.accounts.users
unfolding handle_admin_patch_user
patch_user-IsLocked now id none a s h = absurd (omega (arith, h))
patch_user-IsLocked now id (some u) a s h = go u.is_admin h
  where
    body : Option UserPatch
    body = some (record { is_admin = a; is_disabled = some true })

    done : Option Response → Server × Response
    done w = elim w [ some w' ↦ (s, w') | none ↦ patch_id now (some id) body s ]

    go :
        (b : Bool)
        → (done (if not b then some (write_error 403 "admin only") else none)).1.status ≡ 200
        → IsLocked id
            (done (if not b then some (write_error 403 "admin only") else none)).0.accounts.users
    go true k = patched-IsLocked now id a s k
    go false k = absurd (omega (arith, k))

module _ (ops : PasswordOps) (parse_host : String → Option String)
    (equal_fold : String → String → Bool) where
  locked_not_admitted :
      (id now : ℕ) (r : Request) (s : Server) (u : User)
      → IsLocked id s.accounts.users
      → IsAdmitted ops parse_host equal_fold now r s u
      → u.id ≢ id
  locked_not_admitted id now r s u a (inl t) e =
      let row =
        token_row (λ (v : User). v.id ≡ id → v.is_disabled ≡ true) (λ x. Unit) _ s.accounts.users
          s.api_tokens t.token u (All-every s.api_tokens (λ x. tt)) a t.known in
      cc (row.3 e, token_enabled _ s.accounts.users s.api_tokens t.token u t.known)
  locked_not_admitted id now r s u a (inr (t, c)) e =
      let row =
        session_row (λ (v : User). v.id ≡ id → v.is_disabled ≡ true) (λ x. Unit) _ s.accounts
          t.session u (All-every s.accounts.sessions (λ x. tt)) a t.known in
      cc (row.3 e, (session_owner_enabled _ s.accounts t.session u t.known).2)

  -- On the server that an administrator's call leaves which disables an account and answers with
  -- 200, no request at any time passes the gate as that account, by session or by token.
  pub disabled_locked_out :
      (now id : ℕ) (user : Option User) (a : Option Bool) (s : Server)
      → let w =
          handle_admin_patch_user now user
            (some id)
            (some (record { is_admin = a; is_disabled = some true }))
            s in
        w.1.status ≡ 200
        → (now' : ℕ) (r : Request) (u : User)
        → (auth_middleware ops parse_host equal_fold now' r w.0).1 ≡ next (some u)
        → u.id ≢ id
  disabled_locked_out now id user a s h now' r u g =
      let s' =
        (handle_admin_patch_user now user (some id)
          (some (record { is_admin = a; is_disabled = some true })) s).0 in
      locked_not_admitted id now' r s' u (patch_user-IsLocked now id user a s h)
        (auth_middleware-IsAdmitted ops parse_host equal_fold now' r s' u g)
