-- ===== src/Api/Ended.antt =====
-- What a password change does to sessions, and that the new password is the one that works.
use feedla.Prelude.{
  ℕ, ◌≡◌, ◌≢◌, refl, sym, ap, ◌∙◌, subst, String, Bool, true, not, Option, none, some, List, ltb,
  ◌==◌, arith, inl, inr, All,
}
use feedla.Store.Table.{
  Result, ok, fail, err_not_found, count_where, All-update, All-remove, All-every, All-map,
}
use feedla.Store.Accounts.{Accounts, User, Session}
use feedla.Store.Accounts.Users.{update_user_password, update_users}
use feedla.Store.Accounts.Sessions.{delete_all_sessions_for_user}
use feedla.Store.Accounts.Sessions.Rows.{session_row}
use feedla.Auth.Password.{PasswordOps, verify_password, hash_password}
use feedla.Auth.Password.Verify.{IsCodec, verify_password-hash_password}
use feedla.Api.{Server, Request, Response, unix, min_password_len}
use feedla.Api.Middleware.{next, auth_middleware}
use feedla.Api.Protected.{HasToken, HasSession, auth_middleware-IsAdmitted}
use feedla.Api.Login.{with_accounts, is_right}
use feedla.Api.Settings.{
  PasswordChange, handle_auth_change_password, password_hashed, password_updated,
}
use feedla.Api.Started.{store_error-le, other_branch, not_failed}
use Prim.Native.String.{len}

-- What is stored where the answer is 204.
record IsChanged (ops : PasswordOps) (now : ℕ) (salt : Option (List ℕ)) (u : User)
    (req : PasswordChange) (s : Server) (w : Server × Response) : Type 0 where
  hash : String
  hashed : hash_password ops req.new salt ≡ some hash
  db : Accounts
  updated : update_user_password u.id hash (unix now) s.accounts ≡ ok db
  result : w.0 ≡ with_accounts s (delete_all_sessions_for_user u.id db)

abbrev pub NoSession : ℕ → Server → Type 0
NoSession id s = All (λ (x : Session). x.user_id ≢ id) s.accounts.sessions

delete_all-NoSession :
    (id : ℕ) (s : Server) (db : Accounts)
    → NoSession id (with_accounts s (delete_all_sessions_for_user id db))
unfolding delete_all_sessions_for_user
delete_all-NoSession id s db =
    All-remove {P = λ x. Unit} (λ (x : Session). x.user_id == id) db.sessions
      (λ x e p k. ground (arith, e, k)) (All-every db.sessions (λ x. tt))

update_user_password-All :
    (id : ℕ) (hash : String) (now : ℕ) (db db' : Accounts)
    → update_user_password id hash now db ≡ ok db'
    → All (λ (v : User). v.id ≡ id → v.password_hash ≡ hash) db'.users
unfolding update_user_password update_users
update_user_password-All id hash now db db' h =
    subst (λ (d : Accounts). All (λ (v : User). v.id ≡ id → v.password_hash ≡ hash) d.users)
      (not_failed err_not_found (count_where (λ (v : User). v.id == id) db.users == 0) _ db' h)
      (All-update {P = λ v. Unit} (λ (v : User). v.id == id)
        (λ v. record v { password_hash = hash; updated_at = now }) db.users (λ v e p k. refl)
        (λ v e p k. absurd (ground (arith, e, k))) (All-every db.users (λ v. tt)))

module _ (ops : PasswordOps) where
  hashed-IsChanged :
      (now : ℕ) (salt : Option (List ℕ)) (r : Request) (u : User) (req : PasswordChange)
      (s : Server) (o : Option String)
      → hash_password ops req.new salt ≡ o
      → (password_hashed ops now r u.id s o).1.status ≡ 204
      → IsChanged ops now salt u req s (password_hashed ops now r u.id s o)
  hashed-IsChanged now salt r u req s none e h = absurd (omega (arith, h))
  hashed-IsChanged now salt r u req s (some hash) e h =
      go (update_user_password u.id hash (unix now) s.accounts) refl h
    where
      go :
          (res : Result Accounts)
          → update_user_password u.id hash (unix now) s.accounts ≡ res
          → (password_updated ops r u.id s res).1.status ≡ 204
          → IsChanged ops now salt u req s (password_updated ops r u.id s res)
      go (fail x) k h' = absurd (omega (arith, h', store_error-le x))
      go (ok db) k h' = record { hash = hash; hashed = e; db = db; updated = k; result = refl }

  changed :
      (now : ℕ) (salt : Option (List ℕ)) (r : Request) (u : User) (req : PasswordChange)
      (s : Server)
      → let w = handle_auth_change_password ops now salt r (some u) (some req) s in
        w.1.status ≡ 204
        → (is_right (verify_password ops u.password_hash req.current) ≡ true)
          × IsChanged ops now salt u req s w
  unfolding handle_auth_change_password
  changed now salt r u req s h =
      let (e, f) =
        other_branch 204 (ltb (len req.new) min_password_len) _ _ (λ z. omega (arith, z)) h in
      let h' = subst (λ (w : Server × Response). w.1.status ≡ 204) e h in
      let (k, g) =
        other_branch 204 (not (is_right (verify_password ops u.password_hash req.current))) _ _
          (λ z. omega (arith, z)) h' in
      let h'' = subst (λ (w : Server × Response). w.1.status ≡ 204) k h' in
      (
        ground (arith, g),
        subst (IsChanged ops now salt u req s) (sym (e ∙ k))
            (hashed-IsChanged now salt r u req s (hash_password ops req.new salt) refl h''),
      )

  -- On the server that a password change leaves which answers with 204, no request at any time
  -- passes the gate as that account by a session: only its API tokens still do.
  pub change_password_ends_sessions :
      (parse_host : String → Option String) (equal_fold : String → String → Bool) (now : ℕ)
      (salt : Option (List ℕ)) (r : Request) (u : User) (req : PasswordChange) (s : Server)
      → let w = handle_auth_change_password ops now salt r (some u) (some req) s in
        w.1.status ≡ 204
        → (now' : ℕ) (r' : Request) (v : User)
        → (auth_middleware ops parse_host equal_fold now' r' w.0).1 ≡ next (some v)
        → v.id ≡ u.id
        → HasToken ops r' w.0 v
  change_password_ends_sessions parse_host equal_fold now salt r u req s h now' r' v g e =
      elim (auth_middleware-IsAdmitted ops parse_host equal_fold now' r' w.0 v g) [
        | inl t ↦ t
        | inr (t, c) ↦ absurd (by_session t)
      ]
    where
      w : Server × Response
      w = handle_auth_change_password ops now salt r (some u) (some req) s

      none_left : NoSession u.id w.0
      none_left =
          let c = (changed now salt r u req s h).1 in
          subst (NoSession u.id) (sym c.result) (delete_all-NoSession u.id s c.db)

      by_session : HasSession ops now' r' w.0 v → ⊥
      by_session t =
          let row =
            session_row (λ x. Unit) (λ (x : Session). x.user_id ≢ u.id) _ w.0.accounts t.session v
              none_left (All-every w.0.accounts.users (λ x. tt)) t.known in
          row.2 (sym row.1 ∙ e)

  -- A password change that answers with 204 was given the old password, and each row of the account
  -- then has a hash that verifies the new one.
  pub change_password_verifies :
      IsCodec ops
      → (now : ℕ) (salt : List ℕ) (r : Request) (u : User) (req : PasswordChange) (s : Server)
      → let w = handle_auth_change_password ops now (some salt) r (some u) (some req) s in
        w.1.status ≡ 204
        → (is_right (verify_password ops u.password_hash req.current) ≡ true)
          × All
              (λ (v : User). v.id ≡ u.id → verify_password ops v.password_hash req.new ≡ some true)
              w.0.accounts.users
  unfolding delete_all_sessions_for_user
  change_password_verifies codec now salt r u req s h =
      let (right, c) = changed now (some salt) r u req s h in
      let verified = (verify_password-hash_password ops req.new salt c.hash codec c.hashed).0 in
      (
        right,
        subst
            (λ (z : Server).
              All
                (λ (v : User).
                  v.id ≡ u.id → verify_password ops v.password_hash req.new ≡ some true)
                z.accounts.users)
            (sym c.result)
            (All-map c.db.users (λ v k e. ap (λ x. verify_password ops x req.new) (k e) ∙ verified)
              (update_user_password-All u.id c.hash (unix now) s.accounts c.db c.updated)),
      )
