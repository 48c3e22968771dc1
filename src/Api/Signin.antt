-- ===== src/Api/Signin.antt =====
-- What a login that succeeds rests on, and what one that fails tells.
use feedla.Prelude.{
  ℕ, ◌≡◌, ◌≢◌, refl, sym, ap, ◌∙◌, subst, String, Bool, true, false, not, ◌||◌, Option, none, some,
  if◌then◌else◌, arith, inl, inr, ◌⊎◌, Bool-cases,
}
use feedla.Store.Table.{Result, ok, fail, StoreError}
use feedla.Store.Accounts.{User}
use feedla.Store.Accounts.Users.{get_user_by_username}
use feedla.Auth.LoginLimiter.{LoginLimiter, allow, record_failure, record_success}
use feedla.Auth.Password.{PasswordOps, verify_password}
use feedla.Api.{Server, Request, Response, write_error}
use feedla.Api.Login.{
  Credentials, Random, is_right, with_accounts, with_limiter, start_session, client_ip,
  refuse_login, login_as, handle_auth_login, rehashed,
}
use feedla.Api.Started.{start_session-IsStarted, other_branch, IsStarted}

-- The user's row, the password and the limiter that a login rests on.
pub record IsGranted (ops : PasswordOps) (fold : String → String) (ip : String) (now : ℕ)
    (req : Credentials) (s : Server) (u : User) : Type 0 where
  pub allowed : (allow s.login_limiter req.username ip now).1 ≡ true
  pub named : get_user_by_username fold req.username s.accounts ≡ ok u
  pub verified : verify_password ops u.password_hash req.password ≡ some true
  pub enabled : u.is_disabled ≡ false

right_some : (o : Option Bool) → is_right o ≡ true → o ≡ some true
right_some none h = cc h
right_some (some b) h = ap some h

both : (a b : Bool) → (not a || b) ≡ false → (a ≡ true) × (b ≡ false)
both true b h = (refl, h)
both false b h = cc h

not-true : (b : Bool) → not b ≡ false → b ≡ true
not-true true h = refl
not-true false h = cc h

module _ (ops : PasswordOps) (fold trim : String → String)
    (split_host : String → Option String) where
  -- The server on which the session of a login starts.
  abbrev pub signed_in : ℕ → Random → Request → Credentials → User → Server → Server
  signed_in now random r req u s =
      let asked =
        (allow s.login_limiter req.username (client_ip ops fold trim split_host r) now).0 in
      with_limiter
        (with_accounts (with_limiter s asked)
          (rehashed ops fold trim split_host now random.salt req u s.accounts))
        (record_success asked req.username)

  login_as-lem :
      (now : ℕ) (random : Random) (r : Request) (req : Credentials) (s : Server) (res : Result User)
      → (login_as ops fold trim split_host now random r req s res).1.status ≡ 200
      → (u : User) × (res ≡ ok u)
        × (verify_password ops u.password_hash req.password ≡ some true)
        × (u.is_disabled ≡ false)
        × (login_as ops fold trim split_host now random r req s res
            ≡ start_session ops now random.token r u.id (
                with_limiter
                  (with_accounts s
                    (rehashed ops fold trim split_host now random.salt req u s.accounts))
                  (record_success s.login_limiter req.username)))
  login_as-lem now random r req s (fail e) h = absurd (omega (arith, h))
  login_as-lem now random r req s (ok u) h =
      let right = is_right (verify_password ops u.password_hash req.password) in
      let (e, f) = other_branch 200 (not right || u.is_disabled) _ _ (λ z. omega (arith, z)) h in
      let (v, d) = both right u.is_disabled f in (u, refl, right_some _ v, d, e)

  -- A login that answers with 200 had the limiter's permission and the right password of an account
  -- that is not disabled, and it starts a session of that account, whose token the cookie carries.
  pub handle_auth_login-IsGranted :
      (now : ℕ) (random : Random) (r : Request) (req : Credentials) (s : Server)
      → (handle_auth_login ops fold trim split_host now random r (some req) s).1.status ≡ 200
      → (u : User) × IsGranted ops fold (client_ip ops fold trim split_host r) now req s u
        × IsStarted ops now random.token r u.id
            (signed_in now random r req u s)
            (handle_auth_login ops fold trim split_host now random r (some req) s)
  unfolding handle_auth_login
  handle_auth_login-IsGranted now random r req s h =
      let ip = client_ip ops fold trim split_host r in
      let asked = allow s.login_limiter req.username ip now in
      let found = get_user_by_username fold req.username s.accounts in
      let (e, f) = other_branch 200 (not asked.1) _ _ (λ z. omega (arith, z)) h in
      let h' = subst (λ (w : Server × Response). w.1.status ≡ 200) e h in
      let (u, n, v, d, k) = login_as-lem now random r req (with_limiter s asked.0) found h' in
      (
        u,
        record { allowed = not-true asked.1 f; named = n; verified = v; enabled = d },
        subst (IsStarted ops now random.token r u.id (signed_in now random r req u s)) (sym (e ∙ k))
            (start_session-IsStarted ops now random.token r u.id (signed_in now random r req u s)
              (subst (λ (w : Server × Response). w.1.status ≡ 200) k h')),
      )

  -- The attempt is wrong: no such account, no such password, or the account is disabled.
  abbrev pub IsWrong : Credentials → Server → Type 0
  IsWrong req s =
      ((e : StoreError) × (get_user_by_username fold req.username s.accounts ≡ fail e))
      ⊎ ((u : User) × (get_user_by_username fold req.username s.accounts ≡ ok u)
          × ((verify_password ops u.password_hash req.password ≢ some true)
              ⊎ (u.is_disabled ≡ true)))

  refused :
      (now : ℕ) (random : Random) (r : Request) (req : Credentials) (s t : Server)
      → IsWrong req s
      → login_as ops fold trim split_host now random r req t
          (get_user_by_username fold req.username s.accounts)
        ≡ refuse_login ops fold trim split_host now req.username
            (client_ip ops fold trim split_host r)
            t
  refused now random r req s t (inl (e, k)) = rw k refl
  refused now random r req s t (inr (u, k, inl v)) =
      rw (k, wrong (verify_password ops u.password_hash req.password) v, if◌then◌else◌) refl
    where
      wrong : (o : Option Bool) → o ≢ some true → is_right o ≡ false
      wrong none v' = refl
      wrong (some true) v' = absurd (v' refl)
      wrong (some false) v' = refl
  refused now random r req s t (inr (u, k, inr d)) =
      rw
        (
          k,
          d,
          last (not (is_right (verify_password ops u.password_hash req.password))),
          if◌then◌else◌,
        )
        refl
    where
      last : (b : Bool) → (b || true) ≡ true
      last true = refl
      last false = refl

  -- The limiter and the response after a wrong attempt.
  abbrev after_refusal : ℕ → String → String → LoginLimiter → LoginLimiter × Response
  after_refusal now username ip l =
      let asked = allow l username ip now in
      if not asked.1
      then (asked.0, write_error 429 "too many attempts, try again later")
      else (record_failure asked.0 username ip now, write_error 401 "invalid username or password")

  wrong_login :
      (now : ℕ) (random : Random) (r : Request) (req : Credentials) (s : Server)
      → IsWrong req s
      → handle_auth_login ops fold trim split_host now random r (some req) s ≡ (
        with_limiter s
            (after_refusal now req.username
              (client_ip ops fold trim split_host r)
              s.login_limiter).0,
        (after_refusal now req.username (client_ip ops fold trim split_host r) s.login_limiter).1,
      )
  unfolding handle_auth_login
  wrong_login now random r req s a =
      let ip = client_ip ops fold trim split_host r in
      let asked = allow s.login_limiter req.username ip now in
      elim (Bool-cases asked.1) [
        | inl e ↦ rw (e, if◌then◌else◌) (refused now random r req s (with_limiter s asked.0) a)
        | inr e ↦ rw (e, if◌then◌else◌) refl
      ]

  -- A wrong attempt tells nothing about the accounts: on two servers with the same limiter, where
  -- it is wrong for whatever reason, the responses and the limiters after it are the same, and both
  -- leave the accounts as they are.
  pub login_no_oracle :
      (now : ℕ) (random : Random) (r : Request) (req : Credentials) (s t : Server)
      → s.login_limiter ≡ t.login_limiter
      → IsWrong req s
      → IsWrong req t
      → let w = handle_auth_login ops fold trim split_host now random r (some req) s in
        let v = handle_auth_login ops fold trim split_host now random r (some req) t in
        (w.1 ≡ v.1)
        × (w.0.login_limiter ≡ v.0.login_limiter)
        × (w.0.accounts ≡ s.accounts)
        × (v.0.accounts ≡ t.accounts)
  login_no_oracle now random r req s t e a b =
      let ip = client_ip ops fold trim split_host r in
      let w = wrong_login now random r req s a in
      let v = wrong_login now random r req t b in
      (
        ap (λ z. z.1) w
            ∙ ap (λ l. (after_refusal now req.username ip l).1) e
            ∙ sym (ap (λ z. z.1) v),
        ap (λ (z : Server × Response). z.0.login_limiter) w
            ∙ ap (λ l. (after_refusal now req.username ip l).0) e
            ∙ sym (ap (λ (z : Server × Response). z.0.login_limiter) v),
        ap (λ (z : Server × Response). z.0.accounts) w,
        ap (λ (z : Server × Response). z.0.accounts) v,
      )
