-- ===== src/Api/Protected.antt =====
-- Who passes the gate, and with what.
use feedla.Prelude.{
  ℕ, ◌+◌, ◌*◌, ◌≤◌, ◌≡◌, refl, sym, ap, ◌∙◌, String, string_discrete, Bool, true, false, Option,
  none, some, ltb, if◌then◌else◌, contains, arith, inl, inr, ◌⊎◌, Bool-cases, subst,
}
use feedla.Store.Table.{Result, ok, fail}
use feedla.Store.Accounts.{User, Session}
use feedla.Store.Accounts.Sessions.{get_session_by_token_hash, touch_session}
use feedla.Store.Accounts.Tokens.{ApiToken, get_api_token_by_hash}
use feedla.Auth.LoginLimiter.{second}
use feedla.Auth.Password.{PasswordOps, hash_token}
use feedla.Api.{Server, Request, unix, session_cookie_from_request}
use feedla.Api.Middleware.{
  session_idle_timeout, touch_throttle, touched_session, public_paths, raw_token, is_safe_method,
  token_answer, session_answer, token_for, authenticate_token, session_for, authenticate_session,
  check_origin, route, is_metrics, Gate, next, cookie_gate, session_gate, token_gate,
  auth_middleware,
}

-- The request bears a token of the user.
pub record HasToken (ops : PasswordOps) (r : Request) (s : Server) (u : User) : Type 0 where
  pub raw : String
  pub token : ApiToken
  pub presented : raw_token r ≡ some raw
  pub known :
      get_api_token_by_hash (hash_token ops raw) s.accounts.users s.api_tokens ≡ ok (token, u)

-- The request bears the cookie of a session of the user that has neither expired nor been idle.
pub record HasSession (ops : PasswordOps) (now : ℕ) (r : Request) (s : Server) (u : User)
    : Type 0 where
  pub raw : String
  pub session : Session
  pub presented : session_cookie_from_request r ≡ some raw
  pub known : get_session_by_token_hash (hash_token ops raw) s.accounts ≡ ok (session, u)
  pub fresh : now ≤ session.expires_at * second
  pub active : now ≤ session.last_seen_at * second + session_idle_timeout

session_answer-lem :
    (now : ℕ) (s : Server) (res : Result (Session × User)) (u : User)
    → (session_answer now s res).1 ≡ some u
    → (p : Session) × (res ≡ ok (p, u))
      × (now ≤ p.expires_at * second)
      × (now ≤ p.last_seen_at * second + session_idle_timeout)
      × ((session_answer now s res).0 ≡ touched_session now p s)
session_answer-lem now s (fail e) u h = cc h
session_answer-lem now s (ok (p, v)) u h = elim (Bool-cases (ltb (p.expires_at * second) now)) [
  | inl e ↦ absurd (expired e)
  | inr e ↦ elim (Bool-cases (ltb (p.last_seen_at * second + session_idle_timeout) now)) [
    | inl i ↦ absurd (idle e i)
    | inr i ↦ (
      p,
      ground (arith, h, e, i),
      ground (arith, e),
      ground (arith, i),
      rw (e, i, if◌then◌else◌) refl,
    )
  ]
]
  where
    expired : ltb (p.expires_at * second) now ≡ true → ⊥
    expired e = ground (arith, h, e)

    idle :
        ltb (p.expires_at * second) now ≡ false
        → ltb (p.last_seen_at * second + session_idle_timeout) now ≡ true
        → ⊥
    idle e i = ground (arith, h, e, i)

touched_cases :
    (now : ℕ) (p : Session) (s : Server)
    → (touched_session now p s ≡ s)
      ⊎ (touched_session now p s ≡ record s { accounts = touch_session p.id (unix now) s.accounts })
touched_cases now p s = elim (Bool-cases (ltb (p.last_seen_at * second + touch_throttle) now)) [
  | inl e ↦ inr (rw (e, if◌then◌else◌) refl)
  | inr e ↦ inl (rw (e, if◌then◌else◌) refl)
]

token_answer-none :
    (now : ℕ) (s : Server) (res : Result (ApiToken × User))
    → (token_answer now s res).1 ≡ none
    → (token_answer now s res).0 ≡ s
token_answer-none now s (fail e) h = refl
token_answer-none now s (ok p) h = cc h

token_answer-some :
    (now : ℕ) (s : Server) (res : Result (ApiToken × User)) (u : User)
    → (token_answer now s res).1 ≡ some u
    → (t : ApiToken) × (res ≡ ok (t, u))
token_answer-some now s (fail e) u h = cc h
token_answer-some now s (ok (t, v)) u h = (t, cc h)

module _ (ops : PasswordOps) (parse_host : String → Option String)
    (equal_fold : String → String → Bool) where
  not_anonymous :
      (b : Bool) (s : Server) (x : Server × Gate ops parse_host equal_fold) (u : User)
      → (if b then (s, next none) else x).1 ≡ next (some u)
      → x.1 ≡ next (some u)
  not_anonymous true s x u h = cc h
  not_anonymous false s x u h = h

  check_origin-touched :
      (now : ℕ) (p : Session) (r : Request) (s : Server)
      → check_origin ops parse_host equal_fold (touched_session now p s) r
        ≡ check_origin ops parse_host equal_fold s r
  unfolding check_origin
  check_origin-touched now p r s = elim (touched_cases now p s) [
    | inl e ↦ ap (λ z. check_origin ops parse_host equal_fold z r) e
    | inr e ↦ ap (λ z. check_origin ops parse_host equal_fold z r) e
  ]

  cookie_gate-lem :
      (s : Server) (r : Request) (v u : User)
      → cookie_gate ops parse_host equal_fold s r v ≡ next (some u)
      → (v ≡ u)
        × (is_safe_method r.method ≡ false → check_origin ops parse_host equal_fold s r ≡ true)
  cookie_gate-lem s r v u h = elim (Bool-cases (is_safe_method r.method)) [
    | inl e ↦ (ground (arith, h, e), λ f. cc (e, f))
    | inr e ↦ elim (Bool-cases (check_origin ops parse_host equal_fold s r)) [
      | inl c ↦ (ground (arith, h, e, c), λ f. c)
      | inr c ↦ ground (arith, h, e, c)
    ]
  ]

  token_for-none :
      (now : ℕ) (s : Server) (o : Option String)
      → (token_for ops parse_host equal_fold now s o).1 ≡ none
      → (token_for ops parse_host equal_fold now s o).0 ≡ s
  token_for-none now s none h = refl
  token_for-none now s (some raw) h = token_answer-none now s _ h

  token_for-some :
      (now : ℕ) (r : Request) (s : Server) (u : User) (o : Option String)
      → raw_token r ≡ o
      → (token_for ops parse_host equal_fold now s o).1 ≡ some u
      → HasToken ops r s u
  token_for-some now r s u none e h = cc h
  token_for-some now r s u (some raw) e h =
      let (t, k) = token_answer-some now s _ u h in
      record { raw = raw; token = t; presented = e; known = k }

  session_for-some :
      (now : ℕ) (r : Request) (s : Server) (u : User) (o : Option String)
      → session_cookie_from_request r ≡ o
      → (session_for ops parse_host equal_fold now s o).1 ≡ some u
      → HasSession ops now r s u
        × (check_origin ops parse_host equal_fold
              (session_for ops parse_host equal_fold now s o).0
              r
            ≡ check_origin ops parse_host equal_fold s r)
  session_for-some now r s u none e h = cc h
  session_for-some now r s u (some raw) e h =
      let (p, k, f, a, t) = session_answer-lem now s _ u h in
      (
        record { raw = raw; session = p; presented = e; known = k; fresh = f; active = a },
        rw t (check_origin-touched now p r s),
      )

  session_gate-lem :
      (r : Request) (x : Server × Option User) (u : User)
      → (session_gate ops parse_host equal_fold r x).1 ≡ next (some u)
      → (x.1 ≡ some u)
        × (is_safe_method r.method ≡ false → check_origin ops parse_host equal_fold x.0 r ≡ true)
  session_gate-lem r (s, none) u h = cc h
  session_gate-lem r (s, some v) u h = let (e, c) = cookie_gate-lem s r v u h in (ap some e, c)

  -- What it takes to pass as a user: a token, or a session and, on a method that changes state, an
  -- origin that matches.
  abbrev pub IsAdmitted : ℕ → Request → Server → User → Type 0
  IsAdmitted now r s u =
      HasToken ops r s u
      ⊎ (HasSession ops now r s u
          × (is_safe_method r.method ≡ false → check_origin ops parse_host equal_fold s r ≡ true))

  through_session :
      (now : ℕ) (r : Request) (s : Server) (u : User)
      → (session_gate ops parse_host equal_fold r
          (authenticate_session ops parse_host equal_fold now r s)).1
        ≡ next (some u)
      → HasSession ops now r s u
        × (is_safe_method r.method ≡ false → check_origin ops parse_host equal_fold s r ≡ true)
  unfolding authenticate_session
  through_session now r s u h =
      let (e, c) = session_gate-lem r _ u h in
      let (g, k) = session_for-some now r s u (session_cookie_from_request r) refl e in
      (g, λ m. sym k ∙ c m)

  token_gate-lem :
      (now : ℕ) (r : Request) (s : Server) (u : User) (x : Server × Option User)
      → authenticate_token ops parse_host equal_fold now r s ≡ x
      → (token_gate ops parse_host equal_fold now r x).1 ≡ next (some u)
      → IsAdmitted now r s u
  unfolding authenticate_token
  token_gate-lem now r s u (t, none) e h =
      let back = token_for-none now s (raw_token r) (ap (λ y. y.1) e) in
      inr (
        through_session now r s u (
          subst
            (λ z.
              (session_gate ops parse_host equal_fold r
                (authenticate_session ops parse_host equal_fold now r z)).1
              ≡ next (some u))
            (sym (ap (λ y. y.0) e) ∙ back) h))
  token_gate-lem now r s u (t, some v) e h =
      inl (token_for-some now r s u (raw_token r) refl (ap (λ y. y.1) e ∙ cc h))

  -- Whoever the gate passes as a user has a token of that user, or a session of that user that has
  -- neither expired nor been idle for 30 days and, unless the method is GET, HEAD or OPTIONS, an
  -- origin that matches.
  pub auth_middleware-IsAdmitted :
      (now : ℕ) (r : Request) (s : Server) (u : User)
      → (auth_middleware ops parse_host equal_fold now r s).1 ≡ next (some u)
      → IsAdmitted now r s u
  unfolding auth_middleware
  auth_middleware-IsAdmitted now r s u h = token_gate-lem now r s u _ refl (
      not_anonymous (is_metrics ops parse_host equal_fold s r) s _ u (
        not_anonymous (contains string_discrete public_paths (route ops parse_host equal_fold r)) s
          _ u h))
