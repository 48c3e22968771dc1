-- ===== src/Api/Middleware.antt =====
-- internal/api/auth_middleware.go: the one gate of authentication and cross-site requests.
use feedla.Prelude.{
  ℕ, ◌+◌, ◌*◌, String, string_discrete, Bool, true, false, not, ◌&&◌, ◌||◌, Option, none, some,
  List, [], ◌∷◌, ltb, if◌then◌else◌, contains,
}
use feedla.Store.Table.{Result, ok, fail}
use feedla.Store.Accounts.{User, Session, same_text}
use feedla.Store.Accounts.Sessions.{get_session_by_token_hash, touch_session}
use feedla.Store.Accounts.Tokens.{ApiToken, get_api_token_by_hash, touch_api_token_last_used}
use feedla.Auth.LoginLimiter.{second}
use feedla.Auth.Password.{PasswordOps, hash_token}
use feedla.Api.{Server, Request, Response, write_error, hour, unix, session_cookie_from_request}
use Prim.Native.String.{len, slice, ◌++◌ as ◌<>◌}
use package.text.Mathlib.Text.{starts_with}

abbrev pub session_idle_timeout : ℕ
session_idle_timeout = 30 * 24 * hour

abbrev pub touch_throttle : ℕ
touch_throttle = hour

abbrev pub public_paths : List String
public_paths =
    "GET /healthz" ∷ "POST /api/v1/auth/login" ∷ "POST /api/v1/auth/setup"
    ∷ "POST /api/v1/auth/restore" ∷ "GET /api/v1/auth/me" ∷ "POST /api/v1/invitations/status"
    ∷ "POST /api/v1/invitations/accept" ∷ "GET /api/v1/scrape_sources/inspect/view" ∷ []

abbrev pub json_body_exempt : List String
json_body_exempt = "POST /api/v1/opml" ∷ []

-- `strings.CutPrefix(s, "Bearer ")`
abbrev pub bearer : String → Option String
bearer s = if starts_with s "Bearer " then some (slice s 7 (len s)) else none

abbrev pub non_empty : String → Option String
non_empty s = if same_text s "" then none else some s

-- The raw token of `authenticateToken`.
abbrev pub raw_token : Request → Option String
raw_token r = elim (bearer r.authorization) [ some raw ↦ some raw | none ↦ non_empty r.api_key ]

unfoldable pub is_safe_method : String → Bool
unfolding string_discrete
is_safe_method method =
    same_text method "GET" || same_text method "HEAD" || same_text method "OPTIONS"

-- `tok.LastUsedAt == nil || time.Unix(*tok.LastUsedAt, 0).Before(s.now().Add(-touchThrottle))`
abbrev pub is_stale : ℕ → Option ℕ → Bool
is_stale now none = true
is_stale now (some used) = ltb (used * second + touch_throttle) now

abbrev pub touched_token : ℕ → ApiToken → Server → Server
touched_token now t s =
    if is_stale now t.last_used_at
    then record s { api_tokens = touch_api_token_last_used t.id (unix now) s.api_tokens }
    else s

abbrev pub token_answer : ℕ → Server → Result (ApiToken × User) → Server × Option User
token_answer now s (fail e) = (s, none)
token_answer now s (ok p) = (touched_token now p.0 s, some p.1)

abbrev pub touched_session : ℕ → Session → Server → Server
touched_session now sess s =
    if ltb (sess.last_seen_at * second + touch_throttle) now
    then record s { accounts = touch_session sess.id (unix now) s.accounts }
    else s

abbrev pub session_answer : ℕ → Server → Result (Session × User) → Server × Option User
session_answer now s (fail e) = (s, none)
session_answer now s (ok p) =
    if ltb (p.0.expires_at * second) now
    then (s, none)
    else (if ltb (p.0.last_seen_at * second + session_idle_timeout) now
        then (s, none)
        else (touched_session now p.0 s, some p.1))

-- `url.Parse(origin)` with its host, none for an error; `strings.EqualFold`.
module _ (ops : PasswordOps) (parse_host : String → Option String)
    (equal_fold : String → String → Bool) where
  abbrev pub token_for : ℕ → Server → Option String → Server × Option User
  token_for now s none = (s, none)
  token_for now s (some raw) =
      token_answer now s (get_api_token_by_hash (hash_token ops raw) s.accounts.users s.api_tokens)

  unfoldable pub authenticate_token : ℕ → Request → Server → Server × Option User
  unfolding hash_token get_api_token_by_hash touch_api_token_last_used string_discrete
  authenticate_token now r s = token_for now s (raw_token r)

  abbrev pub session_for : ℕ → Server → Option String → Server × Option User
  session_for now s none = (s, none)
  session_for now s (some raw) =
      session_answer now s (get_session_by_token_hash (hash_token ops raw) s.accounts)

  unfoldable pub authenticate_session : ℕ → Request → Server → Server × Option User
  unfolding hash_token get_session_by_token_hash touch_session
  authenticate_session now r s = session_for now s (session_cookie_from_request r)

  -- `parseOrigin`; where the host is empty and there is no error, it answers with the empty text.
  abbrev pub origin_matches : Server → Request → Option String → Bool
  origin_matches s r none = false
  origin_matches s r (some u) =
      if same_text s.public_origin ""
      then equal_fold u r.host
      else equal_fold r.origin s.public_origin

  unfoldable pub check_origin : Server → Request → Bool
  unfolding string_discrete
  check_origin s r =
      if same_text r.origin "" then false else origin_matches s r (parse_host r.origin)

  abbrev pub route : Request → String
  route r = r.method <> (" " <> r.path)

  unfoldable pub needs_json : Request → Bool
  unfolding string_discrete
  needs_json r =
      starts_with r.path "/api/v1/"
      && (same_text r.method "POST" || same_text r.method "PATCH")
      && not (contains string_discrete json_body_exempt (route r))
      && not (starts_with r.content_type "application/json")

  unfoldable pub is_metrics : Server → Request → Bool
  unfolding string_discrete
  is_metrics s r =
      same_text r.path "/metrics"
      && same_text r.method "GET"
      && not (same_text s.metrics_token "")
      && elim (bearer r.authorization) [ none ↦ false | some b ↦ same_text b s.metrics_token ]

  -- What the gate decides: the next handler, with the user in its context if there is one, or a
  -- response.
  pub data Gate : Type 0 where
    next : Option User → Gate
    reject : Response → Gate

  abbrev pub cookie_gate : Server → Request → User → Gate
  cookie_gate s r u =
      if is_safe_method r.method
      then next (some u)
      else (if not (check_origin s r)
          then reject (write_error 403 "cross-origin request rejected")
          else (if needs_json r
              then reject (write_error 415 "expected application/json")
              else next (some u)))

  abbrev pub session_gate : Request → Server × Option User → Server × Gate
  session_gate r (s, none) = (s, reject (write_error 401 "unauthorized"))
  session_gate r (s, some u) = (s, cookie_gate s r u)

  abbrev pub token_gate : ℕ → Request → Server × Option User → Server × Gate
  token_gate now r (s, none) = session_gate r (authenticate_session now r s)
  token_gate now r (s, some u) = (s, next (some u))

  unfoldable pub auth_middleware : ℕ → Request → Server → Server × Gate
  unfolding authenticate_token authenticate_session check_origin needs_json is_metrics
      is_safe_method
  auth_middleware now r s =
      if contains string_discrete public_paths (route r)
      then (s, next none)
      else (if is_metrics s r
          then (s, next none)
          else token_gate now r (authenticate_token now r s))
