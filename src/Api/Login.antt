-- ===== src/Api/Login.antt =====
-- internal/api/auth.go: the login, the first setup, and the start of a session.
use feedla.Prelude.{
  ℕ, ◌+◌, String, string_discrete, Bool, true, false, not, ◌||◌, Option, none, some, List, ltb,
  if◌then◌else◌,
}
use feedla.Store.Table.{Result, ok, fail}
use feedla.Store.Accounts.{Accounts, User, Session, same_text}
use feedla.Store.Accounts.Users.{
  get_user_by_id, get_user_by_username, update_user_password, is_setup_pending, complete_setup,
}
use feedla.Store.Accounts.Sessions.{create_session}
use feedla.Auth.LoginLimiter.{LoginLimiter, allow, record_failure, record_success}
use feedla.Auth.Password.{PasswordOps, verify_password, needs_rehash, hash_password, generate_token}
use feedla.Api.{
  Server, Request, Response, me, write_json, write_error, write_store_error, set_session_cookie,
  to_user_view, unix, session_expiry, min_password_len,
}
use Prim.Native.String.{len}

pub record Credentials : Type 0 where
  pub username : String
  pub password : String

-- What a handler draws at random: a salt and the bytes of a token.
pub record Random : Type 0 where
  pub salt : Option (List ℕ)
  pub token : Option (List ℕ)

abbrev pub or_remote : String → Option String → String
or_remote remote none = remote
or_remote remote (some host) = host

-- `verr == nil && ok`
abbrev pub is_right : Option Bool → Bool
is_right none = false
is_right (some b) = b

abbrev pub with_accounts : Server → Accounts → Server
with_accounts s db = record s { accounts = db }

abbrev pub with_limiter : Server → LoginLimiter → Server
with_limiter s l = record s { login_limiter = l }

module _ (ops : PasswordOps) where
  abbrev pub session_response : Request → Server → String → Result User → Server × Response
  session_response r s raw (fail e) = (s, write_store_error e)
  session_response r s raw (ok u) =
      (s, set_session_cookie r s.cookie_secure_cfg raw (write_json 200 (me (to_user_view u))))

  abbrev pub session_made :
      Request → ℕ → Server → String → Result (Accounts × Session) → Server × Response
  session_made r user s raw (fail e) = (s, write_store_error e)
  session_made r user s raw (ok made) =
      session_response r (with_accounts s made.0) raw (get_user_by_id user made.0)

  abbrev pub session_with : ℕ → Request → ℕ → Server → Option (String × String) → Server × Response
  session_with now r user s none = (s, write_error 500 "failed to create session")
  session_with now r user s (some token) =
      session_made r user s token.0
        (create_session user token.1 (unix now) (unix (now + session_expiry)) s.accounts)

  unfoldable pub start_session : ℕ → Option (List ℕ) → Request → ℕ → Server → Server × Response
  unfolding generate_token create_session get_user_by_id
  start_session now bytes r user s = session_with now r user s (generate_token ops bytes)

-- `fold` is COLLATE NOCASE, `trim` is `strings.TrimSpace`, `split_host` is `net.SplitHostPort`.
module _ (ops : PasswordOps) (fold trim : String → String)
    (split_host : String → Option String) where
  abbrev pub client_ip : Request → String
  client_ip r = or_remote r.remote_addr (split_host r.remote_addr)

  abbrev pub refuse_login : ℕ → String → String → Server → Server × Response
  refuse_login now username ip s = (
    with_limiter s (record_failure s.login_limiter username ip now),
    write_error 401 "invalid username or password",
  )

  -- `_ = s.store.UpdateUserPassword(...)`: an error is dropped.
  abbrev pub updated_password : ℕ → ℕ → Accounts → Option String → Accounts
  updated_password now user db none = db
  updated_password now user db (some hash) = elim (update_user_password user hash (unix now) db) [
    | fail e ↦ db
    | ok db' ↦ db'
  ]

  abbrev pub rehashed : ℕ → Option (List ℕ) → Credentials → User → Accounts → Accounts
  rehashed now salt req u db =
      if needs_rehash ops u.password_hash
      then updated_password now u.id db (hash_password ops req.password salt)
      else db

  abbrev pub login_as :
      ℕ → Random → Request → Credentials → Server → Result User → Server × Response
  login_as now random r req s (fail e) = refuse_login now req.username (client_ip r) s
  login_as now random r req s (ok u) =
      if not (is_right (verify_password ops u.password_hash req.password)) || u.is_disabled
      then refuse_login now req.username (client_ip r) s
      else start_session ops now random.token r u.id (
          with_limiter (with_accounts s (rehashed now random.salt req u s.accounts))
            (record_success s.login_limiter req.username))

  abbrev pub login : ℕ → Random → Request → Credentials → Server → Server × Response
  login now random r req s =
      let asked = allow s.login_limiter req.username (client_ip r) now in
      if not asked.1
      then (with_limiter s asked.0, write_error 429 "too many attempts, try again later")
      else login_as now random r req (with_limiter s asked.0)
          (get_user_by_username fold req.username s.accounts)

  unfoldable pub handle_auth_login :
      ℕ → Random → Request → Option Credentials → Server → Server × Response
  unfolding allow record_failure record_success get_user_by_username update_user_password
      start_session verify_password needs_rehash hash_password
  handle_auth_login now random r none s = (s, write_error 400 "invalid JSON body")
  handle_auth_login now random r (some req) s = login now random r req s

  -- `setupPending`: the first user's.
  abbrev pub setup_pending : Server → Result Bool
  setup_pending s = is_setup_pending 1 s.accounts

  abbrev pub setup_completed : ℕ → Random → Request → Server → Result Accounts → Server × Response
  setup_completed now random r s (fail e) = (s, write_store_error e)
  setup_completed now random r s (ok db) =
      start_session ops now random.token r 1 (with_accounts s db)

  abbrev pub setup_hashed :
      ℕ → Random → Request → String → Server → Option String → Server × Response
  setup_hashed now random r username s none = (s, write_error 500 "failed to hash password")
  setup_hashed now random r username s (some hash) =
      setup_completed now random r s (complete_setup fold 1 username hash (unix now) s.accounts)

  abbrev pub setup_when :
      ℕ → Random → Request → String → String → Server → Result Bool → Server × Response
  setup_when now random r username password s (fail e) = (s, write_store_error e)
  setup_when now random r username password s (ok false) =
      (s, write_error 409 "setup already completed")
  setup_when now random r username password s (ok true) =
      setup_hashed now random r username s (hash_password ops password random.salt)

  abbrev pub setup_trimmed : ℕ → Random → Request → String → String → Server → Server × Response
  setup_trimmed now random r username password s =
      if same_text username ""
      then (s, write_error 400 "username is required")
      else (if ltb (len password) min_password_len
          then (s, write_error 400 "password must be at least 12 characters")
          else setup_when now random r username password s (setup_pending s))

  unfoldable pub handle_auth_setup :
      ℕ → Random → Request → Option Credentials → Server → Server × Response
  unfolding is_setup_pending complete_setup hash_password start_session string_discrete
  handle_auth_setup now random r none s = (s, write_error 400 "invalid JSON body")
  handle_auth_setup now random r (some req) s =
      setup_trimmed now random r (trim req.username) req.password s
