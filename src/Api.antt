-- ===== src/Api.antt =====
-- internal/api: the server's state as its authentication sees it, requests and responses. Times are
-- nanoseconds, and the store has Unix seconds. A handler takes the decoded body of its request,
-- none for what is no JSON, and the random bytes it draws, none where the source of randomness
-- fails. It answers with the server after it and a response.
pub mod Middleware
pub mod Login
pub mod Settings
pub mod Restore
pub mod Tokens
pub mod Admin
pub mod Pins
pub mod Protected
pub mod Started
pub mod Signin
pub mod Revoked
pub mod Ended
pub mod Once
use feedla.Prelude.{
  ℕ, ◌/◌, ◌*◌, String, Bool, true, false, Option, none, some, List, [], ◌∷◌, if◌then◌else◌,
}
use feedla.Store.Table.{
  StoreError, err_not_found, err_conflict, err_last_admin, err_invitation_invalid, err_other,
}
use feedla.Store.Accounts.{Accounts, User, Invitation, same_text}
use feedla.Store.Accounts.Tokens.{ApiToken}
use feedla.Auth.LoginLimiter.{LoginLimiter, second}

pub record Server : Type 0 where
  pub accounts : Accounts
  pub api_tokens : List ApiToken
  pub login_limiter : LoginLimiter
  pub public_origin : String
  pub metrics_token : String
  pub cookie_secure_cfg : String

-- A header that is missing is the empty text, as `Header.Get` has it; the cookies by their two
-- names.
pub record Request : Type 0 where
  pub method : String
  pub path : String
  pub host : String
  pub remote_addr : String
  pub is_tls : Bool
  pub authorization : String
  pub api_key : String
  pub origin : String
  pub content_type : String
  pub host_session_cookie : Option String
  pub session_cookie : Option String

pub record Cookie : Type 0 where
  pub name : String
  pub value : String
  pub secure : Bool
  pub expired : Bool

pub record UserView : Type 0 where
  pub id : ℕ
  pub username : String
  pub is_admin : Bool
  pub instagram_embeds_enabled : Bool

pub record RestoreHint : Type 0 where
  pub local_configured : Bool
  pub local_has_snapshot : Bool
  pub remote_configured : Bool
  pub remote_has_snapshot : Bool
  pub remote_error : Bool
  pub restore_supported : Bool
  pub latest_snapshot : String
  pub latest_snapshot_source : String

pub data Body : Type 0 where
  no_body : Body
  message : String → Body
  quota_exceeded : ℕ → String → Body
  ok_true : Body
  me : UserView → Body
  setup_required : Bool → Option RestoreHint → Body
  restarting : Body
  entry_pinned : ℕ → Body
  user_view : UserView → Body
  user_row : User → Body
  token_created : String → ApiToken → Body
  token_list : List ApiToken → Body
  invited : String → Invitation → Body
  valid : Body

pub record Response : Type 0 where
  pub status : ℕ
  pub cookie : Option Cookie
  pub body : Body

abbrev pub min_password_len : ℕ
min_password_len = 12

abbrev pub hour : ℕ
hour = 3_600 * second

abbrev pub session_expiry : ℕ
session_expiry = 90 * 24 * hour

abbrev pub unix : ℕ → ℕ
unix now = now / second

abbrev pub to_user_view : User → UserView
to_user_view u = record {
  id = u.id;
  username = u.username;
  is_admin = u.is_admin;
  instagram_embeds_enabled = u.instagram_embeds_enabled;
}

abbrev pub write_json : ℕ → Body → Response
write_json status body = record { status = status; cookie = none; body = body }

abbrev pub write_error : ℕ → String → Response
write_error status text = write_json status (message text)

abbrev pub store_err_status : StoreError → ℕ
store_err_status err_not_found = 404
store_err_status err_conflict = 409
store_err_status err_last_admin = 400
store_err_status err_invitation_invalid = 400
store_err_status err_other = 500

-- The text of a store error is not modelled.
abbrev pub write_store_error : StoreError → Response
write_store_error e = write_error (store_err_status e) "store error"

abbrev pub cookie_name : Bool → String
cookie_name true = "__Host-session"
cookie_name false = "session"

abbrev pub cookie_secure : String → Request → Bool
cookie_secure cfg r =
    if same_text cfg "true" then true else (if same_text cfg "false" then false else r.is_tls)

abbrev pub session_cookie_of : String → Bool → Request → String → Cookie
session_cookie_of cfg expired r raw = record {
  name = cookie_name (cookie_secure cfg r);
  value = raw;
  secure = cookie_secure cfg r;
  expired = expired;
}

abbrev pub set_session_cookie : Request → String → String → Response → Response
set_session_cookie r cfg raw w = record w { cookie = some (session_cookie_of cfg false r raw) }

abbrev pub clear_session_cookie : Request → String → Response → Response
clear_session_cookie r cfg w = record w { cookie = some (session_cookie_of cfg true r "") }

abbrev pub first_cookie : Option String → Option String → Option String
first_cookie (some raw) other = some raw
first_cookie none other = other

abbrev pub session_cookie_from_request : Request → Option String
session_cookie_from_request r = first_cookie r.host_session_cookie r.session_cookie
