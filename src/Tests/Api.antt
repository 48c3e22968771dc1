-- ===== src/Tests/Api.antt =====
-- A server with an administrator and a reader, over the operations of Codec.
use feedla.Prelude.{
  ℕ, ◌≤◌, ◌≡◌, ◌≢◌, refl, String, Bool, true, false, Option, none, some, List, [], ◌∷◌, inl, inr,
  All,
}
use feedla.Prelude.Dict.{lookup}
use feedla.Store.Table.{count_where, err_not_found, update, remove}
use feedla.Store.Accounts.{User, Session, setup_sentinel_hash, find_user}
use feedla.Store.Accounts.Users.{get_user_by_username}
use feedla.Auth.Password.{hash_password, verify_password, append, needs_rehash}
use feedla.Auth.Password.Verify.{verify_password-hash_password}
use feedla.Api.{Server, Request}
use feedla.Api.Middleware.{next, auth_middleware}
use feedla.Api.Protected.{HasToken, IsAdmitted, auth_middleware-IsAdmitted}
use feedla.Api.Login.{Credentials, Random, client_ip, handle_auth_login, handle_auth_setup}
use feedla.Api.Settings.{handle_auth_change_password, PasswordChange}
use feedla.Api.Admin.{handle_admin_patch_user}
use feedla.Api.Started.{IsStarted}
use feedla.Api.Signin.{IsGranted, signed_in, handle_auth_login-IsGranted, login_no_oracle}
use feedla.Api.Ended.{change_password_ends_sessions, change_password_verifies}
use feedla.Api.Revoked.{disabled_locked_out}
use feedla.Api.Once.{setup_once}
use feedla.Tests.Codec.{test_ops, test_ops-IsCodec, write_bytes, repeated}

abbrev hash_of : ℕ → String
hash_of n =
    append "$argon2id$v=19$m=65536,t=3,p=2$"
      (append (write_bytes (1 ∷ [])) (append "$" (write_bytes (repeated n 32))))

verify_password-hash_password_example :
    (verify_password test_ops (hash_of 4) "open" ≡ some true)
    × (needs_rehash test_ops (hash_of 4) ≡ false)
unfolding hash_password test_ops
verify_password-hash_password_example =
    verify_password-hash_password test_ops "open" (1 ∷ []) (hash_of 4) test_ops-IsCodec refl

abbrev account : ℕ → String → String → Bool → User
account id name hash is_admin = record {
  id = id;
  username = name;
  password_hash = hash;
  is_admin = is_admin;
  is_disabled = false;
  instagram_embeds_enabled = false;
  created_at = 0;
  updated_at = 0;
}

abbrev admin : User
admin = account 1 "admin" (hash_of 12) true

abbrev reader : User
reader = account 2 "reader" (hash_of 12) false

abbrev session : Session
session = record {
  id = 1;
  token_hash = "s";
  user_id = 2;
  created_at = 50;
  last_seen_at = 90;
  expires_at = 5_000;
}

abbrev server_of : List User → Server
server_of users = record {
  accounts = record { users = users; sessions = session ∷ []; invitations = [] };
  api_tokens = [];
  login_limiter = record {
    accounts = [];
    ips = [];
    ip_limit = 10;
    ip_window = 60_000_000_000;
    max_back = 900_000_000_000;
  };
  public_origin = "https://reader.example";
  metrics_token = "";
  cookie_secure_cfg = "auto";
}

abbrev server : Server
server = server_of (admin ∷ reader ∷ [])

abbrev now : ℕ
now = 100_000_000_000

abbrev request : String → String → String → Option String → Request
request method path origin cookie = record {
  method = method;
  path = path;
  host = "reader.example";
  remote_addr = "10.0.0.1";
  is_tls = true;
  authorization = "";
  api_key = "";
  origin = origin;
  content_type = "application/json";
  host_session_cookie = cookie;
  session_cookie = none;
}

abbrev write_request : Request
write_request = request "POST" "/api/v1/auth/password" "https://reader.example" (some "s")

abbrev host_of : String → Option String
host_of s = some "reader.example"

abbrev same_folded : String → String → Bool
same_folded a b = true

abbrev plain : String → String
plain s = s

abbrev no_port : String → Option String
no_port s = none

abbrev draws : Random
draws = record { salt = some (1 ∷ []); token = some (3 ∷ 1 ∷ []) }

abbrev good_login : Credentials
good_login = record { username = "reader"; password = "passwordpass" }

abbrev signin : Request
signin = request "POST" "/api/v1/auth/login" "" none

passes :
    (auth_middleware test_ops host_of same_folded now write_request server).1 ≡ next (some reader)
unfolding auth_middleware lookup test_ops
passes = refl

auth_middleware-IsAdmitted_example :
    IsAdmitted test_ops host_of same_folded now write_request server reader
unfolding auth_middleware test_ops
auth_middleware-IsAdmitted_example =
    auth_middleware-IsAdmitted test_ops host_of same_folded now write_request server reader refl

handle_auth_login-IsGranted_example :
    (u : User) × IsGranted test_ops plain
      (client_ip test_ops plain plain no_port signin)
      now
      good_login
      server
      u
    × IsStarted test_ops now draws.token signin u.id
        (signed_in test_ops plain plain no_port now draws signin good_login u server)
        (handle_auth_login test_ops plain plain no_port now draws signin (some good_login) server)
unfolding handle_auth_login test_ops lookup count_where
handle_auth_login-IsGranted_example =
    handle_auth_login-IsGranted test_ops plain plain no_port now draws signin good_login server refl

-- The name is known to one server and not to the other.
abbrev wrong_login : Credentials
wrong_login = record { username = "reader"; password = "password" }

login_no_oracle_example :
    let w =
      handle_auth_login test_ops plain plain no_port now draws signin (some wrong_login) server in
    let v =
      handle_auth_login test_ops plain plain no_port now draws signin
        (some wrong_login)
        (server_of []) in
    (w.1 ≡ v.1)
    × (w.0.login_limiter ≡ v.0.login_limiter)
    × (w.0.accounts ≡ server.accounts)
    × (v.0.accounts ≡ (server_of []).accounts)
unfolding get_user_by_username verify_password test_ops
login_no_oracle_example =
    login_no_oracle test_ops plain plain no_port now draws signin wrong_login server (server_of [])
      refl (inr (reader, refl, inl (λ e. cc e))) (inl (err_not_found, refl))

abbrev change : PasswordChange
change = record { current = "passwordpass"; new = "another password" }

change_password_verifies_example :
    let w =
      handle_auth_change_password test_ops now
        (some (1 ∷ []))
        write_request
        (some reader)
        (some change)
        server in
    (true ≡ true)
    × All
        (λ (v : User).
          v.id ≡ 2 → verify_password test_ops v.password_hash "another password" ≡ some true)
        w.0.accounts.users
unfolding handle_auth_change_password verify_password test_ops count_where
change_password_verifies_example =
    change_password_verifies test_ops test_ops-IsCodec now (1 ∷ []) write_request reader change
      server refl

-- A request with an API token of the reader.
abbrev token_request : Request
token_request = record write_request { authorization = "Bearer t" }

abbrev with_token : Server
with_token = record server {
  api_tokens =
      (record {
        id = 1;
        token_hash = "t";
        user_id = 2;
        label = "cli";
        created_at = 0;
        last_used_at = none;
      })
      ∷ [];
}

abbrev changed : Server
changed =
    (handle_auth_change_password test_ops now (some (1 ∷ [])) write_request (some reader)
      (some change) with_token).0

abbrev reader_after : User
reader_after = record reader { password_hash = hash_of 16; updated_at = 100 }

change_password_ends_sessions_example : HasToken test_ops token_request changed reader_after
unfolding handle_auth_change_password auth_middleware verify_password test_ops count_where update
    lookup
change_password_ends_sessions_example =
    change_password_ends_sessions test_ops host_of same_folded now (some (1 ∷ [])) write_request
      reader change with_token refl now token_request reader_after refl refl

-- The administrator disables the reader, and then passes the gate with a session.
abbrev admin_session : Server
admin_session = record with_token {
  accounts = record with_token.accounts { sessions = record session { user_id = 1 } ∷ [] };
}

abbrev disabling : Server
disabling =
    (handle_admin_patch_user now (some admin) (some 2)
      (some (record { is_admin = none; is_disabled = some true })) admin_session).0

disabled_locked_out_example : ◌≢◌ {A = ℕ} 1 2
unfolding handle_admin_patch_user auth_middleware test_ops count_where update remove lookup
    find_user
disabled_locked_out_example =
    disabled_locked_out test_ops host_of same_folded now 2 (some admin) none admin_session refl now
      write_request admin refl

abbrev fresh : Server
fresh = server_of (account 1 "admin" setup_sentinel_hash true ∷ [])

abbrev chosen : Option Credentials
chosen = some (record { username = "me"; password = "passwordpass" })

setup_once_example :
    let w = handle_auth_setup test_ops plain plain no_port now draws signin chosen fresh in
    let v = handle_auth_setup test_ops plain plain no_port now draws signin chosen w.0 in
    (v.0 ≡ w.0) × (400 ≤ v.1.status)
unfolding handle_auth_setup test_ops count_where update find_user lookup
setup_once_example =
    setup_once test_ops plain plain no_port now draws signin chosen fresh refl now draws signin
      chosen
