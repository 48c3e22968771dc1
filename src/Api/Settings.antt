-- ===== src/Api/Settings.antt =====
-- internal/api/auth.go: what a user who is logged in does with the own account, and what the client
-- asks first.
use feedla.Prelude.{ℕ, String, Bool, true, false, not, Option, none, some, List, ltb, if◌then◌else◌}
use feedla.Store.Table.{Result, ok, fail}
use feedla.Store.Accounts.{Accounts, User}
use feedla.Store.Accounts.Users.{
  get_user_by_id, update_user_password, set_user_instagram_embeds_enabled, is_setup_pending,
}
use feedla.Store.Accounts.Sessions.{delete_session, delete_all_sessions_for_user}
use feedla.Auth.Password.{PasswordOps, verify_password, hash_password, hash_token}
use feedla.Api.{
  Server, Request, Response, no_body, me, setup_required, user_view, write_json, write_error,
  write_store_error, clear_session_cookie, session_cookie_from_request, to_user_view, unix,
  min_password_len,
}
use feedla.Api.Middleware.{authenticate_token, authenticate_session}
use feedla.Api.Restore.{Backups, restore_hint_for_setup}
use feedla.Api.Login.{with_accounts, is_right}
use Prim.Native.String.{len}

pub record PasswordChange : Type 0 where
  pub current : String
  pub new : String

abbrev pub unauthorized : Response
unauthorized = write_error 401 "unauthorized"

abbrev pub no_content : Response
no_content = write_json 204 no_body

module _ (ops : PasswordOps) (parse_host : String → Option String)
    (equal_fold : String → String → Bool) (base : String → String) (backups : Backups) where
  abbrev pub me_pending : Result Bool → Response
  me_pending (fail e) = write_store_error e
  me_pending (ok false) = write_json 200 (setup_required false none)
  me_pending (ok true) =
      write_json 200 (setup_required true (some (restore_hint_for_setup base backups)))

  abbrev pub me_session : Server × Option User → Server × Response
  me_session (s, some u) = (s, write_json 200 (me (to_user_view u)))
  me_session (s, none) = (s, me_pending (is_setup_pending 1 s.accounts))

  abbrev pub me_token : ℕ → Request → Server × Option User → Server × Response
  me_token now r (s, some u) = (s, write_json 200 (me (to_user_view u)))
  me_token now r (s, none) = me_session (authenticate_session ops parse_host equal_fold now r s)

  unfoldable pub handle_auth_me : ℕ → Request → Server → Server × Response
  unfolding authenticate_token authenticate_session is_setup_pending restore_hint_for_setup
  handle_auth_me now r s = me_token now r (authenticate_token ops parse_host equal_fold now r s)

module _ (ops : PasswordOps) where
  abbrev pub logged_out : Server → Option String → Server
  logged_out s none = s
  logged_out s (some raw) = with_accounts s (delete_session (hash_token ops raw) s.accounts)

  unfoldable pub handle_auth_logout : Request → Server → Server × Response
  unfolding delete_session hash_token
  handle_auth_logout r s = (
    logged_out s (session_cookie_from_request r),
    clear_session_cookie r s.cookie_secure_cfg no_content,
  )

  abbrev pub password_updated : Request → ℕ → Server → Result Accounts → Server × Response
  password_updated r user s (fail e) = (s, write_store_error e)
  password_updated r user s (ok db) = (
    with_accounts s (delete_all_sessions_for_user user db),
    clear_session_cookie r s.cookie_secure_cfg no_content,
  )

  abbrev pub password_hashed : ℕ → Request → ℕ → Server → Option String → Server × Response
  password_hashed now r user s none = (s, write_error 500 "failed to hash password")
  password_hashed now r user s (some hash) =
      password_updated r user s (update_user_password user hash (unix now) s.accounts)

  abbrev pub change_password :
      ℕ → Option (List ℕ) → Request → User → PasswordChange → Server → Server × Response
  change_password now salt r u req s =
      if ltb (len req.new) min_password_len
      then (s, write_error 400 "password must be at least 12 characters")
      else (if not (is_right (verify_password ops u.password_hash req.current))
          then (s, write_error 401 "current password is incorrect")
          else password_hashed now r u.id s (hash_password ops req.new salt))

  unfoldable pub handle_auth_change_password :
      ℕ
      → Option (List ℕ)
      → Request
      → Option User
      → Option PasswordChange
      → Server
      → Server × Response
  unfolding verify_password hash_password update_user_password delete_all_sessions_for_user
  handle_auth_change_password now salt r none body s = (s, unauthorized)
  handle_auth_change_password now salt r (some u) none s = (s, write_error 400 "invalid JSON body")
  handle_auth_change_password now salt r (some u) (some req) s = change_password now salt r u req s

abbrev pub view_of : Result User → Response
view_of (fail e) = write_store_error e
view_of (ok u) = write_json 200 (user_view (to_user_view u))

abbrev pub embeds_set : ℕ → Server → Result Accounts → Server × Response
embeds_set user s (fail e) = (s, write_store_error e)
embeds_set user s (ok db) = (with_accounts s db, view_of (get_user_by_id user db))

-- The body is the pointer field of `updateMeRequest`.
unfoldable pub handle_auth_update_me :
    ℕ → Option User → Option (Option Bool) → Server → Server × Response
unfolding set_user_instagram_embeds_enabled get_user_by_id
handle_auth_update_me now none body s = (s, unauthorized)
handle_auth_update_me now (some u) none s = (s, write_error 400 "invalid JSON body")
handle_auth_update_me now (some u) (some none) s =
    (s, write_error 400 "instagram_embeds_enabled is required")
handle_auth_update_me now (some u) (some (some enabled)) s =
    embeds_set u.id s (set_user_instagram_embeds_enabled u.id enabled (unix now) s.accounts)
