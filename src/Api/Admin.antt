-- ===== src/Api/Admin.antt =====
-- internal/api/admin.go and invitations.go: an administrator's calls on accounts, and invitations.
use feedla.Prelude.{
  ℕ, ◌+◌, ◌*◌, String, string_discrete, Bool, not, Option, none, some, List, ltb, if◌then◌else◌,
}
use feedla.Store.Table.{Result, ok, fail}
use feedla.Store.Accounts.{Accounts, User, Invitation, same_text}
use feedla.Store.Accounts.Users.{get_user_by_id, set_user_admin, set_user_disabled, create_user}
use feedla.Store.Accounts.Invitations.{create_invitation, check_invitation, accept_invitation}
use feedla.Auth.Password.{PasswordOps, hash_password, generate_token, hash_token}
use feedla.Api.{
  Server, Request, Response, user_row, invited, valid, write_json, write_error, write_store_error,
  unix, min_password_len, hour,
}
use feedla.Api.Login.{Random, with_accounts, start_session}
use feedla.Api.Settings.{unauthorized}
use Prim.Native.String.{len}

abbrev pub invitation_expiry : ℕ
invitation_expiry = 72 * hour

-- The response of `requireAdmin`, none for an administrator.
abbrev pub require_admin : Option User → Option Response
require_admin none = some unauthorized
require_admin (some u) = if not u.is_admin then some (write_error 403 "admin only") else none

pub record NewUser : Type 0 where
  pub username : String
  pub password : String
  pub is_admin : Bool

-- The pointer fields of `adminUpdateUserRequest`.
pub record UserPatch : Type 0 where
  pub is_admin : Option Bool
  pub is_disabled : Option Bool

abbrev pub row_of : ℕ → Result User → Response
row_of status (fail e) = write_store_error e
row_of status (ok u) = write_json status (user_row u)

abbrev pub user_created : Server → Result (Accounts × User) → Server × Response
user_created s (fail e) = (s, write_store_error e)
user_created s (ok made) = (with_accounts s made.0, write_json 201 (user_row made.1))

abbrev pub patched_disabled : ℕ → ℕ → Option Bool → Server → Server × Response
patched_disabled now id none s = (s, row_of 200 (get_user_by_id id s.accounts))
patched_disabled now id (some disabled) s =
    elim (set_user_disabled id disabled (unix now) s.accounts) [
      | fail e ↦ (s, write_store_error e)
      | ok db ↦ (with_accounts s db, row_of 200 (get_user_by_id id db))
    ]

abbrev pub patched : ℕ → ℕ → UserPatch → Option Bool → Server → Server × Response
patched now id patch none s = patched_disabled now id patch.is_disabled s
patched now id patch (some is_admin) s = elim (set_user_admin id is_admin (unix now) s.accounts) [
  | fail e ↦ (s, write_store_error e)
  | ok db ↦ patched_disabled now id patch.is_disabled (with_accounts s db)
]

abbrev pub patch_body : ℕ → ℕ → Option UserPatch → Server → Server × Response
patch_body now id none s = (s, write_error 400 "invalid JSON body")
patch_body now id (some patch) s = patched now id patch patch.is_admin s

abbrev pub patch_id : ℕ → Option ℕ → Option UserPatch → Server → Server × Response
patch_id now none body s = (s, write_error 400 "invalid id")
patch_id now (some id) body s = patch_body now id body s

-- The two calls of the store are two transactions.
unfoldable pub handle_admin_patch_user :
    ℕ → Option User → Option ℕ → Option UserPatch → Server → Server × Response
unfolding set_user_admin set_user_disabled get_user_by_id
handle_admin_patch_user now user id body s = elim (require_admin user) [
  | some w ↦ (s, w)
  | none ↦ patch_id now id body s
]

module _ (ops : PasswordOps) (fold trim : String → String) where
  abbrev pub create_hashed : ℕ → NewUser → Server → Option String → Server × Response
  create_hashed now req s none = (s, write_error 500 "failed to hash password")
  create_hashed now req s (some hash) =
      user_created s (create_user fold req.username hash req.is_admin (unix now) s.accounts)

  abbrev pub create_body : ℕ → Option (List ℕ) → Option NewUser → Server → Server × Response
  create_body now salt none s = (s, write_error 400 "invalid JSON body")
  create_body now salt (some req) s =
      if same_text req.username ""
      then (s, write_error 400 "username is required")
      else (if ltb (len req.password) min_password_len
          then (s, write_error 400 "password must be at least 12 characters")
          else create_hashed now req s (hash_password ops req.password salt))

  unfoldable pub handle_admin_create_user :
      ℕ → Option (List ℕ) → Option User → Option NewUser → Server → Server × Response
  unfolding hash_password create_user string_discrete
  handle_admin_create_user now salt user body s = elim (require_admin user) [
    | some w ↦ (s, w)
    | none ↦ create_body now salt body s
  ]

  abbrev pub invitation_made : String → Server → Result (Accounts × Invitation) → Server × Response
  invitation_made raw s (fail e) = (s, write_store_error e)
  invitation_made raw s (ok made) = (with_accounts s made.0, write_json 201 (invited raw made.1))

  abbrev pub invite_with : ℕ → User → Server → Option (String × String) → Server × Response
  invite_with now u s none = (s, write_error 500 "failed to create invitation")
  invite_with now u s (some token) =
      invitation_made token.0 s
        (create_invitation u.id token.1 (unix (now + invitation_expiry)) (unix now) s.accounts)

  unfoldable pub handle_admin_create_invitation :
      ℕ → Option (List ℕ) → Option User → Server → Server × Response
  unfolding generate_token create_invitation
  handle_admin_create_invitation now bytes none s = (s, unauthorized)
  handle_admin_create_invitation now bytes (some u) s =
      if not u.is_admin
      then (s, write_error 403 "admin only")
      else invite_with now u s (generate_token ops bytes)

  abbrev pub status_of : Result Bool → Response
  status_of (fail e) = write_store_error e
  status_of (ok b) = write_json 200 valid

  unfoldable pub handle_invitation_status : ℕ → Option String → Server → Server × Response
  unfolding check_invitation hash_token string_discrete
  handle_invitation_status now none s = (s, write_error 400 "token is required")
  handle_invitation_status now (some token) s =
      if same_text token ""
      then (s, write_error 400 "token is required")
      else (s, status_of (check_invitation (hash_token ops token) (unix now) s.accounts))

  abbrev pub accepted :
      ℕ → Option (List ℕ) → Request → Server → Result (Accounts × User) → Server × Response
  accepted now bytes r s (fail e) = (s, write_store_error e)
  accepted now bytes r s (ok made) =
      start_session ops now bytes r made.1.id (with_accounts s made.0)

  abbrev pub accept_hashed :
      ℕ → Option (List ℕ) → Request → String → String → Server → Option String → Server × Response
  accept_hashed now bytes r token username s none = (s, write_error 500 "failed to hash password")
  accept_hashed now bytes r token username s (some hash) =
      accepted now bytes r s
        (accept_invitation fold (hash_token ops token) username hash (unix now) s.accounts)

  abbrev pub accept_as :
      ℕ → Random → Request → String → String → String → Server → Server × Response
  accept_as now random r token username password s =
      if same_text token ""
      then (s, write_error 400 "token is required")
      else (if same_text username ""
          then (s, write_error 400 "username is required")
          else (if ltb (len password) min_password_len
              then (s, write_error 400 "password must be at least 12 characters")
              else accept_hashed now random.token r token username s
                  (hash_password ops password random.salt)))

  -- The body is the token, the user name and the password.
  unfoldable pub handle_accept_invitation :
      ℕ → Random → Request → Option (String × String × String) → Server → Server × Response
  unfolding accept_invitation hash_token hash_password start_session string_discrete
  handle_accept_invitation now random r none s = (s, write_error 400 "invalid JSON body")
  handle_accept_invitation now random r (some body) s =
      accept_as now random r body.0 (trim body.1) body.2 s
