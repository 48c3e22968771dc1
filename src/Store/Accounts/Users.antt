-- ===== src/Store/Accounts/Users.antt =====
-- internal/store/users.go: the operations on accounts.
use feedla.Prelude.{
  ℕ, String, Bool, true, false, not, ◌&&◌, Option, none, some, List, [], ◌∷◌, ◌++◌, ltb, ◌==◌,
  if◌then◌else◌,
}
use feedla.Store.Table.{
  Result, ok, fail, err_not_found, err_conflict, err_last_admin, err_other, update, remove,
  count_where, next_id,
}
use feedla.Store.Accounts.{Accounts, User, setup_sentinel_hash, same_text, find_user}

abbrev pub found {ℓ} : {A : Type ℓ} → Option A → Result A
found none = fail err_not_found
found (some a) = ok a

unfoldable pub get_user_by_id : ℕ → Accounts → Result User
unfolding find_user
get_user_by_id id db = found (find_user id db.users)

abbrev pub locked : User → Bool
locked u = same_text u.password_hash setup_sentinel_hash

unfoldable pub is_setup_pending : ℕ → Accounts → Result Bool
unfolding get_user_by_id
is_setup_pending id db = elim (get_user_by_id id db) [ ok u ↦ ok (locked u) | fail e ↦ fail e ]

-- `UPDATE users SET ... WHERE p`, which fails with ErrNotFound where no row matches.
unfoldable pub update_users : (User → Bool) → (User → User) → Accounts → Result Accounts
update_users p f db =
    if count_where p db.users == 0
    then fail err_not_found
    else ok (record db { users = update p f db.users })

unfoldable pub update_user_password : ℕ → String → ℕ → Accounts → Result Accounts
unfolding update_users
update_user_password id hash now db =
    update_users (λ u. u.id == id) (λ u. record u { password_hash = hash; updated_at = now }) db

unfoldable pub set_user_instagram_embeds_enabled : ℕ → Bool → ℕ → Accounts → Result Accounts
unfolding update_users
set_user_instagram_embeds_enabled id enabled now db =
    update_users (λ u. u.id == id)
      (λ u. record u { instagram_embeds_enabled = enabled; updated_at = now }) db

-- `SELECT COUNT(*) FROM users WHERE is_admin = 1 AND is_disabled = 0 AND id != ?`
unfoldable pub other_admins : ℕ → List User → ℕ
other_admins id users =
    count_where (λ (u : User). u.is_admin && not u.is_disabled && not (u.id == id)) users

unfoldable pub set_user_admin : ℕ → Bool → ℕ → Accounts → Result Accounts
unfolding other_admins update_users
set_user_admin id is_admin now db =
    if not is_admin && (other_admins id db.users == 0)
    then fail err_last_admin
    else update_users (λ u. u.id == id) (λ u. record u { is_admin = is_admin; updated_at = now }) db

-- The check that `SetUserDisabled` makes before it disables an account.
unfoldable pub check_disable : ℕ → List User → Option User → Result Bool
unfolding other_admins
check_disable id users none = fail err_not_found
check_disable id users (some u) =
    if u.is_admin && (other_admins id users == 0) then fail err_last_admin else ok true

unfoldable pub disable_rows : ℕ → Bool → ℕ → Accounts → Result Accounts
disable_rows id disabled now db =
    if count_where (λ (u : User). u.id == id) db.users == 0
    then fail err_not_found
    else ok (record db {
      users =
          update (λ u. u.id == id) (λ u. record u { is_disabled = disabled; updated_at = now })
            db.users;
      sessions = if disabled then remove (λ s. s.user_id == id) db.sessions else db.sessions;
    })

unfoldable pub set_user_disabled : ℕ → Bool → ℕ → Accounts → Result Accounts
unfolding check_disable disable_rows find_user
set_user_disabled id false now db = disable_rows id false now db
set_user_disabled id true now db = elim (check_disable id db.users (find_user id db.users)) [
  | fail e ↦ fail e
  | ok b ↦ disable_rows id true now db
]

module _ (fold : String → String) where
  -- `username = ? COLLATE NOCASE`
  unfoldable pub same_name : String → User → Bool
  same_name name u = same_text (fold u.username) (fold name)

  unfoldable pub find_by_name : String → List User → Option User
  unfolding same_name
  find_by_name name [] = none
  find_by_name name (u ∷ users) =
      let rest = find_by_name name users in if same_name name u then some u else rest

  unfoldable pub get_user_by_username : String → Accounts → Result User
  unfolding find_by_name
  get_user_by_username name db = found (find_by_name name db.users)

  -- An update to a name that another account has breaks UNIQUE.
  unfoldable pub complete_setup : ℕ → String → String → ℕ → Accounts → Result Accounts
  unfolding update_users same_name
  complete_setup id name hash now db =
      if ltb 0 (count_where (λ u. (u.id == id) && locked u) db.users)
        && ltb 0 (count_where (λ u. same_name name u && not (u.id == id)) db.users)
      then fail err_other
      else update_users (λ u. (u.id == id) && locked u)
          (λ u. record u { username = name; password_hash = hash; updated_at = now }) db

  -- `INSERT INTO users (...)`, with the new row.
  unfoldable pub insert_user : String → String → Bool → ℕ → Accounts → Result (Accounts × User)
  unfolding same_name
  insert_user name hash is_admin now db =
      let u : User = record {
        id = next_id (λ (x : User). x.id) db.users;
        username = name;
        password_hash = hash;
        is_admin = is_admin;
        is_disabled = false;
        instagram_embeds_enabled = false;
        created_at = now;
        updated_at = now;
      } in
      if ltb 0 (count_where (same_name name) db.users)
      then fail err_conflict
      else ok (record db { users = db.users ++ u ∷ [] }, u)

  unfoldable pub create_user : String → String → Bool → ℕ → Accounts → Result (Accounts × User)
  unfolding insert_user
  create_user name hash is_admin now db = insert_user name hash is_admin now db
