-- ===== src/Store/Accounts.antt =====
-- internal/store/{users,sessions,invitations}.go: accounts, their browser sessions, and
-- invitations. A table is the list of its rows, times are Unix seconds, and a token hash is a text.
-- The folding of COLLATE NOCASE is the parameter `fold`. Errors of the database itself are left
-- out, but for the constraints: a primary key is fresh, UNIQUE and REFERENCES are checked.
pub mod Users
pub mod Admins
pub mod Sessions
pub mod Tokens
pub mod Invitations
pub mod Reachable
use feedla.Prelude.{
  ℕ, suc, ◌+◌, String, string_discrete, Bool, true, false, not, ◌&&◌, ◌||◌, Option, none, some,
  List, [], ◌∷◌, ltb, ◌==◌, if◌then◌else◌, ite,
}
use feedla.Store.Table.{Result, ok, fail, count_where}

abbrev pub setup_sentinel_hash : String
setup_sentinel_hash = "!locked!"

pub record User : Type 0 where
  pub id : ℕ
  pub username : String
  pub password_hash : String
  pub is_admin : Bool
  pub is_disabled : Bool
  pub instagram_embeds_enabled : Bool
  pub created_at : ℕ
  pub updated_at : ℕ

pub record Session : Type 0 where
  pub id : ℕ
  pub token_hash : String
  pub user_id : ℕ
  pub created_at : ℕ
  pub last_seen_at : ℕ
  pub expires_at : ℕ

pub record Invitation : Type 0 where
  pub id : ℕ
  pub token_hash : String
  pub created_by : ℕ
  pub expires_at : ℕ
  pub used_by : Option ℕ
  pub used_at : Option ℕ
  pub created_at : ℕ

pub record Accounts : Type 0 where
  pub users : List User
  pub sessions : List Session
  pub invitations : List Invitation

abbrev pub same_text : String → String → Bool
same_text a b = ite (string_discrete a b) true false

-- `SELECT ... FROM users WHERE id = ?`
unfoldable pub find_user : ℕ → List User → Option User
find_user i [] = none
find_user i (u ∷ users) = let rest = find_user i users in if u.id == i then some u else rest

abbrev pub has_user : ℕ → List User → Bool
has_user i users = ltb 0 (count_where (λ u. u.id == i) users)
