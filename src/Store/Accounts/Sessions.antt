-- ===== src/Store/Accounts/Sessions.antt =====
-- internal/store/sessions.go: browser sessions.
pub mod Owner
pub mod Rows
use feedla.Prelude.{
  ℕ, suc, ◌+◌, String, Bool, true, false, not, ◌&&◌, ◌||◌, Option, none, some, List, [], ◌∷◌, ◌++◌,
  ltb, ◌==◌, if◌then◌else◌,
}
use feedla.Store.Table.{
  Result, ok, fail, err_not_found, err_other, update, remove, count_where, next_id,
}
use feedla.Store.Accounts.{Accounts, User, Session, same_text, find_user, has_user}

-- UNIQUE(token_hash) and REFERENCES users(id).
unfoldable pub create_session : ℕ → String → ℕ → ℕ → Accounts → Result (Accounts × Session)
create_session user token now expires_at db =
    let s : Session = record {
      id = next_id (λ (x : Session). x.id) db.sessions;
      token_hash = token;
      user_id = user;
      created_at = now;
      last_seen_at = now;
      expires_at = expires_at;
    } in
    if ltb 0 (count_where (λ (x : Session). same_text x.token_hash token) db.sessions)
      || not (has_user user db.users)
    then fail err_other
    else ok (record db { sessions = db.sessions ++ s ∷ [] }, s)

-- The row of the join of a session with its enabled owner.
unfoldable pub owner : List User → Session → Option (Session × User)
unfolding find_user
owner [] s = none
owner (u ∷ users) s =
    let rest = owner users s in
    if (u.id == s.user_id) && not u.is_disabled then some (s, u) else rest

unfoldable pub find_session : String → List User → List Session → Option (Session × User)
unfolding owner
find_session token users [] = none
find_session token users (s ∷ sessions) =
    let rest = find_session token users sessions in
    if same_text s.token_hash token
    then elim (owner users s) [ none ↦ rest | some p ↦ some p ]
    else rest

unfoldable pub get_session_by_token_hash : String → Accounts → Result (Session × User)
unfolding find_session
get_session_by_token_hash token db = elim (find_session token db.users db.sessions) [
  | none ↦ fail err_not_found
  | some p ↦ ok p
]

unfoldable pub touch_session : ℕ → ℕ → Accounts → Accounts
touch_session id now db = record db {
  sessions = update (λ s. s.id == id) (λ s. record s { last_seen_at = now }) db.sessions;
}

unfoldable pub delete_session : String → Accounts → Accounts
delete_session token db = record db {
  sessions = remove (λ s. same_text s.token_hash token) db.sessions;
}

unfoldable pub delete_all_sessions_for_user : ℕ → Accounts → Accounts
delete_all_sessions_for_user user db = record db {
  sessions = remove (λ s. s.user_id == user) db.sessions;
}

unfoldable pub delete_expired_sessions : ℕ → Accounts → Accounts × ℕ
delete_expired_sessions now db = (
  record db { sessions = remove (λ s. ltb s.expires_at now) db.sessions },
  count_where (λ (s : Session). ltb s.expires_at now) db.sessions,
)
