-- ===== src/Store/Accounts/Sessions/Owner.antt =====
-- Whom a session authenticates: its owner, who is not disabled.
use feedla.Prelude.{
  ℕ, ◌≡◌, refl, inl, inr, String, Bool, true, false, some, List, [], ◌∷◌, ◌==◌, arith, Bool-cases,
  Option-cases,
}
use feedla.Store.Table.{Result, ok, fail, remove, count_where}
use feedla.Store.Accounts.{Accounts, User, Session, find_user}
use feedla.Store.Accounts.Users.{check_disable, disable_rows, set_user_disabled}
use feedla.Store.Accounts.Sessions.{owner, find_session, get_session_by_token_hash}

owner-lem :
    (users : List User) (s t : Session) (u : User)
    → owner users s ≡ some (t, u)
    → (t ≡ s) × (u.id ≡ s.user_id) × (u.is_disabled ≡ false)
unfolding owner
owner-lem [] s t u h = cc h
owner-lem (x ∷ users) s t u h = ground (arith, h, owner-lem users s t u)

find_session-lem :
    (token : String) (users : List User) (sessions : List Session) (s : Session) (u : User)
    → find_session token users sessions ≡ some (s, u)
    → (s.token_hash ≡ token) × (u.id ≡ s.user_id) × (u.is_disabled ≡ false)
unfolding find_session
find_session-lem token users [] s u h = cc h
find_session-lem token users (x ∷ sessions) s u h =
    ground (arith, h, owner-lem users x s u, find_session-lem token users sessions s u)

-- A token authenticates only the owner of a session with that token, and only while the owner is
-- not disabled.
pub session_owner_enabled :
    (token : String) (db : Accounts) (s : Session) (u : User)
    → get_session_by_token_hash token db ≡ ok (s, u)
    → (s.token_hash ≡ token) × (u.id ≡ s.user_id) × (u.is_disabled ≡ false)
unfolding get_session_by_token_hash
session_owner_enabled token db s u h =
    elim (Option-cases (find_session token db.users db.sessions)) [
      | inl e ↦ cc (h, e)
      | inr ((t, v), e) ↦ find_session-lem token db.users db.sessions s u (cc (h, e))
    ]

none_left :
    (id : ℕ) (sessions : List Session)
    → count_where (λ (s : Session). s.user_id == id) (remove (λ s. s.user_id == id) sessions) ≡ 0
unfolding count_where remove
none_left id [] = refl
none_left id (s ∷ sessions) = ground (arith, none_left id sessions)

disable_rows-sessions :
    (id now : ℕ) (db db' : Accounts)
    → disable_rows id true now db ≡ ok db'
    → count_where (λ (s : Session). s.user_id == id) db'.sessions ≡ 0
unfolding disable_rows
disable_rows-sessions id now db db' h =
    elim (Bool-cases (count_where (λ (u : User). u.id == id) db.users == 0)) [
      | inl t ↦ ground (arith, h, t)
      | inr t ↦ ground (arith, h, t, none_left id db.sessions)
    ]

-- Disabling an account that succeeds leaves no session of it.
pub disabled_logged_out :
    (id now : ℕ) (db db' : Accounts)
    → set_user_disabled id true now db ≡ ok db'
    → count_where (λ (s : Session). s.user_id == id) db'.sessions ≡ 0
unfolding set_user_disabled
disabled_logged_out id now db db' h = go (check_disable id db.users (find_user id db.users)) h
  where
    go :
        (r : Result Bool)
        → elim r [ fail e ↦ fail e | ok b ↦ disable_rows id true now db ] ≡ ok db'
        → count_where (λ (s : Session). s.user_id == id) db'.sessions ≡ 0
    go (fail e) k = cc k
    go (ok b) k = disable_rows-sessions id now db db' k
