-- ===== src/Api/Started.antt =====
-- What it takes for an answer that starts a session.
use feedla.Prelude.{
  ℕ, ◌+◌, ◌≤◌, ◌≡◌, ◌≢◌, refl, ap, ◌∙◌, subst, String, Bool, true, false, not, ◌||◌, Option, none,
  some, List, [], ◌∷◌, ◌++◌, ltb, if◌then◌else◌, arith,
}
use feedla.Store.Table.{
  Result, ok, fail, StoreError, err_not_found, err_conflict, err_last_admin, err_invitation_invalid,
  err_other, count_where,
}
use feedla.Store.Accounts.{Accounts, User, Session, same_text, has_user}
use feedla.Store.Accounts.Users.{get_user_by_id}
use feedla.Store.Accounts.Sessions.{create_session}
use feedla.Auth.Password.{PasswordOps, generate_token}
use feedla.Api.{
  Server, Request, Response, session_cookie_of, store_err_status, unix, session_expiry,
}
use feedla.Api.Login.{with_accounts, session_response, session_made, session_with, start_session}

pub store_error-le : (e : StoreError) → 400 ≤ store_err_status e
store_error-le err_not_found = omega arith
store_error-le err_conflict = omega arith
store_error-le err_last_admin = omega arith
store_error-le err_invitation_invalid = omega arith
store_error-le err_other = omega arith

-- A branch that answers with another status is not the one taken.
pub other_branch :
    (n : ℕ) (b : Bool) (w x : Server × Response)
    → w.1.status ≢ n
    → (if b then w else x).1.status ≡ n
    → ((if b then w else x) ≡ x) × (b ≡ false)
other_branch n true w x d h = absurd (d h)
other_branch n false w x d h = (refl, refl)

pub not_failed {ℓ} :
    {A : Type ℓ} (e : StoreError) (b : Bool) (m made : A)
    → (if b then fail e else ok m) ≡ ok made
    → m ≡ made
not_failed e true m made h = cc h
not_failed e false m made h = cc h

create_session-row :
    (user : ℕ) (token : String) (now expires_at : ℕ) (db : Accounts) (made : Accounts × Session)
    → create_session user token now expires_at db ≡ ok made
    → (made.0.sessions ≡ db.sessions ++ made.1 ∷ [])
      × (made.0.users ≡ db.users)
      × (made.1.user_id ≡ user)
      × (made.1.token_hash ≡ token)
      × (made.1.expires_at ≡ expires_at)
unfolding create_session
create_session-row user token now expires_at db made h =
    subst
      (λ (m : Accounts × Session).
        (m.0.sessions ≡ db.sessions ++ m.1 ∷ [])
        × (m.0.users ≡ db.users)
        × (m.1.user_id ≡ user)
        × (m.1.token_hash ≡ token)
        × (m.1.expires_at ≡ expires_at))
      (not_failed err_other
        (ltb 0 (count_where (λ (x : Session). same_text x.token_hash token) db.sessions)
          || not (has_user user db.users))
        _ made h)
      (refl, refl, refl, refl, refl)

-- A session of the user stands in the table under the hash of the token that the cookie carries.
pub record IsStarted (ops : PasswordOps) (now : ℕ) (bytes : Option (List ℕ)) (r : Request)
    (user : ℕ) (s : Server) (w : Server × Response) : Type 0 where
  pub raw : String
  pub hash : String
  pub drawn : generate_token ops bytes ≡ some (raw, hash)
  pub session : Session
  pub stored : w.0.accounts.sessions ≡ s.accounts.sessions ++ session ∷ []
  pub others : w.0.accounts.users ≡ s.accounts.users
  pub owned : session.user_id ≡ user
  pub hashed : session.token_hash ≡ hash
  pub lasts : session.expires_at ≡ unix (now + session_expiry)
  pub given : w.1.cookie ≡ some (session_cookie_of s.cookie_secure_cfg false r raw)

module _ (ops : PasswordOps) where
  session_response-lem :
      (r : Request) (s : Server) (raw : String) (res : Result User)
      → (session_response ops r s raw res).1.status ≡ 200
      → ((session_response ops r s raw res).0 ≡ s)
        × ((session_response ops r s raw res).1.cookie
            ≡ some (session_cookie_of s.cookie_secure_cfg false r raw))
  session_response-lem r s raw (fail e) h = absurd (omega (arith, h, store_error-le e))
  session_response-lem r s raw (ok u) h = (refl, refl)

  session_made-lem :
      (now : ℕ) (bytes : Option (List ℕ)) (r : Request) (user : ℕ) (s : Server) (raw hash : String)
      (res : Result (Accounts × Session))
      → generate_token ops bytes ≡ some (raw, hash)
      → create_session user hash (unix now) (unix (now + session_expiry)) s.accounts ≡ res
      → (session_made ops r user s raw res).1.status ≡ 200
      → IsStarted ops now bytes r user s (session_made ops r user s raw res)
  session_made-lem now bytes r user s raw hash (fail e) g c h =
      absurd (omega (arith, h, store_error-le e))
  session_made-lem now bytes r user s raw hash (ok made) g c h =
      let row =
        create_session-row user hash (unix now) (unix (now + session_expiry)) s.accounts made c in
      let ans =
        session_response-lem r (with_accounts s made.0) raw (get_user_by_id user made.0) h in
      record {
        raw = raw;
        hash = hash;
        drawn = g;
        session = made.1;
        stored = ap (λ (z : Server). z.accounts.sessions) ans.0 ∙ row.0;
        others = ap (λ (z : Server). z.accounts.users) ans.0 ∙ row.1;
        owned = row.2;
        hashed = row.3;
        lasts = row.4;
        given = ans.1;
      }

  pub start_session-IsStarted :
      (now : ℕ) (bytes : Option (List ℕ)) (r : Request) (user : ℕ) (s : Server)
      → (start_session ops now bytes r user s).1.status ≡ 200
      → IsStarted ops now bytes r user s (start_session ops now bytes r user s)
  unfolding start_session
  start_session-IsStarted now bytes r user s h = go (generate_token ops bytes) refl h
    where
      go :
          (o : Option (String × String))
          → generate_token ops bytes ≡ o
          → (session_with ops now r user s o).1.status ≡ 200
          → IsStarted ops now bytes r user s (session_with ops now r user s o)
      go none e k = absurd (omega (arith, k))
      go (some (raw, hash)) e k =
          session_made-lem now bytes r user s raw hash
            (create_session user hash (unix now) (unix (now + session_expiry)) s.accounts) e refl k
