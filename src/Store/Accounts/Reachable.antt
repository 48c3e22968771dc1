-- ===== src/Store/Accounts/Reachable.antt =====
-- The calls on accounts, sessions and invitations as steps, from the tables that the migrations
-- make.
use feedla.Prelude.{ℕ, ◌<◌, ◌≡◌, refl, String, Bool, true, false, [], ◌∷◌, arith}
use feedla.Store.Table.{Result, ok, fail, committed, count_where}
use feedla.Store.Accounts.{Accounts, User, Invitation, setup_sentinel_hash, find_user}
use feedla.Store.Accounts.Users.{
  update_user_password, set_user_instagram_embeds_enabled, set_user_admin, set_user_disabled,
  complete_setup, create_user, insert_user,
}
use feedla.Store.Accounts.Sessions.{
  create_session, touch_session, delete_session, delete_all_sessions_for_user,
  delete_expired_sessions,
}
use feedla.Store.Accounts.Invitations.{
  create_invitation, accept_invitation, redeemable, mark_used, find_invitation,
}
use feedla.Store.Accounts.Admins.{enabled_admins, stored, IsGoverned}
use feedla.Store.Accounts.Admins.Calls

-- The tables that migration 0005 leaves: one administrator who is locked until the setup.
abbrev pub bootstrap : ℕ → Accounts
bootstrap now = record {
  users =
      (record {
        id = 1;
        username = "admin";
        password_hash = setup_sentinel_hash;
        is_admin = true;
        is_disabled = false;
        instagram_embeds_enabled = false;
        created_at = now;
        updated_at = now;
      })
      ∷ [];
  sessions = [];
  invitations = [];
}

module _ (fold : String → String) where
  pub data Step : Accounts → Accounts → Type 0 where
    setup :
        (id : ℕ) (name hash : String) (now : ℕ) (db : Accounts)
        → Step db (committed db (complete_setup fold id name hash now db))
    password :
        (id : ℕ) (hash : String) (now : ℕ) (db : Accounts)
        → Step db (committed db (update_user_password id hash now db))
    instagram :
        (id : ℕ) (enabled : Bool) (now : ℕ) (db : Accounts)
        → Step db (committed db (set_user_instagram_embeds_enabled id enabled now db))
    create :
        (name hash : String) (is_admin : Bool) (now : ℕ) (db : Accounts)
        → Step db (stored db (create_user fold name hash is_admin now db))
    set_admin :
        (id : ℕ) (is_admin : Bool) (now : ℕ) (db : Accounts)
        → Step db (committed db (set_user_admin id is_admin now db))
    set_disabled :
        (id : ℕ) (disabled : Bool) (now : ℕ) (db : Accounts)
        → Step db (committed db (set_user_disabled id disabled now db))
    login :
        (user : ℕ) (token : String) (now expires_at : ℕ) (db : Accounts)
        → Step db (stored db (create_session user token now expires_at db))
    touch : (id now : ℕ) (db : Accounts) → Step db (touch_session id now db)
    logout : (token : String) (db : Accounts) → Step db (delete_session token db)
    logout_all : (user : ℕ) (db : Accounts) → Step db (delete_all_sessions_for_user user db)
    expire : (now : ℕ) (db : Accounts) → Step db (delete_expired_sessions now db).0
    invite :
        (created_by : ℕ) (token : String) (expires_at now : ℕ) (db : Accounts)
        → Step db (stored db (create_invitation created_by token expires_at now db))
    accept :
        (token name hash : String) (now : ℕ) (db : Accounts)
        → Step db (stored db (accept_invitation fold token name hash now db))

  pub data Steps : Accounts → Accounts → Type 0 where
    done : {db : Accounts} → Steps db db
    after : {a b c : Accounts} → Steps a b → Step b c → Steps a c

  create_session-users :
      (user : ℕ) (token : String) (now expires_at : ℕ) (db : Accounts)
      → (stored db (create_session user token now expires_at db)).users ≡ db.users
  unfolding create_session
  create_session-users user token now expires_at db = ground arith

  create_invitation-users :
      (created_by : ℕ) (token : String) (expires_at now : ℕ) (db : Accounts)
      → (stored db (create_invitation created_by token expires_at now db)).users ≡ db.users
  unfolding create_invitation
  create_invitation-users created_by token expires_at now db = ground arith

  mark_used-users :
      (id now : ℕ) (u : User) (db : Accounts) → (stored db (mark_used id now u db)).users ≡ db.users
  unfolding mark_used
  mark_used-users id now u db = ground arith

  -- Where the last statement of `AcceptInvitation` fails, the new account goes too.
  accept_invitation-IsGoverned :
      (token name hash : String) (now : ℕ) (db : Accounts)
      → IsGoverned db.users
      → IsGoverned (stored db (accept_invitation fold token name hash now db)).users
  unfolding accept_invitation
  accept_invitation-IsGoverned token name hash now db g =
      checked (redeemable now (find_invitation token db.invitations))
    where
      marked :
          (id : ℕ) (r : Accounts × User)
          → IsGoverned r.0.users
          → (m : Result (Accounts × User)) → (stored r.0 m).users ≡ r.0.users
          → IsGoverned (stored db m).users
      marked id r h (fail e) k = g
      marked id r h (ok m) k = rw k h

      inserted :
          (id : ℕ) (r : Result (Accounts × User))
          → IsGoverned (stored db r).users
          → IsGoverned
              (stored db (elim r [ fail e ↦ fail e | ok r ↦ mark_used id now r.1 r.0 ])).users
      inserted id (fail e) h = g
      inserted id (ok r) h =
          marked id r h (mark_used id now r.1 r.0) (mark_used-users id now r.1 r.0)

      checked :
          (r : Result Invitation)
          → IsGoverned
              (stored db (elim r [
                | fail e ↦ fail e
                | ok i ↦ elim (insert_user fold name hash false now db) [
                  | fail e ↦ fail e
                  | ok r ↦ mark_used i.id now r.1 r.0
                ]
              ])).users
      checked (fail e) = g
      checked (ok i) =
          inserted i.id (insert_user fold name hash false now db)
            (Calls.insert_user-IsGoverned fold name hash false now db g)

  Step-IsGoverned : {a b : Accounts} → Step a b → IsGoverned a.users → IsGoverned b.users
  unfolding create_user touch_session delete_session delete_all_sessions_for_user
      delete_expired_sessions
  Step-IsGoverned (setup id name hash now db) g =
      Calls.complete_setup-IsGoverned fold id name hash now db g
  Step-IsGoverned (password id hash now db) g =
      Calls.update_user_password-IsGoverned id hash now db g
  Step-IsGoverned (instagram id enabled now db) g =
      Calls.set_user_instagram-IsGoverned id enabled now db g
  Step-IsGoverned (create name hash is_admin now db) g =
      Calls.insert_user-IsGoverned fold name hash is_admin now db g
  Step-IsGoverned (set_admin id is_admin now db) g =
      Calls.set_user_admin-IsGoverned id is_admin now db g
  Step-IsGoverned (set_disabled id disabled now db) g =
      Calls.set_user_disabled-IsGoverned id disabled now db g
  Step-IsGoverned (login user token now expires_at db) g =
      rw (create_session-users user token now expires_at db) g
  Step-IsGoverned (touch id now db) g = g
  Step-IsGoverned (logout token db) g = g
  Step-IsGoverned (logout_all user db) g = g
  Step-IsGoverned (expire now db) g = g
  Step-IsGoverned (invite created_by token expires_at now db) g =
      rw (create_invitation-users created_by token expires_at now db) g
  Step-IsGoverned (accept token name hash now db) g =
      accept_invitation-IsGoverned token name hash now db g

  Steps-IsGoverned : {a b : Accounts} → Steps a b → IsGoverned a.users → IsGoverned b.users
  Steps-IsGoverned done g = g
  Steps-IsGoverned (after s t) g = Step-IsGoverned t (Steps-IsGoverned s g)

  bootstrap-IsGoverned : (now : ℕ) → IsGoverned (bootstrap now).users
  unfolding enabled_admins count_where find_user
  bootstrap-IsGoverned now = record { admin = omega arith; unique = (refl, tt) }

  -- Whatever calls are made from the first start on, there is an administrator who is not disabled.
  pub admin_remains :
      (now : ℕ) (db : Accounts) → Steps (bootstrap now) db → 0 < enabled_admins db.users
  admin_remains now db s = (Steps-IsGoverned s (bootstrap-IsGoverned now)).admin
