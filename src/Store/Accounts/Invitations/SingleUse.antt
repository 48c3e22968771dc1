-- ===== src/Store/Accounts/Invitations/SingleUse.antt =====
-- A token is redeemed at most once, whatever happens between two attempts.
use feedla.Prelude.{ℕ, ◌≡◌, refl, ap, subst, String, true, false, some, arith}
use feedla.Store.Table.{Result, ok, fail, err_invitation_invalid}
use feedla.Store.Accounts.{Accounts, User, Invitation}
use feedla.Store.Accounts.Users.{
  update_user_password, set_user_instagram_embeds_enabled, create_user, insert_user,
}
use feedla.Store.Accounts.Sessions.{
  touch_session, delete_session, delete_all_sessions_for_user, delete_expired_sessions,
}
use feedla.Store.Accounts.Invitations.{
  accept_invitation, redeemable, mark_used, find_invitation, is_used,
}
use feedla.Store.Accounts.Admins.{stored}
use feedla.Store.Accounts.Reachable.{
  Step, Steps, setup, password, instagram, create, set_admin, set_disabled, login, touch, logout,
  logout_all, expire, invite, accept, done, after,
}
use feedla.Store.Accounts.Invitations.Spent.{
  insert_user-invitations, update_users-invitations, set_user_disabled-invitations, mark_used-spent,
  set_user_admin-invitations, complete_setup-invitations, create_session-invitations,
  create_invitation-spent, redeemable_ok, mark_used-marks, spent, is_ok,
}

module _ (fold : String → String) where
  -- The rest of `AcceptInvitation` once the token's row is found to be redeemable.
  redeem : String → String → ℕ → Accounts → ℕ → Result (Accounts × User) → Result (Accounts × User)
  redeem name hash now db id (fail e) = fail e
  redeem name hash now db id (ok r) = mark_used id now r.1 r.0

  redeem-spent :
      (other name hash : String) (now : ℕ) (db : Accounts) (id : ℕ) (r : Result (Accounts × User))
      → (stored db r).invitations ≡ db.invitations
      → spent other db.invitations ≡ true
      → spent other (stored db (redeem name hash now db id r)).invitations ≡ true
  unfolding redeem
  redeem-spent other name hash now db id (fail e) k h = h
  redeem-spent other name hash now db id (ok r) k h =
      marked (mark_used id now r.1 r.0) (mark_used-spent other id now r.1 r.0 (rw k h))
    where
      marked :
          (m : Result (Accounts × User))
          → spent other (stored r.0 m).invitations ≡ true
          → spent other (stored db m).invitations ≡ true
      marked (fail e) q = h
      marked (ok m) q = q

  accept-spent :
      (other token name hash : String) (now : ℕ) (db : Accounts)
      → spent other db.invitations ≡ true
      → spent other (stored db (accept_invitation fold token name hash now db)).invitations ≡ true
  unfolding accept_invitation redeem
  accept-spent other token name hash now db h =
      checked (redeemable now (find_invitation token db.invitations))
    where
      checked :
          (r : Result Invitation)
          → spent other
              (stored db (elim r [
                | fail e ↦ fail e
                | ok i ↦ redeem name hash now db i.id (insert_user fold name hash false now db)
              ])).invitations
            ≡ true
      checked (fail e) = h
      checked (ok i) =
          redeem-spent other name hash now db i.id (insert_user fold name hash false now db)
            (insert_user-invitations fold name hash false now db) h

  Step-spent :
      (token : String) {a b : Accounts}
      → Step fold a b
      → spent token a.invitations ≡ true
      → spent token b.invitations ≡ true
  unfolding create_user touch_session delete_session delete_all_sessions_for_user
      delete_expired_sessions update_user_password set_user_instagram_embeds_enabled
  Step-spent token (setup id name hash now db) h =
      rw (complete_setup-invitations fold id name hash now db) h
  Step-spent token (password id hash now db) h = rw (update_users-invitations _ _ db) h
  Step-spent token (instagram id enabled now db) h = rw (update_users-invitations _ _ db) h
  Step-spent token (create name hash is_admin now db) h =
      rw (insert_user-invitations fold name hash is_admin now db) h
  Step-spent token (set_admin id is_admin now db) h =
      rw (set_user_admin-invitations id is_admin now db) h
  Step-spent token (set_disabled id disabled now db) h =
      rw (set_user_disabled-invitations id disabled now db) h
  Step-spent token (login user other now expires_at db) h =
      rw (create_session-invitations user other now expires_at db) h
  Step-spent token (touch id now db) h = h
  Step-spent token (logout other db) h = h
  Step-spent token (logout_all user db) h = h
  Step-spent token (expire now db) h = h
  Step-spent token (invite created_by other expires_at now db) h =
      create_invitation-spent token created_by other expires_at now db h
  Step-spent token (accept other name hash now db) h = accept-spent token other name hash now db h

  Steps-spent :
      (token : String) {a b : Accounts}
      → Steps fold a b
      → spent token a.invitations ≡ true
      → spent token b.invitations ≡ true
  Steps-spent token done h = h
  Steps-spent token (after s t) h = Step-spent token t (Steps-spent token s h)

  redeem-marks :
      (token name hash : String) (now : ℕ) (db : Accounts) (i : Invitation)
      (r : Result (Accounts × User))
      → find_invitation token db.invitations ≡ some i
      → is_used i ≡ false
      → (stored db r).invitations ≡ db.invitations
      → is_ok (redeem name hash now db i.id r) ≡ true
      → spent token (stored db (redeem name hash now db i.id r)).invitations ≡ true
  unfolding redeem
  redeem-marks token name hash now db i (fail e) f n k h = cc h
  redeem-marks token name hash now db i (ok r) f n k h =
      mark_used-marks token now r.1 r.0 db i (rw k f) n h

  accept-marks :
      (token name hash : String) (now : ℕ) (db : Accounts)
      → is_ok (accept_invitation fold token name hash now db) ≡ true
      → spent token (stored db (accept_invitation fold token name hash now db)).invitations ≡ true
  unfolding accept_invitation redeem
  accept-marks token name hash now db h =
      checked (redeemable now (find_invitation token db.invitations)) refl h
    where
      checked :
          (r : Result Invitation)
          → redeemable now (find_invitation token db.invitations) ≡ r
          → is_ok (elim r [
            | fail e ↦ fail e
            | ok i ↦ redeem name hash now db i.id (insert_user fold name hash false now db)
          ])
            ≡ true
          → spent token
              (stored db (elim r [
                | fail e ↦ fail e
                | ok i ↦ redeem name hash now db i.id (insert_user fold name hash false now db)
              ])).invitations
            ≡ true
      checked (fail e) q k = cc k
      checked (ok i) q k =
          let (f, n) = redeemable_ok now (find_invitation token db.invitations) i q in
          redeem-marks token name hash now db i (insert_user fold name hash false now db) f n
            (insert_user-invitations fold name hash false now db) k

  accept_ok :
      (token name hash : String) (now : ℕ) (db : Accounts) (r : Accounts × User)
      → accept_invitation fold token name hash now db ≡ ok r
      → spent token r.0.invitations ≡ true
  accept_ok token name hash now db r h =
      subst (λ m. spent token (stored db m).invitations ≡ true) h
        (accept-marks token name hash now db (ap is_ok h))

  accept-refused :
      (token name hash : String) (now : ℕ) (db : Accounts)
      → spent token db.invitations ≡ true
      → accept_invitation fold token name hash now db ≡ fail err_invitation_invalid
  unfolding accept_invitation redeemable spent
  accept-refused token name hash now db h = ground (arith, h)

  -- Once a token has been redeemed, every further attempt with it fails as used, after whatever
  -- calls, at whatever time and under whatever name.
  pub invitation_single_use :
      (token name hash : String) (now : ℕ) (db : Accounts) (r : Accounts × User)
      → accept_invitation fold token name hash now db ≡ ok r
      → (db' : Accounts) → Steps fold r.0 db'
      → (name' hash' : String) (now' : ℕ)
      → accept_invitation fold token name' hash' now' db' ≡ fail err_invitation_invalid
  invitation_single_use token name hash now db r h db' s name' hash' now' =
      accept-refused token name' hash' now' db'
        (Steps-spent token s (accept_ok token name hash now db r h))
