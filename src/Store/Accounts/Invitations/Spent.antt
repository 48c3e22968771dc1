-- ===== src/Store/Accounts/Invitations/Spent.antt =====
-- A redeemed invitation stays redeemed: what each call does to the table of invitations.
use feedla.Prelude.{
  ℕ, ◌≡◌, inl, inr, String, Bool, true, false, not, ◌&&◌, ◌||◌, Option, none, some, List, [], ◌∷◌,
  ◌++◌, ltb, ◌==◌, if◌then◌else◌, arith, Bool-cases,
}
use feedla.Store.Table.{Result, ok, fail, committed, update, count_where}
use feedla.Store.Accounts.{Accounts, User, Invitation, same_text, has_user}
use feedla.Store.Accounts.Users.{
  update_users, set_user_admin, disable_rows, set_user_disabled, complete_setup, insert_user,
}
use feedla.Store.Accounts.Sessions.{create_session}
use feedla.Store.Accounts.Invitations.{
  create_invitation, redeemable, mark_used, find_invitation, is_used,
}
use feedla.Store.Accounts.Admins.{stored}

abbrev pub is_spent : Option Invitation → Bool
is_spent none = false
is_spent (some i) = is_used i

-- The token's invitation has been redeemed.
unfoldable pub spent : String → List Invitation → Bool
spent token invitations = is_spent (find_invitation token invitations)

pub spent-append :
    (token : String) (xs ys : List Invitation)
    → spent token xs ≡ true
    → spent token (xs ++ ys) ≡ true
unfolding spent find_invitation
spent-append token [] ys h = cc h
spent-append token (x ∷ xs) ys h = ground (arith, h, spent-append token xs ys)

pub mark_row : ℕ → ℕ → Invitation → Invitation
mark_row user now i = record i { used_by = some user; used_at = some now }

pub spent-update :
    (token : String) (p : Invitation → Bool) (user now : ℕ) (xs : List Invitation)
    → spent token xs ≡ true
    → spent token (update p (λ i. record i { used_by = some user; used_at = some now }) xs) ≡ true
unfolding spent find_invitation update
spent-update token p user now [] h = cc h
spent-update token p user now (x ∷ xs) h = ground (arith, h, spent-update token p user now xs)

pub spent-marked :
    (token : String) (p : Invitation → Bool) (user now : ℕ) (xs : List Invitation) (i : Invitation)
    → find_invitation token xs ≡ some i
    → p i ≡ true
    → spent token (update p (λ i. record i { used_by = some user; used_at = some now }) xs) ≡ true
unfolding spent find_invitation update
spent-marked token p user now [] i f h = cc f
spent-marked token p user now (x ∷ xs) i f h =
    ground (arith, f, h, spent-marked token p user now xs i)

pub insert_user-invitations :
    (fold : String → String) (name hash : String) (is_admin : Bool) (now : ℕ) (db : Accounts)
    → (stored db (insert_user fold name hash is_admin now db)).invitations ≡ db.invitations
unfolding insert_user
insert_user-invitations fold name hash is_admin now db = ground arith

pub update_users-invitations :
    (p : User → Bool) (f : User → User) (db : Accounts)
    → (committed db (update_users p f db)).invitations ≡ db.invitations
unfolding update_users
update_users-invitations p f db = ground arith

pub set_user_disabled-invitations :
    (id : ℕ) (disabled : Bool) (now : ℕ) (db : Accounts)
    → (committed db (set_user_disabled id disabled now db)).invitations ≡ db.invitations
unfolding set_user_disabled disable_rows
set_user_disabled-invitations id true now db = ground arith
set_user_disabled-invitations id false now db = ground arith

pub mark_used-spent :
    (token : String) (id now : ℕ) (u : User) (db : Accounts)
    → spent token db.invitations ≡ true
    → spent token (stored db (mark_used id now u db)).invitations ≡ true
unfolding mark_used
mark_used-spent token id now u db h =
    elim (Bool-cases
      (count_where (λ (i : Invitation). (i.id == id) && not (is_used i)) db.invitations == 0)) [
        | inl t ↦ rw (t, if◌then◌else◌) h
        | inr t ↦ rw (t, if◌then◌else◌) (spent-update token _ u.id now db.invitations h)
      ]

pub set_user_admin-invitations :
    (id : ℕ) (is_admin : Bool) (now : ℕ) (db : Accounts)
    → (committed db (set_user_admin id is_admin now db)).invitations ≡ db.invitations
unfolding set_user_admin update_users
set_user_admin-invitations id is_admin now db = ground arith

pub complete_setup-invitations :
    (fold : String → String) (id : ℕ) (name hash : String) (now : ℕ) (db : Accounts)
    → (committed db (complete_setup fold id name hash now db)).invitations ≡ db.invitations
unfolding complete_setup update_users
complete_setup-invitations fold id name hash now db = ground arith

pub create_session-invitations :
    (user : ℕ) (token : String) (now expires_at : ℕ) (db : Accounts)
    → (stored db (create_session user token now expires_at db)).invitations ≡ db.invitations
unfolding create_session
create_session-invitations user token now expires_at db = ground arith

pub create_invitation-spent :
    (other : String) (created_by : ℕ) (token : String) (expires_at now : ℕ) (db : Accounts)
    → spent other db.invitations ≡ true
    → spent other (stored db (create_invitation created_by token expires_at now db)).invitations
      ≡ true
unfolding create_invitation
create_invitation-spent other created_by token expires_at now db h =
    elim (Bool-cases (
      ltb 0 (count_where (λ (x : Invitation). same_text x.token_hash token) db.invitations)
      || not (has_user created_by db.users))) [
        | inl t ↦ rw (t, if◌then◌else◌) h
        | inr t ↦ rw (t, if◌then◌else◌) (spent-append other db.invitations _ h)
      ]

abbrev pub is_ok : {A : Type 0} → Result A → Bool
is_ok (ok a) = true
is_ok (fail e) = false

pub redeemable_ok :
    (now : ℕ) (o : Option Invitation) (i : Invitation)
    → redeemable now o ≡ ok i
    → (o ≡ some i) × (is_used i ≡ false)
unfolding redeemable
redeemable_ok now none i h = cc h
redeemable_ok now (some j) i h = ground (arith, h)

pub counted :
    (token : String) (i : Invitation) (xs : List Invitation)
    → find_invitation token xs ≡ some i
    → is_used i ≡ false
    → (count_where (λ (j : Invitation). (j.id == i.id) && not (is_used j)) xs == 0) ≡ false
unfolding find_invitation count_where
counted token i [] f n = cc f
counted token i (x ∷ xs) f n = ground (arith, f, n, counted token i xs)

pub mark_used-marks :
    (token : String) (now : ℕ) (u : User) (db old : Accounts) (i : Invitation)
    → find_invitation token db.invitations ≡ some i
    → is_used i ≡ false
    → is_ok (mark_used i.id now u db) ≡ true
    → spent token (stored old (mark_used i.id now u db)).invitations ≡ true
unfolding mark_used
mark_used-marks token now u db old i f n h =
    rw (counted token i db.invitations f n, if◌then◌else◌)
      (spent-marked token (λ j. (j.id == i.id) && not (is_used j)) u.id now db.invitations i f
        (ground (arith, n)))
