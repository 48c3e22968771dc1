-- ===== src/Store/Accounts/Invitations.antt =====
-- internal/store/invitations.go: single-use signup tokens.
pub mod Spent
pub mod SingleUse
use feedla.Prelude.{
  ℕ, suc, ◌+◌, String, Bool, true, false, not, ◌&&◌, ◌||◌, Option, none, some, List, [], ◌∷◌, ◌++◌,
  ltb, ◌==◌, if◌then◌else◌,
}
use feedla.Store.Table.{
  Result, ok, fail, err_not_found, err_invitation_invalid, err_other, update, count_where, next_id,
}
use feedla.Store.Accounts.{Accounts, User, Invitation, same_text, has_user}
use feedla.Store.Accounts.Users.{insert_user}

-- UNIQUE(token_hash) and REFERENCES users(id).
unfoldable pub create_invitation : ℕ → String → ℕ → ℕ → Accounts → Result (Accounts × Invitation)
create_invitation created_by token expires_at now db =
    let inv : Invitation = record {
      id = next_id (λ (x : Invitation). x.id) db.invitations;
      token_hash = token;
      created_by = created_by;
      expires_at = expires_at;
      used_by = none;
      used_at = none;
      created_at = now;
    } in
    if ltb 0 (count_where (λ (x : Invitation). same_text x.token_hash token) db.invitations)
      || not (has_user created_by db.users)
    then fail err_other
    else ok (record db { invitations = db.invitations ++ inv ∷ [] }, inv)

unfoldable pub find_invitation : String → List Invitation → Option Invitation
find_invitation token [] = none
find_invitation token (i ∷ invitations) =
    let rest = find_invitation token invitations in
    if same_text i.token_hash token then some i else rest

abbrev pub is_used : Invitation → Bool
is_used i = elim i.used_by [ none ↦ false | some u ↦ true ]

-- The row of a token that can still be redeemed.
unfoldable pub redeemable : ℕ → Option Invitation → Result Invitation
redeemable now none = fail err_not_found
redeemable now (some i) =
    if is_used i || ltb i.expires_at now then fail err_invitation_invalid else ok i

unfoldable pub check_invitation : String → ℕ → Accounts → Result Bool
unfolding redeemable find_invitation
check_invitation token now db = elim (redeemable now (find_invitation token db.invitations)) [
  | fail e ↦ fail e
  | ok i ↦ ok true
]

-- `UPDATE invitations SET used_by = ?, used_at = ? WHERE id = ? AND used_by IS NULL`
unfoldable pub mark_used : ℕ → ℕ → User → Accounts → Result (Accounts × User)
mark_used id now u db =
    if count_where (λ (i : Invitation). (i.id == id) && not (is_used i)) db.invitations == 0
    then fail err_invitation_invalid
    else ok (
      record db {
        invitations =
            update (λ i. (i.id == id) && not (is_used i))
              (λ i. record i { used_by = some u.id; used_at = some now }) db.invitations;
      },
      u,
    )

module _ (fold : String → String) where
  unfoldable pub accept_invitation :
      String → String → String → ℕ → Accounts → Result (Accounts × User)
  unfolding redeemable find_invitation mark_used insert_user
  accept_invitation token name hash now db =
      elim (redeemable now (find_invitation token db.invitations)) [
        | fail e ↦ fail e
        | ok i ↦ elim (insert_user fold name hash false now db) [
          | fail e ↦ fail e
          | ok r ↦ mark_used i.id now r.1 r.0
        ]
      ]
