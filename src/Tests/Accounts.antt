-- ===== src/Tests/Accounts.antt =====
-- The first administrator invites a reader.
use feedla.Prelude.{ℕ, ◌<◌, ◌≡◌, refl, string_discrete, true, false, Option, none, some, [], ◌∷◌}
use feedla.Store.Table.{fail, err_invitation_invalid, committed, count_where, update, next_id}
use feedla.Store.Accounts.{Accounts, User, Session, Invitation}
use feedla.Store.Accounts.Users.{set_user_admin, insert_user, same_name}
use feedla.Store.Accounts.Invitations.{accept_invitation, redeemable, mark_used, find_invitation}
use feedla.Store.Accounts.Invitations.SingleUse.{invitation_single_use}
use feedla.Store.Accounts.Admins.{enabled_admins}
use feedla.Store.Accounts.Reachable.{bootstrap, done, after, set_admin, admin_remains}

abbrev admin : User
admin = record {
  id = 1;
  username = "admin";
  password_hash = "x";
  is_admin = true;
  is_disabled = false;
  instagram_embeds_enabled = false;
  created_at = 0;
  updated_at = 0;
}

abbrev reader : User
reader = record {
  id = 2;
  username = "reader";
  password_hash = "y";
  is_admin = false;
  is_disabled = false;
  instagram_embeds_enabled = false;
  created_at = 5;
  updated_at = 5;
}

abbrev invitation : Option ℕ → Option ℕ → Invitation
invitation used_by used_at = record {
  id = 1;
  token_hash = "t";
  created_by = 1;
  expires_at = 100;
  used_by = used_by;
  used_at = used_at;
  created_at = 0;
}

abbrev session : Session
session = record {
  id = 1;
  token_hash = "s";
  user_id = 2;
  created_at = 6;
  last_seen_at = 6;
  expires_at = 90;
}

abbrev invited : Accounts
invited = record { users = admin ∷ []; sessions = []; invitations = invitation none none ∷ [] }

abbrev joined : Accounts
joined = record {
  users = admin ∷ reader ∷ [];
  sessions = [];
  invitations = invitation (some 2) (some 5) ∷ [];
}

abbrev logged_in : Accounts
logged_in = record joined { sessions = session ∷ [] }

admin_remains_example :
    0 < enabled_admins (committed (bootstrap 0) (set_user_admin 1 false 5 (bootstrap 0))).users
admin_remains_example =
    admin_remains (λ s. s) 0 (committed (bootstrap 0) (set_user_admin 1 false 5 (bootstrap 0)))
      (after done (set_admin 1 false 5 (bootstrap 0)))

invitation_single_use_example :
    accept_invitation (λ s. s) "t" "other" "z" 9 joined ≡ fail err_invitation_invalid
unfolding accept_invitation redeemable mark_used find_invitation insert_user same_name count_where
    update next_id string_discrete
invitation_single_use_example =
    invitation_single_use (λ s. s) "t" "reader" "y" 5 invited (joined, reader) refl joined done
      "other" "z" 9

abbrev logged_out : Accounts
logged_out = record {
  users = admin ∷ (record reader { is_disabled = true; updated_at = 8 }) ∷ [];
  sessions = [];
  invitations = invitation (some 2) (some 5) ∷ [];
}
