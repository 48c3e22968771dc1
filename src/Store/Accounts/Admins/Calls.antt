-- ===== src/Store/Accounts/Admins/Calls.antt =====
-- Each call on accounts keeps an enabled administrator.
use feedla.Prelude.{
  ℕ, ◌≤◌, ◌<◌, ◌≡◌, refl, sym, subst, inl, inr, String, Bool, true, false, not, ◌&&◌, Option, none,
  some, List, [], ◌∷◌, ◌++◌, ltb, ◌==◌, if◌then◌else◌, All, arith, Bool-cases,
}
use feedla.Store.Table.{
  Result, ok, fail, committed, update, count_where, count_where-append, next_id, next_id-lt,
  All-map, All-append,
}
use feedla.Store.Accounts.{Accounts, User, find_user}
use feedla.Store.Accounts.Users.{
  update_user_password, set_user_instagram_embeds_enabled, other_admins, set_user_admin,
  check_disable, disable_rows, set_user_disabled, complete_setup, insert_user, same_name, locked,
}
use feedla.Store.Accounts.Admins.{
  enabled_admins, stored, IsGoverned, update_unique, update_users-IsGoverned, admins_kept,
  others_kept,
}

pub complete_setup-IsGoverned :
    (fold : String → String) (id : ℕ) (name hash : String) (now : ℕ) (db : Accounts)
    → IsGoverned db.users
    → IsGoverned (committed db (complete_setup fold id name hash now db)).users
unfolding complete_setup
complete_setup-IsGoverned fold id name hash now db g =
    elim (Bool-cases (
      ltb 0 (count_where (λ u. (u.id == id) && locked u) db.users)
      && ltb 0 (count_where (λ u. same_name fold name u && not (u.id == id)) db.users))) [
        | inl t ↦ rw (t, if◌then◌else◌) g
        | inr t ↦
            rw (t, if◌then◌else◌)
              (update_users-IsGoverned (λ u. (u.id == id) && locked u) _ db (λ x. refl)
                (omega (
                  arith,
                  g.admin,
                  admins_kept (λ u. (u.id == id) && locked u)
                      (λ u. record u { username = name; password_hash = hash; updated_at = now })
                      db.users (λ x h. h),
                ))
                g)
      ]

pub update_user_password-IsGoverned :
    (id : ℕ) (hash : String) (now : ℕ) (db : Accounts)
    → IsGoverned db.users
    → IsGoverned (committed db (update_user_password id hash now db)).users
unfolding update_user_password
update_user_password-IsGoverned id hash now db g =
    let f : User → User = λ u. record u { password_hash = hash; updated_at = now } in
    update_users-IsGoverned (λ u. u.id == id) f db (λ x. refl)
      (omega (arith, g.admin, admins_kept (λ u. u.id == id) f db.users (λ x h. h))) g

pub set_user_instagram-IsGoverned :
    (id : ℕ) (enabled : Bool) (now : ℕ) (db : Accounts)
    → IsGoverned db.users
    → IsGoverned (committed db (set_user_instagram_embeds_enabled id enabled now db)).users
unfolding set_user_instagram_embeds_enabled
set_user_instagram-IsGoverned id enabled now db g =
    let f : User → User = λ u. record u { instagram_embeds_enabled = enabled; updated_at = now } in
    update_users-IsGoverned (λ u. u.id == id) f db (λ x. refl)
      (omega (arith, g.admin, admins_kept (λ u. u.id == id) f db.users (λ x h. h))) g

pub set_user_admin-IsGoverned :
    (id : ℕ) (is_admin : Bool) (now : ℕ) (db : Accounts)
    → IsGoverned db.users
    → IsGoverned (committed db (set_user_admin id is_admin now db)).users
unfolding set_user_admin
set_user_admin-IsGoverned id true now db g =
    let f : User → User = λ u. record u { is_admin = true; updated_at = now } in
    update_users-IsGoverned (λ u. u.id == id) f db (λ x. refl)
      (omega (arith, g.admin, admins_kept (λ u. u.id == id) f db.users (λ x h. ground (arith, h))))
      g
set_user_admin-IsGoverned id false now db g =
    let f : User → User = λ u. record u { is_admin = false; updated_at = now } in
    elim (Bool-cases (other_admins id db.users == 0)) [
      | inl t ↦ rw (t, if◌then◌else◌) g
      | inr t ↦
          rw (t, if◌then◌else◌)
            (update_users-IsGoverned (λ u. u.id == id) f db (λ x. refl)
              (ground (arith, t, others_kept id f db.users)) g)
    ]

-- Disabling an account that is no administrator's leaves all administrators.
no_admin_lost :
    (id : ℕ) (f : User → User) (users : List User)
    → All (λ (u : User). (u.id == id) ≡ true → u.is_admin ≡ false) users
    → enabled_admins users ≤ enabled_admins (update (λ u. u.id == id) f users)
unfolding enabled_admins count_where update
no_admin_lost id f [] a = omega arith
no_admin_lost id f (x ∷ users) (h, a) = ground (arith, h, no_admin_lost id f users a)

disable_rows-IsGoverned :
    (id : ℕ) (disabled : Bool) (now : ℕ) (db : Accounts)
    → 0
      < enabled_admins (
          update
            (λ u. u.id == id)
            (λ u. record u { is_disabled = disabled; updated_at = now })
            db.users)
    → IsGoverned db.users
    → IsGoverned (committed db (disable_rows id disabled now db)).users
unfolding disable_rows
disable_rows-IsGoverned id disabled now db more g =
    elim (Bool-cases (count_where (λ (u : User). u.id == id) db.users == 0)) [
      | inl t ↦ rw (t, if◌then◌else◌) g
      | inr t ↦
          rw (t, if◌then◌else◌)
            (record {
              admin = more;
              unique = update_unique (λ u. u.id == id) _ db.users (λ x. refl) g.unique;
            })
    ]

check_disable-kept :
    (id : ℕ) (f : User → User) (users : List User) (o : Option User) (b : Bool)
    → find_user id users ≡ o
    → check_disable id users o ≡ ok b
    → IsGoverned users
    → 0 < enabled_admins (update (λ u. u.id == id) f users)
unfolding check_disable
check_disable-kept id f users none b e h g = cc h
check_disable-kept id f users (some u) b e h g = elim (Bool-cases u.is_admin) [
  | inl t ↦ ground (arith, h, t, others_kept id f users)
  | inr t ↦
      omega
        (arith, g.admin, no_admin_lost id f users (All-map users (λ x o i. same x o i t) g.unique))
]
  where
    same :
        (x : User)
        → find_user x.id users ≡ some x
        → (x.id == id) ≡ true
        → u.is_admin ≡ false
        → x.is_admin ≡ false
    same x o i t = ground (arith, o, i, t, e)

pub set_user_disabled-IsGoverned :
    (id : ℕ) (disabled : Bool) (now : ℕ) (db : Accounts)
    → IsGoverned db.users
    → IsGoverned (committed db (set_user_disabled id disabled now db)).users
unfolding set_user_disabled
set_user_disabled-IsGoverned id false now db g =
    let f : User → User = λ u. record u { is_disabled = false; updated_at = now } in
    disable_rows-IsGoverned id false now db
      (omega (arith, g.admin, admins_kept (λ u. u.id == id) f db.users (λ x h. ground (arith, h))))
      g
set_user_disabled-IsGoverned id true now db g =
    go (check_disable id db.users (find_user id db.users)) refl
  where
    go :
        (r : Result Bool)
        → check_disable id db.users (find_user id db.users) ≡ r
        → IsGoverned
            (committed db (elim r [ fail e ↦ fail e | ok b ↦ disable_rows id true now db ])).users
    go (fail e) h = g
    go (ok b) h =
        disable_rows-IsGoverned id true now db
          (check_disable-kept id _ db.users (find_user id db.users) b refl h g) g

find_user-append :
    (i : ℕ) (users more : List User) (u : User)
    → find_user i users ≡ some u
    → find_user i (users ++ more) ≡ some u
unfolding find_user
find_user-append i [] more u h = cc h
find_user-append i (x ∷ users) more u h = ground (arith, find_user-append i users more u)

find_user-new :
    (users : List User) (u : User)
    → All (λ (x : User). x.id < u.id) users
    → find_user u.id (users ++ u ∷ []) ≡ some u
unfolding find_user
find_user-new [] u a = ground arith
find_user-new (x ∷ users) u (h, a) = ground (arith, h, find_user-new users u a)

pub append-IsGoverned :
    (users : List User) (u : User)
    → u.id ≡ next_id (λ (x : User). x.id) users
    → IsGoverned users
    → IsGoverned (users ++ u ∷ [])
unfolding enabled_admins
append-IsGoverned users u e g = record {
  admin = omega (
    arith,
    g.admin,
    count_where-append (λ (x : User). x.is_admin && not x.is_disabled) users (u ∷ []),
  );
  unique =
      All-append _ users _
        (All-map users (λ x o. find_user-append x.id users (u ∷ []) x o) g.unique)
        (
          find_user-new users u (
              subst (λ n. All (λ (x : User). x.id < n) users) (sym e)
                (next_id-lt (λ (x : User). x.id) users)),
          tt,
        );
}

pub insert_user-IsGoverned :
    (fold : String → String) (name hash : String) (is_admin : Bool) (now : ℕ) (db : Accounts)
    → IsGoverned db.users
    → IsGoverned (stored db (insert_user fold name hash is_admin now db)).users
unfolding insert_user
insert_user-IsGoverned fold name hash is_admin now db g =
    elim (Bool-cases (ltb 0 (count_where (same_name fold name) db.users))) [
      | inl t ↦ rw (t, if◌then◌else◌) g
      | inr t ↦ rw (t, if◌then◌else◌) (append-IsGoverned db.users _ refl g)
    ]
