-- ===== src/Store/Accounts/Admins.antt =====
-- The invariant that there is an enabled administrator, and what an UPDATE of accounts does to it.
pub mod Calls
use feedla.Prelude.{
  ℕ, suc, ◌+◌, ◌≤◌, ◌<◌, ◌≡◌, refl, sym, subst, ◌∙◌, ap, ◌⊎◌, inl, inr, String, string_discrete,
  Bool, true, false, not, ◌&&◌, ◌||◌, Option, none, some, List, [], ◌∷◌, ◌++◌, ltb, ◌==◌,
  if◌then◌else◌, ite, All, arith, Bool-cases, Option-cases,
}
use feedla.Store.Table.{
  Result, ok, fail, committed, update, remove, count_where, count_where-append, next_id, next_id-lt,
  All-update, All-map, All-append,
}
use feedla.Store.Accounts.{Accounts, User, Session, same_text, find_user}
use feedla.Store.Accounts.Users.{
  update_users, update_user_password, set_user_instagram_embeds_enabled, other_admins,
  set_user_admin, check_disable, disable_rows, set_user_disabled, complete_setup, insert_user,
  create_user, same_name, locked,
}

unfoldable pub enabled_admins : List User → ℕ
enabled_admins users = count_where (λ u. u.is_admin && not u.is_disabled) users

-- The tables after a call that also answers a row.
abbrev pub stored {ℓ} : {A : Type ℓ} → Accounts → Result (Accounts × A) → Accounts
stored db (ok r) = r.0
stored db (fail e) = db

pub record IsGoverned (users : List User) : Type 0 where
  pub admin : 0 < enabled_admins users
  pub unique : All (λ (u : User). find_user u.id users ≡ some u) users

pub find_user-update :
    (p : User → Bool) (f : User → User) (users : List User) (i : ℕ) (u : User)
    → ((x : User) → (f x).id ≡ x.id)
    → find_user i users ≡ some u
    → ((p u ≡ true) × (find_user i (update p f users) ≡ some (f u)))
      ⊎ ((p u ≡ false) × (find_user i (update p f users) ≡ some u))
unfolding find_user update
find_user-update p f [] i u k h = cc h
find_user-update p f (x ∷ users) i u k h = elim (Bool-cases (x.id == i)) [
  | inl t ↦ elim (Bool-cases (p x)) [
    | inl q ↦ inl (ground (arith, k x, h, t, q))
    | inr q ↦ inr (ground (arith, k x, h, t, q))
  ]
  | inr t ↦ ground (arith, k x, h, t, find_user-update p f users i u k)
]

pub update_unique :
    (p : User → Bool) (f : User → User) (users : List User)
    → ((x : User) → (f x).id ≡ x.id)
    → All (λ (u : User). find_user u.id users ≡ some u) users
    → All (λ (u : User). find_user u.id (update p f users) ≡ some u) (update p f users)
update_unique p f users k a =
    All-update p f users
      (λ x h o. elim (find_user-update p f users x.id x k o) [
        | inl (q, e) ↦ ap (λ i. find_user i (update p f users)) (k x) ∙ e
        | inr (q, e) ↦ cc (h, q)
      ])
      (λ x h o. elim (find_user-update p f users x.id x k o) [
        | inl (q, e) ↦ cc (h, q)
        | inr (q, e) ↦ e
      ])
      a

pub update_users-IsGoverned :
    (p : User → Bool) (f : User → User) (db : Accounts)
    → ((x : User) → (f x).id ≡ x.id)
    → 0 < enabled_admins (update p f db.users)
    → IsGoverned db.users
    → IsGoverned (committed db (update_users p f db)).users
unfolding update_users
update_users-IsGoverned p f db k more g = elim (Bool-cases (count_where p db.users == 0)) [
  | inl t ↦ rw (t, if◌then◌else◌) g
  | inr t ↦
      rw (t, if◌then◌else◌)
        (record { admin = more; unique = update_unique p f db.users k g.unique })
]

-- An update that makes no one less of an administrator.
pub admins_kept :
    (p : User → Bool) (f : User → User) (users : List User)
    → ((x : User)
        → (x.is_admin && not x.is_disabled) ≡ true
        → ((f x).is_admin && not (f x).is_disabled) ≡ true)
    → enabled_admins users ≤ enabled_admins (update p f users)
unfolding enabled_admins count_where update
admins_kept p f [] k = omega arith
admins_kept p f (x ∷ users) k = ground (arith, k x, admins_kept p f users k)

-- The other administrators are not affected by an update of one account.
pub others_kept :
    (id : ℕ) (f : User → User) (users : List User)
    → other_admins id users ≤ enabled_admins (update (λ u. u.id == id) f users)
unfolding enabled_admins other_admins count_where update
others_kept id f [] = omega arith
others_kept id f (x ∷ users) = ground (arith, others_kept id f users)
