-- ===== src/Api/Once.antt =====
-- The first setup happens once.
use feedla.Prelude.{
  ℕ, ◌≤◌, ◌≡◌, ◌≢◌, refl, sym, ap, ◌∙◌, subst, String, Bool, true, false, not, ◌&&◌, Option, none,
  some, List, [], ◌∷◌, ltb, ◌==◌, if◌then◌else◌, arith, inl, inr, Bool-cases, Option-cases,
}
use feedla.Store.Table.{Result, ok, fail, err_not_found, err_other, update, count_where}
use feedla.Store.Accounts.{Accounts, User, same_text, setup_sentinel_hash, find_user}
use feedla.Store.Accounts.Users.{
  get_user_by_id, is_setup_pending, complete_setup, update_users, same_name, locked,
}
use feedla.Store.Accounts.Admins.{find_user-update}
use feedla.Auth.Password.{PasswordOps, hash_password}
use feedla.Api.{Server, Request, Response, unix, min_password_len}
use feedla.Api.Login.{
  Credentials, Random, with_accounts, handle_auth_setup, setup_when, setup_hashed, setup_completed,
}
use feedla.Api.Started.{start_session-IsStarted, store_error-le, other_branch, not_failed}
use Prim.Native.String.{len}
use Prim.Native.Char.{code}

first_code : String → ℕ
first_code String.[] = 0
first_code (String.◌∷◌ c s) = code c

-- A hash that `HashPassword` makes begins with a dollar sign: it is not the one of a locked
-- account.
hash_password-unlocked :
    (ops : PasswordOps) (plain : String) (salt : Option (List ℕ)) (hash : String)
    → hash_password ops plain salt ≡ some hash
    → same_text hash setup_sentinel_hash ≡ false
unfolding hash_password first_code
hash_password-unlocked ops plain none hash h = cc h
hash_password-unlocked ops plain (some salt) hash h =
    different hash (λ e. ground (arith, ap first_code (inside h ∙ e)))
  where
    inside : {a b : String} → some a ≡ some b → a ≡ b
    inside e = cc e

    different : (a : String) → a ≢ setup_sentinel_hash → same_text a setup_sentinel_hash ≡ false
    different a d = ground (arith, d)

-- The first account is there, and its password is set.
abbrev IsConfigured : Accounts → Type 0
IsConfigured db = is_setup_pending 1 db ≡ ok false

find_user-id : (i : ℕ) (users : List User) (u : User) → find_user i users ≡ some u → u.id ≡ i
unfolding find_user
find_user-id i [] u h = cc h
find_user-id i (x ∷ users) u h = ground (arith, h, find_user-id i users u)

pending_user :
    (db : Accounts)
    → is_setup_pending 1 db ≡ ok true
    → (u : User) × (find_user 1 db.users ≡ some u) × (locked u ≡ true)
unfolding is_setup_pending
pending_user db h = elim (Option-cases (find_user 1 db.users)) [
  | inl e ↦ absurd (ground (arith, h, e))
  | inr (u, e) ↦ (u, e, ground (arith, h, e))
]

set_user-IsConfigured :
    (db : Accounts) (u : User) → find_user 1 db.users ≡ some u → locked u ≡ false → IsConfigured db
unfolding is_setup_pending get_user_by_id
set_user-IsConfigured db u e l = ground (arith, e, l)

complete_setup-rows :
    (fold : String → String) (name hash : String) (now : ℕ) (db db' : Accounts)
    → complete_setup fold 1 name hash now db ≡ ok db'
    → update
        (λ (u : User). (u.id == 1) && locked u)
        (λ u. record u { username = name; password_hash = hash; updated_at = now })
        db.users
      ≡ db'.users
unfolding complete_setup update_users
complete_setup-rows fold name hash now db db' h =
    let p : User → Bool = λ u. (u.id == 1) && locked u in
    let taken =
      ltb 0 (count_where p db.users)
      && ltb 0 (count_where (λ (u : User). same_name fold name u && not (u.id == 1)) db.users) in
    elim (Bool-cases taken) [
      | inl t ↦ absurd (failed taken _ t h)
      | inr t ↦
          ap (λ (d : Accounts). d.users)
            (not_failed err_not_found (count_where p db.users == 0) _ db' (passed taken _ t h))
    ]
  where
    failed :
        (b : Bool) (x : Result Accounts) → b ≡ true → (if b then fail err_other else x) ≡ ok db' → ⊥
    failed true x t k = cc k
    failed false x t k = cc t

    passed :
        (b : Bool) (x : Result Accounts)
        → b ≡ false
        → (if b then fail err_other else x) ≡ ok db'
        → x ≡ ok db'
    passed true x t k = cc
    passed false x t k = k

complete_setup-IsConfigured :
    (fold : String → String) (name hash : String) (now : ℕ) (db db' : Accounts)
    → is_setup_pending 1 db ≡ ok true
    → same_text hash setup_sentinel_hash ≡ false
    → complete_setup fold 1 name hash now db ≡ ok db'
    → IsConfigured db'
complete_setup-IsConfigured fold name hash now db db' p d h =
    let (u, e, l) = pending_user db p in
    let rows = complete_setup-rows fold name hash now db db' h in
    elim (find_user-update (λ (v : User). (v.id == 1) && locked v)
      (λ v. record v { username = name; password_hash = hash; updated_at = now }) db.users 1 u
      (λ x. refl) e) [
        | inl (q, f) ↦ set_user-IsConfigured db' _ (ap (find_user 1) (sym rows) ∙ f) d
        | inr (q, f) ↦ absurd (ground (arith, q, l, find_user-id 1 db.users u e))
      ]

IsConfigured-users : (db db' : Accounts) → db'.users ≡ db.users → IsConfigured db → IsConfigured db'
unfolding is_setup_pending get_user_by_id
IsConfigured-users db db' e h = rw e h

module _ (ops : PasswordOps) (fold trim : String → String)
    (split_host : String → Option String) where
  when-IsConfigured :
      (now : ℕ) (random : Random) (r : Request) (username password : String) (s : Server)
      (res : Result Bool)
      → is_setup_pending 1 s.accounts ≡ res
      → (setup_when ops fold trim split_host now random r username password s res).1.status ≡ 200
      → IsConfigured
          (setup_when ops fold trim split_host now random r username password s res).0.accounts
  when-IsConfigured now random r username password s (fail e) p h =
      absurd (omega (arith, h, store_error-le e))
  when-IsConfigured now random r username password s (ok false) p h = absurd (omega (arith, h))
  when-IsConfigured now random r username password s (ok true) p h =
      hashed (hash_password ops password random.salt) refl h
    where
      completed :
          (hash : String) (res : Result Accounts)
          → same_text hash setup_sentinel_hash ≡ false
          → complete_setup fold 1 username hash (unix now) s.accounts ≡ res
          → (setup_completed ops fold trim split_host now random r s res).1.status ≡ 200
          → IsConfigured (setup_completed ops fold trim split_host now random r s res).0.accounts
      completed hash (fail e) d k h' = absurd (omega (arith, h', store_error-le e))
      completed hash (ok db) d k h' =
          let started = start_session-IsStarted ops now random.token r 1 (with_accounts s db) h' in
          IsConfigured-users db _ started.others
            (complete_setup-IsConfigured fold username hash (unix now) s.accounts db p d k)

      hashed :
          (o : Option String)
          → hash_password ops password random.salt ≡ o
          → (setup_hashed ops fold trim split_host now random r username s o).1.status ≡ 200
          → IsConfigured
              (setup_hashed ops fold trim split_host now random r username s o).0.accounts
      hashed none e h' = absurd (omega (arith, h'))
      hashed (some hash) e h' =
          completed hash (complete_setup fold 1 username hash (unix now) s.accounts)
            (hash_password-unlocked ops password random.salt hash e) refl h'

  setup-IsConfigured :
      (now : ℕ) (random : Random) (r : Request) (body : Option Credentials) (s : Server)
      → (handle_auth_setup ops fold trim split_host now random r body s).1.status ≡ 200
      → IsConfigured (handle_auth_setup ops fold trim split_host now random r body s).0.accounts
  unfolding handle_auth_setup
  setup-IsConfigured now random r none s h = absurd (omega (arith, h))
  setup-IsConfigured now random r (some req) s h =
      let (e, f) =
        other_branch 200 (same_text (trim req.username) "") _ _ (λ z. omega (arith, z)) h in
      let h' = subst (λ (w : Server × Response). w.1.status ≡ 200) e h in
      let (k, g) =
        other_branch 200 (ltb (len req.password) min_password_len) _ _ (λ z. omega (arith, z)) h' in
      let h'' = subst (λ (w : Server × Response). w.1.status ≡ 200) k h' in
      subst (λ (w : Server × Response). IsConfigured w.0.accounts) (sym (e ∙ k))
        (when-IsConfigured now random r (trim req.username) req.password s
          (is_setup_pending 1 s.accounts) refl h'')

  either_branch :
      (b : Bool) (w x : Server × Response) (P : Server × Response → Type 0)
      → P w
      → P x
      → P (if b then w else x)
  either_branch true w x P p q = p
  either_branch false w x P p q = q

  -- On the server that a setup leaves which answered with 200, every further setup fails, with a
  -- status of at least 400, and changes nothing.
  pub setup_once :
      (now : ℕ) (random : Random) (r : Request) (body : Option Credentials) (s : Server)
      → let w = handle_auth_setup ops fold trim split_host now random r body s in
        w.1.status ≡ 200
        → (now' : ℕ) (random' : Random) (r' : Request) (body' : Option Credentials)
        → let v = handle_auth_setup ops fold trim split_host now' random' r' body' w.0 in
          (v.0 ≡ w.0) × (400 ≤ v.1.status)
  unfolding handle_auth_setup
  setup_once now random r body s h now' random' r' none = (refl, omega arith)
  setup_once now random r body s h now' random' r' (some req) =
      let t = (handle_auth_setup ops fold trim split_host now random r body s).0 in
      let P : Server × Response → Type 0 = λ v. (v.0 ≡ t) × (400 ≤ v.1.status) in
      either_branch (same_text (trim req.username) "") _ _ P (refl, omega arith)
        (either_branch (ltb (len req.password) min_password_len) _ _ P (refl, omega arith)
          (subst
            (λ res. P (
              setup_when ops fold trim split_host now' random' r' (trim req.username) req.password t
                res))
            (sym (setup-IsConfigured now random r body s h)) (refl, omega arith)))
