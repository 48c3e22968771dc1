-- ===== src/Auth/LoginLimiter/Backoff.antt =====
-- The per-account backoff: it doubles with each failure in a row, and it never locks an account
-- for longer than its cap.
use feedla.Prelude.{
  ℕ, ◌+◌, ◌*◌, ◌^◌, ◌≤◌, ◌<◌, min, ◌≡◌, refl, ◌⊎◌, inl, inr, ite, ap, dec_lt, String,
  string_discrete, true, false, Option, none, some, List, [], ◌∷◌, length, arith,
}
use feedla.Prelude.Dict
use feedla.Auth.LoginLimiter.{
  LoginLimiter, AccountState, allow, record_failure, record_success, backoff, second, account_at,
}

-- Failed attempts for one account, each with its address and time.
unfoldable pub failures_for : LoginLimiter → String → List (String × ℕ) → LoginLimiter
failures_for l user [] = l
failures_for l user ((ip, now) ∷ rest) = failures_for (record_failure l user ip now) user rest

backoff-le-cap : (cap n : ℕ) → backoff cap n ≤ cap
unfolding backoff
backoff-le-cap cap n = omega arith

failures_for-max_back :
    (tries : List (String × ℕ)) (l : LoginLimiter) (user : String)
    → (failures_for l user tries).max_back ≡ l.max_back
unfolding failures_for record_failure
failures_for-max_back [] l user = refl
failures_for-max_back ((ip, now) ∷ tries) l user =
    failures_for-max_back tries (record_failure l user ip now) user

recorded :
    (l : LoginLimiter) (user ip : String) (now : ℕ)
    → let n = (account_at (Dict.lookup string_discrete user l.accounts)).failures in
      Dict.lookup string_discrete user (record_failure l user ip now).accounts
      ≡ some (record { failures = n + 1; next_allow = now + backoff l.max_back (n + 1) })
unfolding record_failure
recorded l user ip now = grind (arith, Dict.lookup-insert)

failures_for-failures :
    (tries : List (String × ℕ)) (l : LoginLimiter) (user : String)
    → (account_at (Dict.lookup string_discrete user (failures_for l user tries).accounts)).failures
      ≡ (account_at (Dict.lookup string_discrete user l.accounts)).failures + length tries
unfolding failures_for account_at
failures_for-failures [] l user = omega arith
failures_for-failures ((ip, now) ∷ tries) l user = omega (
  arith,
  failures_for-failures tries (record_failure l user ip now) user,
  ap (λ (o : Option AccountState). (account_at o).failures) (recorded l user ip now),
)

-- After n failures in a row and one more at `now`, from whatever addresses, the account waits until
-- `now` plus 2 to the power n + 1 seconds, capped; failures that it had before count too.
pub failures_double :
    (tries : List (String × ℕ)) (l : LoginLimiter) (user ip : String) (now : ℕ)
    → let n = (account_at (Dict.lookup string_discrete user l.accounts)).failures + length tries in
      Dict.lookup string_discrete user
        (record_failure (failures_for l user tries) user ip now).accounts
      ≡ some (record {
        failures = n + 1;
        next_allow = now + min (2 ^ min (n + 1) 20 * second) l.max_back;
      })
unfolding backoff
failures_double tries l user ip now =
    rw (recorded (failures_for l user tries) user ip now)
      (rw (failures_for-failures tries l user, failures_for-max_back tries l user) refl)

-- From an address with no window of its own, a failed account is refused until its backoff has
-- passed and let through from then on.
pub backoff_exact :
    (l : LoginLimiter) (user ip ip' : String) (now later : ℕ) (acc : AccountState)
    → let l' = record_failure l user ip now in
      Dict.lookup string_discrete ip' l'.ips ≡ none
      → Dict.lookup string_discrete user l'.accounts ≡ some acc
      → ((later < acc.next_allow) × ((allow l' user ip' later).1 ≡ false))
        ⊎ ((acc.next_allow ≤ later) × ((allow l' user ip' later).1 ≡ true))
unfolding allow
backoff_exact l user ip ip' now later acc none_yet e = elim (dec_lt later acc.next_allow) [
  | yes early ↦ inl (early, ground arith)
  | no late ↦ inr (omega arith, ground arith)
]

-- No number of failed attempts locks an account out for longer than the cap after the last of them:
-- from an address with no window of its own it is let through again.
pub never_locked_out :
    (tries : List (String × ℕ)) (l : LoginLimiter) (user ip ip' : String) (now later : ℕ)
    → Dict.lookup string_discrete ip' (record_failure (failures_for l user tries) user ip now).ips
      ≡ none
    → now + l.max_back ≤ later
    → (allow (record_failure (failures_for l user tries) user ip now) user ip' later).1 ≡ true
unfolding allow
never_locked_out tries l user ip ip' now later fresh h =
    ground (arith, failures_double tries l user ip now)

-- A success forgets the account's failures and no other account's.
pub lookup-record_success :
    (l : LoginLimiter) (user other : String)
    → Dict.lookup string_discrete other (record_success l user).accounts
      ≡ ite (string_discrete user other) none (Dict.lookup string_discrete other l.accounts)
unfolding record_success
lookup-record_success l user other = Dict.lookup-delete string_discrete user other l.accounts
