-- ===== src/Auth/LoginLimiter.antt =====
-- internal/auth/ratelimit.go: the two-tier login limiter. Times and durations are nanoseconds and
-- `now` is an argument of each call; the two maps of pointers are dictionaries, and a write through
-- a pointer stores the new value under its key. The mutex makes each call one step.
pub mod Backoff
pub mod Spraying
use feedla.Prelude.{
  ℕ, suc, ◌+◌, ◌*◌, ◌^◌, min, String, string_discrete, Bool, true, false, Option, none, some, List,
  [], ◌∷◌, ltb, leb, if◌then◌else◌,
}
use feedla.Prelude.Dict
use feedla.Prelude.Dict.{Dict}

abbrev pub second : ℕ
second = 1_000_000_000

abbrev pub minute : ℕ
minute = 60_000_000_000

pub record AccountState : Type 0 where
  pub failures : ℕ
  pub next_allow : ℕ

pub record IpState : Type 0 where
  pub window_start : ℕ
  pub count : ℕ

pub record LoginLimiter : Type 0 where
  pub accounts : Dict String AccountState
  pub ips : Dict String IpState
  pub ip_limit : ℕ
  pub ip_window : ℕ
  pub max_back : ℕ

unfoldable pub new_login_limiter : ℕ → ℕ → LoginLimiter
new_login_limiter ip_limit ip_window = record {
  accounts = [];
  ips = [];
  ip_limit = ip_limit;
  ip_window = ip_window;
  max_back = 15 * minute;
}

-- `if now.Sub(ip.windowStart) > l.ipWindow { ip.windowStart = now; ip.count = 0 }`
unfoldable pub roll : ℕ → ℕ → IpState → IpState
roll now window ip =
    if ltb (ip.window_start + window) now then record { window_start = now; count = 0 } else ip

-- The rest of `Allow`: the account's backoff.
unfoldable pub account_ready : Option AccountState → ℕ → Bool
account_ready none now = true
account_ready (some acc) now = if ltb now acc.next_allow then false else true

unfoldable pub allow_ip : LoginLimiter → String → String → ℕ → Option IpState → LoginLimiter × Bool
unfolding roll account_ready
allow_ip l username client_ip now none =
    (l, account_ready (Dict.lookup string_discrete username l.accounts) now)
allow_ip l username client_ip now (some ip) =
    if leb l.ip_limit ip'.count
    then (l', false)
    else (l', account_ready (Dict.lookup string_discrete username l.accounts) now)
  where
    ip' : IpState
    ip' = roll now l.ip_window ip

    l' : LoginLimiter
    l' = record l { ips = Dict.insert string_discrete client_ip ip' l.ips }

-- `Allow`, with the limiter after its write to the window.
unfoldable pub allow : LoginLimiter → String → String → ℕ → LoginLimiter × Bool
unfolding allow_ip
allow l username client_ip now =
    allow_ip l username client_ip now (Dict.lookup string_discrete client_ip l.ips)

-- `l.ips[clientIP]`, created at `now` where it is missing.
unfoldable pub ip_at : ℕ → Option IpState → IpState
ip_at now none = record { window_start = now; count = 0 }
ip_at now (some ip) = ip

unfoldable pub account_at : Option AccountState → AccountState
account_at none = record { failures = 0; next_allow = 0 }
account_at (some acc) = acc

-- `min(time.Duration(1<<min(acc.failures, 20))*time.Second, l.maxBack)`
unfoldable pub backoff : ℕ → ℕ → ℕ
backoff max_back failures = min (2 ^ min failures 20 * second) max_back

unfoldable pub fail_ip : LoginLimiter → String → ℕ → IpState
unfolding ip_at roll
fail_ip l client_ip now =
    let ip = roll now l.ip_window (ip_at now (Dict.lookup string_discrete client_ip l.ips)) in
    record ip { count = ip.count + 1 }

unfoldable pub fail_account : LoginLimiter → String → ℕ → AccountState
unfolding account_at
fail_account l username now =
    let failures = (account_at (Dict.lookup string_discrete username l.accounts)).failures + 1 in
    record { failures = failures; next_allow = now + backoff l.max_back failures }

unfoldable pub record_failure : LoginLimiter → String → String → ℕ → LoginLimiter
unfolding fail_ip fail_account
record_failure l username client_ip now = record l {
  ips = Dict.insert string_discrete client_ip (fail_ip l client_ip now) l.ips;
  accounts = Dict.insert string_discrete username (fail_account l username now) l.accounts;
}

unfoldable pub record_success : LoginLimiter → String → LoginLimiter
record_success l username = record l { accounts = Dict.delete string_discrete username l.accounts }

-- Failed attempts from one address, each with its user name and time.
unfoldable pub failures_from : LoginLimiter → String → List (String × ℕ) → LoginLimiter
failures_from l ip [] = l
failures_from l ip ((user, now) ∷ rest) = failures_from (record_failure l user ip now) ip rest
