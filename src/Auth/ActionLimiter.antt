-- ===== src/Auth/ActionLimiter.antt =====
-- internal/auth/action_limiter.go: a fixed window per key. Times and durations are nanoseconds;
-- `now` is an argument of each call (`l.now()`), and the map of windows is a dictionary. The mutex
-- makes each call one step. A limit of zero or less disables the limiter: 0 stands for these.
pub mod Window
use feedla.Prelude.{
  ℕ, suc, ◌+◌, String, string_discrete, Bool, true, false, Option, none, some, List, [], ◌∷◌, ltb,
  leb, ◌==◌, if◌then◌else◌, ite,
}
use feedla.Prelude.Dict
use feedla.Prelude.Dict.{Dict}

pub record FixedWindow : Type 0 where
  pub start : ℕ
  pub count : ℕ

pub record ActionLimiter : Type 0 where
  pub windows : Dict String FixedWindow
  pub limit : ℕ
  pub window : ℕ

unfoldable pub new_action_limiter : ℕ → ℕ → ActionLimiter
new_action_limiter limit window = record { windows = []; limit = limit; window = window }

-- `l.windows[key]`, created at `now` where it is missing.
unfoldable pub window_at : ℕ → Option FixedWindow → FixedWindow
window_at now none = record { start = now; count = 0 }
window_at now (some w) = w

-- `if now.Sub(w.start) > l.window { w.start = now; w.count = 0 }`
unfoldable pub roll : ℕ → ℕ → FixedWindow → FixedWindow
roll now window w = if ltb (w.start + window) now then record { start = now; count = 0 } else w

-- The window of `key` as the call finds it, before it is counted.
unfoldable pub current : ActionLimiter → String → ℕ → FixedWindow
unfolding window_at roll
current l key now = roll now l.window (window_at now (Dict.lookup string_discrete key l.windows))

unfoldable pub allow : ActionLimiter → String → ℕ → ActionLimiter × Bool
allow l key now =
    if l.limit == 0
    then (l, true)
    else (if leb l.limit w.count
        then (store w, false)
        else (store (record w { count = w.count + 1 }), true))
  where
    w : FixedWindow
    w = current l key now

    store : FixedWindow → ActionLimiter
    store v = record l { windows = Dict.insert string_discrete key v l.windows }

-- How many calls of a history, each with its key and time, are let through for `key`.
unfoldable pub granted : ActionLimiter → String → List (String × ℕ) → ℕ
granted l key [] = 0
granted l key ((k, now) ∷ calls) =
    let (l', ok) = allow l k now in
    let rest = granted l' key calls in
    ite (string_discrete k key) (if ok then suc rest else rest) rest

-- How many calls of a history are for `key`.
unfoldable pub asked : String → List (String × ℕ) → ℕ
asked key [] = 0
asked key ((k, now) ∷ calls) =
    let rest = asked key calls in ite (string_discrete k key) (suc rest) rest
