-- ===== src/Tests/Auth.antt =====
-- The two rate limiters on short histories.
use feedla.Prelude.{
  ℕ, ◌-◌, min, ◌≡◌, refl, String, string_discrete, true, false, List, [], ◌∷◌, arith,
}
use feedla.Prelude.Dict
use feedla.Auth.ActionLimiter.{ActionLimiter, granted, asked}
use feedla.Auth.ActionLimiter.Window.{granted_in_window}
use feedla.Auth.LoginLimiter.{
  LoginLimiter, allow, record_failure, failures_from, fail_ip, roll, ip_at,
}
use feedla.Auth.LoginLimiter.Backoff.{failures_for, never_locked_out}
use feedla.Auth.LoginLimiter.Spraying.{spraying_refused}

abbrev used : ActionLimiter
used = record { windows = ("a", record { start = 0; count = 1 }) ∷ []; limit = 3; window = 60 }

abbrev calls : List (String × ℕ)
calls = ("a", 1) ∷ ("b", 2) ∷ ("a", 3) ∷ ("a", 4) ∷ []

granted_in_window_example : granted used "a" calls ≡ min (3 - 1) (asked "a" calls)
unfolding Dict.lookup string_discrete
granted_in_window_example =
    granted_in_window calls used "a" (record { start = 0; count = 1 }) 60 refl (omega arith)
      (omega arith) (omega arith, (omega arith, (omega arith, (omega arith, tt))))

abbrev limiter : LoginLimiter
limiter = record {
  accounts = [];
  ips = ("10.0.0.1", record { window_start = 0; count = 1 }) ∷ [];
  ip_limit = 3;
  ip_window = 60;
  max_back = 900;
}

abbrev tries : List (String × ℕ)
tries = ("alice", 10) ∷ ("bob", 20) ∷ []

spraying_refused_example :
    (allow (failures_from limiter "10.0.0.1" tries) "carol" "10.0.0.1" 30).1 ≡ false
unfolding Dict.lookup string_discrete
spraying_refused_example =
    spraying_refused tries limiter "10.0.0.1" "carol" (record { window_start = 0; count = 1 }) 60 30
      refl (omega arith) (omega arith, (omega arith, tt)) (omega arith) (omega arith)

never_locked_out_example :
    (allow
      (record_failure (failures_for limiter "alice" (("10.0.0.2", 5) ∷ [])) "alice" "10.0.0.1" 10)
      "alice"
      "10.0.0.9"
      910).1
    ≡ true
unfolding failures_for record_failure fail_ip roll ip_at Dict.lookup Dict.insert string_discrete
never_locked_out_example =
    never_locked_out (("10.0.0.2", 5) ∷ []) limiter "alice" "10.0.0.1" "10.0.0.9" 10 910 refl
      (omega arith)

abbrev failed : LoginLimiter
failed = record_failure limiter "alice" "10.0.0.1" 10
