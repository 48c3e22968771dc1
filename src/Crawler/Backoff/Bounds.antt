-- ===== src/Crawler/Backoff/Bounds.antt =====
-- The next interval keeps to its bounds, and the backoff after errors does not overflow.
use native.Mathlib.Nat.{pow-le-pow_right, mul-le-mul, min-le_right}
use feedla.Prelude.{ℕ, ◌+◌, ◌*◌, ◌^◌, ◌%◌, ◌≤◌, ◌<◌, ◌≡◌, min, Bool, arith, ◌⊎◌}
use feedla.Crawler.Backoff.{
  minute, max_err_interval, clamp_duration, clamp_word, or_min, next_interval_on_success,
  backoff_word, next_interval_on_error,
}

clamp-bounds :
    (d lo hi : ℕ) → lo ≤ hi → (lo ≤ clamp_duration d lo hi) × (clamp_duration d lo hi ≤ hi)
unfolding clamp_duration
clamp-bounds d lo hi h = (ground arith, ground arith)

-- After a success the interval lies between the two configured ones, whatever the factor gives.
pub next_interval_on_success_bounds :
    (scale : ℕ → ℕ → ℕ) (current : ℕ) (new_entries : Bool) (min_interval max_interval : ℕ)
    → min_interval ≤ max_interval
    → (min_interval ≤ next_interval_on_success scale current new_entries min_interval max_interval)
      × (next_interval_on_success scale current new_entries min_interval max_interval
          ≤ max_interval)
unfolding next_interval_on_success
next_interval_on_success_bounds scale current new_entries min_interval max_interval h =
    clamp-bounds _ min_interval max_interval h

power_bound : (n : ℕ) → 2 ^ min n 8 ≤ 256
power_bound n = pow-le-pow_right (omega arith) (min-le_right n 8)

product_bound :
    (current p : ℕ)
    → current ≤ 86_400_000_000_000
    → p ≤ 256
    → current * p ≤ 86_400_000_000_000 * 256
product_bound current p h k = mul-le-mul h k

-- A word that is small is taken as it is.
clamp_word-small :
    (x jitter lo hi : ℕ)
    → x ≤ 86_400_000_000_000 * 256
    → jitter < minute
    → clamp_word ((x % 2 ^ 64 + jitter) % 2 ^ 64) lo hi ≡ clamp_duration (x + jitter) lo hi
unfolding clamp_word
clamp_word-small x jitter lo hi h j = ground arith

-- With no Retry-After, an interval of at most a day is doubled once for each error, up to eight
-- times, and the jitter is added: nothing wraps around. The result is cut to the smallest interval
-- and to a day.
pub next_interval_on_error_exact :
    (current error_count_after min_interval jitter : ℕ)
    → 0 < current
    → current ≤ max_err_interval
    → jitter < minute
    → next_interval_on_error current error_count_after 0 min_interval jitter
      ≡ clamp_duration
          (current * 2 ^ min error_count_after 8 + jitter)
          min_interval
          max_err_interval
unfolding next_interval_on_error or_min backoff_word
next_interval_on_error_exact current n min_interval jitter pos day j = ground (
  arith,
  clamp_word-small (current * 2 ^ min n 8) jitter min_interval max_err_interval,
  product_bound current (2 ^ min n 8) day (power_bound n),
)

-- After an error the interval is never more than a day; without a Retry-After it is not below the
-- smallest interval either, where that is at most a day.
pub next_interval_on_error_bounds :
    (current error_count_after retry_after min_interval jitter : ℕ)
    → min_interval ≤ max_err_interval
    → (next_interval_on_error current error_count_after retry_after min_interval jitter
        ≤ max_err_interval)
      × ((0 < retry_after)
          ⊎ (min_interval
              ≤ next_interval_on_error current error_count_after retry_after min_interval jitter))
unfolding next_interval_on_error clamp_word clamp_duration
next_interval_on_error_bounds current n retry_after min_interval jitter h =
    let w = backoff_word (or_min current min_interval) (min n 8) jitter in
    (ground arith, ground arith)
