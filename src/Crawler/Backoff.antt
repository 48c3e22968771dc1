-- ===== src/Crawler/Backoff.antt =====
-- internal/crawler/backoff.go: when a feed is fetched next. Durations are nanoseconds; those that
-- are not positive are 0, with the same result. The product with a float64 factor is the parameter
-- `scale`, of the factor's tenths, and the random jitter is an argument. The shift and the sum wrap
-- around as int64 does.
pub mod Bounds
use feedla.Prelude.{
  ℕ, suc, ◌+◌, ◌*◌, ◌^◌, ◌%◌, min, Bool, true, false, ltb, leb, ◌==◌, if◌then◌else◌,
}

abbrev pub minute : ℕ
minute = 60_000_000_000

abbrev pub max_err_interval : ℕ
max_err_interval = 86_400_000_000_000

unfoldable pub clamp_duration : ℕ → ℕ → ℕ → ℕ
clamp_duration d lo hi = if ltb d lo then lo else if ltb hi d then hi else d

-- The same for the int64 that a word stands for: from 2 ^ 63 on it is negative.
unfoldable pub clamp_word : ℕ → ℕ → ℕ → ℕ
unfolding clamp_duration
clamp_word w lo hi = if leb (2 ^ 63) w then lo else clamp_duration w lo hi

-- `if current <= 0 { current = minInterval }`
unfoldable pub or_min : ℕ → ℕ → ℕ
or_min current min_interval = if current == 0 then min_interval else current

unfoldable pub next_interval_on_success : (ℕ → ℕ → ℕ) → ℕ → Bool → ℕ → ℕ → ℕ
unfolding clamp_duration or_min
next_interval_on_success scale current new_entries min_interval max_interval =
    clamp_duration (scale (or_min current min_interval) (if new_entries then 7 else 13))
      min_interval max_interval

-- `current << shift` and the jitter, as a word.
unfoldable pub backoff_word : ℕ → ℕ → ℕ → ℕ
backoff_word current shift jitter = ((current * 2 ^ shift) % 2 ^ 64 + jitter) % 2 ^ 64

unfoldable pub next_interval_on_error : ℕ → ℕ → ℕ → ℕ → ℕ → ℕ
unfolding clamp_duration clamp_word or_min backoff_word
next_interval_on_error current error_count_after retry_after min_interval jitter =
    if ltb 0 retry_after
    then clamp_duration retry_after 0 max_err_interval
    else clamp_word (backoff_word (or_min current min_interval) (min error_count_after 8) jitter)
        min_interval max_err_interval
