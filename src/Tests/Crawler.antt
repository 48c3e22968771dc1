-- ===== src/Tests/Crawler.antt =====
-- robots.txt patterns and rules on short paths, and the intervals between fetches.
use feedla.Prelude.{
  ◌+◌, ◌*◌, ◌^◌, min, ℕ, ◌≡◌, refl, ◌⊎◌, Bool, true, false, not, List, [], ◌∷◌, arith, All,
}
use feedla.Crawler.Backoff.{max_err_interval, clamp_duration, next_interval_on_error}
use feedla.Crawler.Backoff.Bounds.{next_interval_on_error_exact}
use feedla.Crawler.Robots.{
  Bytes, RobotsRule, path_matches, match_rules, has_dollar, trim_dollar, matches_from, scan,
  has_prefix, index, split, best_rule,
}
use feedla.Crawler.Robots.Glob.{Glob, done, byte, any}
use feedla.Crawler.Robots.Matches.{path_matches_sound, path_matches_complete, star_dollar_refused}
use feedla.Crawler.Robots.Verdict.{Decides, match_rules-Decides}

-- `/a*b$` and `/axb`
abbrev pattern : Bytes
pattern = b'/' ∷ b'a' ∷ b'*' ∷ b'b' ∷ b'$' ∷ []

abbrev path : Bytes
path = b'/' ∷ b'a' ∷ b'x' ∷ b'b' ∷ []

path_matches_sound_example :
    (rest : Bytes) × Glob (trim_dollar pattern) path rest × (has_dollar pattern ≡ true → rest ≡ [])
unfolding path_matches matches_from scan has_prefix index split has_dollar trim_dollar
path_matches_sound_example = path_matches_sound pattern path refl

-- `/a*b` takes the beginning of `/axbc`.
path_matches_complete_example :
    path_matches (b'/' ∷ b'a' ∷ b'*' ∷ b'b' ∷ []) (b'/' ∷ b'a' ∷ b'x' ∷ b'b' ∷ b'c' ∷ []) ≡ true
unfolding has_dollar trim_dollar
path_matches_complete_example =
    path_matches_complete (b'/' ∷ b'a' ∷ b'*' ∷ b'b' ∷ []) (b'/' ∷ b'a' ∷ b'x' ∷ b'b' ∷ b'c' ∷ [])
      (b'c' ∷ []) refl
      (byte (omega arith) refl
        (byte (omega arith) refl (any (b'x' ∷ []) refl refl (byte (omega arith) refl done))))

-- `/a*$` and `/ab`
star_dollar_refused_example :
    Glob (b'/' ∷ b'a' ∷ b'*' ∷ []) (b'/' ∷ b'a' ∷ b'b' ∷ []) []
    × (path_matches (b'/' ∷ b'a' ∷ b'*' ∷ b'$' ∷ []) (b'/' ∷ b'a' ∷ b'b' ∷ []) ≡ false)
star_dollar_refused_example =
    star_dollar_refused b'/' (b'a' ∷ []) b'b' [] (omega arith, (omega arith, tt))

abbrev rules : List RobotsRule
rules =
    (record { disallow = true; pattern = b'/' ∷ [] })
    ∷ (record { disallow = false; pattern = b'/' ∷ b'a' ∷ [] })
    ∷ []

match_rules-Decides_example :
    (All (λ r. path_matches r.pattern path ≡ false) rules × (match_rules rules path ≡ true))
    ⊎ ((n : ℕ) × (b : Bool) × Decides path rules n b × (match_rules rules path ≡ not b))
match_rules-Decides_example = match_rules-Decides path rules

allows_path : match_rules rules path ≡ true
unfolding match_rules best_rule path_matches matches_from scan has_prefix index split has_dollar
    trim_dollar
allows_path = refl

next_interval_on_error_exact_example :
    next_interval_on_error 1000 3 0 600 7
    ≡ clamp_duration (1000 * 2 ^ min 3 8 + 7) 600 max_err_interval
next_interval_on_error_exact_example =
    next_interval_on_error_exact 1000 3 600 7 (omega arith) (omega arith) (omega arith)
