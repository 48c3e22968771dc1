-- ===== src/Crawler/Robots/Verdict.antt =====
-- Which rule, and which group, decides.
use feedla.Prelude.{
  ℕ, ◌≤◌, ◌<◌, ◌≡◌, refl, ◌∙◌, ◌⊎◌, inl, inr, Bool, true, false, not, none, some, List, [], ◌∷◌,
  length, ltb, arith, Bool-cases, All,
}
use feedla.Crawler.Robots.{Bytes, RobotsRule, path_matches, best_rule, match_rules}

-- Every rule that matches has a pattern of at most this length.
abbrev pub NoLonger : Bytes → ℕ → List RobotsRule → Type 0
NoLonger path n = All λ r. path_matches r.pattern path ≡ true → length r.pattern ≤ n

-- The decision of a list of rules: a rule that matches, longer than all matching rules before it
-- and at least as long as all after it.
pub data Decides (path : Bytes) : List RobotsRule → ℕ → Bool → Type 0 where
  here :
      {n : ℕ} (r : RobotsRule) {rules : List RobotsRule}
      → path_matches r.pattern path ≡ true
      → n ≡ length r.pattern
      → NoLonger path n rules
      → Decides path (r ∷ rules) n r.disallow
  later :
      {n : ℕ} {b : Bool} (r : RobotsRule) {rules : List RobotsRule}
      → (path_matches r.pattern path ≡ true → length r.pattern < n)
      → Decides path rules n b
      → Decides path (r ∷ rules) n b

-- Where the loop ends with the best rule so far, no rule beats it; else some rule decides.
abbrev Improved : Bytes → List RobotsRule → ℕ → Bool → Type 0
Improved path rules n b =
    ((best_rule (some (n, b)) rules path ≡ some (n, b)) × NoLonger path n rules)
    ⊎ ((m : ℕ) × (b' : Bool) × (best_rule (some (n, b)) rules path ≡ some (m, b'))
        × (n < m)
        × Decides path rules m b')

wins :
    (path : Bytes) (r : RobotsRule) (rules : List RobotsRule)
    → path_matches r.pattern path ≡ true
    → Improved path rules (length r.pattern) r.disallow
    → (m : ℕ) × (b' : Bool) × (best_rule (some (length r.pattern, r.disallow)) rules path
        ≡ some (m, b'))
      × (length r.pattern ≤ m)
      × Decides path (r ∷ rules) m b'
wins path r rules hit (inl (e, longest)) =
    (length r.pattern, r.disallow, e, omega arith, here r hit refl longest)
wins path r rules hit (inr (m, b', e, lt, d)) = (m, b', e, omega arith, later r (λ _. lt) d)

loses :
    (path : Bytes) (n : ℕ) (b : Bool) (r : RobotsRule) (rules : List RobotsRule)
    → best_rule (some (n, b)) (r ∷ rules) path ≡ best_rule (some (n, b)) rules path
    → (path_matches r.pattern path ≡ true → length r.pattern ≤ n)
    → Improved path rules n b
    → Improved path (r ∷ rules) n b
loses path n b r rules same short (inl (e, longest)) = inl (same ∙ e, (short, longest))
loses path n b r rules same short (inr (m, b', e, lt, d)) =
    inr (m, b', same ∙ e, lt, later r (λ hit. omega (arith, short hit)) d)

best_rule_some :
    (path : Bytes) (rules : List RobotsRule) (n : ℕ) (b : Bool) → Improved path rules n b
unfolding best_rule
best_rule_some path [] n b = inl (refl, tt)
best_rule_some path (r ∷ rules) n b = elim (Bool-cases (path_matches r.pattern path)) [
  | inr miss ↦
      loses path n b r rules (ground arith) (λ hit. absurd (ground arith))
        (best_rule_some path rules n b)
  | inl hit ↦ elim (Bool-cases (ltb n (length r.pattern))) [
    | inr short ↦
        loses path n b r rules (ground arith) (λ _. ground arith) (best_rule_some path rules n b)
    | inl longer ↦
        let (m, b', e, le, d) =
          wins path r rules hit (best_rule_some path rules (length r.pattern) r.disallow) in
        inr (m, b', ground arith, ground arith, d)
  ]
]

best_rule-none :
    (path : Bytes) (rules : List RobotsRule)
    → ((best_rule none rules path ≡ none) × All (λ r. path_matches r.pattern path ≡ false) rules)
      ⊎ ((m : ℕ) × (b : Bool) × (best_rule none rules path ≡ some (m, b)) × Decides path rules m b)
unfolding best_rule
best_rule-none path [] = inl (refl, tt)
best_rule-none path (r ∷ rules) = elim (Bool-cases (path_matches r.pattern path)) [
  | inl hit ↦
      let (m, b, e, le, d) =
        wins path r rules hit (best_rule_some path rules (length r.pattern) r.disallow) in
      inr (m, b, ground arith, d)
  | inr miss ↦ elim (best_rule-none path rules) [
    | inl (e, misses) ↦ inl (ground arith, (miss, misses))
    | inr (m, b, e, d) ↦ inr (m, b, ground arith, later r (λ hit. absurd (ground arith)) d)
  ]
]

-- A path is allowed if no rule matches it; else the longest matching rule decides, the first of
-- them where several are longest.
pub match_rules-Decides :
    (path : Bytes) (rules : List RobotsRule)
    → (All (λ r. path_matches r.pattern path ≡ false) rules × (match_rules rules path ≡ true))
      ⊎ ((n : ℕ) × (b : Bool) × Decides path rules n b × (match_rules rules path ≡ not b))
unfolding match_rules
match_rules-Decides path rules = elim (best_rule-none path rules) [
  | inl (e, misses) ↦ inl (misses, rw e refl)
  | inr (m, b, e, d) ↦ inr (m, b, d, rw e refl)
]
