-- ===== src/Auth/ActionLimiter/Window.antt =====
-- How many calls the action limiter lets through in a window, and in any period of that length.
use feedla.Prelude.{
  ℕ, ◌+◌, ◌-◌, ◌*◌, ◌≤◌, ◌<◌, min, ◌≡◌, ◌≢◌, ◌⊎◌, inl, inr, String, string_discrete, true, false,
  Option, none, some, List, [], ◌∷◌, All, Option-cases, dec_le, arith,
}
use feedla.Prelude.Dict
use feedla.Auth.ActionLimiter.{current, FixedWindow, ActionLimiter, allow, granted, asked}

module _ (l : ActionLimiter) where
  pub allow-limit : (k : String) (now : ℕ) → (allow l k now).0.limit ≡ l.limit
  unfolding allow
  allow-limit k now = ground arith

  pub allow-window : (k : String) (now : ℕ) → (allow l k now).0.window ≡ l.window
  unfolding allow
  allow-window k now = ground arith

  -- A call for another key leaves this key's window alone.
  pub lookup-allow_other :
      (k key : String) (now : ℕ)
      → k ≢ key
      → Dict.lookup string_discrete key (allow l k now).0.windows
        ≡ Dict.lookup string_discrete key l.windows
  unfolding allow
  lookup-allow_other k key now h = grind (arith, Dict.lookup-insert)

-- Inside its window a key is let through until its count reaches the limit, and then refused.
allow_inside :
    (l : ActionLimiter) (key : String) (now : ℕ) (w : FixedWindow)
    → Dict.lookup string_discrete key l.windows ≡ some w
    → 0 < l.limit
    → now ≤ w.start + l.window
    → ((w.count < l.limit)
        × ((allow l key now).1 ≡ true)
        × (Dict.lookup string_discrete key (allow l key now).0.windows
            ≡ some (record { start = w.start; count = w.count + 1 })))
      ⊎ ((l.limit ≤ w.count)
          × ((allow l key now).1 ≡ false)
          × (Dict.lookup string_discrete key (allow l key now).0.windows ≡ some w))
unfolding allow current
allow_inside l key now w e h t = grind (arith, Dict.lookup-insert)

-- A new key, or one whose window has passed, is let through and opens a window at this call.
allow_fresh :
    (l : ActionLimiter) (key : String) (now : ℕ)
    → 0 < l.limit
    → (Dict.lookup string_discrete key l.windows ≡ none)
      ⊎ ((w : FixedWindow) × (Dict.lookup string_discrete key l.windows ≡ some w)
          × (w.start + l.window < now))
    → ((allow l key now).1 ≡ true)
      × (Dict.lookup string_discrete key (allow l key now).0.windows
          ≡ some (record { start = now; count = 1 }))
unfolding allow current
allow_fresh l key now h (inl e) = grind (arith, Dict.lookup-insert)
allow_fresh l key now h (inr (w, e, late)) = grind (arith, Dict.lookup-insert)

-- While the calls fall in the window that a key has open, exactly as many are let through as the
-- limit leaves, whatever calls for other keys come between them.
pub granted_in_window :
    (calls : List (String × ℕ)) (l : ActionLimiter) (key : String) (w : FixedWindow) (last : ℕ)
    → Dict.lookup string_discrete key l.windows ≡ some w
    → 0 < l.limit
    → last ≤ w.start + l.window
    → All (λ c. c.1 ≤ last) calls
    → granted l key calls ≡ min (l.limit - w.count) (asked key calls)
unfolding granted asked
granted_in_window [] l key w last e h b a = omega arith
granted_in_window ((k, now) ∷ calls) l key w last e h b a =
    let l' = (allow l k now).0 in
    let w' : FixedWindow = record { start = w.start; count = w.count + 1 } in
    ground (
      arith,
      allow-limit l k now,
      allow-window l k now,
      allow_inside l key now w e h,
      lookup-allow_other l k key now,
      granted_in_window calls l' key w last,
      granted_in_window calls l' key w' last,
      a.1,
    )

-- A call opens a window, is counted in the open one, or is refused.
allow_cases :
    (l : ActionLimiter) (key : String) (now : ℕ)
    → 0 < l.limit
    → (((allow l key now).1 ≡ true)
        × (Dict.lookup string_discrete key (allow l key now).0.windows
            ≡ some (record { start = now; count = 1 })))
      ⊎ ((w : FixedWindow) × (Dict.lookup string_discrete key l.windows ≡ some w)
          × (((w.count < l.limit)
                × ((allow l key now).1 ≡ true)
                × (Dict.lookup string_discrete key (allow l key now).0.windows
                    ≡ some (record { start = w.start; count = w.count + 1 })))
              ⊎ ((l.limit ≤ w.count)
                  × ((allow l key now).1 ≡ false)
                  × (Dict.lookup string_discrete key (allow l key now).0.windows ≡ some w))))
allow_cases l key now h = elim (Option-cases (Dict.lookup string_discrete key l.windows)) [
  | inl e ↦ inl (allow_fresh l key now h (inl e))
  | inr (w, e) ↦ elim (dec_le now (w.start + l.window)) [
    | yes open_still ↦ inr (w, e, allow_inside l key now w e h open_still)
    | no past ↦ inl (allow_fresh l key now h (inr (w, e, omega arith)))
  ]
]

upper :
    (first last : ℕ) (calls : List (String × ℕ))
    → All (λ c. (first ≤ c.1) × (c.1 ≤ last)) calls
    → All (λ c. c.1 ≤ last) calls
upper first last [] a = tt
upper first last (c ∷ calls) a = (a.0.1, upper first last calls a.1)

-- What a key may still be granted in a period in which its window is opened anew at most once.
abbrev budget : ℕ → Option FixedWindow → ℕ
budget limit none = limit
budget limit (some w) = limit - w.count + limit

granted-le-budget :
    (calls : List (String × ℕ)) (l : ActionLimiter) (key : String) (first last : ℕ)
    → 0 < l.limit
    → last ≤ first + l.window
    → All (λ c. (first ≤ c.1) × (c.1 ≤ last)) calls
    → granted l key calls ≤ budget l.limit (Dict.lookup string_discrete key l.windows)
unfolding granted
granted-le-budget [] l key first last h b a = omega arith
granted-le-budget ((k, now) ∷ calls) l key first last h b a =
    let l' = (allow l k now).0 in
    let opened : FixedWindow = record { start = now; count = 1 } in
    let rest = granted-le-budget calls l' key first last in
    ground (
      arith,
      allow-limit l k now,
      allow-window l k now,
      lookup-allow_other l k key now,
      Option-cases (Dict.lookup string_discrete key l.windows),
      allow_cases l key now h,
      granted_in_window calls l' key opened last,
      upper first last calls a.1,
      rest,
      a.1,
    )

-- In any period no longer than the window, a key is let through at most twice the limit, whatever
-- the state of the limiter at its start.
pub granted-le-twice_limit :
    (calls : List (String × ℕ)) (l : ActionLimiter) (key : String) (first last : ℕ)
    → 0 < l.limit
    → last ≤ first + l.window
    → All (λ c. (first ≤ c.1) × (c.1 ≤ last)) calls
    → granted l key calls ≤ 2 * l.limit
granted-le-twice_limit calls l key first last h b a =
    let most = granted-le-budget calls l key first last h b a in
    elim (Option-cases (Dict.lookup string_discrete key l.windows)) [
      | inl e ↦ ground (arith, most)
      | inr (w, e) ↦ ground (arith, most)
    ]
