-- ===== src/Auth/LoginLimiter/Spraying.antt =====
-- The per-address budget: trying many user names from one address is cut off.
use feedla.Prelude.{
  ℕ, ◌+◌, ◌≤◌, ◌<◌, ◌≡◌, refl, ◌≢◌, ◌⊎◌, inl, inr, String, string_discrete, false, some, List, [],
  ◌∷◌, length, All, Option-cases, dec_lt, arith,
}
use feedla.Prelude.Dict
use feedla.Auth.LoginLimiter.{LoginLimiter, IpState, allow, record_failure, failures_from}

-- A failure inside the address's window is counted in it.
fail_inside :
    (l : LoginLimiter) (user ip : String) (now : ℕ) (s : IpState)
    → Dict.lookup string_discrete ip l.ips ≡ some s
    → now ≤ s.window_start + l.ip_window
    → Dict.lookup string_discrete ip (record_failure l user ip now).ips
      ≡ some (record { window_start = s.window_start; count = s.count + 1 })
unfolding record_failure
fail_inside l user ip now s e h = grind (arith, Dict.lookup-insert)

record_failure_config :
    (l : LoginLimiter) (user ip : String) (now : ℕ)
    → ((record_failure l user ip now).ip_limit ≡ l.ip_limit)
      × ((record_failure l user ip now).ip_window ≡ l.ip_window)
unfolding record_failure
record_failure_config l user ip now = (refl, refl)

failures_inside :
    (tries : List (String × ℕ)) (l : LoginLimiter) (ip : String) (s : IpState) (last : ℕ)
    → Dict.lookup string_discrete ip l.ips ≡ some s
    → last ≤ s.window_start + l.ip_window
    → All (λ t. t.1 ≤ last) tries
    → (Dict.lookup string_discrete ip (failures_from l ip tries).ips
        ≡ some (record { window_start = s.window_start; count = s.count + length tries }))
      × ((failures_from l ip tries).ip_limit ≡ l.ip_limit)
      × ((failures_from l ip tries).ip_window ≡ l.ip_window)
unfolding failures_from
failures_inside [] l ip s last e h a = ground arith
failures_inside ((user, now) ∷ tries) l ip s last e h a =
    let l' = record_failure l user ip now in
    let s' : IpState = record { window_start = s.window_start; count = s.count + 1 } in
    ground (
      arith,
      fail_inside l user ip now s e,
      record_failure_config l user ip now,
      failures_inside tries l' ip s' last,
      a.0,
      a.1,
    )

allow_spent :
    (l : LoginLimiter) (user ip : String) (now : ℕ) (s : IpState)
    → Dict.lookup string_discrete ip l.ips ≡ some s
    → now ≤ s.window_start + l.ip_window
    → l.ip_limit ≤ s.count
    → (allow l user ip now).1 ≡ false
unfolding allow
allow_spent l user ip now s e h c = ground arith

-- Once the failures from an address in its window reach the limit, every further attempt from that
-- address is refused until the window ends, whatever user names were tried or are tried next.
pub spraying_refused :
    (tries : List (String × ℕ)) (l : LoginLimiter) (ip user : String) (s : IpState) (last now : ℕ)
    → Dict.lookup string_discrete ip l.ips ≡ some s
    → last ≤ s.window_start + l.ip_window
    → All (λ t. t.1 ≤ last) tries
    → l.ip_limit ≤ s.count + length tries
    → now ≤ s.window_start + l.ip_window
    → (allow (failures_from l ip tries) user ip now).1 ≡ false
spraying_refused tries l ip user s last now e h a c t =
    let (found, limit, window) = failures_inside tries l ip s last e h a in
    allow_spent (failures_from l ip tries) user ip now _ found (rw window t) (rw limit c)

-- Failures from one address leave every other address its budget.
pub failures_from-lookup_ip_other :
    (tries : List (String × ℕ)) (l : LoginLimiter) (ip other : String)
    → ip ≢ other
    → Dict.lookup string_discrete other (failures_from l ip tries).ips
      ≡ Dict.lookup string_discrete other l.ips
unfolding failures_from record_failure
failures_from-lookup_ip_other [] l ip other h = refl
failures_from-lookup_ip_other ((user, now) ∷ tries) l ip other h = grind (
  arith,
  Dict.lookup-insert,
  failures_from-lookup_ip_other tries (record_failure l user ip now) ip other h,
)

-- What `Allow` leaves in a window: nothing, the window, or an empty one opened at the call.
allow_window :
    (l : LoginLimiter) (user ip : String) (now : ℕ) (other : String)
    → (Dict.lookup string_discrete other (allow l user ip now).0.ips
        ≡ Dict.lookup string_discrete other l.ips)
      ⊎ ((s : IpState) × (Dict.lookup string_discrete other l.ips ≡ some s)
          × (s.window_start + l.ip_window < now)
          × (Dict.lookup string_discrete other (allow l user ip now).0.ips
              ≡ some (record { window_start = now; count = 0 })))
unfolding allow
allow_window l user ip now other = elim (Option-cases (Dict.lookup string_discrete ip l.ips)) [
  | inl e ↦ inl (ground arith)
  | inr (s, e) ↦ elim (dec_lt (s.window_start + l.ip_window) now) [
    | yes late ↦ elim (string_discrete ip other) [
      | yes same ↦ inr (s, ground arith, late, grind (arith, Dict.lookup-insert))
      | no differ ↦ inl (grind (arith, Dict.lookup-insert))
    ]
    | no early ↦ inl (grind (arith, Dict.lookup-insert))
  ]
]

allow_config :
    (l : LoginLimiter) (user ip : String) (now : ℕ)
    → ((allow l user ip now).0.ip_limit ≡ l.ip_limit)
      × ((allow l user ip now).0.ip_window ≡ l.ip_window)
      × ((allow l user ip now).0.accounts ≡ l.accounts)
unfolding allow
allow_config l user ip now = ground arith

allow_answer :
    (l m : LoginLimiter) (user ip : String) (now later : ℕ)
    → (m.ip_limit ≡ l.ip_limit) × (m.ip_window ≡ l.ip_window) × (m.accounts ≡ l.accounts)
    → now ≤ later
    → (Dict.lookup string_discrete ip m.ips ≡ Dict.lookup string_discrete ip l.ips)
      ⊎ ((s : IpState) × (Dict.lookup string_discrete ip l.ips ≡ some s)
          × (s.window_start + l.ip_window < now)
          × (Dict.lookup string_discrete ip m.ips
              ≡ some (record { window_start = now; count = 0 })))
    → (allow m user ip later).1 ≡ (allow l user ip later).1
unfolding allow
allow_answer l m user ip now later c h w = ground arith

-- The write that `Allow` makes to an expired window cannot be seen: no later call of `Allow`, for
-- any user name and address, answers otherwise because of it.
pub allow_unobservable :
    (l : LoginLimiter) (user ip : String) (now : ℕ) (user' ip' : String) (later : ℕ)
    → now ≤ later
    → (allow (allow l user ip now).0 user' ip' later).1 ≡ (allow l user' ip' later).1
allow_unobservable l user ip now user' ip' later h =
    allow_answer l (allow l user ip now).0 user' ip' now later (allow_config l user ip now) h
      (allow_window l user ip now ip')
