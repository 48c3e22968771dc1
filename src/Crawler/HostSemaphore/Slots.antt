-- ===== src/Crawler/HostSemaphore/Slots.antt =====
-- How many slots of a channel the tasks hold, and what one task that moves on changes.
use feedla.Prelude.{
  ℕ, ◌+◌, ◌<◌, ◌≤◌, ◌≡◌, sym, ap, ◌∙◌, subst, String, string_discrete, true, false, ◌&&◌, some,
  List, [], ◌∷◌, ◌++◌, ◌==◌, All, arith, inl, inr, Bool-cases,
}
use feedla.Prelude.Dict.{Dict, lookup}
use feedla.Store.Table.{count_where, count_where-append, All-append}
use feedla.Crawler.HostSemaphore.{
  HostSemaphore, asking, sent, Task, has_slot, occupancy, System, at,
}

pub record IsPolite (s : System) : Type 0 where
  pub bounded : (ch : ℕ) → occupancy ch s.tasks ≤ s.sem.max_per_host
  pub home : All (λ (t : Task). lookup string_discrete t.host s.sem.slots ≡ some t.channel) s.tasks

pub occupancy-split :
    (ch : ℕ) (before rest : List Task) (t : Task)
    → occupancy ch (before ++ t ∷ rest)
      ≡ occupancy ch (t ∷ []) + (occupancy ch before + occupancy ch rest)
unfolding count_where
occupancy-split ch before rest t = ground (
  arith,
  count_where-append (λ (x : Task). has_slot x.phase && (x.channel == ch)) before (t ∷ rest),
)

pub All-split :
    (P : Task → Type 0) (before rest : List Task) (t : Task)
    → All P (before ++ t ∷ rest)
    → All P before × P t × All P rest
All-split P [] rest t (p, h) = (tt, p, h)
All-split P (x ∷ before) rest t (p, h) =
    let (a, b, c) = All-split P before rest t h in ((p, a), b, c)

All-join :
    (P : Task → Type 0) (before rest : List Task) (t : Task)
    → All P before × P t × All P rest
    → All P (before ++ t ∷ rest)
All-join P before rest t (a, b, c) = All-append P before (t ∷ rest) a (b, c)

abbrev pub IsHome : HostSemaphore → Task → Type 0
IsHome h t = lookup string_discrete t.host h.slots ≡ some t.channel

-- A task that moves on holds no more than before.
pub moved-IsPolite :
    (h h' : HostSemaphore) (now : ℕ) (before rest : List Task) (t t' : Task)
    → h'.max_per_host ≡ h.max_per_host
    → h'.slots ≡ h.slots
    → t'.host ≡ t.host
    → t'.channel ≡ t.channel
    → ((ch : ℕ) → occupancy ch (before ++ t' ∷ rest) ≤ h.max_per_host)
    → IsPolite (at h now before t rest)
    → IsPolite (at h' now before t' rest)
moved-IsPolite h h' now before rest t t' m sl ho ch b p = record {
  bounded = λ c. omega (arith, b c, m);
  home =
      let (x, y, z) = All-split (IsHome h) before rest t p.home in
      subst
        (λ (d : Dict String ℕ).
          All (λ (k : Task). lookup string_discrete k.host d ≡ some k.channel)
            (before ++ t' ∷ rest))
        (sym sl)
        (All-join (IsHome h) before rest t'
          (x, ap (λ k. lookup string_discrete k h.slots) ho ∙ y ∙ ap some (sym ch), z));
}

same_slot :
    (c : ℕ) (t t' : Task)
    → has_slot t'.phase ≡ has_slot t.phase
    → t'.channel ≡ t.channel
    → occupancy c (t' ∷ []) ≡ occupancy c (t ∷ [])
unfolding count_where
same_slot c t t' e f = ground (arith, e, f)

pub kept_bound :
    (h : HostSemaphore) (now : ℕ) (before rest : List Task) (t t' : Task)
    → has_slot t'.phase ≡ has_slot t.phase
    → t'.channel ≡ t.channel
    → IsPolite (at h now before t rest)
    → (c : ℕ) → occupancy c (before ++ t' ∷ rest) ≤ h.max_per_host
kept_bound h now before rest t t' e f p c = omega (
  arith,
  p.bounded c,
  occupancy-split c before rest t,
  occupancy-split c before rest t',
  same_slot c t t' e f,
)

at_most_one : (c : ℕ) (t : Task) → occupancy c (t ∷ []) ≤ 1
unfolding count_where
at_most_one c t = ground arith

not_there : (c : ℕ) (t : Task) → (t.channel == c) ≡ false → occupancy c (t ∷ []) ≡ 0
unfolding count_where
not_there c t e = ground (arith, e)

pub held : (c : ℕ) (t : Task) → has_slot t.phase ≡ true → t.channel ≡ c → 1 ≤ occupancy c (t ∷ [])
unfolding count_where
held c t e f = ground (arith, e, f)

same_channel : (a c : ℕ) → (a == c) ≡ true → a ≡ c
same_channel a c e = ground (arith, e)

pub sent_bound :
    (h : HostSemaphore) (now : ℕ) (before rest : List Task) (t : Task)
    → t.phase ≡ asking
    → occupancy t.channel (before ++ t ∷ rest) < h.max_per_host
    → IsPolite (at h now before t rest)
    → (c : ℕ) → occupancy c (before ++ (record t { phase = sent }) ∷ rest) ≤ h.max_per_host
sent_bound h now before rest t e room p c = elim (Bool-cases (t.channel == c)) [
  | inl k ↦ omega (
    arith,
    subst (λ d. occupancy d (before ++ t ∷ rest) < h.max_per_host) (same_channel t.channel c k)
        room,
    occupancy-split c before rest t,
    occupancy-split c before rest (record t { phase = sent }),
    at_most_one c (record t { phase = sent }),
  )
  | inr k ↦ omega (
    arith,
    p.bounded c,
    occupancy-split c before rest t,
    occupancy-split c before rest (record t { phase = sent }),
    not_there c (record t { phase = sent }) k,
  )
]

pub gone_bound :
    (h : HostSemaphore) (now : ℕ) (before rest : List Task) (t : Task)
    → IsPolite (at h now before t rest)
    → (c : ℕ) → occupancy c (before ++ rest) ≤ h.max_per_host
gone_bound h now before rest t p c = omega (
  arith,
  p.bounded c,
  occupancy-split c before rest t,
  count_where-append (λ (x : Task). has_slot x.phase && (x.channel == c)) before rest,
)
