-- ===== src/Crawler/HostSemaphore/Bound.antt =====
-- How many requests to one host run at once.
use feedla.Prelude.{
  ℕ, ◌≤◌, ◌≡◌, refl, ap, String, string_discrete, true, none, some, List, [], ◌∷◌, ◌==◌,
  if◌then◌else◌, All, arith, inl, inr, Option-cases,
}
use feedla.Prelude.Dict.{Dict, lookup}
use feedla.Store.Table.{count_where}
use feedla.Crawler.HostSemaphore.{
  Phase, asking, sent, waiting, running, Task, has_slot, is_running, occupancy, requests, System,
  Steps, new_host_semaphore, initial, default_host_concurrency,
}
use feedla.Crawler.HostSemaphore.Slots.{IsPolite}
use feedla.Crawler.HostSemaphore.Polite.{Steps-IsPolite, Steps-max}

run_slot : (q : Phase) → is_running q ≡ true → has_slot q ≡ true
run_slot asking e = cc e
run_slot sent e = cc
run_slot (waiting due) e = cc
run_slot running e = refl

same_home :
    (slots : Dict String ℕ) (host : String) (t : Task) (ch : ℕ)
    → lookup string_discrete host slots ≡ some ch
    → lookup string_discrete t.host slots ≡ some t.channel
    → t.host ≡ host
    → t.channel ≡ ch
same_home slots host t ch e k q = cc (e, k, ap (λ x. lookup string_discrete x slots) q)

not_home :
    (slots : Dict String ℕ) (host : String) (t : Task)
    → lookup string_discrete host slots ≡ none
    → lookup string_discrete t.host slots ≡ some t.channel
    → t.host ≡ host
    → ⊥
not_home slots host t e k q = cc (e, k, ap (λ x. lookup string_discrete x slots) q)

none_yet : (ch : ℕ) (s : System) → occupancy ch [] ≤ s.sem.max_per_host
unfolding count_where
none_yet ch s = omega arith

-- The requests to a host all hold its channel.
requests-le :
    (host : String) (ch : ℕ) (slots : Dict String ℕ) (tasks : List Task)
    → lookup string_discrete host slots ≡ some ch
    → All (λ (t : Task). lookup string_discrete t.host slots ≡ some t.channel) tasks
    → requests host tasks ≤ occupancy ch tasks
unfolding count_where
requests-le host ch slots [] e h = omega arith
requests-le host ch slots (t ∷ tasks) e (k, h) =
    ground
      (arith, requests-le host ch slots tasks e h, run_slot t.phase, same_home slots host t ch e k)

requests_absent :
    (host : String) (slots : Dict String ℕ) (tasks : List Task)
    → lookup string_discrete host slots ≡ none
    → All (λ (t : Task). lookup string_discrete t.host slots ≡ some t.channel) tasks
    → requests host tasks ≡ 0
unfolding count_where
requests_absent host slots [] e h = refl
requests_absent host slots (t ∷ tasks) e (k, h) =
    ground (arith, requests_absent host slots tasks e h, not_home slots host t e k)

-- Whatever the interleaving of calls, waits, releases and collections, no host has more requests
-- running at once than the maximum, which is two where it is given as zero, as long as no
-- collection drops a host while a call for it stands between getting its channel and sending to it.
pub requests_bounded :
    (max_per_host min_gap now : ℕ) (s : System) (host : String)
    → Steps (initial max_per_host min_gap now) s
    → requests host s.tasks ≤ (if max_per_host == 0 then default_host_concurrency else max_per_host)
unfolding new_host_semaphore
requests_bounded max_per_host min_gap now s host r =
    let first : IsPolite (initial max_per_host min_gap now) = record {
      bounded = λ ch. none_yet ch (initial max_per_host min_gap now);
      home = tt;
    } in
    let p = Steps-IsPolite r first in
    elim (Option-cases (lookup string_discrete host s.sem.slots)) [
      | inl e ↦ omega (arith, requests_absent host s.sem.slots s.tasks e p.home)
      | inr (ch, e) ↦
          omega (arith, requests-le host ch s.sem.slots s.tasks e p.home, p.bounded ch, Steps-max r)
    ]
