-- ===== src/Crawler/HostSemaphore/Polite.antt =====
-- Each step keeps the channels within their capacity and each task on its host's channel.
use feedla.Prelude.{
  ℕ, ◌≤◌, ◌≡◌, refl, sym, ap, ◌∙◌, String, string_discrete, true, false, not, ◌&&◌, Option, none,
  some, List, [], ◌∷◌, ◌==◌, All, arith, inl, inr, Bool-cases,
}
use feedla.Prelude.Dict.{lookup, insert, retain, lookup-insert, lookup-retain}
use feedla.Store.Table.{count_where, All-append, All-map}
use feedla.Crawler.HostSemaphore.{
  HostSemaphore, chan_for, Phase, asking, sent, waiting, running, Task, has_slot, occupancy,
  measured, started, drops, gc, System, called, IsCalm, Step, Steps, call, send, measure, start,
  leave, tick, collect, no_steps, and_then, slot_of, is_old,
}
use feedla.Crawler.HostSemaphore.Slots.{
  IsPolite, occupancy-split, All-split, IsHome, moved-IsPolite, kept_bound, held, sent_bound,
  gone_bound,
}

new_slot :
    (h : HostSemaphore) (host : String) (t : Task)
    → lookup string_discrete host h.slots ≡ none
    → IsHome h t
    → lookup string_discrete t.host (insert string_discrete host h.made h.slots) ≡ some t.channel
new_slot h host t e k =
    ground (arith, e, k, lookup-insert string_discrete host t.host h.made h.slots)

own_slot :
    (h : HostSemaphore) (host : String)
    → lookup string_discrete host (insert string_discrete host h.made h.slots) ≡ some h.made
own_slot h host = ground (arith, lookup-insert string_discrete host host h.made h.slots)

abbrev asked : String → ℕ → Task
asked host ch = record { host = host; channel = ch; phase = asking }

slot_of-IsPolite :
    (host : String) (s : System) (o : Option ℕ)
    → lookup string_discrete host s.sem.slots ≡ o
    → IsPolite s
    → IsPolite (record s {
      sem = (slot_of s.sem host o).0;
      tasks = asked host (slot_of s.sem host o).1 ∷ s.tasks;
    })
unfolding count_where
slot_of-IsPolite host s (some ch) e p = record { bounded = p.bounded; home = (e, p.home) }
slot_of-IsPolite host s none e p = record {
  bounded = p.bounded;
  home = (own_slot s.sem host, All-map s.tasks (λ t k. new_slot s.sem host t e k) p.home);
}

called-IsPolite : (host : String) (s : System) → IsPolite s → IsPolite (called host s)
unfolding chan_for
called-IsPolite host s p = slot_of-IsPolite host s (lookup string_discrete host s.sem.slots) refl p

occupied :
    (all tasks : List Task)
    → ((c : ℕ) → occupancy c tasks ≤ occupancy c all)
    → All (λ (t : Task). has_slot t.phase ≡ true → 1 ≤ occupancy t.channel all) tasks
occupied all [] h = tt
occupied all (t ∷ tasks) h = (
  λ e. omega (arith, h t.channel, here e, occupancy-split t.channel [] tasks t),
  occupied all tasks (λ c. omega (arith, h c, occupancy-split c [] tasks t)),
)
  where
    here : has_slot t.phase ≡ true → 1 ≤ occupancy t.channel (t ∷ [])
    here e = held t.channel t e refl

no_slot : (q : Phase) → has_slot q ≡ false → q ≡ asking
no_slot asking e = refl
no_slot sent e = cc e
no_slot (waiting due) e = cc e
no_slot running e = cc e

spared_task :
    (idle_after : ℕ) (s : System) (t : Task)
    → IsHome s.sem t
    → (has_slot t.phase ≡ true → 1 ≤ occupancy t.channel s.tasks)
    → (t.phase ≡ asking → drops s.clock idle_after s.tasks s.sem t.host ≡ false)
    → drops s.clock idle_after s.tasks s.sem t.host ≡ false
unfolding drops
spared_task idle_after s t k o c = elim (Bool-cases (has_slot t.phase)) [
  | inl e ↦ rw k (busy (o e))
  | inr e ↦ c (no_slot t.phase e)
]
  where
    busy :
        1 ≤ occupancy t.channel s.tasks
        → ((occupancy t.channel s.tasks == 0)
            && is_old s.clock idle_after (lookup string_discrete t.host s.sem.last_start))
          ≡ false
    busy b = ground (arith, b)

zip_spared :
    (idle_after : ℕ) (s : System) (tasks : List Task)
    → All (IsHome s.sem) tasks
    → All (λ (t : Task). has_slot t.phase ≡ true → 1 ≤ occupancy t.channel s.tasks) tasks
    → All
        (λ (t : Task). t.phase ≡ asking → drops s.clock idle_after s.tasks s.sem t.host ≡ false)
        tasks
    → All
        (λ (t : Task).
          lookup string_discrete t.host (gc s.clock idle_after s.tasks s.sem).slots
          ≡ some t.channel)
        tasks
unfolding gc
zip_spared idle_after s [] a b c = tt
zip_spared idle_after s (t ∷ tasks) (a, others) (b, bs) (c, cs) =
    (kept_slot (spared_task idle_after s t a b c), zip_spared idle_after s tasks others bs cs)
  where
    kept_slot :
        drops s.clock idle_after s.tasks s.sem t.host ≡ false
        → lookup string_discrete t.host (
            retain string_discrete
              (λ host. not (drops s.clock idle_after s.tasks s.sem host))
              s.sem.slots)
          ≡ some t.channel
    kept_slot d = ground (
      arith,
      d,
      a,
      lookup-retain string_discrete (λ host. not (drops s.clock idle_after s.tasks s.sem host))
          t.host s.sem.slots,
    )

gc-IsPolite :
    (idle_after : ℕ) (s : System)
    → IsCalm idle_after s
    → IsPolite s
    → IsPolite (record s { sem = gc s.clock idle_after s.tasks s.sem })
unfolding gc
gc-IsPolite idle_after s c p = record {
  bounded = p.bounded;
  home = zip_spared idle_after s s.tasks p.home (occupied s.tasks s.tasks (λ x. omega arith)) c;
}

Step-IsPolite : {a b : System} → Step a b → IsPolite a → IsPolite b
unfolding measured started
Step-IsPolite (call host s) p = called-IsPolite host s p
Step-IsPolite (send h now before rest t e room) p =
    moved-IsPolite h h now before rest t _ refl refl refl refl
      (sent_bound h now before rest t e room p) p
Step-IsPolite (measure h now before rest t e) p =
    moved-IsPolite h h now before rest t _ refl refl refl refl
      (kept_bound h now before rest t (measured now h t) (sym (ap has_slot e)) refl p) p
Step-IsPolite (start h now due before rest t e d) p =
    moved-IsPolite h (started now t h) now before rest t _ refl refl refl refl
      (kept_bound h now before rest t (record t { phase = running }) (sym (ap has_slot e)) refl p) p
Step-IsPolite (leave h now before rest t n) p = record {
  bounded = gone_bound h now before rest t p;
  home =
      let (x, y, z) = All-split (IsHome h) before rest t p.home in
      All-append (IsHome h) before rest x z;
}
Step-IsPolite (tick s d) p = record { bounded = p.bounded; home = p.home }
Step-IsPolite (collect idle_after s c) p = gc-IsPolite idle_after s c p

pub Steps-IsPolite : {a b : System} → Steps a b → IsPolite a → IsPolite b
Steps-IsPolite no_steps p = p
Steps-IsPolite (and_then r s) p = Step-IsPolite s (Steps-IsPolite r p)

Step-max : {a b : System} → Step a b → b.sem.max_per_host ≡ a.sem.max_per_host
unfolding gc started chan_for
Step-max (call host s) = slot_max (lookup string_discrete host s.sem.slots)
  where
    slot_max : (o : Option ℕ) → (slot_of s.sem host o).0.max_per_host ≡ s.sem.max_per_host
    slot_max none = refl
    slot_max (some ch) = refl
Step-max (send h now before rest t e room) = refl
Step-max (measure h now before rest t e) = refl
Step-max (start h now due before rest t e d) = refl
Step-max (leave h now before rest t n) = refl
Step-max (tick s d) = refl
Step-max (collect idle_after s c) = refl

pub Steps-max : {a b : System} → Steps a b → b.sem.max_per_host ≡ a.sem.max_per_host
Steps-max no_steps = refl
Steps-max (and_then r s) = Step-max s ∙ Steps-max r
