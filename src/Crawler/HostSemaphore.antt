-- ===== src/Crawler/HostSemaphore.antt =====
-- internal/crawler/hostsem.go: slots and gaps per host. Each stretch under the mutex and each
-- channel operation is one step, and calls of different tasks interleave between them. A channel is
-- a number, since `GC` can drop a host's channel while a task still has it; what a channel holds is
-- the number of tasks that have sent to it.
pub mod Slots
pub mod Polite
pub mod Bound
use feedla.Prelude.{
  ℕ, suc, ◌+◌, ◌<◌, ◌≤◌, ◌≡◌, ◌≢◌, String, string_discrete, Bool, true, false, not, ◌&&◌, Option,
  none, some, List, [], ◌∷◌, ◌++◌, max, ltb, ◌==◌, if◌then◌else◌, All,
}
use feedla.Prelude.Dict.{Dict, lookup, insert, retain}
use feedla.Store.Table.{count_where}

abbrev pub default_host_concurrency : ℕ
default_host_concurrency = 2

pub record HostSemaphore : Type 0 where
  pub slots : Dict String ℕ
  pub made : ℕ
  pub last_start : Dict String ℕ
  pub max_per_host : ℕ
  pub min_gap : ℕ

unfoldable pub new_host_semaphore : ℕ → ℕ → HostSemaphore
new_host_semaphore max_per_host min_gap = record {
  slots = [];
  made = 0;
  last_start = [];
  max_per_host = if max_per_host == 0 then default_host_concurrency else max_per_host;
  min_gap = min_gap;
}

abbrev pub slot_of : HostSemaphore → String → Option ℕ → HostSemaphore × ℕ
slot_of h host (some ch) = (h, ch)
slot_of h host none =
    (record h { slots = insert string_discrete host h.made h.slots; made = suc h.made }, h.made)

-- The semaphore after the call, and the channel.
unfoldable pub chan_for : String → HostSemaphore → HostSemaphore × ℕ
unfolding lookup insert
chan_for host h = slot_of h host (lookup string_discrete host h.slots)

-- Where a call of `Acquire` is: it has its channel, it has sent to it, it waits for its time, or
-- it has returned and the request runs.
pub data Phase : Type 0 where
  asking : Phase
  sent : Phase
  waiting : ℕ → Phase
  running : Phase

pub record Task : Type 0 where
  pub host : String
  pub channel : ℕ
  pub phase : Phase

abbrev pub has_slot : Phase → Bool
has_slot asking = false
has_slot sent = true
has_slot (waiting deadline) = true
has_slot running = true

abbrev pub is_running : Phase → Bool
is_running running = true
is_running _ = false

-- `len(ch)`
abbrev pub occupancy : ℕ → List Task → ℕ
occupancy ch tasks = count_where (λ (t : Task). has_slot t.phase && (t.channel == ch)) tasks

abbrev pub requests : String → List Task → ℕ
requests host tasks =
    count_where
      (λ (t : Task).
        is_running t.phase && elim (string_discrete t.host host) [ yes e ↦ true | no n ↦ false ])
      tasks

-- When the wait that is measured at `now` is over; without a last start there is none.
abbrev pub deadline : ℕ → ℕ → Option ℕ → ℕ
deadline now min_gap none = now
deadline now min_gap (some last) = max now (last + min_gap)

unfoldable pub measured : ℕ → HostSemaphore → Task → Task
unfolding lookup
measured now h t = record t {
  phase = waiting (deadline now h.min_gap (lookup string_discrete t.host h.last_start));
}

-- `h.lastStart[host] = time.Now()`
unfoldable pub started : ℕ → Task → HostSemaphore → HostSemaphore
unfolding insert
started now t h = record h { last_start = insert string_discrete t.host now h.last_start }

abbrev pub is_old : ℕ → ℕ → Option ℕ → Bool
is_old now idle_after none = true
is_old now idle_after (some last) = ltb (last + idle_after) now

abbrev pub is_idle : ℕ → ℕ → List Task → Option ℕ → Option ℕ → Bool
is_idle now idle_after tasks none last = false
is_idle now idle_after tasks (some ch) last =
    (occupancy ch tasks == 0) && is_old now idle_after last

unfoldable pub drops : ℕ → ℕ → List Task → HostSemaphore → String → Bool
unfolding lookup
drops now idle_after tasks h host =
    is_idle now idle_after tasks (lookup string_discrete host h.slots)
      (lookup string_discrete host h.last_start)

unfoldable pub gc : ℕ → ℕ → List Task → HostSemaphore → HostSemaphore
unfolding drops retain
gc now idle_after tasks h = record h {
  slots = retain string_discrete (λ host. not (drops now idle_after tasks h host)) h.slots;
  last_start =
      retain string_discrete (λ host. not (drops now idle_after tasks h host)) h.last_start;
}

pub record System : Type 0 where
  pub sem : HostSemaphore
  pub tasks : List Task
  pub clock : ℕ

abbrev pub at : HostSemaphore → ℕ → List Task → Task → List Task → System
at h now before t rest = record { sem = h; tasks = before ++ t ∷ rest; clock = now }

abbrev pub called : String → System → System
called host s =
    let got = chan_for host s.sem in
    record s {
      sem = got.0;
      tasks = (record { host = host; channel = got.1; phase = asking }) ∷ s.tasks;
    }

-- `GC` at a moment when no call stands between `chanFor` and its send on a channel that is dropped.
abbrev pub IsCalm : ℕ → System → Type 0
IsCalm idle_after s =
    All (λ (t : Task). t.phase ≡ asking → drops s.clock idle_after s.tasks s.sem t.host ≡ false)
      s.tasks

pub data Step : System → System → Type 0 where
  call : (host : String) (s : System) → Step s (called host s)
  send :
      (h : HostSemaphore) (now : ℕ) (before rest : List Task) (t : Task)
      → t.phase ≡ asking
      → occupancy t.channel (before ++ t ∷ rest) < h.max_per_host
      → Step (at h now before t rest) (at h now before (record t { phase = sent }) rest)
  measure :
      (h : HostSemaphore) (now : ℕ) (before rest : List Task) (t : Task)
      → t.phase ≡ sent
      → Step (at h now before t rest) (at h now before (measured now h t) rest)
  start :
      (h : HostSemaphore) (now due : ℕ) (before rest : List Task) (t : Task)
      → t.phase ≡ waiting due
      → due ≤ now
      → Step
          (at h now before t rest)
          (at (started now t h) now before (record t { phase = running }) rest)
  -- A release, or a context that is done before the slot or the time comes.
  leave :
      (h : HostSemaphore) (now : ℕ) (before rest : List Task) (t : Task)
      → t.phase ≢ sent
      → Step (at h now before t rest) (record { sem = h; tasks = before ++ rest; clock = now })
  tick : (s : System) (d : ℕ) → Step s (record s { clock = s.clock + d })
  collect :
      (idle_after : ℕ) (s : System)
      → IsCalm idle_after s
      → Step s (record s { sem = gc s.clock idle_after s.tasks s.sem })

pub data Steps : System → System → Type 0 where
  no_steps : {s : System} → Steps s s
  and_then : {a b c : System} → Steps a b → Step b c → Steps a c

abbrev pub initial : ℕ → ℕ → ℕ → System
initial max_per_host min_gap now = record {
  sem = new_host_semaphore max_per_host min_gap;
  tasks = [];
  clock = now;
}
