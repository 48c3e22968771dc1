-- ===== src/Tests/HostSemaphore.antt =====
-- Two requests to one host.
use feedla.Prelude.{◌≤◌, refl, string_discrete, [], ◌∷◌, arith}
use feedla.Prelude.Dict.{lookup, insert}
use feedla.Store.Table.{count_where}
use feedla.Crawler.HostSemaphore.{
  HostSemaphore, Task, asking, sent, waiting, running, Steps, initial, new_host_semaphore, chan_for,
  requests, call, send, measure, start, no_steps, and_then, measured, started,
}
use feedla.Crawler.HostSemaphore.Bound.{requests_bounded}

abbrev sem : HostSemaphore
sem = record { slots = ("h", 0) ∷ []; made = 1; last_start = []; max_per_host = 2; min_gap = 1_000 }

abbrev used : HostSemaphore
used = record sem { last_start = ("h", 50) ∷ [] }

abbrev task : Task
task = record { host = "h"; channel = 0; phase = asking }

two_calls : Steps (initial 0 1_000 50) (record { sem = sem; tasks = task ∷ task ∷ []; clock = 50 })
unfolding new_host_semaphore chan_for string_discrete
two_calls =
    and_then (and_then no_steps (call "h" (initial 0 1_000 50)))
      (call "h" (record { sem = sem; tasks = task ∷ []; clock = 50 }))

-- Both hold a slot and read the last start before either has started.
abbrev ready : Task
ready = record task { phase = waiting 50 }

both_wait :
    Steps (initial 0 1_000 50) (record { sem = sem; tasks = ready ∷ ready ∷ []; clock = 50 })
unfolding measured count_where lookup
both_wait =
    and_then
      (and_then
        (and_then (and_then two_calls (send sem 50 [] (task ∷ []) task refl (omega arith)))
          (send sem 50 (record task { phase = sent } ∷ []) [] task refl (omega arith)))
        (measure sem 50 [] (record task { phase = sent } ∷ []) (record task { phase = sent }) refl))
      (measure sem 50 (ready ∷ []) [] (record task { phase = sent }) refl)

-- They start at the same time.
both_run : Steps (initial 0 1_000 50) (record {
  sem = used;
  tasks = record task { phase = running } ∷ record task { phase = running } ∷ [];
  clock = 50;
})
unfolding started insert string_discrete
both_run =
    and_then (and_then both_wait (start sem 50 50 [] (ready ∷ []) ready refl (omega arith)))
      (start used 50 50 (record task { phase = running } ∷ []) [] ready refl (omega arith))

requests_bounded_example :
    requests "h" (record task { phase = running } ∷ record task { phase = running } ∷ []) ≤ 2
requests_bounded_example = requests_bounded 0 1_000 50 _ "h" both_run
