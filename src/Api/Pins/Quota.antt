-- ===== src/Api/Pins/Quota.antt =====
-- The quota of pins under requests that interleave.
use feedla.Prelude.{ℕ, ◌+◌, ◌≤◌, List, ◌==◌}
use feedla.Store.Table.{count_where}
use feedla.Store.Unread.{Pin}
use feedla.Api.Pins.Requests.{Traffic, waiting_of}

abbrev owned : ℕ → List Pin → ℕ
owned user pins = count_where (λ (p : Pin). p.user_id == user) pins

abbrev IsWithin : ℕ → ℕ → ℕ → Traffic → Type 0
IsWithin v limit others t = owned v t.db.pins + waiting_of v t.waiting ≤ limit + others
