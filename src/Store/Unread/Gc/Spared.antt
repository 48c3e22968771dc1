-- ===== src/Store/Unread/Gc/Spared.antt =====
-- What retention spares: no unread row is lost to age, and a capped feed keeps its newest entries.
use feedla.Prelude.{ℕ, Bool, ◌&&◌, ◌==◌}
use feedla.Store.Unread.{UserEntryState, is_null}

is_unread_of : ℕ → UserEntryState → Bool
is_unread_of i r = (r.entry_id == i) && is_null r.read_at
