-- ===== src/Store/Unread/Gc.antt =====
-- internal/store/gc.go: retention. Old entries that everyone has read, the entries beyond a feed's
-- cap, and feeds that no one subscribes to.
pub mod Exact
pub mod Spared
pub mod Pinned
use feedla.Prelude.{
  ℕ, suc, ◌+◌, Bool, true, false, not, ◌&&◌, ◌||◌, Option, none, some, List, [], ◌∷◌, ltb, leb,
  ◌==◌, if◌then◌else◌, length, keep, map,
}
use feedla.Store.Table.{update, remove, count_where}
use feedla.Store.Unread.{
  Db, Entry, Subscription, UserEntryState, Feed, Pin, member, is_null, unread, refresh_all,
  distinct, feed_of,
}

-- The rows of a table that are not of a deleted entry (ON DELETE CASCADE).
unfoldable pub cascade_states : List ℕ → List UserEntryState → List UserEntryState
cascade_states ids states = remove (λ r. member ids r.entry_id) states

-- `DELETE FROM entries WHERE id IN ids RETURNING feed_id`, then the refresh of each feed touched.
unfoldable pub delete_entries_and_refresh : List ℕ → Db → Db × ℕ
unfolding cascade_states
delete_entries_and_refresh ids db = (db', length deleted)
  where
    deleted : List Entry
    deleted = keep (λ e. member ids e.id) db.entries

    states' : List UserEntryState
    states' = cascade_states ids db.states

    feed_ids : List ℕ
    feed_ids = distinct [] (map (λ (e : Entry). e.feed_id) deleted)

    db' : Db
    db' = record db {
      entries = remove (λ e. member ids e.id) db.entries;
      states = states';
      pins = remove (λ p. member ids p.entry_id) db.pins;
      subscriptions = refresh_all states' feed_ids db.subscriptions;
    }

-- No one has the entry unread and no one has pinned it.
unfoldable pub is_old_read : ℕ → Db → Entry → Bool
is_old_read before db e =
    ltb e.fetched_at before
    && (count_where (λ r. (r.entry_id == e.id) && is_null r.read_at) db.states == 0)
    && (count_where (λ p. p.entry_id == e.id) db.pins == 0)

unfoldable pub delete_old_read_entries : ℕ → Db → Db × ℕ
unfolding delete_entries_and_refresh is_old_read
delete_old_read_entries before db =
    delete_entries_and_refresh (map (λ (e : Entry). e.id) (keep (is_old_read before db) db.entries))
      db

-- `ROW_NUMBER() OVER (PARTITION BY feed_id ORDER BY published_at DESC, id DESC)`: one more than the
-- rows of the feed that come before this one.
unfoldable pub row_number : List Entry → Entry → ℕ
row_number entries e = suc (
    count_where
      (λ f.
        (f.feed_id == e.feed_id)
        && (ltb e.published_at f.published_at
            || ((f.published_at == e.published_at) && ltb e.id f.id)))
      entries)

unfoldable pub is_excess : ℕ → Db → Entry → Bool
is_excess limit db e =
    ltb limit (row_number db.entries e) && not (member (map (λ (p : Pin). p.entry_id) db.pins) e.id)

unfoldable pub trim_excess_entries : ℕ → Db → Db × ℕ
unfolding delete_entries_and_refresh is_excess
trim_excess_entries limit db =
    delete_entries_and_refresh (map (λ (e : Entry). e.id) (keep (is_excess limit db) db.entries)) db

-- `COALESCE(last_fetched_at, created_at)`
unfoldable pub last_activity : Feed → ℕ
last_activity f = elim f.last_fetched_at [ none ↦ f.created_at | some t ↦ t ]

unfoldable pub is_orphan : ℕ → Db → Feed → Bool
unfolding last_activity
is_orphan before db f =
    (count_where (λ s. s.feed_id == f.id) db.subscriptions == 0) && ltb (last_activity f) before

abbrev pub is_in_feeds : List ℕ → Option ℕ → Bool
is_in_feeds feeds none = false
is_in_feeds feeds (some feed) = member feeds feed

-- Deleting feeds cascades to their entries and subscriptions, and from the entries to the rows that
-- reference them.
unfoldable pub delete_feeds : List ℕ → Db → Db
unfolding feed_of
delete_feeds dead db = record db {
  feeds = remove (λ f. member dead f.id) db.feeds;
  entries = remove (λ e. member dead e.feed_id) db.entries;
  subscriptions = remove (λ s. member dead s.feed_id) db.subscriptions;
  states = remove (λ r. is_in_feeds dead (feed_of r.entry_id db.entries)) db.states;
  pins = remove (λ p. is_in_feeds dead (feed_of p.entry_id db.entries)) db.pins;
}

unfoldable pub delete_orphan_feeds : ℕ → Db → Db × ℕ
unfolding delete_feeds is_orphan
delete_orphan_feeds before db =
    let dead = keep (is_orphan before db) db.feeds in
    (delete_feeds (map (λ (f : Feed). f.id) dead) db, length dead)
