-- ===== src/Store/Unread/Reachable.antt =====
-- Every sequence of calls, whatever fails: the cached counts of the tables reached are exact.
use feedla.Prelude.{
  ℕ, String, Bool, Option, List, [], All, Bool-cases, inl, inr, if◌then◌else◌, ◌==◌, ◌&&◌, not,
  length,
}
use feedla.Store.Unread.Pins.{add_pin, remove_pin, new_pins, pins_of}
use feedla.Store.Unread.Fanout.{has_state}
use feedla.Store.Table.{committed}
use feedla.Store.Unread.{
  Db, EntryInput, mark_entries_read, mark_all_entries_read, mark_feed_read_before, Feed,
}
use feedla.Store.Unread.Refresh.{IsConsistent, IsFresh}
use feedla.Store.Unread.Mark
use feedla.Store.Unread.Gc.{delete_old_read_entries, trim_excess_entries, delete_orphan_feeds}
use feedla.Store.Unread.Gc.Exact as GcExact
use feedla.Store.Unread.Fanout.{upsert_entries, upsert_subscription, unsubscribe}
use feedla.Store.Unread.Fanout.Exact
use feedla.Store.Unread.Fanout.Subscribe
use feedla.Store.Unread.Words.{add_ignore_word, remove_ignore_word}
use feedla.Store.Unread.Words.Hidden

module _ (like : String → String → Bool) (trim_space : String → String) where
  -- A call that reads and writes these tables; `feeds` stands for every change of
  -- the table of feeds that deletes none with entries or subscriptions.
  pub data Step : Db → Db → Type 0 where
    feeds : (db : Db) (feeds : List Feed) → Step db (record db { feeds = feeds })
    entries :
        (feed : ℕ) (entries : List EntryInput) (now : ℕ) (db : Db)
        → Step db (upsert_entries like feed entries now db).0
    subscribe :
        (user feed : ℕ) (folder : Option ℕ) (title : String) (now : ℕ) (db : Db)
        → Step db (upsert_subscription like user feed folder title now db)
    unsubscribed : (user feed : ℕ) (db : Db) → Step db (committed db (unsubscribe user feed db))
    mark :
        (user : ℕ) (ids : List ℕ) (now : ℕ) (db : Db)
        → Step db (mark_entries_read user ids now db).0
    mark_all : (user now : ℕ) (db : Db) → Step db (mark_all_entries_read user now db).0
    mark_feed :
        (user feed before now : ℕ) (db : Db)
        → Step db (mark_feed_read_before user feed before now db).0
    add_word :
        (commits : Bool) (user : ℕ) (word : String) (now : ℕ) (db : Db)
        → Step db (add_ignore_word like trim_space commits user word now db).0
    remove_word :
        (commits : Bool) (user id : ℕ) (db : Db)
        → Step db (remove_ignore_word like commits user id db).0
    pin : (user entry now : ℕ) (db : Db) → Step db (committed db (add_pin user entry now db))
    unpin : (user entry : ℕ) (db : Db) → Step db (committed db (remove_pin user entry db))
    delete_old : (before : ℕ) (db : Db) → Step db (delete_old_read_entries before db).0
    trim : (limit : ℕ) (db : Db) → Step db (trim_excess_entries limit db).0
    delete_orphans : (before : ℕ) (db : Db) → Step db (delete_orphan_feeds before db).0

  add_pin-IsConsistent :
      (user entry now : ℕ) (db : Db)
      → IsConsistent db
      → IsConsistent (committed db (add_pin user entry now db))
  unfolding add_pin
  add_pin-IsConsistent user entry now db c =
      let added =
        new_pins user entry now (has_state user entry db.states && (pins_of user entry db == 0))
          db.entries in
      elim (Bool-cases ((length added == 0) && not (has_state user entry db.states))) [
        | inl t ↦ rw (t, if◌then◌else◌) c
        | inr t ↦
            rw (t, if◌then◌else◌) (record { fresh = c.fresh; linked = c.linked; owned = c.owned })
      ]

  remove_pin-IsConsistent :
      (user entry : ℕ) (db : Db)
      → IsConsistent db
      → IsConsistent (committed db (remove_pin user entry db))
  unfolding remove_pin
  remove_pin-IsConsistent user entry db c = elim (Bool-cases (pins_of user entry db == 0)) [
    | inl t ↦ rw (t, if◌then◌else◌) c
    | inr t ↦ rw (t, if◌then◌else◌) (record { fresh = c.fresh; linked = c.linked; owned = c.owned })
  ]

  pub data Reachable : Db → Type 0 where
    start :
        (feeds : List Feed)
        → Reachable (record {
          feeds = feeds;
          entries = [];
          subscriptions = [];
          states = [];
          ignore_words = [];
          pins = [];
        })
    next : {db db' : Db} → Reachable db → Step db db' → Reachable db'

  Step-IsConsistent : {db db' : Db} → Step db db' → IsConsistent db → IsConsistent db'
  Step-IsConsistent (feeds db fs) c = record { fresh = c.fresh; linked = c.linked; owned = c.owned }
  Step-IsConsistent (entries feed es now db) c =
      Exact.upsert_entries-IsConsistent like feed es now db c
  Step-IsConsistent (subscribe user feed folder title now db) c =
      Subscribe.upsert_subscription-IsConsistent like user feed folder title now db c
  Step-IsConsistent (unsubscribed user feed db) c =
      Subscribe.unsubscribe-IsConsistent user feed db c
  Step-IsConsistent (mark user ids now db) c = Mark.mark_entries_read-IsConsistent user ids now db c
  Step-IsConsistent (mark_all user now db) c = Mark.mark_all_entries_read-IsConsistent user now db c
  Step-IsConsistent (mark_feed user feed before now db) c =
      Mark.mark_feed_read_before-IsConsistent user feed before now db c
  Step-IsConsistent (add_word commits user word now db) c =
      Hidden.add_ignore_word-IsConsistent like trim_space commits user word now db c
  Step-IsConsistent (remove_word commits user id db) c =
      Hidden.remove_ignore_word-IsConsistent like commits user id db c
  Step-IsConsistent (pin user entry now db) c = add_pin-IsConsistent user entry now db c
  Step-IsConsistent (unpin user entry db) c = remove_pin-IsConsistent user entry db c
  Step-IsConsistent (delete_old before db) c =
      GcExact.delete_old_read_entries-IsConsistent before db c
  Step-IsConsistent (trim limit db) c = GcExact.trim_excess_entries-IsConsistent limit db c
  Step-IsConsistent (delete_orphans before db) c =
      GcExact.delete_orphan_feeds-IsConsistent before db c

  -- After any sequence of calls, failed ones included, the cached unread count of each subscription
  -- is what a count of the user's unread rows of the feed gives, hidden rows left out.
  pub unread_counts_exact : {db : Db} → Reachable db → All (IsFresh db.states) db.subscriptions
  unread_counts_exact r = (consistent r).fresh
    where
      consistent : {db : Db} → Reachable db → IsConsistent db
      consistent (start fs) = record { fresh = tt; linked = tt; owned = tt }
      consistent (next r s) = Step-IsConsistent s (consistent r)
