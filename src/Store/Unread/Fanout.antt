-- ===== src/Store/Unread/Fanout.antt =====
-- internal/store/{entries,subscriptions}.go: fan-out on write. A new entry gives each subscriber of
-- its feed a row, and a new subscription gives the user a row for each entry of the feed.
pub mod Exact
pub mod Subscribe
pub mod Dateless
use feedla.Prelude.{
  ℕ, suc, ◌+◌, String, string_discrete, Bool, true, false, not, ◌&&◌, ◌||◌, Option, none, some,
  List, [], ◌∷◌, ◌++◌, ltb, ◌==◌, if◌then◌else◌, ite, length, keep, map,
}
use feedla.Store.Table.{Result, ok, fail, err_not_found, update, remove, count_where, next_id}
use feedla.Store.Unread.{
  Db, Entry, EntryInput, Subscription, UserEntryState, IgnoreWord, refresh_unread_count,
}

-- Go's `==` on strings as a test.
abbrev pub same_text : String → String → Bool
same_text a b = ite (string_discrete a b) true false

-- `firstDateMissingGUID`
unfoldable pub first_date_missing : List EntryInput → String
first_date_missing [] = ""
first_date_missing (e ∷ entries) =
    let rest = first_date_missing entries in if e.date_missing then e.guid else rest

-- `readAt`
unfoldable pub initial_read_at : String → ℕ → EntryInput → Option ℕ
initial_read_at first now e =
    if e.date_missing && not (same_text e.guid first) then some now else none

-- The row with the key of a UNIQUE(feed_id, guid) conflict.
unfoldable pub is_known : ℕ → String → List Entry → Bool
is_known feed guid [] = false
is_known feed guid (e ∷ entries) =
    let rest = is_known feed guid entries in (e.feed_id == feed) && same_text e.guid guid || rest

abbrev pub has_state : ℕ → ℕ → List UserEntryState → Bool
has_state user entry states =
    ltb 0 (count_where (λ r. (r.user_id == user) && (r.entry_id == entry)) states)

-- `INSERT INTO subscriptions ... ON CONFLICT(user_id, feed_id) DO UPDATE`
unfoldable pub upsert_row : ℕ → ℕ → Option ℕ → String → ℕ → List Subscription → List Subscription
upsert_row user feed folder title now [] =
    (record {
      user_id = user;
      feed_id = feed;
      folder_id = folder;
      title = title;
      unread_count = 0;
      created_at = now;
    })
    ∷ []
upsert_row user feed folder title now (s ∷ subs) =
    let rest = upsert_row user feed folder title now subs in
    if (s.user_id == user) && (s.feed_id == feed)
    then record s { folder_id = folder; title = title } ∷ subs
    else s ∷ rest

unfoldable pub new_entry : ℕ → ℕ → ℕ → EntryInput → Entry
new_entry id feed now e = record {
  id = id;
  feed_id = feed;
  guid = e.guid;
  url = e.url;
  title = e.title;
  author = e.author;
  body = e.body;
  body_hash = e.body_hash;
  published_at = e.published_at;
  updated_at = e.updated_at;
  fetched_at = now;
  created_at = now;
}

unfoldable pub update_entry : ℕ → ℕ → EntryInput → Db → Db
update_entry feed now e db = record db {
  entries =
      update (λ (x : Entry). (x.feed_id == feed) && same_text x.guid e.guid)
        (λ x. record x {
          url = e.url;
          title = e.title;
          author = e.author;
          body = e.body;
          body_hash = e.body_hash;
          updated_at = e.updated_at;
          fetched_at = now;
        })
        db.entries;
}

module _ (like : String → String → Bool) where
  -- `EXISTS(SELECT 1 FROM ignore_words iw WHERE iw.user_id = ? AND (title LIKE ... OR body LIKE
  -- ...))`
  unfoldable pub is_ignored : List IgnoreWord → ℕ → String → String → Bool
  is_ignored words user title body =
      ltb 0
        (count_where (λ w. (w.user_id == user) && (like title w.word || like body w.word)) words)

  -- `fanOutStmt`, from the subscriptions on.
  unfoldable pub fan_out : Db → Entry → Option ℕ → List Subscription → List UserEntryState
  unfolding is_ignored
  fan_out db e read_at [] = []
  fan_out db e read_at (s ∷ subs) =
      let rest = fan_out db e read_at subs in
      if s.feed_id == e.feed_id
      then (record {
        user_id = s.user_id;
        entry_id = e.id;
        feed_id = e.feed_id;
        published_at = e.published_at;
        created_at = e.created_at;
        read_at = read_at;
        ignored = is_ignored db.ignore_words s.user_id e.title e.body;
      })
        ∷ rest
      else rest

  unfoldable pub insert_entry : ℕ → String → ℕ → EntryInput → Db → Db
  unfolding fan_out new_entry initial_read_at
  insert_entry feed first now e db =
      let row = new_entry (next_id (λ (x : Entry). x.id) db.entries) feed now e in
      record db {
        entries = db.entries ++ row ∷ [];
        states = db.states ++ fan_out db row (initial_read_at first now e) db.subscriptions;
      }

  -- The loop of `UpsertEntries`, with `newCount`.
  unfoldable pub upsert_loop : ℕ → String → ℕ → List EntryInput → Db × ℕ → Db × ℕ
  unfolding insert_entry update_entry is_known
  upsert_loop feed first now [] (db, n) = (db, n)
  upsert_loop feed first now (e ∷ entries) (db, n) = upsert_loop feed first now entries (
      if is_known feed e.guid db.entries
      then (update_entry feed now e db, n)
      else (insert_entry feed first now e db, n + 1))

  unfoldable pub finish_upsert : ℕ → Db × ℕ → Db × ℕ
  finish_upsert feed (db, n) =
      if ltb 0 n
      then (record db { subscriptions = refresh_unread_count db.states feed db.subscriptions }, n)
      else (db, n)

  unfoldable pub upsert_entries : ℕ → List EntryInput → ℕ → Db → Db × ℕ
  unfolding upsert_loop finish_upsert first_date_missing
  upsert_entries feed [] now db = (db, 0)
  upsert_entries feed (e ∷ entries) now db =
      finish_upsert feed
        (upsert_loop feed (first_date_missing (e ∷ entries)) now (e ∷ entries) (db, 0))

  -- The fan-out of a subscription, `ON CONFLICT(user_id, entry_id) DO NOTHING`.
  unfoldable pub fan_in : Db → ℕ → ℕ → List Entry → List UserEntryState
  unfolding is_ignored
  fan_in db user feed [] = []
  fan_in db user feed (e ∷ entries) =
      let rest = fan_in db user feed entries in
      if (e.feed_id == feed) && not (has_state user e.id db.states)
      then (record {
        user_id = user;
        entry_id = e.id;
        feed_id = e.feed_id;
        published_at = e.published_at;
        created_at = e.created_at;
        read_at = none;
        ignored = is_ignored db.ignore_words user e.title e.body;
      })
        ∷ rest
      else rest

  unfoldable pub upsert_subscription : ℕ → ℕ → Option ℕ → String → ℕ → Db → Db
  unfolding fan_in upsert_row
  upsert_subscription user feed folder title now db =
      let states = db.states ++ fan_in db user feed db.entries in
      record db {
        states = states;
        subscriptions =
            refresh_unread_count states feed
              (upsert_row user feed folder title now db.subscriptions);
      }

-- The two DELETEs of `Unsubscribe`.
unfoldable pub delete_subscription : ℕ → ℕ → Db → Db
delete_subscription user feed db = record db {
  subscriptions = remove (λ s. (s.user_id == user) && (s.feed_id == feed)) db.subscriptions;
  states = remove (λ r. (r.user_id == user) && (r.feed_id == feed)) db.states;
}

unfoldable pub unsubscribe : ℕ → ℕ → Db → Result Db
unfolding delete_subscription
unsubscribe user feed db =
    if count_where (λ (s : Subscription). (s.user_id == user) && (s.feed_id == feed))
        db.subscriptions
      == 0
    then fail err_not_found
    else ok (delete_subscription user feed db)
