-- ===== src/Store/Unread/Fanout/Dateless.antt =====
-- The guard against feeds without dates: a crawl of one adds at most one unread entry.
use feedla.Prelude.{
  ℕ, ◌+◌, ◌≤◌, ◌≡◌, refl, ◌⊎◌, inl, inr, String, Bool, true, false, ◌&&◌, ◌||◌, Option, none, some,
  List, [], ◌∷◌, ◌++◌, ◌==◌, if◌then◌else◌, All, arith, Bool-cases,
}
use feedla.Store.Table.{update, count_where, count_where-append, next_id}
use feedla.Store.Unread.{Db, Entry, EntryInput, Subscription, UserEntryState, counts_for, unread}
use feedla.Store.Unread.Fanout.{
  same_text, initial_read_at, is_known, first_date_missing, fan_out, new_entry, insert_entry,
  update_entry, upsert_loop, finish_upsert, upsert_entries,
}

unread-append :
    (xs ys : List UserEntryState) (user feed : ℕ)
    → unread (xs ++ ys) user feed ≡ unread xs user feed + unread ys user feed
unfolding unread
unread-append xs ys user feed = count_where-append (counts_for user feed) xs ys

abbrev pub subscribed : ℕ → ℕ → List Subscription → ℕ
subscribed user feed subs = count_where (λ s. (s.user_id == user) && (s.feed_id == feed)) subs

is_known-append :
    (feed : ℕ) (guid : String) (entries : List Entry) (row : Entry)
    → is_known feed guid (entries ++ row ∷ [])
      ≡ (is_known feed guid entries || ((row.feed_id == feed) && same_text row.guid guid))
unfolding is_known
is_known-append feed guid [] row = ground arith
is_known-append feed guid (e ∷ entries) row = ground (arith, is_known-append feed guid entries row)

is_known-update :
    (feed : ℕ) (guid : String) (t : Entry → Bool) (f : Entry → Entry) (entries : List Entry)
    → ((x : Entry) → ((f x).feed_id ≡ x.feed_id) × ((f x).guid ≡ x.guid))
    → is_known feed guid (update t f entries) ≡ is_known feed guid entries
unfolding is_known update
is_known-update feed guid t f [] h = refl
is_known-update feed guid t f (e ∷ entries) h =
    ground (arith, h e, is_known-update feed guid t f entries h)

module _ (like : String → String → Bool) where
  -- A row that is born read counts for no one.
  fan_out-read :
      (db : Db) (e : Entry) (now : ℕ) (subs : List Subscription) (user feed : ℕ)
      → unread (fan_out like db e (some now) subs) user feed ≡ 0
  unfolding fan_out unread count_where counts_for
  fan_out-read db e now [] user feed = refl
  fan_out-read db e now (s ∷ subs) user feed = ground (arith, fan_out-read db e now subs user feed)

  fan_out-bounded :
      (db : Db) (e : Entry) (read_at : Option ℕ) (subs : List Subscription) (user : ℕ)
      → unread (fan_out like db e read_at subs) user e.feed_id ≤ subscribed user e.feed_id subs
  unfolding fan_out unread count_where counts_for
  fan_out-bounded db e read_at [] user = omega arith
  fan_out-bounded db e read_at (s ∷ subs) user =
      ground (arith, fan_out-bounded db e read_at subs user)

  -- At most one more unread row than `before`, and none more until the first entry is stored.
  record Bounded (feed user before : ℕ) (first : String) (db : Db) : Type 0 where
    single : subscribed user feed db.subscriptions ≤ 1
    rows :
        (unread db.states user feed ≤ before)
        ⊎ ((unread db.states user feed ≤ before + 1) × (is_known feed first db.entries ≡ true))

  insert_entry-Bounded :
      (feed user before : ℕ) (first : String) (now : ℕ) (e : EntryInput) (db : Db)
      → e.date_missing ≡ true
      → is_known feed e.guid db.entries ≡ false
      → Bounded feed user before first db
      → Bounded feed user before first (insert_entry like feed first now e db)
  unfolding insert_entry initial_read_at new_entry
  insert_entry-Bounded feed user before first now e db d k b =
      let row = new_entry (next_id (λ (x : Entry). x.id) db.entries) feed now e in
      record {
        single = b.single;
        rows = ground (
          arith,
          b.single,
          b.rows,
          is_known-append feed first db.entries row,
          unread-append db.states
              (fan_out like db row (initial_read_at first now e) db.subscriptions) user feed,
          fan_out-read db row now db.subscriptions user feed,
          fan_out-bounded db row none db.subscriptions user,
        );
      }

  update_entry-Bounded :
      (feed user before : ℕ) (first : String) (now : ℕ) (e : EntryInput) (db : Db)
      → Bounded feed user before first db
      → Bounded feed user before first (update_entry feed now e db)
  unfolding update_entry
  update_entry-Bounded feed user before first now e db b = record {
    single = b.single;
    rows = ground (
      arith,
      b.rows,
      is_known-update feed first (λ (x : Entry). (x.feed_id == feed) && same_text x.guid e.guid)
          (λ x. record x {
            url = e.url;
            title = e.title;
            author = e.author;
            body = e.body;
            body_hash = e.body_hash;
            updated_at = e.updated_at;
            fetched_at = now;
          })
          db.entries (λ x. (refl, refl)),
    );
  }

  upsert_loop-Bounded :
      (feed user before : ℕ) (first : String) (now : ℕ) (entries : List EntryInput) (db : Db)
      (n : ℕ)
      → All (λ e. e.date_missing ≡ true) entries
      → Bounded feed user before first db
      → Bounded feed user before first (upsert_loop like feed first now entries (db, n)).0
  unfolding upsert_loop
  upsert_loop-Bounded feed user before first now [] db n a b = b
  upsert_loop-Bounded feed user before first now (e ∷ entries) db n (d, a) b =
      elim (Bool-cases (is_known feed e.guid db.entries)) [
        | inl k ↦
            rw (k, upsert_loop, if◌then◌else◌)
              (upsert_loop-Bounded feed user before first now entries (update_entry feed now e db) n
                a (update_entry-Bounded feed user before first now e db b))
        | inr k ↦
            rw (k, upsert_loop, if◌then◌else◌)
              (upsert_loop-Bounded feed user before first now entries
                (insert_entry like feed first now e db) (n + 1) a
                (insert_entry-Bounded feed user before first now e db d k b))
      ]

  finish_upsert-states : (feed : ℕ) (r : Db × ℕ) → (finish_upsert like feed r).0.states ≡ r.0.states
  unfolding finish_upsert
  finish_upsert-states feed (db, n) = ground arith

  -- A crawl of a feed whose entries all lack dates, with whatever GUIDs, gives a user who has at
  -- most one subscription to the feed at most one more unread entry of it.
  pub dateless_once :
      (feed : ℕ) (entries : List EntryInput) (now : ℕ) (db : Db) (user : ℕ)
      → All (λ e. e.date_missing ≡ true) entries
      → subscribed user feed db.subscriptions ≤ 1
      → unread (upsert_entries like feed entries now db).0.states user feed
        ≤ unread db.states user feed + 1
  unfolding upsert_entries
  dateless_once feed [] now db user a s = omega arith
  dateless_once feed (e ∷ entries) now db user a s =
      let first = first_date_missing (e ∷ entries) in
      let loop = upsert_loop like feed first now (e ∷ entries) (db, 0) in
      let b =
        upsert_loop-Bounded feed user (unread db.states user feed) first now (e ∷ entries) db 0 a
          (record { single = s; rows = inl (omega arith) }) in
      ground (arith, finish_upsert-states feed loop, b.rows)
