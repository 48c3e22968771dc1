-- ===== src/Store/Unread/Mark.antt =====
-- Marking entries read: the counts stay exact, and the calls answer how many rows they marked.
use feedla.Prelude.{
  ℕ, ◌≡◌, refl, ◌⊎◌, inl, inr, Bool, true, false, ◌&&◌, List, [], ◌∷◌, ◌==◌, ltb, leb, ◌||◌,
  if◌then◌else◌, length, map, All, arith, Bool-cases,
}
use feedla.Store.Table.{update, count_where, All-update}
use feedla.Store.Unread.{
  Db, Entry, UserEntryState, member, is_null, counts_for, unread, refresh_unread_count, refresh_all,
  distinct, set_read, unread_where, mark_read, mark_entries_read, mark_all_entries_read,
  mark_feed_read_before,
}
use feedla.Store.Unread.Refresh.{IsLinked, IsConsistent, distinct-member, refreshed}

feeds_marked : (UserEntryState → Bool) → List UserEntryState → List ℕ
feeds_marked p states = map (λ (r : UserEntryState). r.feed_id) (unread_where p states)

-- Marking changes the recount of no feed but those of the rows marked.
set_read_other :
    (p : UserEntryState → Bool) (now : ℕ) (states : List UserEntryState) (user feed : ℕ)
    → (member (map (λ (r : UserEntryState). r.feed_id) (unread_where p states)) feed ≡ true)
      ⊎ (unread (set_read p now states) user feed ≡ unread states user feed)
unfolding unread set_read unread_where count_where update counts_for
set_read_other p now [] user feed = inr refl
set_read_other p now (r ∷ states) user feed = ground (arith, set_read_other p now states user feed)

set_read-IsLinked :
    (entries : List Entry) (p : UserEntryState → Bool) (now : ℕ) (states : List UserEntryState)
    → All (IsLinked entries) states
    → All (IsLinked entries) (set_read p now states)
unfolding set_read
set_read-IsLinked entries p now states a =
    All-update (λ r. p r && is_null r.read_at) _ states (λ r h l. l) (λ r h l. l) a

mark_read-IsConsistent :
    (p : UserEntryState → Bool) (now : ℕ) (db : Db)
    → IsConsistent db
    → IsConsistent (mark_read p now db).0
unfolding mark_read
mark_read-IsConsistent p now db c = record {
  fresh = refreshed db.states (set_read p now db.states) _ db.subscriptions touched c.fresh;
  linked = set_read-IsLinked db.entries p now db.states c.linked;
  owned = c.owned;
}
  where
    marked : List ℕ
    marked = map (λ (r : UserEntryState). r.feed_id) (unread_where p db.states)

    touched :
        (user feed : ℕ)
        → (member (distinct [] marked) feed ≡ true)
          ⊎ (unread (set_read p now db.states) user feed ≡ unread db.states user feed)
    touched user feed = elim (set_read_other p now db.states user feed) [
      | inl h ↦ inl (distinct-member marked [] feed (inr h))
      | inr e ↦ inr e
    ]

-- Marking entries read by their ids keeps every cached count exact.
pub mark_entries_read-IsConsistent :
    (user : ℕ) (ids : List ℕ) (now : ℕ) (db : Db)
    → IsConsistent db
    → IsConsistent (mark_entries_read user ids now db).0
unfolding mark_entries_read
mark_entries_read-IsConsistent user [] now db c = c
mark_entries_read-IsConsistent user (i ∷ ids) now db c = mark_read-IsConsistent _ now db c

pub mark_all_entries_read-IsConsistent :
    (user now : ℕ) (db : Db) → IsConsistent db → IsConsistent (mark_all_entries_read user now db).0
unfolding mark_all_entries_read
mark_all_entries_read-IsConsistent user now db c = mark_read-IsConsistent _ now db c

set_read_feed :
    (feed : ℕ) (p : UserEntryState → Bool) (now : ℕ) (states : List UserEntryState) (user other : ℕ)
    → ((r : UserEntryState) → p r ≡ true → r.feed_id ≡ feed)
    → (member (feed ∷ []) other ≡ true)
      ⊎ (unread (set_read p now states) user other ≡ unread states user other)
unfolding unread set_read count_where update counts_for
set_read_feed feed p now [] user other h = inr refl
set_read_feed feed p now (r ∷ states) user other h =
    ground (arith, h r, set_read_feed feed p now states user other h)

-- Where no row is marked, the rows stay as they are.
set_read_none :
    (p : UserEntryState → Bool) (now : ℕ) (states : List UserEntryState)
    → ltb 0 (length (unread_where p states)) ≡ false
    → set_read p now states ≡ states
unfolding set_read unread_where update
set_read_none p now [] h = refl
set_read_none p now (r ∷ states) h = ground (arith, set_read_none p now states)

mark_feed-IsConsistent :
    (feed : ℕ) (p : UserEntryState → Bool) (now : ℕ) (db : Db)
    → ((r : UserEntryState) → p r ≡ true → r.feed_id ≡ feed)
    → IsConsistent db
    → IsConsistent (record db {
      states = set_read p now db.states;
      subscriptions = refresh_unread_count (set_read p now db.states) feed db.subscriptions;
    })
unfolding refresh_all
mark_feed-IsConsistent feed p now db h c = record {
  fresh =
      refreshed db.states (set_read p now db.states) (feed ∷ []) db.subscriptions
        (λ user other. set_read_feed feed p now db.states user other h) c.fresh;
  linked = set_read-IsLinked db.entries p now db.states c.linked;
  owned = c.owned;
}

pub mark_feed_read_before-IsConsistent :
    (user feed before now : ℕ) (db : Db)
    → IsConsistent db
    → IsConsistent (mark_feed_read_before user feed before now db).0
unfolding mark_feed_read_before
mark_feed_read_before-IsConsistent user feed before now db c =
    let p : UserEntryState → Bool = λ r.
      (r.user_id == user) && (r.feed_id == feed) && (before == 0 || leb r.published_at before) in
    elim (Bool-cases (ltb 0 (length (unread_where p db.states)))) [
      | inl t ↦
          rw (t, if◌then◌else◌) (mark_feed-IsConsistent feed p now db (λ r h. ground (arith, h)) c)
      | inr t ↦ rw (t, if◌then◌else◌, set_read_none p now db.states t) c
    ]

set_read_all :
    (user now : ℕ) (states : List UserEntryState) (u feed : ℕ)
    → unread (set_read (λ r. r.user_id == user) now states) u feed
      ≡ (if u == user then 0 else unread states u feed)
unfolding unread set_read count_where update counts_for
set_read_all user now [] u feed = ground arith
set_read_all user now (r ∷ states) u feed = ground (arith, set_read_all user now states u feed)

-- Marking all read leaves the user nothing unread in any feed, and takes nothing from other users.
pub mark_all_entries_read-unread :
    (user now : ℕ) (db : Db) (u feed : ℕ)
    → unread (mark_all_entries_read user now db).0.states u feed
      ≡ (if u == user then 0 else unread db.states u feed)
unfolding mark_all_entries_read mark_read
mark_all_entries_read-unread user now db u feed = set_read_all user now db.states u feed
