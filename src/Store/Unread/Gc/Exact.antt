-- ===== src/Store/Unread/Gc/Exact.antt =====
-- The deletions of entries and feeds keep the cached counts exact.
use feedla.Prelude.{
  ℕ, ◌≡◌, refl, sym, ◌∙◌, ◌⊎◌, inl, inr, true, false, some, List, [], ◌∷◌, map, keep, All, arith,
}
use feedla.Store.Table.{remove, count_where, All-remove}
use feedla.Store.Unread.{Db, Entry, UserEntryState, member, counts_for, unread, distinct, feed_of}
use feedla.Store.Unread.Gc.{
  cascade_states, delete_entries_and_refresh, delete_old_read_entries, trim_excess_entries,
  delete_feeds, delete_orphan_feeds, is_in_feeds,
}
use feedla.Store.Unread.Refresh.{IsLinked, IsConsistent, distinct-member, refreshed}

feeds_deleted : List ℕ → List Entry → List ℕ
feeds_deleted ids entries = map (λ (e : Entry). e.feed_id) (keep (λ e. member ids e.id) entries)

-- The feed of a deleted entry is among the feeds touched.
feed_of-deleted :
    (ids : List ℕ) (entries : List Entry) (i feed : ℕ)
    → member ids i ≡ true
    → feed_of i entries ≡ some feed
    → member (map (λ (e : Entry). e.feed_id) (keep (λ e. member ids e.id) entries)) feed ≡ true
unfolding feed_of
feed_of-deleted ids [] i feed h f = cc f
feed_of-deleted ids (e ∷ entries) i feed h f = ground (arith, feed_of-deleted ids entries i feed h)

-- An entry that is not deleted keeps its feed.
pub feed_of-remove_id :
    (ids : List ℕ) (entries : List Entry) (i : ℕ)
    → member ids i ≡ false
    → feed_of i (remove (λ e. member ids e.id) entries) ≡ feed_of i entries
unfolding feed_of remove
feed_of-remove_id ids [] i h = refl
feed_of-remove_id ids (e ∷ entries) i h = ground (arith, feed_of-remove_id ids entries i h)

feed_of-remove_feed :
    (dead : List ℕ) (entries : List Entry) (i feed : ℕ)
    → feed_of i entries ≡ some feed
    → member dead feed ≡ false
    → feed_of i (remove (λ e. member dead e.feed_id) entries) ≡ some feed
unfolding feed_of remove
feed_of-remove_feed dead [] i feed f h = cc f
feed_of-remove_feed dead (e ∷ entries) i feed f h =
    ground (arith, feed_of-remove_feed dead entries i feed)

-- The cascade changes the recount of no feed but those of the deleted entries.
cascade_other :
    (ids : List ℕ) (entries : List Entry) (states : List UserEntryState) (user feed : ℕ)
    → All (IsLinked entries) states
    → (member (map (λ (e : Entry). e.feed_id) (keep (λ e. member ids e.id) entries)) feed ≡ true)
      ⊎ (unread (cascade_states ids states) user feed ≡ unread states user feed)
unfolding unread cascade_states count_where remove counts_for
cascade_other ids entries [] user feed a = inr refl
cascade_other ids entries (r ∷ states) user feed (l, a) = ground (
  arith,
  feed_of-deleted ids entries r.entry_id r.feed_id,
  cascade_other ids entries states user feed a,
)

-- Deleting entries, whichever they are, keeps every cached count exact.
pub delete_entries_and_refresh-IsConsistent :
    (ids : List ℕ) (db : Db) → IsConsistent db → IsConsistent (delete_entries_and_refresh ids db).0
unfolding delete_entries_and_refresh cascade_states
delete_entries_and_refresh-IsConsistent ids db c = record {
  fresh = refreshed db.states (cascade_states ids db.states) _ db.subscriptions touched c.fresh;
  linked =
      All-remove (λ r. member ids r.entry_id) db.states
        (λ r h l. feed_of-remove_id ids db.entries r.entry_id h ∙ l) c.linked;
  owned =
      All-remove (λ e. member ids e.id) db.entries
        (λ e h o. feed_of-remove_id ids db.entries e.id h ∙ o) c.owned;
}
  where
    deleted : List ℕ
    deleted = map (λ (e : Entry). e.feed_id) (keep (λ e. member ids e.id) db.entries)

    touched :
        (user feed : ℕ)
        → (member (distinct [] deleted) feed ≡ true)
          ⊎ (unread (cascade_states ids db.states) user feed ≡ unread db.states user feed)
    touched user feed = elim (cascade_other ids db.entries db.states user feed c.linked) [
      | inl h ↦ inl (distinct-member deleted [] feed (inr h))
      | inr e ↦ inr e
    ]

pub delete_old_read_entries-IsConsistent :
    (before : ℕ) (db : Db) → IsConsistent db → IsConsistent (delete_old_read_entries before db).0
unfolding delete_old_read_entries
delete_old_read_entries-IsConsistent before db c = delete_entries_and_refresh-IsConsistent _ db c

pub trim_excess_entries-IsConsistent :
    (limit : ℕ) (db : Db) → IsConsistent db → IsConsistent (trim_excess_entries limit db).0
unfolding trim_excess_entries
trim_excess_entries-IsConsistent limit db c = delete_entries_and_refresh-IsConsistent _ db c

-- The rows of a feed that is not deleted all stay.
feeds_other :
    (dead : List ℕ) (entries : List Entry) (states : List UserEntryState) (user feed : ℕ)
    → member dead feed ≡ false
    → All (IsLinked entries) states
    → unread (remove (λ r. is_in_feeds dead (feed_of r.entry_id entries)) states) user feed
      ≡ unread states user feed
unfolding unread count_where remove counts_for
feeds_other dead entries [] user feed h a = refl
feeds_other dead entries (r ∷ states) user feed h (l, a) =
    ground (arith, feeds_other dead entries states user feed h a)

pub delete_feeds-IsConsistent :
    (dead : List ℕ) (db : Db) → IsConsistent db → IsConsistent (delete_feeds dead db)
unfolding delete_feeds
delete_feeds-IsConsistent dead db c = record {
  fresh =
      All-remove (λ s. member dead s.feed_id) db.subscriptions
        (λ s h f. f ∙ sym (feeds_other dead db.entries db.states s.user_id s.feed_id h c.linked))
        c.fresh;
  linked =
      All-remove (λ r. is_in_feeds dead (feed_of r.entry_id db.entries)) db.states
        (λ r h l. feed_of-remove_feed dead db.entries r.entry_id r.feed_id l (alive r h l))
        c.linked;
  owned =
      All-remove (λ e. member dead e.feed_id) db.entries
        (λ e h o. feed_of-remove_feed dead db.entries e.id e.feed_id o h) c.owned;
}
  where
    alive :
        (r : UserEntryState)
        → is_in_feeds dead (feed_of r.entry_id db.entries) ≡ false
        → IsLinked db.entries r
        → member dead r.feed_id ≡ false
    alive r h l = ground (arith, h, l)

pub delete_orphan_feeds-IsConsistent :
    (before : ℕ) (db : Db) → IsConsistent db → IsConsistent (delete_orphan_feeds before db).0
unfolding delete_orphan_feeds
delete_orphan_feeds-IsConsistent before db c = delete_feeds-IsConsistent _ db c
