-- ===== src/Store/Unread/Gc/Pinned.antt =====
-- Retention keeps what someone has pinned.
use feedla.Prelude.{
  ℕ, ◌<◌, ◌≡◌, refl, subst, Bool, true, false, List, [], ◌∷◌, ◌==◌, map, keep, arith,
}
use feedla.Store.Table.{remove, count_where}
use feedla.Store.Unread.{Db, Entry, Pin, member, feed_of}
use feedla.Store.Unread.Gc.{
  delete_entries_and_refresh, delete_old_read_entries, trim_excess_entries, is_old_read, is_excess,
}
use feedla.Store.Unread.Gc.Exact.{feed_of-remove_id}

-- How many users have pinned the entry.
unfoldable pub pin_count : ℕ → Db → ℕ
pin_count i db = count_where (λ (p : Pin). p.entry_id == i) db.pins

-- Ids of entries that satisfy a test are not of an entry that none satisfies.
not_among :
    (p : Entry → Bool) (entries : List Entry) (i : ℕ)
    → ((e : Entry) → e.id ≡ i → p e ≡ false)
    → member (map (λ (e : Entry). e.id) (keep p entries)) i ≡ false
not_among p [] i h = refl
not_among p (e ∷ entries) i h = ground (arith, h e, not_among p entries i h)

pins_kept :
    (ids : List ℕ) (pins : List Pin) (i : ℕ)
    → member ids i ≡ false
    → count_where (λ (p : Pin). p.entry_id == i) (remove (λ p. member ids p.entry_id) pins)
      ≡ count_where (λ (p : Pin). p.entry_id == i) pins
unfolding count_where remove
pins_kept ids [] i h = refl
pins_kept ids (p ∷ pins) i h = ground (arith, h, pins_kept ids pins i h)

pinned_member :
    (pins : List Pin) (i : ℕ)
    → 0 < count_where (λ (p : Pin). p.entry_id == i) pins
    → member (map (λ (p : Pin). p.entry_id) pins) i ≡ true
unfolding count_where
pinned_member [] i h = absurd (omega arith)
pinned_member (p ∷ pins) i h = ground (arith, h, pinned_member pins i)

deletion_spares :
    (ids : List ℕ) (db : Db) (i : ℕ)
    → member ids i ≡ false
    → (feed_of i (delete_entries_and_refresh ids db).0.entries ≡ feed_of i db.entries)
      × (pin_count i (delete_entries_and_refresh ids db).0 ≡ pin_count i db)
unfolding delete_entries_and_refresh pin_count
deletion_spares ids db i h = (feed_of-remove_id ids db.entries i h, pins_kept ids db.pins i h)

old_unpinned :
    (before : ℕ) (db : Db) (i : ℕ)
    → 0 < pin_count i db
    → (e : Entry) → e.id ≡ i
    → is_old_read before db e ≡ false
unfolding is_old_read pin_count
old_unpinned before db i h e k =
    subst
      (λ j.
        0 < count_where (λ (p : Pin). p.entry_id == j) db.pins → is_old_read before db e ≡ false)
      k (λ q. ground (arith, q)) h

excess_unpinned :
    (limit : ℕ) (db : Db) (i : ℕ)
    → 0 < pin_count i db
    → (e : Entry) → e.id ≡ i
    → is_excess limit db e ≡ false
unfolding is_excess pin_count
excess_unpinned limit db i h e k = ground (arith, k, pinned_member db.pins i h)

-- Neither form of retention deletes an entry that someone has pinned, nor any of its pins, however
-- old the entry is and however full its feed.
pub pinned_kept :
    (before limit : ℕ) (db : Db) (i : ℕ)
    → 0 < pin_count i db
    → ((feed_of i (delete_old_read_entries before db).0.entries ≡ feed_of i db.entries)
        × (pin_count i (delete_old_read_entries before db).0 ≡ pin_count i db))
      × ((feed_of i (trim_excess_entries limit db).0.entries ≡ feed_of i db.entries)
          × (pin_count i (trim_excess_entries limit db).0 ≡ pin_count i db))
unfolding delete_old_read_entries trim_excess_entries
pinned_kept before limit db i h = (
  deletion_spares _ db i
      (not_among (is_old_read before db) db.entries i (old_unpinned before db i h)),
  deletion_spares _ db i
      (not_among (is_excess limit db) db.entries i (excess_unpinned limit db i h)),
)
