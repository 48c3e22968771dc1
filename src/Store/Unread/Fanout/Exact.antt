-- ===== src/Store/Unread/Fanout/Exact.antt =====
-- Fan-out keeps the cached counts exact.
use feedla.Prelude.{
  ℕ, ◌+◌, ◌<◌, ◌≡◌, refl, sym, ◌∙◌, subst, ◌⊎◌, inl, inr, String, Bool, true, false, Option, some,
  List, [], ◌∷◌, ◌++◌, ◌==◌, ltb, if◌then◌else◌, All, arith, Bool-cases,
}
use feedla.Store.Table.{
  update, count_where, count_where-append, next_id, next_id-lt, All-update, All-map, All-append,
}
use feedla.Store.Unread.{
  Db, Entry, EntryInput, Subscription, UserEntryState, member, counts_for, unread,
  refresh_unread_count, refresh_all, feed_of,
}
use feedla.Store.Unread.Refresh.{IsFresh, IsLinked, IsOwned, IsConsistent, refresh_all-IsFresh}
use feedla.Store.Unread.Fanout.{
  initial_read_at, is_known, fan_out, new_entry, insert_entry, update_entry, upsert_loop,
  finish_upsert, upsert_entries,
}

unread-append :
    (xs ys : List UserEntryState) (user feed : ℕ)
    → unread (xs ++ ys) user feed ≡ unread xs user feed + unread ys user feed
unfolding unread
unread-append xs ys user feed = count_where-append (counts_for user feed) xs ys

feed_of-append :
    (i feed : ℕ) (entries more : List Entry)
    → feed_of i entries ≡ some feed
    → feed_of i (entries ++ more) ≡ some feed
unfolding feed_of
feed_of-append i feed [] more h = cc h
feed_of-append i feed (e ∷ entries) more h = ground (arith, feed_of-append i feed entries more)

feed_of-new :
    (i : ℕ) (entries : List Entry) (row : Entry)
    → All (λ e. e.id < i) entries
    → row.id ≡ i
    → feed_of i (entries ++ row ∷ []) ≡ some row.feed_id
unfolding feed_of
feed_of-new i [] row a h = ground arith
feed_of-new i (e ∷ entries) row (l, a) h = ground (arith, feed_of-new i entries row a h)

feed_of-update :
    (i : ℕ) (t : Entry → Bool) (f : Entry → Entry) (entries : List Entry)
    → ((x : Entry) → ((f x).id ≡ x.id) × ((f x).feed_id ≡ x.feed_id))
    → feed_of i (update t f entries) ≡ feed_of i entries
unfolding feed_of update
feed_of-update i t f [] h = refl
feed_of-update i t f (e ∷ entries) h = ground (arith, h e, feed_of-update i t f entries h)

-- The rows of one feed count for no other.
abbrev pub AllOf : ℕ → List UserEntryState → Type 0
AllOf feed states = All (λ r. r.feed_id ≡ feed) states

unread_other :
    (feed : ℕ) (states : List UserEntryState) (user other : ℕ)
    → AllOf feed states
    → (other ≡ feed) ⊎ (unread states user other ≡ 0)
unfolding unread count_where counts_for
unread_other feed [] user other a = inr refl
unread_other feed (r ∷ states) user other (e, a) =
    ground (arith, unread_other feed states user other a)

pub unread_more :
    (feed : ℕ) (states more : List UserEntryState) (user other : ℕ)
    → AllOf feed more
    → (member (feed ∷ []) other ≡ true)
      ⊎ (unread (states ++ more) user other ≡ unread states user other)
unread_more feed states more user other a =
    ground (arith, unread_other feed more user other a, unread-append states more user other)

-- After the rows of one feed are added and its counts refreshed, all are fresh.
pub refresh_one :
    (old new : List UserEntryState) (feed : ℕ) (subs : List Subscription)
    → ((user other : ℕ)
        → (member (feed ∷ []) other ≡ true) ⊎ (unread new user other ≡ unread old user other))
    → All (λ s. (member (feed ∷ []) s.feed_id ≡ true) ⊎ IsFresh old s) subs
    → All (IsFresh new) (refresh_unread_count new feed subs)
unfolding refresh_all
refresh_one old new feed subs same a =
    refresh_all-IsFresh new (feed ∷ []) subs (All-map subs step a)
  where
    step :
        (s : Subscription)
        → (member (feed ∷ []) s.feed_id ≡ true) ⊎ IsFresh old s
        → (member (feed ∷ []) s.feed_id ≡ true) ⊎ IsFresh new s
    step s (inl m) = inl m
    step s (inr f) = elim (same s.user_id s.feed_id) [ inl m ↦ inl m | inr e ↦ inr (f ∙ sym e) ]

module _ (like : String → String → Bool) where
  fan_out-IsLinked :
      (db : Db) (e : Entry) (read_at : Option ℕ) (subs : List Subscription) (entries : List Entry)
      → feed_of e.id entries ≡ some e.feed_id
      → All (IsLinked entries) (fan_out like db e read_at subs)
        × AllOf e.feed_id (fan_out like db e read_at subs)
  unfolding fan_out
  fan_out-IsLinked db e read_at [] entries h = (tt, tt)
  fan_out-IsLinked db e read_at (s ∷ subs) entries h =
      let rest = fan_out-IsLinked db e read_at subs entries h in
      elim (Bool-cases (s.feed_id == e.feed_id)) [
        | inl t ↦ rw (t, if◌then◌else◌) ((h, rest.0), (refl, rest.1))
        | inr t ↦ rw (t, if◌then◌else◌) rest
      ]

  -- What the loop of `UpsertEntries` keeps, from the tables it starts with.
  record Grown (feed : ℕ) (old : Db) (new : Db × ℕ) : Type 0 where
    subscriptions : new.0.subscriptions ≡ old.subscriptions
    linked : All (IsLinked new.0.entries) new.0.states
    owned : All (IsOwned new.0.entries) new.0.entries
    same :
        (user other : ℕ)
        → (member (feed ∷ []) other ≡ true)
          ⊎ (unread new.0.states user other ≡ unread old.states user other)
    counted : (0 < new.1) ⊎ (new.0.states ≡ old.states)

  insert_entry-Grown :
      (feed : ℕ) (first : String) (now : ℕ) (e : EntryInput) (old db : Db) (n : ℕ)
      → Grown feed old (db, n)
      → Grown feed old (insert_entry like feed first now e db, n + 1)
  unfolding insert_entry new_entry
  insert_entry-Grown feed first now e old db n g = record {
    subscriptions = g.subscriptions;
    linked =
        All-append _ db.states _
          (All-map db.states (λ r l. feed_of-append r.entry_id r.feed_id db.entries (row ∷ []) l)
            g.linked)
          rows.0;
    owned =
        All-append _ db.entries _
          (All-map db.entries (λ x o. feed_of-append x.id x.feed_id db.entries (row ∷ []) o)
            g.owned)
          (
            feed_of-new row.id db.entries row (next_id-lt (λ (x : Entry). x.id) db.entries) refl,
            tt,
          );
    same = λ user other. grow user other (g.same user other);
    counted = inl (omega arith);
  }
    where
      row : Entry
      row = new_entry (next_id (λ (x : Entry). x.id) db.entries) feed now e

      more : List UserEntryState
      more = fan_out like db row (initial_read_at first now e) db.subscriptions

      rows : All (IsLinked (db.entries ++ row ∷ [])) more × AllOf feed more
      rows =
          fan_out-IsLinked db row (initial_read_at first now e) db.subscriptions
            (db.entries ++ row ∷ [])
            (feed_of-new row.id db.entries row (next_id-lt (λ (x : Entry). x.id) db.entries) refl)

      grow :
          (user other : ℕ)
          → (member (feed ∷ []) other ≡ true)
            ⊎ (unread db.states user other ≡ unread old.states user other)
          → (member (feed ∷ []) other ≡ true)
            ⊎ (unread (db.states ++ more) user other ≡ unread old.states user other)
      grow user other h = elim (unread_more feed db.states more user other rows.1) [
        | inl m ↦ inl m
        | inr f ↦ elim h [ inl m ↦ inl m | inr k ↦ inr (f ∙ k) ]
      ]

  update_entry-Grown :
      (feed now : ℕ) (e : EntryInput) (old db : Db) (n : ℕ)
      → Grown feed old (db, n)
      → Grown feed old (update_entry feed now e db, n)
  unfolding update_entry
  update_entry-Grown feed now e old db n g = record {
    subscriptions = g.subscriptions;
    linked =
        All-map db.states (λ r l. feed_of-update r.entry_id _ _ db.entries (λ x. (refl, refl)) ∙ l)
          g.linked;
    owned =
        All-update _ _ db.entries
          (λ x h o. feed_of-update x.id _ _ db.entries (λ y. (refl, refl)) ∙ o)
          (λ x h o. feed_of-update x.id _ _ db.entries (λ y. (refl, refl)) ∙ o) g.owned;
    same = g.same;
    counted = g.counted;
  }

  upsert_loop-Grown :
      (feed : ℕ) (first : String) (now : ℕ) (entries : List EntryInput) (old db : Db) (n : ℕ)
      → Grown feed old (db, n)
      → Grown feed old (upsert_loop like feed first now entries (db, n))
  unfolding upsert_loop
  upsert_loop-Grown feed first now [] old db n g = g
  upsert_loop-Grown feed first now (e ∷ entries) old db n g =
      elim (Bool-cases (is_known feed e.guid db.entries)) [
        | inl k ↦
            rw (k, if◌then◌else◌)
              (upsert_loop-Grown feed first now entries old (update_entry feed now e db) n
                (update_entry-Grown feed now e old db n g))
        | inr k ↦
            rw (k, if◌then◌else◌)
              (upsert_loop-Grown feed first now entries old (insert_entry like feed first now e db)
                (n + 1) (insert_entry-Grown feed first now e old db n g))
      ]

  finish_upsert-IsConsistent :
      (feed : ℕ) (old : Db) (new : Db × ℕ)
      → IsConsistent old
      → Grown feed old new
      → IsConsistent (finish_upsert like feed new).0
  unfolding finish_upsert
  finish_upsert-IsConsistent feed old (db, n) c g = elim (Bool-cases (ltb 0 n)) [
    | inl t ↦
        rw (t, if◌then◌else◌)
          (record {
            fresh = refresh_one old.states db.states feed db.subscriptions g.same (
                subst (All _) (sym g.subscriptions)
                  (All-map old.subscriptions (λ s f. inr f) c.fresh));
            linked = g.linked;
            owned = g.owned;
          })
    | inr t ↦
        rw (t, if◌then◌else◌)
          (record { fresh = unchanged t g.counted; linked = g.linked; owned = g.owned })
  ]
    where
      unchanged :
          ltb 0 n ≡ false
          → (0 < n) ⊎ (db.states ≡ old.states)
          → All (IsFresh db.states) db.subscriptions
      unchanged t (inl h) = absurd (ground arith)
      unchanged t (inr h) = rw (h, g.subscriptions) c.fresh

  -- Storing a feed's entries keeps every cached count exact.
  pub upsert_entries-IsConsistent :
      (feed : ℕ) (entries : List EntryInput) (now : ℕ) (db : Db)
      → IsConsistent db
      → IsConsistent (upsert_entries like feed entries now db).0
  unfolding upsert_entries
  upsert_entries-IsConsistent feed [] now db c = c
  upsert_entries-IsConsistent feed (e ∷ entries) now db c = finish_upsert-IsConsistent feed db _ c (
      upsert_loop-Grown feed _ now (e ∷ entries) db db 0 (record {
        subscriptions = refl;
        linked = c.linked;
        owned = c.owned;
        same = λ user other. inr refl;
        counted = inr refl;
      }))
