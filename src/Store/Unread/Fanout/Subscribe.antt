-- ===== src/Store/Unread/Fanout/Subscribe.antt =====
-- A new subscription's rows and the end of a subscription keep the cached counts exact.
use feedla.Prelude.{
  ℕ, ◌≡◌, refl, sym, ◌∙◌, ◌⊎◌, inl, inr, String, Bool, true, false, not, ◌&&◌, Option, some, List,
  [], ◌∷◌, ◌==◌, if◌then◌else◌, All, arith, Bool-cases,
}
use feedla.Store.Table.{committed, remove, count_where, All-remove, All-map, All-append}
use feedla.Store.Unread.{
  Db, Entry, Subscription, UserEntryState, member, counts_for, unread, feed_of,
}
use feedla.Store.Unread.Refresh.{IsFresh, IsLinked, IsConsistent}
use feedla.Store.Unread.Fanout.{
  has_state, upsert_row, fan_in, upsert_subscription, unsubscribe, delete_subscription,
}
use feedla.Store.Unread.Fanout.Exact.{AllOf, unread_more, refresh_one}

upsert_row-IsFresh :
    (user feed : ℕ) (folder : Option ℕ) (title : String) (now : ℕ) (states : List UserEntryState)
    (subs : List Subscription)
    → All (IsFresh states) subs
    → All
        (λ s. (member (feed ∷ []) s.feed_id ≡ true) ⊎ IsFresh states s)
        (upsert_row user feed folder title now subs)
unfolding upsert_row
upsert_row-IsFresh user feed folder title now states [] a = (inl (ground arith), tt)
upsert_row-IsFresh user feed folder title now states (s ∷ subs) (f, a) =
    elim (Bool-cases ((s.user_id == user) && (s.feed_id == feed))) [
      | inl t ↦ rw (t, if◌then◌else◌) (inr f, All-map subs (λ s f. inr f) a)
      | inr t ↦
          rw (t, if◌then◌else◌) (inr f, upsert_row-IsFresh user feed folder title now states subs a)
    ]

module _ (like : String → String → Bool) where
  fan_in-IsLinked :
      (db : Db) (user feed : ℕ) (entries all : List Entry)
      → All (λ e. feed_of e.id all ≡ some e.feed_id) entries
      → All (IsLinked all) (fan_in like db user feed entries)
        × AllOf feed (fan_in like db user feed entries)
  unfolding fan_in
  fan_in-IsLinked db user feed [] all a = (tt, tt)
  fan_in-IsLinked db user feed (e ∷ entries) all (h, a) =
      let rest = fan_in-IsLinked db user feed entries all a in
      elim (Bool-cases ((e.feed_id == feed) && not (has_state user e.id db.states))) [
        | inl t ↦ rw (t, if◌then◌else◌) ((h, rest.0), (ground arith, rest.1))
        | inr t ↦ rw (t, if◌then◌else◌) rest
      ]

  -- Subscribing, for the first time or again, keeps every cached count exact.
  pub upsert_subscription-IsConsistent :
      (user feed : ℕ) (folder : Option ℕ) (title : String) (now : ℕ) (db : Db)
      → IsConsistent db
      → IsConsistent (upsert_subscription like user feed folder title now db)
  unfolding upsert_subscription
  upsert_subscription-IsConsistent user feed folder title now db c =
      let rows = fan_in-IsLinked db user feed db.entries db.entries c.owned in
      record {
        fresh =
            refresh_one db.states _ feed _
              (λ u other.
                unread_more feed db.states (fan_in like db user feed db.entries) u other rows.1)
              (upsert_row-IsFresh user feed folder title now db.states db.subscriptions c.fresh);
        linked = All-append _ db.states _ c.linked rows.0;
        owned = c.owned;
      }

remove_other :
    (user feed : ℕ) (states : List UserEntryState) (u f : ℕ)
    → ((u == user) && (f == feed)) ≡ false
    → unread
        (remove (λ (r : UserEntryState). (r.user_id == user) && (r.feed_id == feed)) states)
        u
        f
      ≡ unread states u f
unfolding unread count_where counts_for remove
remove_other user feed [] u f h = refl
remove_other user feed (r ∷ states) u f h = ground (arith, remove_other user feed states u f h)

delete_subscription-IsConsistent :
    (user feed : ℕ) (db : Db) → IsConsistent db → IsConsistent (delete_subscription user feed db)
unfolding delete_subscription
delete_subscription-IsConsistent user feed db c = record {
  fresh =
      All-remove (λ s. (s.user_id == user) && (s.feed_id == feed)) db.subscriptions
        (λ s h f. f ∙ sym (remove_other user feed db.states s.user_id s.feed_id h)) c.fresh;
  linked =
      All-remove (λ r. (r.user_id == user) && (r.feed_id == feed)) db.states (λ r h l. l) c.linked;
  owned = c.owned;
}

-- Unsubscribing keeps every cached count exact, whether or not there is a subscription.
pub unsubscribe-IsConsistent :
    (user feed : ℕ) (db : Db)
    → IsConsistent db
    → IsConsistent (committed db (unsubscribe user feed db))
unfolding unsubscribe
unsubscribe-IsConsistent user feed db c =
    elim (Bool-cases (
      count_where (λ (s : Subscription). (s.user_id == user) && (s.feed_id == feed))
        db.subscriptions
      == 0)) [
        | inl t ↦ rw (t, if◌then◌else◌) c
        | inr t ↦ rw (t, if◌then◌else◌) (delete_subscription-IsConsistent user feed db c)
      ]
