-- ===== src/Store/Unread/Refresh.antt =====
-- The invariant of the cached counts, and why refreshing the feeds that a transaction touched keeps
-- it.
use feedla.Prelude.{
  ℕ, ◌≡◌, sym, ◌∙◌, ◌⊎◌, inl, inr, true, false, some, List, [], ◌∷◌, ◌++◌, ◌==◌, contains-append,
  ℕ_discrete, All, arith,
}
use feedla.Store.Table.{All-update, All-map}
use feedla.Store.Unread.{
  Db, Entry, Subscription, UserEntryState, member, unread, refresh_unread_count, refresh_all,
  distinct, feed_of,
}

-- The cached count of a subscription is what a recount gives.
abbrev pub IsFresh : List UserEntryState → Subscription → Type 0
IsFresh states s = s.unread_count ≡ unread states s.user_id s.feed_id

-- A row's entry exists and is in the row's feed.
abbrev pub IsLinked : List Entry → UserEntryState → Type 0
IsLinked entries r = feed_of r.entry_id entries ≡ some r.feed_id

-- An entry is found under its id, in its feed.
abbrev pub IsOwned : List Entry → Entry → Type 0
IsOwned entries e = feed_of e.id entries ≡ some e.feed_id

pub record IsConsistent (db : Db) : Type 0 where
  pub fresh : All (IsFresh db.states) db.subscriptions
  pub linked : All (IsLinked db.entries) db.states
  pub owned : All (IsOwned db.entries) db.entries

pub distinct-member :
    (xs seen : List ℕ) (x : ℕ)
    → (member seen x ≡ true) ⊎ (member xs x ≡ true)
    → member (distinct seen xs) x ≡ true
unfolding distinct
distinct-member [] seen x (inl h) = h
distinct-member [] seen x (inr h) = cc h
distinct-member (y ∷ xs) seen x h = ground (
  arith,
  h,
  contains-append ℕ_discrete seen (y ∷ []) x,
  distinct-member xs seen x,
  distinct-member xs (seen ++ y ∷ []) x,
)

-- A refresh makes the feed's counts fresh and touches no other.
refresh_row :
    (states : List UserEntryState) (feed : ℕ) (feeds : List ℕ) (subs : List Subscription)
    → All (λ s. (member (feed ∷ feeds) s.feed_id ≡ true) ⊎ IsFresh states s) subs
    → All
        (λ s. (member feeds s.feed_id ≡ true) ⊎ IsFresh states s)
        (refresh_unread_count states feed subs)
unfolding refresh_unread_count
refresh_row states feed feeds subs a =
    All-update (λ s. s.feed_id == feed) _ subs (λ s h p. inr (ground arith)) (λ s h p. other s h p)
      a
  where
    other :
        (s : Subscription)
        → (s.feed_id == feed) ≡ false
        → (member (feed ∷ feeds) s.feed_id ≡ true) ⊎ IsFresh states s
        → (member feeds s.feed_id ≡ true) ⊎ IsFresh states s
    other s h (inl m) = inl (ground arith)
    other s h (inr f) = inr f

-- Counts that are fresh but for some feeds are fresh after these are refreshed.
pub refresh_all-IsFresh :
    (states : List UserEntryState) (feeds : List ℕ) (subs : List Subscription)
    → All (λ s. (member feeds s.feed_id ≡ true) ⊎ IsFresh states s) subs
    → All (IsFresh states) (refresh_all states feeds subs)
unfolding refresh_all
refresh_all-IsFresh states [] subs a = All-map subs drop_left a
  where
    drop_left : (s : Subscription) → (false ≡ true) ⊎ IsFresh states s → IsFresh states s
    drop_left s (inl h) = cc h
    drop_left s (inr f) = f
refresh_all-IsFresh states (feed ∷ feeds) subs a =
    refresh_all-IsFresh states feeds (refresh_unread_count states feed subs)
      (refresh_row states feed feeds subs a)

-- The recount of a feed that is not touched is the same, so its counts stay fresh.
pub stale_or_IsFresh :
    (old new : List UserEntryState) (feeds : List ℕ) (subs : List Subscription)
    → ((user feed : ℕ) → (member feeds feed ≡ true) ⊎ (unread new user feed ≡ unread old user feed))
    → All (IsFresh old) subs
    → All (λ s. (member feeds s.feed_id ≡ true) ⊎ IsFresh new s) subs
stale_or_IsFresh old new feeds subs same a = All-map subs step a
  where
    step : (s : Subscription) → IsFresh old s → (member feeds s.feed_id ≡ true) ⊎ IsFresh new s
    step s f = elim (same s.user_id s.feed_id) [ inl m ↦ inl m | inr e ↦ inr (f ∙ sym e) ]

-- A transaction that replaces the states and refreshes the feeds it touched keeps counts fresh.
pub refreshed :
    (old new : List UserEntryState) (feeds : List ℕ) (subs : List Subscription)
    → ((user feed : ℕ) → (member feeds feed ≡ true) ⊎ (unread new user feed ≡ unread old user feed))
    → All (IsFresh old) subs
    → All (IsFresh new) (refresh_all new feeds subs)
refreshed old new feeds subs same a =
    refresh_all-IsFresh new feeds subs (stale_or_IsFresh old new feeds subs same a)
