-- ===== src/Store/Unread.antt =====
-- internal/store/{entries,subscriptions,ignore_words,pins,gc}.go: entries shared by all users, each
-- user's state of an entry (user_entry_state), and the cached unread count of each subscription. A
-- table is the list of its rows; a transaction is a function of the tables, and times are Unix
-- seconds. `s LIKE '%' || w || '%'` and `strings.TrimSpace` are parameters. The columns that no
-- operation here reads (a subscription's rating and order, a feed's fetch state) are left out.
pub mod Refresh
pub mod Mark
pub mod Gc
pub mod Fanout
pub mod Words
pub mod Pins
pub mod Reachable
use feedla.Prelude.{
  ℕ, suc, ◌+◌, ◌≤◌, ◌<◌, String, string_discrete, ℕ_discrete, Bool, true, false, not, ◌&&◌, ◌||◌,
  Option, none, some, List, [], ◌∷◌, ◌++◌, ltb, leb, ◌==◌, if◌then◌else◌, ite, length, contains,
  keep, map,
}
use feedla.Store.Table.{
  Result, ok, fail, err_not_found, err_other, update, remove, count_where, next_id,
}

pub record Entry : Type 0 where
  pub id : ℕ
  pub feed_id : ℕ
  pub guid : String
  pub url : String
  pub title : String
  pub author : String
  pub body : String
  pub body_hash : String
  pub published_at : ℕ
  pub updated_at : ℕ
  pub fetched_at : ℕ
  pub created_at : ℕ

pub record EntryInput : Type 0 where
  pub guid : String
  pub url : String
  pub title : String
  pub author : String
  pub body : String
  pub body_hash : String
  pub published_at : ℕ
  pub updated_at : ℕ
  pub date_missing : Bool

pub record Subscription : Type 0 where
  pub user_id : ℕ
  pub feed_id : ℕ
  pub folder_id : Option ℕ
  pub title : String
  pub unread_count : ℕ
  pub created_at : ℕ

pub record UserEntryState : Type 0 where
  pub user_id : ℕ
  pub entry_id : ℕ
  pub feed_id : ℕ
  pub published_at : ℕ
  pub created_at : ℕ
  pub read_at : Option ℕ
  pub ignored : Bool

pub record IgnoreWord : Type 0 where
  pub id : ℕ
  pub user_id : ℕ
  pub word : String
  pub created_at : ℕ

pub record Pin : Type 0 where
  pub user_id : ℕ
  pub entry_id : ℕ
  pub url : String
  pub title : String
  pub created_at : ℕ

pub record Feed : Type 0 where
  pub id : ℕ
  pub last_fetched_at : Option ℕ
  pub created_at : ℕ

pub record Db : Type 0 where
  pub feeds : List Feed
  pub entries : List Entry
  pub subscriptions : List Subscription
  pub states : List UserEntryState
  pub ignore_words : List IgnoreWord
  pub pins : List Pin

abbrev pub is_null : Option ℕ → Bool
is_null none = true
is_null (some n) = false

abbrev pub member : List ℕ → ℕ → Bool
member xs x = contains ℕ_discrete xs x

-- `ues.user_id = ? AND ues.feed_id = ? AND ues.read_at IS NULL AND ues.ignored = 0`
unfoldable pub counts_for : ℕ → ℕ → UserEntryState → Bool
counts_for user feed r =
    (r.user_id == user) && (r.feed_id == feed) && is_null r.read_at && not r.ignored

unfoldable pub unread : List UserEntryState → ℕ → ℕ → ℕ
unread states user feed = count_where (counts_for user feed) states

unfoldable pub refresh_unread_count :
    List UserEntryState → ℕ → List Subscription → List Subscription
refresh_unread_count states feed subs =
    update (λ s. s.feed_id == feed) (λ s. record s { unread_count = unread states s.user_id feed })
      subs

-- The loop over `feedIDs`.
unfoldable pub refresh_all : List UserEntryState → List ℕ → List Subscription → List Subscription
refresh_all states [] subs = subs
refresh_all states (feed ∷ feeds) subs =
    refresh_all states feeds (refresh_unread_count states feed subs)

-- `SELECT DISTINCT`, and the `seen` map of `deleteEntriesAndRefresh`.
unfoldable pub distinct : List ℕ → List ℕ → List ℕ
distinct seen [] = seen
distinct seen (x ∷ xs) = distinct (if member seen x then seen else seen ++ x ∷ []) xs

-- The three UPDATEs of `read_at`, with their conditions beside `read_at IS NULL`.
unfoldable pub set_read : (UserEntryState → Bool) → ℕ → List UserEntryState → List UserEntryState
set_read p now states =
    update (λ r. p r && is_null r.read_at) (λ r. record r { read_at = some now }) states

unfoldable pub unread_where : (UserEntryState → Bool) → List UserEntryState → List UserEntryState
unread_where p states = keep (λ r. p r && is_null r.read_at) states

-- The body that `MarkEntriesRead` and `MarkAllEntriesRead` share.
unfoldable pub mark_read : (UserEntryState → Bool) → ℕ → Db → Db × ℕ
mark_read p now db = (db', length (unread_where p db.states))
  where
    states' : List UserEntryState
    states' = set_read p now db.states

    feed_ids : List ℕ
    feed_ids = distinct [] (map (λ (r : UserEntryState). r.feed_id) (unread_where p db.states))

    db' : Db
    db' = record db {
      states = states';
      subscriptions = refresh_all states' feed_ids db.subscriptions;
    }

unfoldable pub mark_entries_read : ℕ → List ℕ → ℕ → Db → Db × ℕ
unfolding mark_read
mark_entries_read user [] now db = (db, 0)
mark_entries_read user (i ∷ ids) now db =
    mark_read (λ r. (r.user_id == user) && member (i ∷ ids) r.entry_id) now db

unfoldable pub mark_all_entries_read : ℕ → ℕ → Db → Db × ℕ
unfolding mark_read
mark_all_entries_read user now db = mark_read (λ r. r.user_id == user) now db

-- `before` is 0 for every time that is not positive.
unfoldable pub mark_feed_read_before : ℕ → ℕ → ℕ → ℕ → Db → Db × ℕ
unfolding set_read unread_where
mark_feed_read_before user feed before now db =
    if ltb 0 affected then (db', affected) else (record db { states = states' }, affected)
  where
    p : UserEntryState → Bool
    p r = (r.user_id == user) && (r.feed_id == feed) && (before == 0 || leb r.published_at before)

    states' : List UserEntryState
    states' = set_read p now db.states

    affected : ℕ
    affected = length (unread_where p db.states)

    db' : Db
    db' = record db {
      states = states';
      subscriptions = refresh_unread_count states' feed db.subscriptions;
    }

-- The feed of the entry with an id.
unfoldable pub feed_of : ℕ → List Entry → Option ℕ
feed_of i [] = none
feed_of i (e ∷ entries) =
    let rest = feed_of i entries in elim (e.id == i) [ true ↦ some e.feed_id | false ↦ rest ]
