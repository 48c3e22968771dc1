-- ===== src/Tests/Unread.antt =====
-- Feeds with two readers: storing entries, marking them read, retention.
use feedla.Prelude.{
  ◌+◌, ◌≤◌, refl, String, string_discrete, Bool, true, false, none, [], ◌∷◌, arith, All,
}
use feedla.Store.Table.{count_where}
use feedla.Store.Unread.{Db, EntryInput, unread, mark_entries_read}
use feedla.Store.Unread.Fanout.{upsert_entries, upsert_subscription}
use feedla.Store.Unread.Words.Listed.{Listed}
use feedla.Store.Unread.Refresh.{IsFresh}
use feedla.Store.Unread.Fanout.Dateless.{dateless_once}
use feedla.Store.Unread.Reachable.{start, next, entries, subscribe, mark, unread_counts_exact}

-- A LIKE that matches only a text with itself.
abbrev like : String → String → Bool
like text word = elim (string_discrete text word) [ yes p ↦ true | no p ↦ false ]

abbrev input : String → EntryInput
input guid = record {
  guid = guid;
  url = "";
  title = guid;
  author = "";
  body = "";
  body_hash = "";
  published_at = 5;
  updated_at = 5;
  date_missing = true;
}

abbrev empty_db : Db
empty_db = record {
  feeds = [];
  entries = [];
  subscriptions = [];
  states = [];
  ignore_words = [];
  pins = [];
}

abbrev two_readers : Db
two_readers = record {
  feeds = (record { id = 7; last_fetched_at = none; created_at = 0 }) ∷ [];
  entries = [];
  subscriptions =
      (record {
        user_id = 1;
        feed_id = 7;
        folder_id = none;
        title = "";
        unread_count = 0;
        created_at = 0;
      })
      ∷ (record {
        user_id = 2;
        feed_id = 7;
        folder_id = none;
        title = "";
        unread_count = 0;
        created_at = 0;
      })
      ∷ [];
  states = [];
  ignore_words = (record { id = 1; user_id = 2; word = "b"; created_at = 0 }) ∷ [];
  pins = [];
}

abbrev crawled : Db
crawled = (upsert_entries like 7 (input "a" ∷ input "b" ∷ []) 10 two_readers).0

abbrev used : Db
used =
    (mark_entries_read 1 (1 ∷ []) 20
      (upsert_entries like 7 (input "a" ∷ input "b" ∷ []) 10
        (upsert_subscription like 1 7 none "" 5 empty_db)).0).0

unread_counts_exact_example : All (IsFresh used.states) used.subscriptions
unread_counts_exact_example =
    unread_counts_exact like (λ s. s)
      (next
        (next (next (start []) (subscribe 1 7 none "" 5 empty_db))
          (entries 7 (input "a" ∷ input "b" ∷ []) 10 _))
        (mark 1 (1 ∷ []) 20 _))

dateless_once_example : unread crawled.states 1 7 ≤ unread two_readers.states 1 7 + 1
unfolding count_where
dateless_once_example =
    dateless_once like 7 (input "a" ∷ input "b" ∷ []) 10 two_readers 1 (refl, (refl, tt))
      (omega arith)
