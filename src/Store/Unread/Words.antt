-- ===== src/Store/Unread/Words.antt =====
-- internal/store/ignore_words.go: each user's ignore words, and the recomputation of the hidden
-- rows and the counts after a word is added or removed.
pub mod Hidden
pub mod Listed
pub mod Current
use feedla.Prelude.{
  ℕ, suc, ◌+◌, String, string_discrete, Bool, true, false, not, ◌&&◌, ◌||◌, Option, none, some,
  List, [], ◌∷◌, ◌++◌, ltb, ◌==◌, if◌then◌else◌, ite,
}
use feedla.Store.Table.{StoreError, err_not_found, err_other, update, remove, count_where, next_id}
use feedla.Store.Unread.{Db, Entry, Subscription, UserEntryState, IgnoreWord, unread}
use feedla.Store.Unread.Fanout.{is_ignored, same_text}

unfoldable pub entry_at : ℕ → List Entry → Option Entry
entry_at i [] = none
entry_at i (e ∷ entries) = let rest = entry_at i entries in if e.id == i then some e else rest

unfoldable pub count_ignore_words : ℕ → Db → ℕ
count_ignore_words user db = count_where (λ w. w.user_id == user) db.ignore_words

-- `INSERT INTO ignore_words ... ON CONFLICT(user_id, word) DO NOTHING`
unfoldable pub insert_word : ℕ → String → ℕ → Db → Db
insert_word user word now db =
    if ltb 0 (count_where (λ w. (w.user_id == user) && same_text w.word word) db.ignore_words)
    then db
    else record db {
      ignore_words =
          db.ignore_words
          ++ (record {
            id = next_id (λ (w : IgnoreWord). w.id) db.ignore_words;
            user_id = user;
            word = word;
            created_at = now;
          })
            ∷ [];
    }

module _ (like : String → String → Bool) where
  -- The subquery of `recomputeIgnored`, a join of the words with the row's entry.
  unfoldable pub hides : List IgnoreWord → ℕ → Option Entry → Bool
  unfolding is_ignored
  hides words user none = false
  hides words user (some e) = is_ignored like words user e.title e.body

  unfoldable pub recompute_ignored : ℕ → Db → Db
  unfolding hides entry_at
  recompute_ignored user db =
      let states =
        update (λ r. r.user_id == user)
          (λ r. record r {
            ignored = hides db.ignore_words r.user_id (entry_at r.entry_id db.entries);
          })
          db.states in
      record db {
        states = states;
        subscriptions =
            update (λ s. s.user_id == user)
              (λ s. record s { unread_count = unread states s.user_id s.feed_id }) db.subscriptions;
      }

  -- The call of `recomputeIgnored`, a transaction of its own: where it fails nothing of it is kept.
  unfoldable pub recompute_tx : Bool → ℕ → Db → Db × Option StoreError
  unfolding recompute_ignored
  recompute_tx commits user db =
      if commits then (recompute_ignored user db, none) else (db, some err_other)

  -- The INSERT is a statement of its own before the transaction of the recomputation, so the word
  -- stays where only the latter fails. The Boolean says whether that transaction commits.
  unfoldable pub add_ignore_word :
      (String → String) → Bool → ℕ → String → ℕ → Db → Db × Option StoreError
  unfolding recompute_tx insert_word
  add_ignore_word trim_space commits user word now db =
      if same_text (trim_space word) ""
      then (db, some err_other)
      else recompute_tx commits user (insert_word user (trim_space word) now db)

  -- The DELETE, too, is outside the transaction of the recomputation.
  unfoldable pub remove_ignore_word : Bool → ℕ → ℕ → Db → Db × Option StoreError
  unfolding recompute_tx
  remove_ignore_word commits user id db =
      if count_where (λ (w : IgnoreWord). (w.id == id) && (w.user_id == user)) db.ignore_words == 0
      then (db, some err_not_found)
      else recompute_tx commits user (record db {
        ignore_words = remove (λ w. (w.id == id) && (w.user_id == user)) db.ignore_words;
      })
