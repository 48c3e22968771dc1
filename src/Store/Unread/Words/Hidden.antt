-- ===== src/Store/Unread/Words/Hidden.antt =====
-- The cached counts stay exact when a word is added or removed, also where the recomputation fails
-- and the word stays.
use feedla.Prelude.{
  ℕ, ◌≡◌, refl, sym, ◌∙◌, inl, inr, String, Bool, true, false, ◌&&◌, List, [], ◌∷◌, ltb, ◌==◌,
  if◌then◌else◌, arith, Bool-cases,
}
use feedla.Store.Table.{update, count_where, All-update}
use feedla.Store.Unread.{Db, UserEntryState, IgnoreWord, counts_for, unread}
use feedla.Store.Unread.Refresh.{IsConsistent}
use feedla.Store.Unread.Fanout.{same_text}
use feedla.Store.Unread.Words.{
  insert_word, recompute_ignored, recompute_tx, add_ignore_word, remove_ignore_word,
}

-- Rows of one user count for no other.
update_other :
    (user : ℕ) (f : UserEntryState → UserEntryState) (states : List UserEntryState) (u feed : ℕ)
    → ((r : UserEntryState) → (f r).user_id ≡ r.user_id)
    → (u == user) ≡ false
    → unread (update (λ r. r.user_id == user) f states) u feed ≡ unread states u feed
unfolding unread count_where counts_for update
update_other user f [] u feed g h = refl
update_other user f (r ∷ states) u feed g h =
    ground (arith, g r, update_other user f states u feed g h)

module _ (like : String → String → Bool) where
  pub recompute_ignored-IsConsistent :
      (user : ℕ) (db : Db) → IsConsistent db → IsConsistent (recompute_ignored like user db)
  unfolding recompute_ignored
  recompute_ignored-IsConsistent user db c = record {
    fresh =
        All-update (λ s. s.user_id == user) _ db.subscriptions (λ s h f. refl)
          (λ s h f. f ∙ sym (update_other user _ db.states s.user_id s.feed_id (λ r. refl) h))
          c.fresh;
    linked = All-update (λ r. r.user_id == user) _ db.states (λ r h l. l) (λ r h l. l) c.linked;
    owned = c.owned;
  }

  insert_word-IsConsistent :
      (user : ℕ) (word : String) (now : ℕ) (db : Db)
      → IsConsistent db
      → IsConsistent (insert_word user word now db)
  unfolding insert_word
  insert_word-IsConsistent user word now db c =
      elim (Bool-cases
        (ltb 0 (count_where (λ w. (w.user_id == user) && same_text w.word word) db.ignore_words))) [
          | inl t ↦ rw (t, if◌then◌else◌) c
          | inr t ↦
              rw (t, if◌then◌else◌) (record { fresh = c.fresh; linked = c.linked; owned = c.owned })
        ]

  recompute_tx-IsConsistent :
      (commits : Bool) (user : ℕ) (db : Db)
      → IsConsistent db
      → IsConsistent (recompute_tx like commits user db).0
  unfolding recompute_tx
  recompute_tx-IsConsistent true user db c = recompute_ignored-IsConsistent user db c
  recompute_tx-IsConsistent false user db c = c

  pub add_ignore_word-IsConsistent :
      (trim_space : String → String) (commits : Bool) (user : ℕ) (word : String) (now : ℕ) (db : Db)
      → IsConsistent db
      → IsConsistent (add_ignore_word like trim_space commits user word now db).0
  unfolding add_ignore_word
  add_ignore_word-IsConsistent trim_space commits user word now db c =
      elim (Bool-cases (same_text (trim_space word) "")) [
        | inl t ↦ rw (t, if◌then◌else◌) c
        | inr t ↦
            rw (t, if◌then◌else◌)
              (recompute_tx-IsConsistent commits user _
                (insert_word-IsConsistent user (trim_space word) now db c))
      ]

  pub remove_ignore_word-IsConsistent :
      (commits : Bool) (user id : ℕ) (db : Db)
      → IsConsistent db
      → IsConsistent (remove_ignore_word like commits user id db).0
  unfolding remove_ignore_word
  remove_ignore_word-IsConsistent commits user id db c =
      elim (Bool-cases (
        count_where (λ (w : IgnoreWord). (w.id == id) && (w.user_id == user)) db.ignore_words
        == 0)) [
          | inl t ↦ rw (t, if◌then◌else◌) c
          | inr t ↦
              rw (t, if◌then◌else◌)
                (recompute_tx-IsConsistent commits user _
                  (record { fresh = c.fresh; linked = c.linked; owned = c.owned }))
        ]
