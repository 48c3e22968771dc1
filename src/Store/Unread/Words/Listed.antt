-- ===== src/Store/Unread/Words/Listed.antt =====
-- Which words of the table an entry contains, as a relation, and what adding and removing a word
-- does to it.
use feedla.Prelude.{
  ℕ, ◌≡◌, refl, sym, subst, ◌↔◌, ◌⊎◌, inl, inr, String, Bool, true, false, not, ◌&&◌, ◌||◌, Option,
  none, some, List, [], ◌∷◌, ◌++◌, ltb, ◌==◌, if◌then◌else◌, arith, Bool-cases,
}
use feedla.Store.Table.{remove, count_where, remove-hit, remove-miss}
use feedla.Store.Unread.{Db, Entry, UserEntryState, IgnoreWord}
use feedla.Store.Unread.Fanout.{is_ignored, same_text}
use feedla.Store.Unread.Words.{entry_at, insert_word, hides}

abbrev pub of_user : ℕ → IgnoreWord → Bool
of_user user w = w.user_id == user

abbrev pub of_user_but : ℕ → ℕ → IgnoreWord → Bool
of_user_but user id w = (w.user_id == user) && not (w.id == id)

module _ (like : String → String → Bool) where
  -- The entry's title or its body contains the word.
  pub data Contains (e : Entry) (word : String) : Type 0 where
    in_title : like e.title word ≡ true → Contains e word
    in_body : like e.body word ≡ true → Contains e word

  -- A word of the list passes the test and the entry contains it.
  pub data Listed (t : IgnoreWord → Bool) (e : Entry) : List IgnoreWord → Type 0 where
    here :
        {w : IgnoreWord} {words : List IgnoreWord}
        → t w ≡ true
        → Contains e w.word
        → Listed t e (w ∷ words)
    there : {w : IgnoreWord} {words : List IgnoreWord} → Listed t e words → Listed t e (w ∷ words)

  Contains-either :
      (e : Entry) (word : String) → (like e.title word || like e.body word) ≡ true → Contains e word
  Contains-either e word h = elim (Bool-cases (like e.title word)) [
    | inl t ↦ in_title t
    | inr t ↦ in_body (ground (arith, h, t))
  ]

  ignored-Listed :
      (words : List IgnoreWord) (user : ℕ) (e : Entry)
      → is_ignored like words user e.title e.body ≡ true
      → Listed (of_user user) e words
  unfolding is_ignored count_where
  ignored-Listed [] user e h = absurd (ground (arith, h))
  ignored-Listed (w ∷ words) user e h =
      elim (Bool-cases ((w.user_id == user) && (like e.title w.word || like e.body w.word))) [
        | inl t ↦ here (ground (arith, t)) (Contains-either e w.word (ground (arith, t)))
        | inr t ↦ there (ignored-Listed words user e (ground (arith, t, h)))
      ]

  Listed-ignored :
      (words : List IgnoreWord) (user : ℕ) (e : Entry)
      → Listed (of_user user) e words
      → is_ignored like words user e.title e.body ≡ true
  unfolding is_ignored count_where
  Listed-ignored [] user e l = elim l [ ]
  Listed-ignored (w ∷ words) user e (here o (in_title c)) = ground (arith, o, c)
  Listed-ignored (w ∷ words) user e (here o (in_body c)) = ground (arith, o, c)
  Listed-ignored (w ∷ words) user e (there l) = ground (arith, Listed-ignored words user e l)

  Listed-append_left :
      (t : IgnoreWord → Bool) (e : Entry) (xs ys : List IgnoreWord)
      → Listed t e xs
      → Listed t e (xs ++ ys)
  Listed-append_left t e [] ys l = elim l [ ]
  Listed-append_left t e (w ∷ xs) ys (here o c) = here o c
  Listed-append_left t e (w ∷ xs) ys (there l) = there (Listed-append_left t e xs ys l)

  Listed-append_right :
      (t : IgnoreWord → Bool) (e : Entry) (xs ys : List IgnoreWord)
      → Listed t e ys
      → Listed t e (xs ++ ys)
  Listed-append_right t e [] ys l = l
  Listed-append_right t e (x ∷ xs) ys l = there (Listed-append_right t e xs ys l)

  nothing_Listed : (t : IgnoreWord → Bool) (e : Entry) → ¬ (Listed t e [])
  nothing_Listed t e l = elim l [ ]

  Listed-split :
      (t : IgnoreWord → Bool) (e : Entry) (xs : List IgnoreWord) (w : IgnoreWord)
      → Listed t e (xs ++ w ∷ [])
      → Contains e w.word ⊎ Listed t e xs
  Listed-split t e [] w (here o c) = inl c
  Listed-split t e [] w (there l) = absurd (nothing_Listed t e l)
  Listed-split t e (x ∷ xs) w (here o c) = inr (here o c)
  Listed-split t e (x ∷ xs) w (there l) = elim (Listed-split t e xs w l) [
    | inl c ↦ inl c
    | inr m ↦ inr (there m)
  ]

  texts_eq : (a b : String) → same_text a b ≡ true → b ≡ a
  texts_eq a b h = ground (arith, h)

  -- A word that is already in the table.
  same_word :
      (words : List IgnoreWord) (user : ℕ) (word : String) (e : Entry)
      → ltb 0 (count_where (λ w. (w.user_id == user) && same_text w.word word) words) ≡ true
      → Contains e word
      → Listed (of_user user) e words
  unfolding count_where
  same_word [] user word e h c = absurd (ground (arith, h))
  same_word (w ∷ words) user word e h c =
      elim (Bool-cases ((w.user_id == user) && same_text w.word word)) [
        | inl t ↦
            here (ground (arith, t))
              (subst (Contains e) (texts_eq w.word word (ground (arith, t))) c)
        | inr t ↦ there (same_word words user word e (ground (arith, t, h)) c)
      ]

  pub insert_word-Listed :
      (user : ℕ) (word : String) (now : ℕ) (db : Db) (e : Entry)
      → Listed (of_user user) e (insert_word user word now db).ignore_words
        ↔ (Contains e word ⊎ Listed (of_user user) e db.ignore_words)
  unfolding insert_word
  insert_word-Listed user word now db e =
      elim (Bool-cases
        (ltb 0 (count_where (λ w. (w.user_id == user) && same_text w.word word) db.ignore_words))) [
          | inl t ↦
              rw (t, if◌then◌else◌)
                (
                  λ l. inr l,
                  λ d. elim d [ inl c ↦ same_word db.ignore_words user word e t c | inr l ↦ l ],
                )
          | inr t ↦
              rw (t, if◌then◌else◌)
                (
                  Listed-split (of_user user) e db.ignore_words _,
                  λ d. elim d [
                    | inl c ↦
                        Listed-append_right (of_user user) e db.ignore_words _
                          (here (ground arith) c)
                    | inr l ↦ Listed-append_left (of_user user) e db.ignore_words _ l
                  ],
                )
        ]

  Listed-first :
      (t : IgnoreWord → Bool) (e : Entry) (w : IgnoreWord) (words : List IgnoreWord)
      → Listed t e (w ∷ words)
      → ((t w ≡ true) × Contains e w.word) ⊎ Listed t e words
  Listed-first t e w words (here o c) = inl (o, c)
  Listed-first t e w words (there l) = inr l

  other :
      (user id : ℕ) (w : IgnoreWord)
      → of_user_but user id w ≡ true
      → ((w.id == id) && (w.user_id == user)) ≡ false
  other user id w h = ground (arith, h)

  pub Listed-remove :
      (user id : ℕ) (e : Entry) (words : List IgnoreWord)
      → Listed (of_user_but user id) e words
      → Listed (of_user user) e (remove (λ w. (w.id == id) && (w.user_id == user)) words)
  unfolding remove
  Listed-remove user id e [] l = elim l [ ]
  Listed-remove user id e (w ∷ words) (here o c) =
      subst (Listed (of_user user) e)
        (sym (remove-miss (λ w. (w.id == id) && (w.user_id == user)) w words (other user id w o)))
        (here (ground (arith, o)) c)
  Listed-remove user id e (w ∷ words) (there l) =
      elim (Bool-cases ((w.id == id) && (w.user_id == user))) [
        | inl t ↦
            subst (Listed (of_user user) e)
              (sym (remove-hit (λ w. (w.id == id) && (w.user_id == user)) w words t))
              (Listed-remove user id e words l)
        | inr t ↦
            subst (Listed (of_user user) e)
              (sym (remove-miss (λ w. (w.id == id) && (w.user_id == user)) w words t))
              (there (Listed-remove user id e words l))
      ]

  pub kept-Listed :
      (user id : ℕ) (e : Entry) (words : List IgnoreWord)
      → Listed (of_user user) e (remove (λ w. (w.id == id) && (w.user_id == user)) words)
      → Listed (of_user_but user id) e words
  unfolding remove
  kept-Listed user id e [] l = elim l [ ]
  kept-Listed user id e (w ∷ words) l = elim (Bool-cases ((w.id == id) && (w.user_id == user))) [
    | inl t ↦ there (
        kept-Listed user id e words (
          subst (Listed (of_user user) e)
            (remove-hit (λ w. (w.id == id) && (w.user_id == user)) w words t) l))
    | inr t ↦
        elim (Listed-first (of_user user) e w _ (
          subst (Listed (of_user user) e)
            (remove-miss (λ w. (w.id == id) && (w.user_id == user)) w words t) l)) [
              | inl (o, c) ↦ here (ground (arith, o, t)) c
              | inr rest ↦ there (kept-Listed user id e words rest)
            ]
  ]

  -- The entry of a row contains a word.
  abbrev pub IsHidden : (Entry → Type 0) → List Entry → UserEntryState → Type 0
  IsHidden p entries r = (e : Entry) × (entry_at r.entry_id entries ≡ some e) × p e

  pub hides-IsHidden :
      (words : List IgnoreWord) (entries : List Entry) (r : UserEntryState)
      → (hides like words r.user_id (entry_at r.entry_id entries) ≡ true)
        ↔ IsHidden (λ e. Listed (of_user r.user_id) e words) entries r
  unfolding hides
  hides-IsHidden words entries r = (
    found (entry_at r.entry_id entries) refl,
    λ (e, at, l). rw at (Listed-ignored words r.user_id e l),
  )
    where
      found :
          (o : Option Entry)
          → entry_at r.entry_id entries ≡ o
          → hides like words r.user_id o ≡ true
          → IsHidden (λ e. Listed (of_user r.user_id) e words) entries r
      found none at h = absurd (ground (arith, h))
      found (some e) at h = (e, at, ignored-Listed words r.user_id e h)
