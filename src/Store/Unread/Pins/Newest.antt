-- ===== src/Store/Unread/Pins/Newest.antt =====
-- Which of the entries with a URL FindEntryByURL takes.
use feedla.Prelude.{
  ◌<◌, ◌≤◌, ◌≡◌, ◌≢◌, refl, sym, subst, ◌⊎◌, inl, inr, String, Bool, true, false, ◌&&◌, ◌||◌,
  Option, none, some, List, [], ◌∷◌, ltb, ◌==◌, if◌then◌else◌, All, arith, Bool-cases,
}
use feedla.Store.Table.{ok, fail, err_not_found, All-map}
use feedla.Store.Unread.{Db, Entry}
use feedla.Store.Unread.Fanout.{same_text}
use feedla.Store.Unread.Pins.{newest, newest_with, id_of, find_entry_by_url}

-- The entry is in the table.
pub data In (e : Entry) : List Entry → Type 0 where
  here : {es : List Entry} → In e (e ∷ es)
  there : {x : Entry} {es : List Entry} → In e es → In e (x ∷ es)

-- The entry is published earlier, or at the same time with an id that is not larger.
abbrev pub IsBefore : Entry → Entry → Type 0
IsBefore e x =
    (x.published_at < e.published_at) ⊎ ((x.published_at ≡ e.published_at) × (x.id ≤ e.id))

-- The entry has another URL or is not newer.
abbrev pub IsOlder : String → Entry → Entry → Type 0
IsOlder url e x = (x.url ≢ url) ⊎ IsBefore e x

abbrev pub IsNewest : String → List Entry → Entry → Type 0
IsNewest url es e = In e es × (e.url ≡ url) × All (IsOlder url e) es

-- What the search promises of its result.
abbrev Finds : String → List Entry → Option Entry → Type 0
Finds url es none = All (λ x. x.url ≢ url) es
Finds url es (some e) = IsNewest url es e

IsBefore-trans : (a b x : Entry) → IsBefore a b → IsBefore b x → IsBefore a x
IsBefore-trans a b x h o = ground (arith, h, o)

IsOlder-trans : (url : String) (a b x : Entry) → IsBefore a b → IsOlder url b x → IsOlder url a x
IsOlder-trans url a b x h (inl n) = inl n
IsOlder-trans url a b x h (inr o) = inr (IsBefore-trans a b x h o)

abbrev is_later : Entry → Entry → Bool
is_later e x =
    ltb e.published_at x.published_at || (e.published_at == x.published_at) && ltb e.id x.id

later_taken : (e x : Entry) → is_later e x ≡ true → newest e (some x) ≡ x
unfolding newest
later_taken e x t = rw (t, if◌then◌else◌) refl

first_taken : (e x : Entry) → is_later e x ≡ false → newest e (some x) ≡ e
unfolding newest
first_taken e x t = rw (t, if◌then◌else◌) refl

is_later-IsBefore : (e x : Entry) → is_later e x ≡ true → IsBefore x e
is_later-IsBefore e x t = ground (arith, t)

not_later-IsBefore : (e x : Entry) → is_later e x ≡ false → IsBefore e x
not_later-IsBefore e x t = ground (arith, t)

newest-Finds :
    (url : String) (e : Entry) (es : List Entry) (o : Option Entry)
    → e.url ≡ url
    → Finds url es o
    → IsNewest url (e ∷ es) (newest e o)
unfolding newest
newest-Finds url e es none u f =
    (here, u, (inr (inr (refl, omega arith)), All-map es (λ x n. inl n) f))
newest-Finds url e es (some x) u (i, v, a) = elim (Bool-cases (is_later e x)) [
  | inl t ↦
      subst (IsNewest url (e ∷ es)) (sym (later_taken e x t))
        (there i, v, (inr (is_later-IsBefore e x t), a))
  | inr t ↦ subst (IsNewest url (e ∷ es)) (sym (first_taken e x t)) (
    here,
    u,
    (
      inr (inr (refl, omega arith)),
      All-map es (λ y. IsOlder-trans url e x y (not_later-IsBefore e x t)) a,
    ),
  )
]

skip-Finds :
    (url : String) (e : Entry) (es : List Entry) (o : Option Entry)
    → e.url ≢ url
    → Finds url es o
    → Finds url (e ∷ es) o
skip-Finds url e es none n f = (n, f)
skip-Finds url e es (some x) n (i, v, a) = (there i, v, (inl n, a))

taken :
    (url : String) (e : Entry) (o : Option Entry)
    → same_text e.url url ≡ true
    → (if same_text e.url url then some (newest e o) else o) ≡ some (newest e o)
taken url e o t = rw (t, if◌then◌else◌) refl

skipped :
    (url : String) (e : Entry) (o : Option Entry)
    → same_text e.url url ≡ false
    → (if same_text e.url url then some (newest e o) else o) ≡ o
skipped url e o t = rw (t, if◌then◌else◌) refl

newest_with-Finds : (url : String) (es : List Entry) → Finds url es (newest_with url es)
unfolding newest_with
newest_with-Finds url [] = tt
newest_with-Finds url (e ∷ es) =
    let o = newest_with url es in
    let ih = newest_with-Finds url es in
    elim (Bool-cases (same_text e.url url)) [
      | inl t ↦
          subst (Finds url (e ∷ es)) (sym (taken url e o t))
            (newest-Finds url e es o (ground (arith, t)) ih)
      | inr t ↦
          subst (Finds url (e ∷ es)) (sym (skipped url e o t))
            (skip-Finds url e es o (λ u. ground (arith, t, u)) ih)
    ]

-- FindEntryByURL gives the id of an entry of the table with the URL, such that every entry with it
-- is published earlier, or at the same time with an id that is not larger; or no entry has the URL,
-- and it fails with ErrNotFound.
pub find_entry_by_url-IsNewest :
    (url : String) (db : Db)
    → ((e : Entry) × IsNewest url db.entries e × (find_entry_by_url url db ≡ ok e.id))
      ⊎ (All (λ x. x.url ≢ url) db.entries × (find_entry_by_url url db ≡ fail err_not_found))
unfolding find_entry_by_url
find_entry_by_url-IsNewest url db =
    found (newest_with url db.entries) (newest_with-Finds url db.entries)
  where
    found :
        (o : Option Entry)
        → Finds url db.entries o
        → ((e : Entry) × IsNewest url db.entries e × (id_of o ≡ ok e.id))
          ⊎ (All (λ x. x.url ≢ url) db.entries × (id_of o ≡ fail err_not_found))
    found none f = inr (f, refl)
    found (some e) f = inl (e, f, refl)
