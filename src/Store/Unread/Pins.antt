-- ===== src/Store/Unread/Pins.antt =====
-- internal/store/pins.go: entries that a user keeps for later.
pub mod Allowed
pub mod Newest
use feedla.Prelude.{
  ℕ, suc, ◌+◌, String, Bool, true, false, not, ◌&&◌, ◌||◌, Option, none, some, List, [], ◌∷◌, ◌++◌,
  ltb, ◌==◌, if◌then◌else◌, length,
}
use feedla.Store.Table.{Result, ok, fail, err_not_found, remove, count_where}
use feedla.Store.Unread.{Db, Entry, Pin, UserEntryState}
use feedla.Store.Unread.Fanout.{has_state, same_text}

unfoldable pub pins_of : ℕ → ℕ → Db → ℕ
pins_of user entry db =
    count_where (λ (p : Pin). (p.user_id == user) && (p.entry_id == entry)) db.pins

-- The rows that the INSERT of `AddPin` selects and does not find in conflict.
unfoldable pub new_pins : ℕ → ℕ → ℕ → Bool → List Entry → List Pin
new_pins user entry now may [] = []
new_pins user entry now may (e ∷ entries) =
    let rest = new_pins user entry now may entries in
    if (e.id == entry) && may
    then (record {
      user_id = user;
      entry_id = e.id;
      url = e.url;
      title = e.title;
      created_at = now;
    })
      ∷ []
    else rest

unfoldable pub add_pin : ℕ → ℕ → ℕ → Db → Result Db
unfolding new_pins pins_of
add_pin user entry now db =
    let subscribed = has_state user entry db.states in
    let added = new_pins user entry now (subscribed && (pins_of user entry db == 0)) db.entries in
    if (length added == 0) && not subscribed
    then fail err_not_found
    else ok (record db { pins = db.pins ++ added })

unfoldable pub remove_pin : ℕ → ℕ → Db → Result Db
unfolding pins_of
remove_pin user entry db =
    if pins_of user entry db == 0
    then fail err_not_found
    else ok
        (record db { pins = remove (λ p. (p.user_id == user) && (p.entry_id == entry)) db.pins })

unfoldable pub count_pins : ℕ → Db → ℕ
count_pins user db = count_where (λ (p : Pin). p.user_id == user) db.pins

-- `ORDER BY published_at DESC, id DESC LIMIT 1`
unfoldable pub newest : Entry → Option Entry → Entry
newest e none = e
newest e (some x) =
    if ltb e.published_at x.published_at || (e.published_at == x.published_at) && ltb e.id x.id
    then x
    else e

unfoldable pub newest_with : String → List Entry → Option Entry
unfolding newest
newest_with url [] = none
newest_with url (e ∷ entries) =
    let rest = newest_with url entries in if same_text e.url url then some (newest e rest) else rest

abbrev pub id_of : Option Entry → Result ℕ
id_of none = fail err_not_found
id_of (some e) = ok e.id

unfoldable pub find_entry_by_url : String → Db → Result ℕ
unfolding newest_with
find_entry_by_url url db = id_of (newest_with url db.entries)
