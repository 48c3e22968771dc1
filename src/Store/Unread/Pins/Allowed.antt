-- ===== src/Store/Unread/Pins/Allowed.antt =====
-- Only a reader of an entry can pin it, and once.
use feedla.Prelude.{
  ℕ, ◌+◌, ◌≤◌, ◌≡◌, ◌≢◌, refl, ap, inl, inr, Bool, true, false, ◌&&◌, List, [], ◌∷◌, ◌++◌, ◌==◌,
  if◌then◌else◌, arith, Bool-cases,
}
use feedla.Store.Table.{ok, committed, count_where, count_where-append}
use feedla.Store.Unread.{Db, Entry, Pin}
use feedla.Store.Unread.Fanout.{has_state}
use feedla.Store.Unread.Pins.{pins_of, new_pins, add_pin}

new_pins-none :
    (user entry now : ℕ) (entries : List Entry) → new_pins user entry now false entries ≡ []
unfolding new_pins
new_pins-none user entry now [] = refl
new_pins-none user entry now (e ∷ entries) = ground (arith, new_pins-none user entry now entries)

-- The new rows are the user's for the entry, one at most.
new_pins_count :
    (user entry now : ℕ) (may : Bool) (entries : List Entry) (u i : ℕ)
    → count_where
        (λ (p : Pin). (p.user_id == u) && (p.entry_id == i))
        (new_pins user entry now may entries)
      ≤ (if may && (u == user) && (i == entry) then 1 else 0)
unfolding new_pins count_where
new_pins_count user entry now may [] u i = omega arith
new_pins_count user entry now may (e ∷ entries) u i =
    ground (arith, new_pins_count user entry now may entries u i)

added :
    (user entry now : ℕ) (db : Db) (may : Bool) (u i : ℕ)
    → count_where
        (λ (p : Pin). (p.user_id == u) && (p.entry_id == i))
        (db.pins ++ new_pins user entry now may db.entries)
      ≤ pins_of u i db + (if may && (u == user) && (i == entry) then 1 else 0)
unfolding pins_of
added user entry now db may u i = ground (
  arith,
  count_where-append (λ (p : Pin). (p.user_id == u) && (p.entry_id == i)) db.pins
      (new_pins user entry now may db.entries),
  new_pins_count user entry now may db.entries u i,
)

stored_pins :
    (user entry now : ℕ) (db db' : Db)
    → add_pin user entry now db ≡ ok db'
    → has_state user entry db.states ≡ true
    → db'.pins ≡ db.pins ++ new_pins user entry now (pins_of user entry db == 0) db.entries
unfolding add_pin
stored_pins user entry now db db' h t = ground (arith, t, ap (λ m. (committed db m).pins) h)

refused :
    (user entry now : ℕ) (db db' : Db)
    → has_state user entry db.states ≡ false
    → add_pin user entry now db ≢ ok db'
unfolding add_pin
refused user entry now db db' t h = ground (arith, t, h, new_pins-none user entry now db.entries)

-- Where `AddPin` succeeds, the user has a row for the entry. Then the pins that any user has of any
-- entry are at most as many as before, but for one more of this user and entry, if there was none.
pub add_pin_authorized :
    (user entry now : ℕ) (db db' : Db) (u i : ℕ)
    → add_pin user entry now db ≡ ok db'
    → (has_state user entry db.states ≡ true)
      × (pins_of u i db'
          ≤ pins_of u i db
            + (if (pins_of user entry db == 0) && (u == user) && (i == entry) then 1 else 0))
unfolding add_pin pins_of
add_pin_authorized user entry now db db' u i h =
    elim (Bool-cases (has_state user entry db.states)) [
      | inl t ↦ (
        t,
        rw (stored_pins user entry now db db' h t)
            (added user entry now db (pins_of user entry db == 0) u i),
      )
      | inr t ↦ absurd (refused user entry now db db' t h)
    ]
