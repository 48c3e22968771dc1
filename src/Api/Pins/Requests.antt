-- ===== src/Api/Pins/Requests.antt =====
-- The requests of internal/api/pins.go and ldr.go that change pins, many at a time: the two halves
-- of a request that adds a pin, its check and its write, are steps between which others come.
use feedla.Prelude.{ℕ, ◌≤◌, ◌≡◌, String, Option, List, [], ◌∷◌, ◌++◌, ◌==◌}
use feedla.Store.Table.{count_where}
use feedla.Store.Unread.{Db}
use feedla.Api.{Response}
use feedla.Api.Pins.{
  passed, add_pin_check, add_checked, handle_remove_pin, ldr_pin_check, ldr_checked,
  handle_ldr_pin_remove,
}

-- A request that has passed its quota and has yet to write, with its user and its entry.
pub data Waiting : Type 0 where
  by_id : ℕ → ℕ → Waiting
  by_link : ℕ → ℕ → Waiting

abbrev pub user_of : Waiting → ℕ
user_of (by_id user entry) = user
user_of (by_link user entry) = user

pub record Traffic : Type 0 where
  pub db : Db
  pub waiting : List Waiting

abbrev pub waiting_of : ℕ → List Waiting → ℕ
waiting_of user ws = count_where (λ w. user_of w == user) ws

-- The write of a request.
unfoldable pub complete : ℕ → Waiting → Db → Db × Response
unfolding add_checked ldr_checked
complete now (by_id user entry) db = add_checked now user db (passed entry)
complete now (by_link user entry) db = ldr_checked now user db (passed entry)

-- A request that is refused leaves everything as it is and is no step. A check comes while at most
-- `others` requests of its user wait to write.
pub data Step (limit others : ℕ) (t : Traffic) : Traffic → Type 0 where
  check_id :
      (user entry : ℕ) (body : Option ℕ)
      → add_pin_check limit user body t.db ≡ passed entry
      → waiting_of user t.waiting ≤ others
      → Step limit others t (record t { waiting = by_id user entry ∷ t.waiting })
  check_link :
      (user entry : ℕ) (link : String) (located : Db)
      → ldr_pin_check limit user link located t.db ≡ passed entry
      → waiting_of user t.waiting ≤ others
      → Step limit others t (record t { waiting = by_link user entry ∷ t.waiting })
  write :
      (now : ℕ) (w : Waiting) (before after : List Waiting)
      → t.waiting ≡ before ++ w ∷ after
      → Step limit others t (record { db = (complete now w t.db).0; waiting = before ++ after })
  -- A request whose write fails in the database.
  give_up :
      (w : Waiting) (before after : List Waiting)
      → t.waiting ≡ before ++ w ∷ after
      → Step limit others t (record t { waiting = before ++ after })
  remove_id :
      (user : ℕ) (id : Option ℕ)
      → Step limit others t (record t { db = (handle_remove_pin user id t.db).0 })
  remove_link :
      (user : ℕ) (link : String) (located : Db)
      → Step limit others t (record t { db = (handle_ldr_pin_remove user link located t.db).0 })
  -- Any call that leaves the table of pins alone.
  elsewhere : (db : Db) → db.pins ≡ t.db.pins → Step limit others t (record t { db = db })

-- What is reached from tables with no request at work.
pub data Reach (limit others : ℕ) (db : Db) : Traffic → Type 0 where
  start : Reach limit others db (record { db = db; waiting = [] })
  next :
      {t t' : Traffic} → Reach limit others db t → Step limit others t t' → Reach limit others db t'
