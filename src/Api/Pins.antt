-- ===== src/Api/Pins.antt =====
-- internal/api/pins.go, quota.go and the pins of ldr.go: pins behind their quota. A handler calls
-- the store more than once, with no lock or transaction around the calls, so it takes the tables as
-- each of its calls finds them: `located` at FindEntryByURL, `counted` at CountPins, and `db` at
-- the call that writes.
pub mod Requests
pub mod Quota
use feedla.Prelude.{
  ℕ, String, Bool, true, false, ◌&&◌, Option, none, some, ltb, leb, ◌==◌, if◌then◌else◌,
}
use feedla.Store.Table.{Result, ok, fail}
use feedla.Store.Unread.{Db}
use feedla.Store.Unread.Fanout.{same_text}
use feedla.Store.Unread.Pins.{add_pin, remove_pin, count_pins, find_entry_by_url}
use feedla.Api.{
  Response, Body, entry_pinned, quota_exceeded, ok_true, write_json, write_error, write_store_error,
}
use feedla.Api.Settings.{no_content}

-- The response that refuses, none where there is room; a maximum of zero is no quota. The body's
-- text is `quota exceeded: max %d %s`.
unfoldable pub check_count_quota : ℕ → ℕ → String → Option Response
check_count_quota count limit resource =
    if ltb 0 limit && leb limit count
    then some (write_json 400 (quota_exceeded limit resource))
    else none

-- A request that has been answered, or has passed its checks with an entry to pin.
pub data Checked : Type 0 where
  refused : Response → Checked
  passed : ℕ → Checked

abbrev pub with_room : ℕ → Option Response → Checked
with_room entry none = passed entry
with_room entry (some r) = refused r

-- `handleAddPin` up to its quota. The body is the id of an entry, none where it is no JSON.
unfoldable pub add_pin_check : ℕ → ℕ → Option ℕ → Db → Checked
unfolding check_count_quota count_pins
add_pin_check limit user none counted = refused (write_error 400 "invalid JSON body")
add_pin_check limit user (some entry) counted =
    if entry == 0
    then refused (write_error 400 "entry_id is required")
    else with_room entry (check_count_quota (count_pins user counted) limit "pins")

abbrev pub pinned : ℕ → Db → Result Db → Db × Response
pinned entry db (fail e) = (db, write_store_error e)
pinned entry db (ok db') = (db', write_json 201 (entry_pinned entry))

-- The rest of `handleAddPin`.
unfoldable pub add_checked : ℕ → ℕ → Db → Checked → Db × Response
unfolding add_pin
add_checked now user db (refused r) = (db, r)
add_checked now user db (passed entry) = pinned entry db (add_pin user entry now db)

unfoldable pub handle_add_pin : ℕ → ℕ → ℕ → Option ℕ → Db → Db → Db × Response
unfolding add_pin_check add_checked
handle_add_pin limit now user body counted db =
    add_checked now user db (add_pin_check limit user body counted)

abbrev pub unpinned : Db → Result Db → Db × Response
unpinned db (fail e) = (db, write_store_error e)
unpinned db (ok db') = (db', no_content)

-- The id of the path, none where it is no number.
unfoldable pub handle_remove_pin : ℕ → Option ℕ → Db → Db × Response
unfolding remove_pin
handle_remove_pin user none db = (db, write_error 400 "invalid id")
handle_remove_pin user (some entry) db = unpinned db (remove_pin user entry db)

abbrev pub ldr_found : ℕ → ℕ → Db → Result ℕ → Checked
ldr_found limit user counted (fail e) = refused (write_store_error e)
ldr_found limit user counted (ok entry) =
    with_room entry (check_count_quota (count_pins user counted) limit "pins")

-- `handleLDRPinAdd` up to its quota; a form without a link has the empty one.
unfoldable pub ldr_pin_check : ℕ → ℕ → String → Db → Db → Checked
unfolding check_count_quota count_pins find_entry_by_url
ldr_pin_check limit user link located counted =
    if same_text link ""
    then refused (write_error 400 "link is required")
    else ldr_found limit user counted (find_entry_by_url link located)

abbrev pub ldr_written : Db → Result Db → Db × Response
ldr_written db (fail e) = (db, write_store_error e)
ldr_written db (ok db') = (db', write_json 200 ok_true)

-- The rest of `handleLDRPinAdd`.
unfoldable pub ldr_checked : ℕ → ℕ → Db → Checked → Db × Response
unfolding add_pin
ldr_checked now user db (refused r) = (db, r)
ldr_checked now user db (passed entry) = ldr_written db (add_pin user entry now db)

unfoldable pub handle_ldr_pin_add : ℕ → ℕ → ℕ → String → Db → Db → Db → Db × Response
unfolding ldr_pin_check ldr_checked
handle_ldr_pin_add limit now user link located counted db =
    ldr_checked now user db (ldr_pin_check limit user link located counted)

abbrev pub ldr_unpinned : ℕ → Db → Result ℕ → Db × Response
ldr_unpinned user db (fail e) = (db, write_store_error e)
ldr_unpinned user db (ok entry) = ldr_written db (remove_pin user entry db)

unfoldable pub handle_ldr_pin_remove : ℕ → String → Db → Db → Db × Response
unfolding remove_pin find_entry_by_url
handle_ldr_pin_remove user link located db =
    if same_text link ""
    then (db, write_error 400 "link is required")
    else ldr_unpinned user db (find_entry_by_url link located)
