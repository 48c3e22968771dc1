-- ===== src/Tests/Pins.antt =====
-- Pins: retention spares them, only a reader of the entry has one, and the quota of requests at
-- work at the same time.
use feedla.Prelude.{
  ◌&&◌, ◌+◌, ◌≤◌, ◌≡◌, refl, string_discrete, true, false, none, [], ◌∷◌, ◌++◌, arith, ◌==◌,
  if◌then◌else◌, ◌⊎◌, ◌≢◌, All,
}
use feedla.Store.Unread.Pins.Newest.{IsNewest, find_entry_by_url-IsNewest}
use feedla.Store.Table.{count_where, ok, fail, err_not_found}
use feedla.Store.Unread.{feed_of, Db, Entry}
use feedla.Store.Unread.Gc.{delete_old_read_entries, trim_excess_entries}
use feedla.Store.Unread.Gc.Pinned.{pin_count, pinned_kept}
use feedla.Store.Unread.Fanout.{has_state}
use feedla.Api.Pins.Requests.{by_id, by_link, Traffic, complete}
use feedla.Store.Unread.Pins.{count_pins, add_pin, new_pins, pins_of, find_entry_by_url}
use feedla.Store.Unread.Pins.Allowed.{add_pin_authorized}

abbrev with_pin : Db
with_pin = record {
  feeds = [];
  entries =
      (record {
        id = 3;
        feed_id = 7;
        guid = "a";
        url = "";
        title = "a";
        author = "";
        body = "";
        body_hash = "";
        published_at = 5;
        updated_at = 5;
        fetched_at = 5;
        created_at = 5;
      })
      ∷ [];
  subscriptions = [];
  states = [];
  ignore_words = [];
  pins = (record { user_id = 1; entry_id = 3; url = ""; title = "a"; created_at = 6 }) ∷ [];
}

pinned_kept_example :
    ((feed_of 3 (delete_old_read_entries 100 with_pin).0.entries ≡ feed_of 3 with_pin.entries)
      × (pin_count 3 (delete_old_read_entries 100 with_pin).0 ≡ pin_count 3 with_pin))
    × ((feed_of 3 (trim_excess_entries 0 with_pin).0.entries ≡ feed_of 3 with_pin.entries)
        × (pin_count 3 (trim_excess_entries 0 with_pin).0 ≡ pin_count 3 with_pin))
unfolding pin_count count_where
pinned_kept_example = pinned_kept 100 0 with_pin 3 (omega arith)

abbrev with_reader : Db
with_reader = record with_pin {
  states =
      (record {
        user_id = 2;
        entry_id = 3;
        feed_id = 7;
        published_at = 5;
        created_at = 5;
        read_at = none;
        ignored = false;
      })
      ∷ [];
}

abbrev with_two_pins : Db
with_two_pins = record with_reader {
  pins =
      (record { user_id = 1; entry_id = 3; url = ""; title = "a"; created_at = 6 })
      ∷ (record { user_id = 2; entry_id = 3; url = ""; title = "a"; created_at = 9 })
      ∷ [];
}

add_pin_authorized_example :
    (has_state 2 3 with_reader.states ≡ true)
    × (pins_of 1 3 with_two_pins
        ≤ pins_of 1 3 with_reader
          + (if (pins_of 2 3 with_reader == 0) && (1 == 2) && (3 == 3) then 1 else 0))
unfolding add_pin new_pins pins_of count_where
add_pin_authorized_example = add_pin_authorized 2 3 9 with_reader with_two_pins 1 3 refl

abbrev second_entry : Db
second_entry = record with_reader {
  entries =
      with_reader.entries
      ++ (record {
        id = 4;
        feed_id = 7;
        guid = "b";
        url = "/b";
        title = "b";
        author = "";
        body = "";
        body_hash = "";
        published_at = 6;
        updated_at = 6;
        fetched_at = 6;
        created_at = 6;
      })
        ∷ [];
  states =
      with_reader.states
      ++ (record {
        user_id = 2;
        entry_id = 4;
        feed_id = 7;
        published_at = 6;
        created_at = 6;
        read_at = none;
        ignored = false;
      })
        ∷ [];
}

-- Two entries with the link "/b", of the same time.
abbrev copies : Db
copies = record second_entry {
  entries =
      second_entry.entries
      ++ (record {
        id = 5;
        feed_id = 7;
        guid = "c";
        url = "/b";
        title = "c";
        author = "";
        body = "";
        body_hash = "";
        published_at = 6;
        updated_at = 6;
        fetched_at = 6;
        created_at = 6;
      })
        ∷ [];
}

newest_copy : find_entry_by_url "/b" copies ≡ ok 5
unfolding find_entry_by_url string_discrete
newest_copy = refl

find_entry_by_url-IsNewest_example :
    ((e : Entry) × IsNewest "/b" copies.entries e × (find_entry_by_url "/b" copies ≡ ok e.id))
    ⊎ (All (λ x. x.url ≢ "/b") copies.entries
        × (find_entry_by_url "/b" copies ≡ fail err_not_found))
find_entry_by_url-IsNewest_example = find_entry_by_url-IsNewest "/b" copies

abbrev after_first : Db
after_first = (complete 9 (by_id 2 3) second_entry).0

abbrev after_both : Traffic
after_both = record { db = (complete 9 (by_link 2 4) after_first).0; waiting = [] }

-- The quota is 1.
quota_exceeded_by_one : count_pins 2 after_both.db ≡ 2
unfolding count_pins complete count_where
quota_exceeded_by_one = refl
