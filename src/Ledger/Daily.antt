-- ===== src/Ledger/Daily.antt =====
-- src/ledger/daily-entries.ts, `DailyEntryLedger`. A transaction is a function of the day's rows: it
-- runs alone (SERIALIZABLE, the row of the stats locked), and one that throws changes nothing.
use Prim.Native.Nat.{ℕ, suc, ◌+◌, ◌-◌}
use crash_wave.Prelude.{Bool, true, false, Option, none, some, String, leb, if◌then◌else◌, find}
use crash_wave.Ledger.Types.{
  EntrySlotStatus, reserved, confirmed, released, failed, DailyEntryRecord, DailyStats, Day,
  EntryReservationResult, entry_not_found, not_reserved, Confirmation, done, err, is_bet,
  with_status, update_found, insert_entry,
}

-- The slot that a reservation of a number inserts.
abbrev pub new_slot : String → String → ℕ → DailyEntryRecord
new_slot bet_id session_id n = record {
  bet_id = bet_id;
  slot_number = n;
  status = reserved;
  session_id = session_id;
  reason = none;
}

abbrev pub active_count : Day → ℕ
active_count d = d.stats.entries_confirmed + d.stats.entries_reserved

abbrev pub limit_reached : Day → EntryReservationResult
limit_reached d = record {
  success = false;
  slot = none;
  confirmed_count = d.stats.entries_confirmed;
  reserved_count = d.stats.entries_reserved;
}

unfoldable pub add_reservation : String → String → Day → EntryReservationResult × Day
add_reservation bet_id session_id d =
    let slot = new_slot bet_id session_id (suc (active_count d)) in
    (
      record {
        success = true;
        slot = some slot;
        confirmed_count = d.stats.entries_confirmed;
        reserved_count = suc d.stats.entries_reserved;
      },
      record {
        entries = insert_entry slot d.entries;
        stats = record d.stats {
          entries_reserved = suc d.stats.entries_reserved;
          entries_attempted = suc d.stats.entries_attempted;
        };
      },
    )

unfoldable pub reserve : ℕ → String → String → Day → EntryReservationResult × Day
unfolding add_reservation
reserve max_entries bet_id session_id d =
    if leb max_entries (active_count d)
    then (limit_reached d, d)
    else add_reservation bet_id session_id d

unfoldable pub confirm_entry : String → EntrySlotStatus → Day → Confirmation × Day
unfolding update_found
confirm_entry bet_id confirmed d = (done, d)
confirm_entry bet_id reserved d = (
  done,
  record {
    entries = update_found (is_bet bet_id) (with_status confirmed) d.entries;
    stats = record d.stats {
      entries_confirmed = suc d.stats.entries_confirmed;
      entries_reserved = d.stats.entries_reserved - 1;
    };
  },
)
confirm_entry bet_id _ d = (err not_reserved, d)

unfoldable pub confirm_found : String → Option DailyEntryRecord → Day → Confirmation × Day
unfolding confirm_entry
confirm_found bet_id none d = (err entry_not_found, d)
confirm_found bet_id (some e) d = confirm_entry bet_id e.status d

unfoldable pub confirm : String → Day → Confirmation × Day
unfolding confirm_found
confirm bet_id d = confirm_found bet_id (find (is_bet bet_id) d.entries) d

-- The entries behind a release.
abbrev pub with_release : String → String → DailyStats → Day → Day
with_release bet_id reason stats d = record {
  entries =
      update_found (is_bet bet_id) (λ e. record e { status = released; reason = some reason })
        d.entries;
  stats = stats;
}

unfoldable pub release_entry : String → String → EntrySlotStatus → Day → Day
unfolding update_found
release_entry bet_id reason released d = d
release_entry bet_id reason failed d = d
release_entry bet_id reason confirmed d =
    with_release bet_id reason
      (record d.stats {
        entries_reserved = d.stats.entries_reserved - 1;
        entries_failed = suc d.stats.entries_failed;
        entries_confirmed = d.stats.entries_confirmed - 1;
      })
      d
release_entry bet_id reason reserved d =
    with_release bet_id reason
      (record d.stats {
        entries_reserved = d.stats.entries_reserved - 1;
        entries_failed = suc d.stats.entries_failed;
      })
      d

unfoldable pub release_found : String → String → Option DailyEntryRecord → Day → Day
unfolding release_entry
release_found bet_id reason none d = d
release_found bet_id reason (some e) d = release_entry bet_id reason e.status d

unfoldable pub release : String → String → Day → Day
unfolding release_found
release bet_id reason d = release_found bet_id reason (find (is_bet bet_id) d.entries) d

unfoldable pub get_remaining_entries : ℕ → Day → ℕ
get_remaining_entries max_entries d = max_entries - active_count d

unfoldable pub is_limit_reached : ℕ → Day → Bool
unfolding get_remaining_entries
is_limit_reached max_entries d = leb (get_remaining_entries max_entries d) 0
