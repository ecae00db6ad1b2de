-- ===== src/Ledger/InMemory.antt =====
-- src/ledger/in-memory-daily-ledger.ts, for one daily key: a bucket is a day whose counters are
-- `confirmed` and `reserved`; the ids of slots are left out. The lock of the bucket makes each call
-- run alone.
use Prim.Native.Nat.{ℕ, suc, ◌+◌, ◌-◌}
use crash_wave.Prelude.{
  Bool, true, false, ◌&&◌, Option, none, some, String, List, leb, if◌then◌else◌, find,
}
use crash_wave.Ledger.Types.{
  EntrySlotStatus, reserved, confirmed, released, DailyEntryRecord, EntryReservationResult, is_bet,
  with_status, update_found, insert_entry,
}
use crash_wave.Ledger.Daily.{new_slot}

pub record DayBucket : Type 0 where
  pub confirmed : ℕ
  pub reserved : ℕ
  pub slots : List DailyEntryRecord

abbrev pub active : DayBucket → ℕ
active b = b.confirmed + b.reserved

unfoldable pub reserve : ℕ → String → String → DayBucket → EntryReservationResult × DayBucket
reserve max_entries bet_id session_id b =
    if leb max_entries (active b)
    then (
      record {
        success = false;
        slot = none;
        confirmed_count = b.confirmed;
        reserved_count = b.reserved;
      },
      b,
    )
    else (
      record {
        success = true;
        slot = some (new_slot bet_id session_id (suc (active b)));
        confirmed_count = b.confirmed;
        reserved_count = suc b.reserved;
      },
      record b {
        slots = insert_entry (new_slot bet_id session_id (suc (active b))) b.slots;
        reserved = suc b.reserved;
      },
    )

abbrev pub is_reserved : EntrySlotStatus → Bool
is_reserved reserved = true
is_reserved _ = false

-- The test of both searches.
abbrev pub is_reserved_bet : String → DailyEntryRecord → Bool
is_reserved_bet bet_id s = is_bet bet_id s && is_reserved s.status

unfoldable pub confirm_found : String → Option DailyEntryRecord → DayBucket → Bool × DayBucket
unfolding update_found
confirm_found bet_id none b = (false, b)
confirm_found bet_id (some s) b = (
  true,
  record b {
    slots = update_found (is_reserved_bet bet_id) (with_status confirmed) b.slots;
    reserved = b.reserved - 1;
    confirmed = suc b.confirmed;
  },
)

unfoldable pub confirm : String → DayBucket → Bool × DayBucket
unfolding confirm_found
confirm bet_id b = confirm_found bet_id (find (is_reserved_bet bet_id) b.slots) b

unfoldable pub release_found : String → Option DailyEntryRecord → DayBucket → Bool × DayBucket
unfolding update_found
release_found bet_id none b = (false, b)
release_found bet_id (some s) b = (
  true,
  record b {
    slots = update_found (is_reserved_bet bet_id) (with_status released) b.slots;
    reserved = b.reserved - 1;
  },
)

unfoldable pub release : String → DayBucket → Bool × DayBucket
unfolding release_found
release bet_id b = release_found bet_id (find (is_reserved_bet bet_id) b.slots) b
