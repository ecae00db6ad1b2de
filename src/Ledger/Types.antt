-- ===== src/Ledger/Types.antt =====
-- src/ledger/types.ts, and the rows of `daily_entries` and `daily_stats` for one daily key, the only
-- rows that a call of that key touches. Timestamps and the money columns, which these calls do not
-- read, are left out.
use crash_wave.Prelude.{ℕ, Bool, Option, String, List, [], ◌∷◌, if◌then◌else◌}
use text.Mathlib.Text.{◌==◌ as str_eq}

pub data EntrySlotStatus : Type 0 where
  reserved confirmed released failed : EntrySlotStatus

pub record DailyEntryRecord : Type 0 where
  pub bet_id : String
  pub slot_number : ℕ
  pub status : EntrySlotStatus
  pub session_id : String
  pub reason : Option String

pub record DailyStats : Type 0 where
  pub entries_confirmed : ℕ
  pub entries_attempted : ℕ
  pub entries_failed : ℕ
  pub entries_reserved : ℕ

-- The rows of one day, in the order in which they were inserted.
pub record Day : Type 0 where
  pub entries : List DailyEntryRecord
  pub stats : DailyStats

abbrev pub empty_day : Day
empty_day = record {
  entries = [];
  stats = record {
    entries_confirmed = 0;
    entries_attempted = 0;
    entries_failed = 0;
    entries_reserved = 0;
  };
}

pub record EntryReservationResult : Type 0 where
  pub success : Bool
  pub slot : Option DailyEntryRecord
  pub confirmed_count : ℕ
  pub reserved_count : ℕ

pub data LedgerError : Type 0 where
  entry_not_found not_reserved : LedgerError

pub data Confirmation : Type 0 where
  done : Confirmation
  err : LedgerError → Confirmation

abbrev pub is_bet : String → DailyEntryRecord → Bool
is_bet b e = str_eq e.bet_id b

abbrev pub with_status : EntrySlotStatus → DailyEntryRecord → DailyEntryRecord
with_status s e = record e { status = s }

-- `UPDATE … WHERE id = …` for the row that a search found: ids are unique, so it is the first that
-- passes the search's test.
unfoldable pub update_found :
    (DailyEntryRecord → Bool)
    → (DailyEntryRecord → DailyEntryRecord)
    → List DailyEntryRecord
    → List DailyEntryRecord
update_found p f [] = []
update_found p f (e ∷ es) = if p e then f e ∷ es else e ∷ update_found p f es

-- A new row, whose serial id is the largest, comes last.
abbrev pub insert_entry : DailyEntryRecord → List DailyEntryRecord → List DailyEntryRecord
insert_entry e [] = e ∷ []
insert_entry e (d ∷ es) = d ∷ insert_entry e es
