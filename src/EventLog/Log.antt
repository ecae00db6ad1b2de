-- ===== src/EventLog/Log.antt =====
-- InMemoryPersistentLog of src/core/event-bus/persistent-log.ts, for any type of payloads.
use text.Mathlib.Text.{◌==◌ as str_eq}
use crash_wave.Prelude.{
  ℕ, zero, suc, ◌-◌, String, List, [], ◌∷◌, ◌++◌, length, drop, select, ltb, if◌then◌else◌,
}

pub record PersistentLogEntry (P : Type 0) : Type 0 where
  pub id : String
  pub event_type : String
  pub payload : P
  pub timestamp : String
  pub correlation_id : String
  pub source : String
  pub persisted_at : String

pub record InMemoryPersistentLog (P : Type 0) : Type 0 where
  pub entries : List (PersistentLogEntry P)
  pub max_entries : ℕ

-- An event, as `eventToLogEntry` reads it.
pub record BaseEvent (P : Type 0) : Type 0 where
  pub id : String
  pub type : String
  pub payload : P
  pub timestamp : String
  pub correlation_id : String
  pub source : String

module _ {P : Type 0} where
  abbrev pub new_log : ℕ → InMemoryPersistentLog P
  new_log max_entries = record { entries = []; max_entries = max_entries }

  -- `slice(-n)`: since `-0` is `0`, the whole list for 0.
  abbrev pub slice_last : ℕ → List (PersistentLogEntry P) → List (PersistentLogEntry P)
  slice_last zero es = es
  slice_last (suc n) es = drop (length es - suc n) es

  unfoldable pub write : PersistentLogEntry P → InMemoryPersistentLog P → InMemoryPersistentLog P
  write e l =
      let pushed = l.entries ++ e ∷ [] in
      if ltb l.max_entries (length pushed)
      then record l { entries = slice_last l.max_entries pushed }
      else record l { entries = pushed }

  abbrev pub clear : InMemoryPersistentLog P → InMemoryPersistentLog P
  clear l = record l { entries = [] }

  abbrev pub size : InMemoryPersistentLog P → ℕ
  size l = length l.entries

  abbrev pub get_entries_by_type : String → InMemoryPersistentLog P → List (PersistentLogEntry P)
  get_entries_by_type event_type l = select (λ e. str_eq e.event_type event_type) l.entries

  abbrev pub get_entries_by_correlation_id :
      String → InMemoryPersistentLog P → List (PersistentLogEntry P)
  get_entries_by_correlation_id correlation_id l =
      select (λ e. str_eq e.correlation_id correlation_id) l.entries

  -- `now` is the clock's text.
  abbrev pub event_to_log_entry : String → BaseEvent P → PersistentLogEntry P
  event_to_log_entry now event = record {
    id = event.id;
    event_type = event.type;
    payload = event.payload;
    timestamp = event.timestamp;
    correlation_id = event.correlation_id;
    source = event.source;
    persisted_at = now;
  }
