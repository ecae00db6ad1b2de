-- ===== src/EventLog/Tests.antt =====
-- Logs of numbers, and each theorem at an input of its own.
use crash_wave.Prelude.{ℕ, ◌-◌, min, ◌≡◌, refl, List, [], ◌∷◌, length, drop, arith}
use crash_wave.EventLog.Log.{
  PersistentLogEntry, new_log, size, event_to_log_entry, get_entries_by_type,
}
use crash_wave.EventLog.Last.{LogCall, writing, clearing, apply_all, written_since, apply_all-last}

abbrev event : ℕ → PersistentLogEntry ℕ
event n = event_to_log_entry "2026-01-05T00:00:01Z" (record {
  id = "e";
  type = "BetPlaced";
  payload = n;
  timestamp = "2026-01-05T00:00:00Z";
  correlation_id = "c";
  source = "test";
})

abbrev calls : List (LogCall ℕ)
calls =
    writing (event 1) ∷ clearing ∷ writing (event 2) ∷ writing (event 3) ∷ writing (event 4) ∷ []

-- A log with room for nothing keeps everything.
no_room : size (apply_all calls (new_log 0)) ≡ 3
unfolding crash_wave.EventLog.Last.apply
no_room = refl

by_type : length (get_entries_by_type "BetPlaced" (apply_all calls (new_log 2))) ≡ 2
unfolding crash_wave.EventLog.Last.apply
by_type = refl

last_example :
    let es = written_since calls [] in
    let l = apply_all calls (new_log 2) in
    (l.entries ≡ drop (length es - 2) es) × (size l ≡ min 2 (length es))
last_example = apply_all-last 2 calls (omega arith)
