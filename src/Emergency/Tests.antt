-- ===== src/Emergency/Tests.antt =====
-- Stops over a repository in memory, and each theorem at an input of its own.
use crash_wave.Prelude.{◌≡◌, refl, none, some, true, false, [], ◌∷◌, arith, length, set_key}
use crash_wave.Prelude.Decimal.{decimal}
use crash_wave.Betting.Types.{pending, reserved, returned, threw}
use crash_wave.Bets.Types.{CreateBetInput, is_state}
use crash_wave.Bets.Memory.{find_by_state, update, create, new_bet, bet_name}
use crash_wave.Bets.MemoryStore.{KeptRepository, create_kept, none_kept, memory_store}
use crash_wave.Emergency.Stop.{
  EmergencyStop, EmergencyStopState, EmergencyStopConfig, StopEnv, trigger, reset, is_triggered,
}
use crash_wave.Emergency.Gate.{Stopped, trigger-Stopped, trigger_all, trigger_all-trigger}
use crash_wave.Emergency.Cancelled.{Settled}
use crash_wave.Emergency.Complete.{Answers, trigger-Settled}

abbrev reserved_bet : CreateBetInput
reserved_bet = record {
  session_id = some "s1";
  round_id = some "r1";
  daily_key = "2026-01-05";
  stake = 700;
  cash_out_target = 130;
  state = none;
  balance_before = none;
}

abbrev config : EmergencyStopConfig
config = record { attempt_cancel_pending = true; preserve_state = true; notify_operator = true }

-- The event bus fails.
abbrev env : StopEnv
env = record {
  stop_executors = returned tt;
  emit_critical_error = threw "bus closed";
  emit_system_paused = returned tt;
}

abbrev start : EmergencyStop KeptRepository
start = record {
  state = EmergencyStopState.armed;
  last_result = none;
  trigger_reason = none;
  store = create_kept reserved_bet 5 none_kept;
}

-- Only a reset opens the gate.
reset_opens :
    is_triggered (reset memory_store (trigger memory_store config env "operator" start).1) ≡ false
unfolding trigger reset
reset_opens = refl

trigger_stops_example :
    Stopped memory_store start (trigger memory_store config env "operator" start)
trigger_stops_example = trigger-Stopped memory_store config env "operator" start

trigger_again_example :
    trigger_all memory_store
      ((config, env, "again") ∷ [])
      (trigger memory_store config env "operator" start).1
    ≡ (trigger memory_store config env "operator" start).1
trigger_again_example =
    trigger_all-trigger memory_store config env "operator" start ((config, env, "again") ∷ [])

memory-Answers : Answers memory_store
memory-Answers = record { updates = λ id input s. ((update id input s.repository).0, refl) }

few_pending : length (find_by_state pending 100 start.store.repository) ≡ 0
unfolding find_by_state create_kept create new_bet bet_name set_key is_state decimal
few_pending = refl

few_reserved : length (find_by_state reserved 100 start.store.repository) ≡ 1
unfolding find_by_state create_kept create new_bet bet_name set_key is_state decimal
few_reserved = refl

trigger_settles_example :
    Settled (memory_store.look (trigger memory_store config env "operator" start).1.store "bet-1")
trigger_settles_example =
    trigger-Settled memory_store memory-Answers config env "operator" start
      (find_by_state pending 100 start.store.repository)
      (find_by_state reserved 100 start.store.repository) "bet-1" refl refl refl refl refl
      (omega (arith, few_pending)) (omega (arith, few_reserved))
