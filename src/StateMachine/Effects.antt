-- ===== src/StateMachine/Effects.antt =====
-- src/core/state-machine/machine.ts: the guards of `evaluateGuard` and the updates of the context.
use crash_wave.Prelude.{ℕ, suc, Bool, true, false, none, some, String}
use crash_wave.StateMachine.Types.{
  BettingState, observing, entry_evaluating, entry_approved, cash_out_armed, result_recorded,
  cooldown, paused, error, RoundState, StateMachineEvent, StateMachineContext,
}
use crash_wave.StateMachine.Guards.{
  GuardResult, permitted, guard_can_evaluate_entry, guard_can_approve_entry, guard_can_place_bet,
  guard_can_cash_out, guard_can_resume, guard_can_recover,
}

abbrev set_round : String → RoundState → StateMachineContext → StateMachineContext
set_round id r ctx = record ctx { current_round_id = some id; round_state = some r }

unfoldable pub preload_context_from_event :
    StateMachineEvent → StateMachineContext → StateMachineContext
preload_context_from_event (StateMachineEvent.round_started id r) ctx = set_round id r ctx
preload_context_from_event _ ctx = ctx

-- `evaluateGuard`: the `switch` on the state; what falls out of it is permitted.
unfoldable pub evaluate_guard :
    ℕ → BettingState → StateMachineContext → StateMachineEvent → GuardResult
evaluate_guard now observing ctx (StateMachineEvent.round_started id r) =
    guard_can_evaluate_entry now ctx (StateMachineEvent.round_started id r)
evaluate_guard now observing ctx StateMachineEvent.resume_requested = guard_can_resume ctx
evaluate_guard now cooldown ctx (StateMachineEvent.round_started id r) =
    guard_can_evaluate_entry now ctx (StateMachineEvent.round_started id r)
evaluate_guard now cooldown ctx StateMachineEvent.resume_requested = guard_can_resume ctx
evaluate_guard now entry_evaluating ctx StateMachineEvent.risk_approved =
    guard_can_approve_entry now ctx StateMachineEvent.risk_approved
evaluate_guard now entry_approved ctx StateMachineEvent.entry_checks_passed =
    guard_can_place_bet now ctx StateMachineEvent.entry_checks_passed
evaluate_guard now entry_approved ctx (StateMachineEvent.bet_submitted id) =
    guard_can_place_bet now ctx (StateMachineEvent.bet_submitted id)
evaluate_guard now cash_out_armed ctx StateMachineEvent.cash_out_triggered =
    guard_can_cash_out ctx StateMachineEvent.cash_out_triggered
evaluate_guard now paused ctx StateMachineEvent.resume_requested = guard_can_resume ctx
evaluate_guard now error ctx StateMachineEvent.recover = guard_can_recover ctx
evaluate_guard now _ ctx _ = permitted

unfoldable pub should_transition_to_error_on_guard_failure :
    BettingState → StateMachineContext → StateMachineEvent → Bool
should_transition_to_error_on_guard_failure observing ctx (StateMachineEvent.round_started _ _) =
    ctx.kill_switch
should_transition_to_error_on_guard_failure cooldown ctx (StateMachineEvent.round_started _ _) =
    ctx.kill_switch
should_transition_to_error_on_guard_failure _ ctx _ = false

-- The updates of `applySideEffects` that depend on the event alone, in the order of the source.
unfoldable pub effects_of_event : StateMachineEvent → StateMachineContext → StateMachineContext
effects_of_event (StateMachineEvent.pause_requested _) ctx = record ctx { is_paused = true }
effects_of_event StateMachineEvent.resume_requested ctx = record ctx { is_paused = false }
effects_of_event (StateMachineEvent.round_started id r) ctx = set_round id r ctx
effects_of_event (StateMachineEvent.bet_confirmed id) ctx = record ctx {
  open_bet_exists = true;
  current_bet_id = some id;
  consecutive_errors = 0;
}
effects_of_event (StateMachineEvent.bet_submitted id) ctx = record ctx { current_bet_id = some id }
effects_of_event StateMachineEvent.cash_out_confirmed ctx = record ctx {
  open_bet_exists = false;
  current_bet_id = none;
  cash_out_failures = 0;
}
effects_of_event StateMachineEvent.round_crashed ctx = record ctx {
  open_bet_exists = false;
  current_bet_id = none;
}
effects_of_event (StateMachineEvent.halt _) ctx = record ctx { kill_switch = true }
effects_of_event StateMachineEvent.reset ctx = record ctx {
  consecutive_errors = 0;
  cash_out_failures = 0;
  open_bet_exists = false;
  current_bet_id = none;
  is_paused = false;
  kill_switch = false;
}
effects_of_event StateMachineEvent.reconciliation_complete ctx = record ctx {
  open_bet_exists = false;
  current_bet_id = none;
}
effects_of_event _ ctx = ctx

-- The counters that a failure raises on the way to ERROR.
unfoldable pub count_failure : StateMachineEvent → StateMachineContext → StateMachineContext
count_failure (StateMachineEvent.bet_placement_failed _) ctx = record ctx {
  consecutive_errors = suc ctx.consecutive_errors;
}
count_failure StateMachineEvent.bet_placement_timeout ctx = record ctx {
  consecutive_errors = suc ctx.consecutive_errors;
}
count_failure (StateMachineEvent.cash_out_failed _) ctx = record ctx {
  cash_out_failures = suc ctx.cash_out_failures;
}
count_failure StateMachineEvent.cash_out_timeout ctx = record ctx {
  cash_out_failures = suc ctx.cash_out_failures;
}
count_failure _ ctx = ctx

-- The updates that depend on the target state: the error counters and the cooldown timestamp.
unfoldable pub effects_of_target :
    ℕ → StateMachineEvent → BettingState → StateMachineContext → StateMachineContext
unfolding count_failure
effects_of_target now e error ctx = count_failure e ctx
effects_of_target now e result_recorded ctx = record ctx { last_bet_at = some now }
effects_of_target now e _ ctx = ctx

-- `applySideEffects`. No event has updates of both kinds that touch one field, so their order is free.
unfoldable pub apply_side_effects :
    ℕ → StateMachineEvent → BettingState → StateMachineContext → StateMachineContext
unfolding effects_of_event effects_of_target
apply_side_effects now e to ctx = effects_of_target now e to (effects_of_event e ctx)
