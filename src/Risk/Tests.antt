-- ===== src/Risk/Tests.antt =====
-- Evaluations, and each theorem at an input of its own.
use crash_wave.Prelude.{◌≡◌, ◌↔◌, refl, true, false, none, some, [], ◌∷◌, List, arith, ltb}
use crash_wave.StateMachine.Types.{running, high}
use crash_wave.Risk.Circuit.{closed, open_circuit, new_circuit}
use crash_wave.Risk.Engine.{
  live, RiskEvaluationInput, evaluate, financial_circuit_open, failed, kill_switch,
  evaluate_prediction,
}
use crash_wave.Risk.Approval.{Approvable, evaluate-Approvable}
use crash_wave.Risk.Breaks.{
  CircuitCall, success, failure, question, run_calls, failures_since, is_closed, run_calls-closed,
}

abbrev input : RiskEvaluationInput
input = record {
  mode = live;
  operator_authorized = true;
  session_authenticated = true;
  game_loaded = true;
  round_state = some (record { round_id = some "r1"; phase = running; confidence = high });
  current_balance = some 2000;
  daily_entries_confirmed = 99;
  paused = false;
  kill_switch = false;
  browser_healthy = true;
  game_adapter_healthy = true;
  open_bet_exists = false;
  cooldown_elapsed = true;
  required_stake = 700;
  balance_buffer = 700;
  max_daily_entries = 100;
  consecutive_errors = 0;
  max_consecutive_errors = 3;
  cash_out_failures = 0;
  max_cash_out_failures = 2;
  prediction_signal = none;
  min_prediction_probability = none;
  min_prediction_confidence = none;
}

approved_run : (evaluate 0 closed input).approved ≡ true
unfolding evaluate evaluate_prediction
approved_run = refl

suspended_run : (evaluate 0 open_circuit input).first_failure ≡ some financial_circuit_open
unfolding evaluate
suspended_run = refl

first_failure_run :
    (evaluate 0 closed (record input { kill_switch = true; max_daily_entries = 100 })).first_failure
    ≡ some (failed kill_switch)
unfolding evaluate evaluate_prediction
first_failure_run = refl

evaluate-Approvable_example :
    ((evaluate 7 closed input).approved ≡ true) ↔ Approvable 7 closed input
evaluate-Approvable_example = evaluate-Approvable 7 closed input

abbrev told : List CircuitCall
told = failure 1 ∷ success ∷ failure 2 ∷ failure 3 ∷ question 90 ∷ []

closed_example :
    ((run_calls 2 60 told new_circuit).failures ≡ failures_since told 0)
    × (is_closed (run_calls 2 60 told new_circuit).state ≡ ltb (failures_since told 0) 2)
closed_example = run_calls-closed 2 60 told (omega arith)
