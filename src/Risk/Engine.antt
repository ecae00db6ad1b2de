-- ===== src/Risk/Engine.antt =====
-- src/betting/risk-engine.ts, `evaluate`, with the input and result types of src/betting/types.ts. A
-- reason is the list of messages that the source joins into one text. Amounts, probabilities and
-- confidences count small units; `now` is `Date.now()`.
use crash_wave.Prelude.{
  ℕ, ◌+◌, Bool, true, false, not, ◌&&◌, ◌||◌, Option, none, some, List, [], ◌∷◌, ltb, leb,
  if◌then◌else◌, is_some, or_else,
}
use crash_wave.StateMachine.Types.{
  RoundPhase, starting, running, ObservationConfidence, high, RoundState,
}
use crash_wave.Risk.Circuit.{CircuitState, open_circuit}

pub data Mode : Type 0 where
  observe_only dry_run live maintenance : Mode

pub record PredictionSignal : Type 0 where
  pub probability : ℕ
  pub confidence : ℕ
  pub expires_at : ℕ
  pub data_quality : ℕ

pub record RiskEvaluationInput : Type 0 where
  pub mode : Mode
  pub operator_authorized : Bool
  pub session_authenticated : Bool
  pub game_loaded : Bool
  pub round_state : Option RoundState
  pub current_balance : Option ℕ
  pub daily_entries_confirmed : ℕ
  pub paused : Bool
  pub kill_switch : Bool
  pub browser_healthy : Bool
  pub game_adapter_healthy : Bool
  pub open_bet_exists : Bool
  pub cooldown_elapsed : Bool
  pub required_stake : ℕ
  pub balance_buffer : ℕ
  pub max_daily_entries : ℕ
  pub consecutive_errors : ℕ
  pub max_consecutive_errors : ℕ
  pub cash_out_failures : ℕ
  pub max_cash_out_failures : ℕ
  pub prediction_signal : Option PredictionSignal
  pub min_prediction_probability : Option ℕ
  pub min_prediction_confidence : Option ℕ

abbrev pub is_live : Mode → Bool
is_live live = true
is_live _ = false

abbrev pub is_dry_run : Mode → Bool
is_dry_run dry_run = true
is_dry_run _ = false

abbrev pub round_valid : Option RoundState → Bool
round_valid none = false
round_valid (some r) = is_bettable r.phase && is_some r.round_id
  where
    is_bettable : RoundPhase → Bool
    is_bettable starting = true
    is_bettable running = true
    is_bettable _ = false

abbrev pub confidence_high : Option RoundState → Bool
confidence_high none = false
confidence_high (some r) = is_high r.confidence
  where
    is_high : ObservationConfidence → Bool
    is_high high = true
    is_high _ = false

-- Whether the balance covers the stake and the buffer, in a dry run and live.
abbrev pub balance_sufficient : Bool → Option ℕ → ℕ → Bool
balance_sufficient true balance required = not (is_some balance) || leb required (or_else balance 0)
balance_sufficient false balance required = is_some balance && leb required (or_else balance 0)

abbrev pub signal_acceptable : ℕ → ℕ → ℕ → ℕ → Option PredictionSignal → Bool
signal_acceptable now min_quality min_prob min_conf none = false
signal_acceptable now min_quality min_prob min_conf (some s) =
    if leb s.expires_at now
    then false
    else if ltb s.probability min_prob
    then false
    else if ltb s.confidence min_conf
    then false
    else if ltb s.data_quality min_quality
    then false
    else true

-- 0.3, in units of 10⁻⁸.
abbrev pub min_data_quality : ℕ
min_data_quality = 30000000

unfoldable pub evaluate_prediction : ℕ → RiskEvaluationInput → Bool
evaluate_prediction now i =
    let min_prob = or_else i.min_prediction_probability 0 in
    let min_conf = or_else i.min_prediction_confidence 0 in
    if leb min_prob 0 && leb min_conf 0
    then true
    else signal_acceptable now min_data_quality min_prob min_conf i.prediction_signal

pub data Message : Type 0 where
  mode_not_live operator_not_authorized not_authenticated game_not_loaded round_invalid : Message
  balance_insufficient daily_limit paused kill_switch browser_unhealthy : Message
  adapter_unhealthy confidence_low open_bet cooldown_active errors_exceeded : Message
  cash_out_failures_exceeded prediction_unacceptable : Message

-- `evaluateAllConditions`, each condition with its message in the order of `collectFailures`.
unfoldable pub evaluate_all_conditions : ℕ → RiskEvaluationInput → List (Bool × Message)
evaluate_all_conditions now i =
    (is_live i.mode || is_dry_run i.mode, mode_not_live)
    ∷ (i.operator_authorized, operator_not_authorized)
    ∷ (is_dry_run i.mode || i.session_authenticated, not_authenticated)
    ∷ (i.game_loaded, game_not_loaded)
    ∷ (round_valid i.round_state, round_invalid)
    ∷ (
      balance_sufficient (is_dry_run i.mode) i.current_balance
          (i.required_stake + i.balance_buffer),
      balance_insufficient,
    )
    ∷ (ltb i.daily_entries_confirmed i.max_daily_entries, daily_limit)
    ∷ (not i.paused, paused)
    ∷ (not i.kill_switch, kill_switch)
    ∷ (i.browser_healthy, browser_unhealthy)
    ∷ (i.game_adapter_healthy, adapter_unhealthy)
    ∷ (confidence_high i.round_state, confidence_low)
    ∷ (not i.open_bet_exists, open_bet)
    ∷ (i.cooldown_elapsed, cooldown_active)
    ∷ (ltb i.consecutive_errors i.max_consecutive_errors, errors_exceeded)
    ∷ (ltb i.cash_out_failures i.max_cash_out_failures, cash_out_failures_exceeded)
    ∷ (evaluate_prediction now i, prediction_unacceptable)
    ∷ []

unfoldable pub collect_failures : List (Bool × Message) → List Message
collect_failures [] = []
collect_failures ((ok, message) ∷ cs) =
    let rest = collect_failures cs in if ok then rest else message ∷ rest

pub data Rejection : Type 0 where
  circuit_open : Rejection
  entry_rejected : List Message → Rejection

pub data FirstFailure : Type 0 where
  financial_circuit_open : FirstFailure
  failed : Message → FirstFailure

pub record RiskEvaluationResult : Type 0 where
  pub approved : Bool
  pub rejection_reason : Option Rejection
  pub first_failure : Option FirstFailure

abbrev pub from_failures : List Message → RiskEvaluationResult
from_failures [] = record { approved = true; rejection_reason = none; first_failure = none }
from_failures (m ∷ ms) = record {
  approved = false;
  rejection_reason = some (entry_rejected (m ∷ ms));
  first_failure = some (failed m);
}

abbrev pub is_open_state : CircuitState → Bool
is_open_state open_circuit = true
is_open_state _ = false

unfoldable pub evaluate : ℕ → CircuitState → RiskEvaluationInput → RiskEvaluationResult
unfolding evaluate_all_conditions collect_failures
evaluate now circuit i =
    if is_open_state circuit
    then record {
      approved = false;
      rejection_reason = some circuit_open;
      first_failure = some financial_circuit_open;
    }
    else from_failures (collect_failures (evaluate_all_conditions now i))
