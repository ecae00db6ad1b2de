-- ===== src/StateMachine/Types.antt =====
-- src/core/state-machine/types.ts, and the round state of src/types/game.ts.
-- Instants are milliseconds since the epoch. Numbers that the machine only carries in an event
-- (multipliers, profits) are left out; an id or a reason is the text that it is in the source.
use crash_wave.Prelude.{ℕ, Bool, true, false, Option, none, String, ◌==◌}

pub data BettingState : Type 0 where
  idle ready_to_observe observing entry_evaluating entry_approved bet_placing : BettingState
  bet_active cash_out_armed cash_out_requested round_complete result_recorded : BettingState
  cooldown paused error halted reconciling : BettingState

-- The tags of `StateMachineEvent`, its field `type`.
pub data EventType : Type 0 where
  browser_ready authenticated game_loaded round_started risk_approved risk_rejected : EventType
  entry_checks_passed entry_checks_failed bet_submitted bet_confirmed : EventType
  bet_placement_failed bet_placement_timeout multiplier_reached_target : EventType
  cash_out_triggered cash_out_confirmed cash_out_failed cash_out_timeout round_crashed : EventType
  outcome_recorded cooldown_elapsed pause_requested resume_requested recover : EventType
  recovery_complete reconcile reconciliation_complete stale_multiplier : EventType
  health_degraded critical_error halt reset force_state : EventType

pub data RoundPhase : Type 0 where
  no_round starting running crashed unknown_phase : RoundPhase

pub data ObservationConfidence : Type 0 where
  low medium high : ObservationConfidence

pub record RoundState : Type 0 where
  pub round_id : Option String
  pub phase : RoundPhase
  pub confidence : ObservationConfidence

-- The events with what they carry, as far as the machine can read it.
pub data StateMachineEvent : Type 0 where
  browser_ready authenticated game_loaded : StateMachineEvent
  round_started : String → RoundState → StateMachineEvent
  risk_approved : StateMachineEvent
  risk_rejected : String → StateMachineEvent
  entry_checks_passed : StateMachineEvent
  entry_checks_failed : String → StateMachineEvent
  bet_submitted bet_confirmed : String → StateMachineEvent
  bet_placement_failed : String → StateMachineEvent
  bet_placement_timeout multiplier_reached_target : StateMachineEvent
  cash_out_triggered cash_out_confirmed : StateMachineEvent
  cash_out_failed : String → StateMachineEvent
  cash_out_timeout round_crashed outcome_recorded cooldown_elapsed : StateMachineEvent
  pause_requested : String → StateMachineEvent
  resume_requested recover recovery_complete : StateMachineEvent
  reconcile : Option String → StateMachineEvent
  reconciliation_complete stale_multiplier : StateMachineEvent
  health_degraded : String → String → StateMachineEvent
  critical_error : String → StateMachineEvent
  halt : String → StateMachineEvent
  reset : StateMachineEvent
  force_state : String → StateMachineEvent

-- `event.type`
abbrev pub event_type : StateMachineEvent → EventType
event_type StateMachineEvent.browser_ready = browser_ready
event_type StateMachineEvent.authenticated = authenticated
event_type StateMachineEvent.game_loaded = game_loaded
event_type (StateMachineEvent.round_started _ _) = round_started
event_type StateMachineEvent.risk_approved = risk_approved
event_type (StateMachineEvent.risk_rejected _) = risk_rejected
event_type StateMachineEvent.entry_checks_passed = entry_checks_passed
event_type (StateMachineEvent.entry_checks_failed _) = entry_checks_failed
event_type (StateMachineEvent.bet_submitted _) = bet_submitted
event_type (StateMachineEvent.bet_confirmed _) = bet_confirmed
event_type (StateMachineEvent.bet_placement_failed _) = bet_placement_failed
event_type StateMachineEvent.bet_placement_timeout = bet_placement_timeout
event_type StateMachineEvent.multiplier_reached_target = multiplier_reached_target
event_type StateMachineEvent.cash_out_triggered = cash_out_triggered
event_type StateMachineEvent.cash_out_confirmed = cash_out_confirmed
event_type (StateMachineEvent.cash_out_failed _) = cash_out_failed
event_type StateMachineEvent.cash_out_timeout = cash_out_timeout
event_type StateMachineEvent.round_crashed = round_crashed
event_type StateMachineEvent.outcome_recorded = outcome_recorded
event_type StateMachineEvent.cooldown_elapsed = cooldown_elapsed
event_type (StateMachineEvent.pause_requested _) = pause_requested
event_type StateMachineEvent.resume_requested = resume_requested
event_type StateMachineEvent.recover = recover
event_type StateMachineEvent.recovery_complete = recovery_complete
event_type (StateMachineEvent.reconcile _) = reconcile
event_type StateMachineEvent.reconciliation_complete = reconciliation_complete
event_type StateMachineEvent.stale_multiplier = stale_multiplier
event_type (StateMachineEvent.health_degraded _ _) = health_degraded
event_type (StateMachineEvent.critical_error _) = critical_error
event_type (StateMachineEvent.halt _) = halt
event_type StateMachineEvent.reset = reset
event_type (StateMachineEvent.force_state _) = force_state

-- Position in the union of the source, by which states are compared.
abbrev pub state_index : BettingState → ℕ
state_index idle = 0
state_index ready_to_observe = 1
state_index observing = 2
state_index entry_evaluating = 3
state_index entry_approved = 4
state_index bet_placing = 5
state_index bet_active = 6
state_index cash_out_armed = 7
state_index cash_out_requested = 8
state_index round_complete = 9
state_index result_recorded = 10
state_index cooldown = 11
state_index paused = 12
state_index error = 13
state_index halted = 14
state_index reconciling = 15

abbrev pub event_index : EventType → ℕ
event_index browser_ready = 0
event_index authenticated = 1
event_index game_loaded = 2
event_index round_started = 3
event_index risk_approved = 4
event_index risk_rejected = 5
event_index entry_checks_passed = 6
event_index entry_checks_failed = 7
event_index bet_submitted = 8
event_index bet_confirmed = 9
event_index bet_placement_failed = 10
event_index bet_placement_timeout = 11
event_index multiplier_reached_target = 12
event_index cash_out_triggered = 13
event_index cash_out_confirmed = 14
event_index cash_out_failed = 15
event_index cash_out_timeout = 16
event_index round_crashed = 17
event_index outcome_recorded = 18
event_index cooldown_elapsed = 19
event_index pause_requested = 20
event_index resume_requested = 21
event_index recover = 22
event_index recovery_complete = 23
event_index reconcile = 24
event_index reconciliation_complete = 25
event_index stale_multiplier = 26
event_index health_degraded = 27
event_index critical_error = 28
event_index halt = 29
event_index reset = 30
event_index force_state = 31

-- `===` on states and on event tags.
abbrev pub same_state : BettingState → BettingState → Bool
same_state s t = state_index s == state_index t

abbrev pub same_event : EventType → EventType → Bool
same_event s t = event_index s == event_index t

-- `StateMachineContext`. A balance counts minor units; the machine asks only whether it is known.
-- `lastEntryConditions` and `lastRejectionReason`, which no code of the machine touches, are left out.
pub record StateMachineContext : Type 0 where
  pub session_id : String
  pub current_round_id : Option String
  pub current_bet_id : Option String
  pub round_state : Option RoundState
  pub current_balance : Option ℕ
  pub dry_run : Bool
  pub is_paused : Bool
  pub kill_switch : Bool
  pub consecutive_errors : ℕ
  pub cash_out_failures : ℕ
  pub last_bet_at : Option ℕ
  pub open_bet_exists : Bool
  pub browser_healthy : Bool
  pub game_adapter_healthy : Bool
  pub min_confidence_for_entry : ObservationConfidence
  pub cooldown_ms : ℕ
  pub max_consecutive_errors : ℕ
  pub max_cash_out_failures : ℕ

-- `createDefaultContext` with no overrides.
abbrev pub create_default_context : String → StateMachineContext
create_default_context session = record {
  session_id = session;
  current_round_id = none;
  current_bet_id = none;
  round_state = none;
  current_balance = none;
  dry_run = false;
  is_paused = false;
  kill_switch = false;
  consecutive_errors = 0;
  cash_out_failures = 0;
  last_bet_at = none;
  open_bet_exists = false;
  browser_healthy = true;
  game_adapter_healthy = true;
  min_confidence_for_entry = high;
  cooldown_ms = 5000;
  max_consecutive_errors = 3;
  max_cash_out_failures = 2;
}
