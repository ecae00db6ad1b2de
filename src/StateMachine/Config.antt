-- ===== src/StateMachine/Config.antt =====
-- The constructor, `updateContext` and the calls of machine.ts. An override is `none` where the field
-- is left out of a `Partial<StateMachineContext>`.
use crash_wave.Prelude.{ℕ, Bool, Option, none, String, List, [], ◌∷◌, or_else}
use crash_wave.StateMachine.Types.{
  BettingState, idle, RoundState, ObservationConfidence, StateMachineEvent, StateMachineContext,
  create_default_context,
}
use crash_wave.StateMachine.Dispatch.{BettingStateMachine, send}

pub record ContextOverrides : Type 0 where
  pub session_id : Option String
  pub current_round_id : Option (Option String)
  pub current_bet_id : Option (Option String)
  pub round_state : Option (Option RoundState)
  pub current_balance : Option (Option ℕ)
  pub dry_run : Option Bool
  pub is_paused : Option Bool
  pub kill_switch : Option Bool
  pub consecutive_errors : Option ℕ
  pub cash_out_failures : Option ℕ
  pub last_bet_at : Option (Option ℕ)
  pub open_bet_exists : Option Bool
  pub browser_healthy : Option Bool
  pub game_adapter_healthy : Option Bool
  pub min_confidence_for_entry : Option ObservationConfidence
  pub cooldown_ms : Option ℕ
  pub max_consecutive_errors : Option ℕ
  pub max_cash_out_failures : Option ℕ

abbrev pub no_overrides : ContextOverrides
no_overrides = record {
  session_id = none;
  current_round_id = none;
  current_bet_id = none;
  round_state = none;
  current_balance = none;
  dry_run = none;
  is_paused = none;
  kill_switch = none;
  consecutive_errors = none;
  cash_out_failures = none;
  last_bet_at = none;
  open_bet_exists = none;
  browser_healthy = none;
  game_adapter_healthy = none;
  min_confidence_for_entry = none;
  cooldown_ms = none;
  max_consecutive_errors = none;
  max_cash_out_failures = none;
}

-- `{ ...context, ...overrides }`
unfoldable pub override : ContextOverrides → StateMachineContext → StateMachineContext
override o ctx = record {
  session_id = or_else o.session_id ctx.session_id;
  current_round_id = or_else o.current_round_id ctx.current_round_id;
  current_bet_id = or_else o.current_bet_id ctx.current_bet_id;
  round_state = or_else o.round_state ctx.round_state;
  current_balance = or_else o.current_balance ctx.current_balance;
  dry_run = or_else o.dry_run ctx.dry_run;
  is_paused = or_else o.is_paused ctx.is_paused;
  kill_switch = or_else o.kill_switch ctx.kill_switch;
  consecutive_errors = or_else o.consecutive_errors ctx.consecutive_errors;
  cash_out_failures = or_else o.cash_out_failures ctx.cash_out_failures;
  last_bet_at = or_else o.last_bet_at ctx.last_bet_at;
  open_bet_exists = or_else o.open_bet_exists ctx.open_bet_exists;
  browser_healthy = or_else o.browser_healthy ctx.browser_healthy;
  game_adapter_healthy = or_else o.game_adapter_healthy ctx.game_adapter_healthy;
  min_confidence_for_entry = or_else o.min_confidence_for_entry ctx.min_confidence_for_entry;
  cooldown_ms = or_else o.cooldown_ms ctx.cooldown_ms;
  max_consecutive_errors = or_else o.max_consecutive_errors ctx.max_consecutive_errors;
  max_cash_out_failures = or_else o.max_cash_out_failures ctx.max_cash_out_failures;
}

pub record StateMachineConfig : Type 0 where
  pub session_id : String
  pub initial_state : Option BettingState
  pub context_overrides : ContextOverrides

unfoldable pub create_state_machine : StateMachineConfig → BettingStateMachine
unfolding override
create_state_machine config = record {
  state = or_else config.initial_state idle;
  context = override config.context_overrides (create_default_context config.session_id);
}

unfoldable pub update_context : ContextOverrides → BettingStateMachine → BettingStateMachine
unfolding override
update_context o m = record m { context = override o m.context }

pub data MachineCall : Type 0 where
  sending : ℕ → StateMachineEvent → MachineCall
  updating : ContextOverrides → MachineCall

unfoldable pub run_machine : List MachineCall → BettingStateMachine → BettingStateMachine
unfolding send update_context
run_machine [] m = m
run_machine (sending now e ∷ cs) m = run_machine cs (send now m e).machine
run_machine (updating o ∷ cs) m = run_machine cs (update_context o m)
