-- ===== src/StateMachine/Dispatch.antt =====
-- src/core/state-machine/machine.ts, the class `BettingStateMachine`. A method returns the machine
-- after it, what the source returns, and the calls of the two callbacks in their order (an
-- exception in a callback is swallowed there). `now` is the clock.
use crash_wave.Prelude.{
  ℕ, suc, Bool, true, false, String, List, [], ◌∷◌, ◌||◌, ◌&&◌, ◌==◌, if◌then◌else◌, leb,
}
use Prim.Native.Char.{code}
use crash_wave.StateMachine.Types.{
  BettingState, bet_placing, bet_active, cash_out_armed, cash_out_requested, error, halted,
  EventType, StateMachineEvent, StateMachineContext, event_type,
}
use crash_wave.StateMachine.Transitions.{TransitionRule, find_transitions, is_transition_defined}
use crash_wave.StateMachine.Guards.{
  Reason, permitted, rejected, guard_can_evaluate_entry, guard_can_approve_entry,
  guard_can_place_bet, guard_can_cash_out, guard_can_resume, guard_can_recover,
  guard_all_entry_conditions, guard_browser_healthy, guard_game_adapter_healthy, guard_not_paused,
  guard_kill_switch_off, guard_no_open_bet, guard_cooldown_elapsed, guard_round_valid,
  guard_observation_confidence, guard_balance_known, guard_error_threshold,
  guard_cash_out_failure_threshold,
}
use crash_wave.StateMachine.Effects.{
  preload_context_from_event, evaluate_guard, should_transition_to_error_on_guard_failure,
  apply_side_effects,
}

pub record BettingStateMachine : Type 0 where
  pub state : BettingState
  pub context : StateMachineContext

-- The messages of a `TransitionResult`.
pub data Message : Type 0 where
  invalid_transition : BettingState → EventType → Message
  guard_to_error guard_refused : Reason → Message
  described : String → Message

pub record TransitionResult : Type 0 where
  pub accepted : Bool
  pub new_state : BettingState
  pub message : Message
  pub context : StateMachineContext

pub data ForceSource : Type 0 where
  recovery emergency_stop operator_escalation : ForceSource
  other_source : String → ForceSource

pub data FailureReason : Type 0 where
  given : String → FailureReason
  of_component : String → String → FailureReason
  guard_rejected : Reason → FailureReason
  forced : ForceSource → BettingState → BettingState → String → FailureReason
  system_halted multiplier_stale unknown_error : FailureReason

pub data Notice : Type 0 where
  state_change : BettingState → BettingState → StateMachineEvent → Notice
  failure : BettingState → FailureReason → Notice

pub record Sent : Type 0 where
  pub machine : BettingStateMachine
  pub result : TransitionResult
  pub notices : List Notice

unfoldable pub can_accept : BettingStateMachine → EventType → Bool
unfolding is_transition_defined
can_accept m e = is_transition_defined m.state e

abbrev holds_bet : BettingState → Bool
holds_bet bet_placing = true
holds_bet bet_active = true
holds_bet cash_out_armed = true
holds_bet cash_out_requested = true
holds_bet _ = false

abbrev pub has_active_bet : BettingStateMachine → Bool
has_active_bet m = holds_bet m.state

extract_failure_reason : StateMachineEvent → BettingState → FailureReason
extract_failure_reason (StateMachineEvent.halt reason) halted = given reason
extract_failure_reason _ halted = system_halted
extract_failure_reason (StateMachineEvent.bet_placement_failed reason) _ = given reason
extract_failure_reason (StateMachineEvent.health_degraded c reason) _ = of_component c reason
extract_failure_reason StateMachineEvent.stale_multiplier _ = multiplier_stale
extract_failure_reason _ _ = unknown_error

failure_notices : StateMachineEvent → BettingState → List Notice
unfolding extract_failure_reason
failure_notices e error = failure error (extract_failure_reason e error) ∷ []
failure_notices e halted = failure halted (extract_failure_reason e halted) ∷ []
failure_notices e _ = []

refuse : BettingStateMachine → Message → Sent
refuse m msg = record {
  machine = m;
  result = record { accepted = false; new_state = m.state; message = msg; context = m.context };
  notices = [];
}

-- A rejected guard: to ERROR where the kill switch is on at a round's start, else a refusal.
guard_failed : BettingStateMachine → StateMachineEvent → Reason → Sent
unfolding refuse should_transition_to_error_on_guard_failure
guard_failed m e r =
    let ctx = record (m.context) { consecutive_errors = suc m.context.consecutive_errors } in
    if should_transition_to_error_on_guard_failure m.state m.context e
    then record {
      machine = record { state = error; context = ctx };
      result = record {
        accepted = true;
        new_state = error;
        message = guard_to_error r;
        context = ctx;
      };
      notices = state_change m.state error e ∷ failure error (guard_rejected r) ∷ [];
    }
    else refuse m (guard_refused r)

-- The accepted transition along a rule.
follow : ℕ → BettingStateMachine → StateMachineEvent → TransitionRule → Sent
unfolding apply_side_effects failure_notices
follow now m e r =
    let ctx = apply_side_effects now e r.to m.context in
    record {
      machine = record { state = r.to; context = ctx };
      result = record {
        accepted = true;
        new_state = r.to;
        message = described r.description;
        context = ctx;
      };
      notices = state_change m.state r.to e ∷ failure_notices e r.to;
    }

-- `send` behind the lookup: no rule, or the first one with its guard.
unfoldable pub take_rule : ℕ → BettingStateMachine → StateMachineEvent → List TransitionRule → Sent
unfolding refuse guard_failed follow
take_rule now m e [] = refuse m (invalid_transition m.state (event_type e))
take_rule now m e (r ∷ _) =
    if r.requires_guard
    then elim (evaluate_guard now m.state m.context e) [
      | permitted ↦ follow now m e r
      | rejected reason ↦ guard_failed m e reason
    ]
    else follow now m e r

abbrev pub preloaded : BettingStateMachine → StateMachineEvent → BettingStateMachine
preloaded m e = record m { context = preload_context_from_event e m.context }

unfoldable pub send : ℕ → BettingStateMachine → StateMachineEvent → Sent
unfolding preload_context_from_event take_rule find_transitions evaluate_guard
    guard_can_evaluate_entry guard_can_approve_entry guard_can_place_bet guard_can_cash_out
    guard_can_resume guard_can_recover guard_all_entry_conditions guard_browser_healthy
    guard_game_adapter_healthy guard_not_paused guard_kill_switch_off guard_no_open_bet
    guard_cooldown_elapsed guard_round_valid guard_observation_confidence guard_balance_known
    guard_error_threshold guard_cash_out_failure_threshold
send now m e = take_rule now (preloaded m e) e (find_transitions m.state (event_type e))

-- The characters that `trim` takes off.
is_space : ℕ → Bool
is_space c =
    (leb 9 c && leb c 13)
    || c == 32
    || c == 0xa0
    || c == 0x1680
    || (leb 0x2000 c && leb c 0x200a)
    || c == 0x2028
    || c == 0x2029
    || c == 0x202f
    || c == 0x205f
    || c == 0x3000
    || c == 0xfeff

-- `!reason || reason.trim().length === 0`
is_blank : String → Bool
unfolding is_space
is_blank String.[] = true
is_blank (String.◌∷◌ c s) = is_space (code c) && is_blank s

is_valid_source : ForceSource → Bool
is_valid_source (other_source _) = false
is_valid_source _ = true

pub data ForceError : Type 0 where
  empty_reason invalid_source : ForceError

pub data Forced : Type 0 where
  forced_to : BettingStateMachine → List Notice → Forced
  denied : ForceError → Forced

-- `forceState`, which throws before it changes anything.
unfoldable pub force_state : BettingStateMachine → BettingState → String → ForceSource → Forced
unfolding is_blank is_valid_source
force_state m to reason source =
    if is_blank reason
    then denied empty_reason
    else if is_valid_source source
    then forced_to (record m { state = to })
        (failure to (forced source m.state to reason)
          ∷ state_change m.state to (StateMachineEvent.force_state reason)
          ∷ [])
    else denied invalid_source
