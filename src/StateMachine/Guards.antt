-- ===== src/StateMachine/Guards.antt =====
-- src/core/state-machine/guards.ts. A guard that rejects names its reason, one constructor for
-- each message of the source. `now` is `Date.now()`.
use crash_wave.Prelude.{
  ℕ, Bool, true, false, not, ◌&&◌, ◌+◌, Option, none, some, String, List, [], ◌∷◌, ltb, leb,
  if◌then◌else◌, truthy?, is_some,
}
use crash_wave.StateMachine.Types.{
  RoundPhase, starting, running, ObservationConfidence, low, medium, high, RoundState,
  StateMachineEvent, StateMachineContext,
}

pub data Reason : Type 0 where
  browser_unhealthy adapter_unhealthy confidence_too_low system_paused kill_switch_engaged : Reason
  open_bet_already cooldown_active no_round_state round_id_missing : Reason
  phase_not_bettable : RoundPhase → Reason
  balance_unknown error_threshold cash_out_threshold : Reason
  needs_round_started needs_risk_approved needs_bet_event needs_cash_out_event : Reason
  no_open_bet bet_id_missing not_paused kill_switch_blocks_resume manual_reset_required : Reason

pub data GuardResult : Type 0 where
  permitted : GuardResult
  rejected : Reason → GuardResult

-- `if (blocked) return { permitted: false, reason }; return { permitted: true }`.
abbrev reject_if : Bool → Reason → GuardResult
reject_if b r = if b then rejected r else permitted

unfoldable pub guard_browser_healthy : StateMachineContext → GuardResult
guard_browser_healthy ctx = reject_if (not ctx.browser_healthy) browser_unhealthy

unfoldable pub guard_game_adapter_healthy : StateMachineContext → GuardResult
guard_game_adapter_healthy ctx = reject_if (not ctx.game_adapter_healthy) adapter_unhealthy

abbrev pub level : ObservationConfidence → ℕ
level low = 1
level medium = 2
level high = 3

abbrev pub confidence_of : Option RoundState → ObservationConfidence
confidence_of none = low
confidence_of (some r) = r.confidence

unfoldable pub guard_observation_confidence : StateMachineContext → GuardResult
guard_observation_confidence ctx =
    reject_if (ltb (level (confidence_of ctx.round_state)) (level ctx.min_confidence_for_entry))
      confidence_too_low

unfoldable pub guard_not_paused : StateMachineContext → GuardResult
guard_not_paused ctx = reject_if ctx.is_paused system_paused

unfoldable pub guard_kill_switch_off : StateMachineContext → GuardResult
guard_kill_switch_off ctx = reject_if ctx.kill_switch kill_switch_engaged

unfoldable pub guard_no_open_bet : StateMachineContext → GuardResult
guard_no_open_bet ctx = reject_if ctx.open_bet_exists open_bet_already

-- `elapsed < cooldownMs` with `elapsed = now - last`, which is negative for a `last` in the future.
abbrev cooling : ℕ → ℕ → Option ℕ → Bool
cooling now cooldown none = false
cooling now cooldown (some last) = ltb now (last + cooldown)

unfoldable pub guard_cooldown_elapsed : ℕ → StateMachineContext → GuardResult
guard_cooldown_elapsed now ctx =
    reject_if (cooling now ctx.cooldown_ms ctx.last_bet_at) cooldown_active

abbrev pub is_bettable : RoundPhase → Bool
is_bettable starting = true
is_bettable running = true
is_bettable _ = false

-- The checks of `guardRoundValid` once there is a round state.
abbrev round_checks : Option String → Option String → RoundState → GuardResult
round_checks current event_round r =
    if not (truthy? current) && not (truthy? event_round)
    then rejected round_id_missing
    else reject_if (not (is_bettable r.phase)) (phase_not_bettable r.phase)

unfoldable pub guard_round_valid : StateMachineContext → Option String → GuardResult
guard_round_valid ctx event_round = elim ctx.round_state [
  | none ↦ rejected no_round_state
  | some r ↦ round_checks ctx.current_round_id event_round r
]

unfoldable pub guard_balance_known : StateMachineContext → GuardResult
guard_balance_known ctx = reject_if (not (is_some ctx.current_balance)) balance_unknown

unfoldable pub guard_error_threshold : StateMachineContext → GuardResult
guard_error_threshold ctx =
    reject_if (leb ctx.max_consecutive_errors ctx.consecutive_errors) error_threshold

unfoldable pub guard_cash_out_failure_threshold : StateMachineContext → GuardResult
guard_cash_out_failure_threshold ctx =
    reject_if (leb ctx.max_cash_out_failures ctx.cash_out_failures) cash_out_threshold

-- The loop over the guards: the first rejection, or a permission.
abbrev pub first_rejection : List GuardResult → GuardResult
first_rejection [] = permitted
first_rejection (permitted ∷ rest) = first_rejection rest
first_rejection (rejected r ∷ rest) = rejected r

abbrev pub event_round_id : StateMachineEvent → Option String
event_round_id (StateMachineEvent.round_started id _) = some id
event_round_id _ = none

unfoldable pub guard_all_entry_conditions :
    ℕ → StateMachineContext → StateMachineEvent → GuardResult
guard_all_entry_conditions now ctx e = first_rejection (
    guard_browser_healthy ctx
    ∷ guard_game_adapter_healthy ctx
    ∷ guard_not_paused ctx
    ∷ guard_kill_switch_off ctx
    ∷ guard_no_open_bet ctx
    ∷ guard_cooldown_elapsed now ctx
    ∷ guard_round_valid ctx (event_round_id e)
    ∷ guard_observation_confidence ctx
    ∷ guard_balance_known ctx
    ∷ guard_error_threshold ctx
    ∷ guard_cash_out_failure_threshold ctx
    ∷ [])

unfoldable pub guard_can_evaluate_entry : ℕ → StateMachineContext → StateMachineEvent → GuardResult
guard_can_evaluate_entry now ctx (StateMachineEvent.round_started id r) = first_rejection (
    guard_round_valid ctx (some id)
    ∷ guard_all_entry_conditions now ctx (StateMachineEvent.round_started id r)
    ∷ [])
guard_can_evaluate_entry now ctx _ = rejected needs_round_started

unfoldable pub guard_can_approve_entry : ℕ → StateMachineContext → StateMachineEvent → GuardResult
guard_can_approve_entry now ctx StateMachineEvent.risk_approved =
    guard_all_entry_conditions now ctx StateMachineEvent.risk_approved
guard_can_approve_entry now ctx _ = rejected needs_risk_approved

unfoldable pub guard_can_place_bet : ℕ → StateMachineContext → StateMachineEvent → GuardResult
guard_can_place_bet now ctx StateMachineEvent.entry_checks_passed =
    guard_all_entry_conditions now ctx StateMachineEvent.entry_checks_passed
guard_can_place_bet now ctx (StateMachineEvent.bet_submitted id) =
    guard_all_entry_conditions now ctx (StateMachineEvent.bet_submitted id)
guard_can_place_bet now ctx _ = rejected needs_bet_event

-- The checks of `guardCanCashOut` behind the one on the event.
abbrev cash_out_checks : StateMachineContext → GuardResult
cash_out_checks ctx =
    if not ctx.open_bet_exists
    then rejected no_open_bet
    else reject_if (not (truthy? ctx.current_bet_id)) bet_id_missing

unfoldable pub guard_can_cash_out : StateMachineContext → StateMachineEvent → GuardResult
guard_can_cash_out ctx StateMachineEvent.multiplier_reached_target = cash_out_checks ctx
guard_can_cash_out ctx StateMachineEvent.cash_out_triggered = cash_out_checks ctx
guard_can_cash_out ctx _ = rejected needs_cash_out_event

unfoldable pub guard_can_resume : StateMachineContext → GuardResult
guard_can_resume ctx =
    if not ctx.is_paused
    then rejected not_paused
    else reject_if ctx.kill_switch kill_switch_blocks_resume

unfoldable pub guard_can_recover : StateMachineContext → GuardResult
guard_can_recover ctx =
    reject_if (leb ctx.max_consecutive_errors ctx.consecutive_errors) manual_reset_required
