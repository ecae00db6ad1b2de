-- ===== src/StateMachine/Table.antt =====
-- Facts about the transition table of transitions.ts, read off by evaluating a test on each rule.
use crash_wave.Prelude.{
  ℕ, ◌≡◌, refl, sym, ap, ◌∙◌, Bool, true, ◌&&◌, some, ◌==◌, ==_iff, and_parts, every, head?,
  head?-select, if◌then◌else◌,
}
use crash_wave.StateMachine.Types.{
  BettingState, idle, ready_to_observe, observing, entry_evaluating, entry_approved, bet_placing,
  bet_active, cash_out_armed, cash_out_requested, round_complete, result_recorded, cooldown, paused,
  error, halted, reconciling, EventType, state_index, event_index, same_state, same_event,
  browser_ready, authenticated, game_loaded, round_started, risk_approved, risk_rejected,
  entry_checks_passed, entry_checks_failed, bet_submitted, bet_confirmed, bet_placement_failed,
  bet_placement_timeout, multiplier_reached_target, cash_out_triggered, cash_out_confirmed,
  cash_out_failed, cash_out_timeout, round_crashed, outcome_recorded, cooldown_elapsed,
  pause_requested, resume_requested, recover, recovery_complete, reconcile, reconciliation_complete,
  stale_multiplier, health_degraded, critical_error, halt, reset, force_state,
}
use crash_wave.StateMachine.Transitions.{TransitionRule, transition_rules, find_transitions}

unfoldable pub state_of : ℕ → BettingState
state_of n =
    if n == 0
    then idle
    else if n == 1
    then ready_to_observe
    else if n == 2
    then observing
    else if n == 3
    then entry_evaluating
    else if n == 4
    then entry_approved
    else if n == 5
    then bet_placing
    else if n == 6
    then bet_active
    else if n == 7
    then cash_out_armed
    else if n == 8
    then cash_out_requested
    else if n == 9
    then round_complete
    else if n == 10
    then result_recorded
    else if n == 11
    then cooldown
    else if n == 12
    then paused
    else if n == 13
    then error
    else if n == 14
    then halted
    else reconciling

pub state_of-index : (s : BettingState) → state_of (state_index s) ≡ s
unfolding state_of
state_of-index idle = refl
state_of-index _ = refl

pub eq_of_same_state : (s t : BettingState) → same_state s t ≡ true → s ≡ t
eq_of_same_state s t h =
    sym (state_of-index s)
    ∙ ap state_of ((==_iff (state_index s) (state_index t)).0 h)
    ∙ state_of-index t

unfoldable pub event_of : ℕ → EventType
event_of n =
    if n == 0
    then browser_ready
    else if n == 1
    then authenticated
    else if n == 2
    then game_loaded
    else if n == 3
    then round_started
    else if n == 4
    then risk_approved
    else if n == 5
    then risk_rejected
    else if n == 6
    then entry_checks_passed
    else if n == 7
    then entry_checks_failed
    else if n == 8
    then bet_submitted
    else if n == 9
    then bet_confirmed
    else if n == 10
    then bet_placement_failed
    else if n == 11
    then bet_placement_timeout
    else if n == 12
    then multiplier_reached_target
    else if n == 13
    then cash_out_triggered
    else if n == 14
    then cash_out_confirmed
    else if n == 15
    then cash_out_failed
    else if n == 16
    then cash_out_timeout
    else if n == 17
    then round_crashed
    else if n == 18
    then outcome_recorded
    else if n == 19
    then cooldown_elapsed
    else if n == 20
    then pause_requested
    else if n == 21
    then resume_requested
    else if n == 22
    then recover
    else if n == 23
    then recovery_complete
    else if n == 24
    then reconcile
    else if n == 25
    then reconciliation_complete
    else if n == 26
    then stale_multiplier
    else if n == 27
    then health_degraded
    else if n == 28
    then critical_error
    else if n == 29
    then halt
    else if n == 30
    then reset
    else force_state

pub event_of-index : (e : EventType) → event_of (event_index e) ≡ e
unfolding event_of
event_of-index browser_ready = refl
event_of-index _ = refl

pub eq_of_same_event : (d e : EventType) → same_event d e ≡ true → d ≡ e
eq_of_same_event d e h =
    sym (event_of-index d)
    ∙ ap event_of ((==_iff (event_index d) (event_index e)).0 h)
    ∙ event_of-index e

unfoldable pub every_rule : (TransitionRule → Bool) → Bool
unfolding transition_rules
every_rule p = every p transition_rules

-- A test that every rule of the table passes holds of the rule that is found, which starts at the
-- state that was looked up.
pub found_rule :
    (p : TransitionRule → Bool) (s : BettingState) (e : EventType) {r : TransitionRule}
    → every_rule p ≡ true
    → head? (find_transitions s e) ≡ some r
    → (p r ≡ true) × (r.from ≡ s) × (r.event ≡ e)
unfolding find_transitions every_rule
found_rule p s e {r} h f =
    let (passes, fits) =
      head?-select p (λ r'. same_state r'.from s && same_event r'.event e) transition_rules r h f in
    let (from, event) = and_parts (same_state r.from s) (same_event r.event e) fits in
    (passes, eq_of_same_state r.from s from, eq_of_same_event r.event e event)
