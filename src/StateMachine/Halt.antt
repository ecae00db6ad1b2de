-- ===== src/StateMachine/Halt.antt =====
-- The kill switch and the states HALTED and CASH_OUT_ARMED.
use crash_wave.Prelude.{ℕ, ◌≡◌, ◌≢◌, refl, Bool, true, false, ◌||◌, not, List, [], ◌∷◌, arith}
use crash_wave.StateMachine.Types.{
  BettingState, bet_placing, cash_out_armed, error, halted, result_recorded, cash_out_triggered,
  reconcile, reset, StateMachineEvent, StateMachineContext, event_type, same_state, same_event,
}
use crash_wave.StateMachine.Transitions.{TransitionRule, find_transitions}
use crash_wave.StateMachine.Effects.{
  preload_context_from_event, apply_side_effects, effects_of_event, effects_of_target,
  count_failure, should_transition_to_error_on_guard_failure,
}
use crash_wave.StateMachine.Dispatch.{BettingStateMachine, preloaded, send}
use crash_wave.StateMachine.Table.{found_rule, every_rule, eq_of_same_event}
use crash_wave.StateMachine.View.{Ends, refused, to_error, followed, send-Ends}
use crash_wave.StateMachine.Entry.{send-bet_placing}
use crash_wave.StateMachine.Runs.{run, NoReset}

kill_switch-preload :
    (e : StateMachineEvent) (ctx : StateMachineContext)
    → (preload_context_from_event e ctx).kill_switch ≡ ctx.kill_switch
unfolding preload_context_from_event
kill_switch-preload (StateMachineEvent.round_started _ _) ctx = refl
kill_switch-preload _ ctx = refl

kill_switch-effects_of_event :
    (e : StateMachineEvent) (ctx : StateMachineContext)
    → ctx.kill_switch ≡ true
    → event_type e ≢ reset
    → (effects_of_event e ctx).kill_switch ≡ true
unfolding effects_of_event
kill_switch-effects_of_event StateMachineEvent.reset ctx h n = absurd (n refl)
kill_switch-effects_of_event (StateMachineEvent.halt _) ctx h n = refl
kill_switch-effects_of_event _ ctx h n = h

kill_switch-count_failure :
    (e : StateMachineEvent) (ctx : StateMachineContext)
    → (count_failure e ctx).kill_switch ≡ ctx.kill_switch
unfolding count_failure
kill_switch-count_failure StateMachineEvent.bet_placement_timeout ctx = refl
kill_switch-count_failure _ ctx = refl

kill_switch-effects_of_target :
    (now : ℕ) (e : StateMachineEvent) (to : BettingState) (ctx : StateMachineContext)
    → (effects_of_target now e to ctx).kill_switch ≡ ctx.kill_switch
unfolding effects_of_target
kill_switch-effects_of_target now e error ctx = kill_switch-count_failure e ctx
kill_switch-effects_of_target now e result_recorded ctx = refl
kill_switch-effects_of_target now e _ ctx = refl

kill_switch-apply :
    (now : ℕ) (e : StateMachineEvent) (to : BettingState) (ctx : StateMachineContext)
    → ctx.kill_switch ≡ true
    → event_type e ≢ reset
    → (apply_side_effects now e to ctx).kill_switch ≡ true
unfolding apply_side_effects
kill_switch-apply now e to ctx h n = cc (
  kill_switch-effects_of_target now e to (effects_of_event e ctx),
  kill_switch-effects_of_event e ctx h n,
)

-- Only a RESET turns the kill switch off.
pub send-kill_switch :
    (now : ℕ) (m : BettingStateMachine) (e : StateMachineEvent)
    → m.context.kill_switch ≡ true
    → event_type e ≢ reset
    → (send now m e).machine.context.kill_switch ≡ true
send-kill_switch now m e h n = go (send-Ends now m e)
  where
    on : (preload_context_from_event e m.context).kill_switch ≡ true
    on = cc (kill_switch-preload e m.context)

    go :
        Ends now (preloaded m e) e (find_transitions m.state (event_type e)) (send now m e)
        → (send now m e).machine.context.kill_switch ≡ true
    go (refused same _) = rw same on
    go (to_error _ same _) = rw same on
    go (followed r _ _ same _) = rw same (kill_switch-apply now e r.to _ on n)

-- From a machine with the kill switch on that is not in BET_PLACING, no sequence of events without
-- a RESET leads into BET_PLACING, and the switch stays on.
pub run-kill_switch :
    (m : BettingStateMachine) (es : List (ℕ × StateMachineEvent))
    → m.context.kill_switch ≡ true
    → m.state ≢ bet_placing
    → NoReset es
    → ((run m es).state ≢ bet_placing) × ((run m es).context.kill_switch ≡ true)
unfolding run
run-kill_switch m [] h s n = (s, h)
run-kill_switch m ((now, e) ∷ es) h s (n, ns) =
    run-kill_switch (send now m e).machine es (send-kill_switch now m e h n)
      (λ b. cc (h, (send-bet_placing now m e s b).1.armed)) ns

-- Every rule from HALTED is the RESET.
abbrev leaves_halted_by_reset : TransitionRule → Bool
leaves_halted_by_reset r = not (same_state r.from halted) || same_event r.event reset

leaves_halted_by_reset_all : every_rule leaves_halted_by_reset ≡ true
unfolding every_rule
leaves_halted_by_reset_all = refl

abbrev leaves_armed : TransitionRule → Bool
leaves_armed r =
    not (same_state r.from cash_out_armed)
    || same_event r.event cash_out_triggered
    || same_event r.event reconcile

leaves_armed_all : every_rule leaves_armed ≡ true
unfolding every_rule
leaves_armed_all = refl

error_guard_state :
    (s : BettingState) (ctx : StateMachineContext) (e : StateMachineEvent)
    → should_transition_to_error_on_guard_failure s ctx e ≡ true
    → (s ≢ halted) × (s ≢ cash_out_armed)
unfolding should_transition_to_error_on_guard_failure
error_guard_state halted ctx e h = cc
error_guard_state cash_out_armed ctx e h = cc
error_guard_state _ ctx e h = (λ p. cc, λ p. cc)

-- HALTED is left by a RESET alone: any other event is refused and the machine stays halted.
pub send-halted :
    (now : ℕ) (m : BettingStateMachine) (e : StateMachineEvent)
    → m.state ≡ halted
    → event_type e ≢ reset
    → ((send now m e).machine.state ≡ halted) × ((send now m e).result.accepted ≡ false)
send-halted now m e h n = go (send-Ends now m e)
  where
    go :
        Ends now (preloaded m e) e (find_transitions m.state (event_type e)) (send now m e)
        → ((send now m e).machine.state ≡ halted) × ((send now m e).result.accepted ≡ false)
    go (refused same no_change) = (rw same h, no_change)
    go (to_error fatal _ _) = absurd ((error_guard_state m.state _ e fatal).0 h)
    go (followed r found _ _ _) =
        let (test, from, event) =
          found_rule leaves_halted_by_reset m.state (event_type e) leaves_halted_by_reset_all
            found in
        absurd (n (ground (arith, eq_of_same_event r.event reset)))

-- CASH_OUT_ARMED reacts to CASH_OUT_TRIGGERED and RECONCILE alone: every other event, the crash of
-- the round and HALT included, is refused and leaves the machine armed.
pub send-cash_out_armed :
    (now : ℕ) (m : BettingStateMachine) (e : StateMachineEvent)
    → m.state ≡ cash_out_armed
    → event_type e ≢ cash_out_triggered
    → event_type e ≢ reconcile
    → ((send now m e).machine.state ≡ cash_out_armed) × ((send now m e).result.accepted ≡ false)
send-cash_out_armed now m e h n k = go (send-Ends now m e)
  where
    go :
        Ends now (preloaded m e) e (find_transitions m.state (event_type e)) (send now m e)
        → ((send now m e).machine.state ≡ cash_out_armed) × ((send now m e).result.accepted ≡ false)
    go (refused same no_change) = (rw same h, no_change)
    go (to_error fatal _ _) = absurd ((error_guard_state m.state _ e fatal).1 h)
    go (followed r found _ _ _) =
        let (test, from, event) =
          found_rule leaves_armed m.state (event_type e) leaves_armed_all found in
        absurd (
          ground (
            arith,
            eq_of_same_event r.event cash_out_triggered,
            eq_of_same_event r.event reconcile,
          ))
