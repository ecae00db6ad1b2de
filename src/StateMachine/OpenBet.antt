-- ===== src/StateMachine/OpenBet.antt =====
-- The flag `openBetExists` of machine.ts against the state.
use crash_wave.Prelude.{
  ℕ, ◌≡◌, sym, Bool, true, false, none, some, List, [], ◌∷◌, head?, ◌∙◌, ◌⊎◌, inl, inr,
}
use crash_wave.StateMachine.Types.{
  BettingState, bet_confirmed, StateMachineEvent, event_type, same_event,
}
use crash_wave.StateMachine.Transitions.{TransitionRule, find_transitions}
use crash_wave.StateMachine.Guards.{permitted}
use crash_wave.StateMachine.Effects.{apply_side_effects, effects_of_event, evaluate_guard}
use crash_wave.StateMachine.Dispatch.{BettingStateMachine, preloaded, send}
use crash_wave.StateMachine.Config.{
  ContextOverrides, StateMachineConfig, create_state_machine, override, update_context, MachineCall,
  sending, updating, run_machine,
}
use crash_wave.StateMachine.Table.{found_rule, eq_of_same_event}
use crash_wave.StateMachine.View.{Ends, refused, to_error, followed, send-Ends}
use crash_wave.StateMachine.Safety.{guard_all_entry_conditions-EntrySafe}
use crash_wave.StateMachine.BetFlag.{
  expects, BetFlagOk, Follows, FlagOk-apply, FlagOk-intro, is_entry_step, is_bet_step, keeps_flag,
  keeps_flag_all, entry_guard, writes_flag, entry_step_writes, bet_step_writes,
  flag-effects_of_target, flag-effects_of_event, flag-bet_confirmed, flag-preload, keeps_flag-free,
  keeps_flag-held,
}

module _ (now : ℕ) (m : BettingStateMachine) (e : StateMachineEvent) (ok : Follows m) where
  flag_untouched :
      (to : BettingState)
      → writes_flag (event_type e) ≡ false
      → (apply_side_effects now e to m.context).open_bet_exists ≡ m.context.open_bet_exists
  unfolding apply_side_effects
  flag_untouched to h =
      flag-effects_of_target now e to (effects_of_event e m.context)
      ∙ flag-effects_of_event e m.context h

  -- An entry step is guarded, and the guard sees that no bet is open.
  flag-entry_step :
      (to : BettingState)
      → is_entry_step m.state (event_type e) ≡ true
      → evaluate_guard now m.state m.context e ≡ permitted
      → (apply_side_effects now e to m.context).open_bet_exists ≡ false
  flag-entry_step to step guard =
      let safe =
        (guard_all_entry_conditions-EntrySafe now m.context e).0
          (entry_guard now m.state m.context e step guard) in
      flag_untouched to (entry_step_writes m.state (event_type e) step) ∙ safe.single

  flag-held :
      (to : BettingState)
      → (event_type e ≡ bet_confirmed) ⊎ (is_bet_step m.state (event_type e) ≡ true)
      → (apply_side_effects now e to m.context).open_bet_exists ≡ true
  unfolding apply_side_effects
  flag-held to (inl confirmed) =
      flag-effects_of_target now e to (effects_of_event e m.context)
      ∙ flag-bet_confirmed e m.context confirmed
  flag-held to (inr step) =
      let (quiet, held) = bet_step_writes m.state (event_type e) step in
      flag_untouched to quiet ∙ ok true held

  flag-follow :
      (r : TransitionRule)
      → head? (find_transitions m.state (event_type e)) ≡ some r
      → (r.requires_guard ≡ true → evaluate_guard now m.state m.context e ≡ permitted)
      → Follows (record { state = r.to; context = apply_side_effects now e r.to m.context })
  flag-follow r found guard b exp =
      let (test, from, event) = found_rule keeps_flag m.state (event_type e) keeps_flag_all found in
      by_flag b exp
        (λ free.
          let (guarded, step) = keeps_flag-free r test free in
          flag-entry_step r.to (rw (from, event) at step) (guard guarded))
        (λ held. flag-held r.to (move from event (keeps_flag-held r test held)))
    where
      by_flag :
          (b : Bool)
          → expects r.to ≡ some b
          → (expects r.to ≡ some false
              → (apply_side_effects now e r.to m.context).open_bet_exists ≡ false)
          → (expects r.to ≡ some true
              → (apply_side_effects now e r.to m.context).open_bet_exists ≡ true)
          → (apply_side_effects now e r.to m.context).open_bet_exists ≡ b
      by_flag false exp f t = f exp
      by_flag true exp f t = t exp

      move :
          r.from ≡ m.state
          → r.event ≡ event_type e
          → (same_event r.event bet_confirmed ≡ true) ⊎ (is_bet_step r.from r.event ≡ true)
          → (event_type e ≡ bet_confirmed) ⊎ (is_bet_step m.state (event_type e) ≡ true)
      move from event (inl same) = inl (sym event ∙ eq_of_same_event r.event bet_confirmed same)
      move from event (inr step) = inr (rw (from, event) at step)

-- Every event keeps the flag in step with the state: no bet is open on the way from a round's start
-- to the placement, and one is open from its confirmation up to the cash-out.
pub send-BetFlagOk :
    (now : ℕ) (m : BettingStateMachine) (e : StateMachineEvent)
    → BetFlagOk m
    → BetFlagOk (send now m e).machine
send-BetFlagOk now m e ok = FlagOk-intro _ _ (go (send-Ends now m e))
  where
    ok' : Follows (preloaded m e)
    ok' b exp =
        flag-preload e m.context ∙ FlagOk-apply (expects m.state) m.context.open_bet_exists ok b exp

    go :
        Ends now (preloaded m e) e (find_transitions m.state (event_type e)) (send now m e)
        → Follows (send now m e).machine
    go (refused same _) = rw same ok'
    go (to_error _ same _) = rw same (λ b exp. cc)
    go (followed r found guard same _) =
        rw same (flag-follow now (preloaded m e) e ok' r found guard)

-- Every update of the context leaves the flag out.
abbrev pub LeavesFlag : List MachineCall → Type 0
LeavesFlag [] = Unit
LeavesFlag (sending now e ∷ cs) = LeavesFlag cs
LeavesFlag (updating o ∷ cs) = (o.open_bet_exists ≡ none) × LeavesFlag cs

update_context-BetFlagOk :
    (o : ContextOverrides) (m : BettingStateMachine)
    → o.open_bet_exists ≡ none
    → BetFlagOk m
    → BetFlagOk (update_context o m)
unfolding update_context override
update_context-BetFlagOk o m h ok = rw h ok

run_from-BetFlagOk :
    (cs : List MachineCall) (m : BettingStateMachine)
    → LeavesFlag cs
    → BetFlagOk m
    → BetFlagOk (run_machine cs m)
unfolding run_machine
run_from-BetFlagOk [] m h ok = ok
run_from-BetFlagOk (sending now e ∷ cs) m h ok =
    run_from-BetFlagOk cs (send now m e).machine h (send-BetFlagOk now m e ok)
run_from-BetFlagOk (updating o ∷ cs) m (l, h) ok =
    run_from-BetFlagOk cs (update_context o m) h (update_context-BetFlagOk o m l ok)

-- When a machine is created with the flag in step with its state, events and updates of the context
-- that leave the flag out keep it so: a state on the way to a placement has no open bet, and a state
-- between confirmation and cash-out has one.
pub run_machine-BetFlagOk :
    (config : StateMachineConfig) (cs : List MachineCall)
    → BetFlagOk (create_state_machine config)
    → LeavesFlag cs
    → BetFlagOk (run_machine cs (create_state_machine config))
run_machine-BetFlagOk config cs ok h = run_from-BetFlagOk cs (create_state_machine config) h ok
