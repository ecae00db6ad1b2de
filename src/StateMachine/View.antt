-- ===== src/StateMachine/View.antt =====
-- The three ways in which `send` can end.
use crash_wave.Prelude.{
  ℕ, suc, ◌≡◌, refl, true, false, some, List, [], ◌∷◌, head?, Bool-cases, inl, inr, ◌⊎◌,
}
use crash_wave.StateMachine.Types.{error, StateMachineEvent, event_type}
use crash_wave.StateMachine.Transitions.{TransitionRule, find_transitions}
use crash_wave.StateMachine.Guards.{Reason, GuardResult, permitted, rejected}
use crash_wave.StateMachine.Effects.{
  evaluate_guard, apply_side_effects, should_transition_to_error_on_guard_failure,
}
use crash_wave.StateMachine.Dispatch.{BettingStateMachine, Sent, preloaded, take_rule, send}

abbrev failed : BettingStateMachine → BettingStateMachine
failed m = record {
  state = error;
  context = record (m.context) { consecutive_errors = suc m.context.consecutive_errors };
}

pub data Ends (now : ℕ) (m : BettingStateMachine) (e : StateMachineEvent)
    (rules : List TransitionRule) (s : Sent) : Type 0 where
  refused : s.machine ≡ m → s.result.accepted ≡ false → Ends now m e rules s
  to_error :
      should_transition_to_error_on_guard_failure m.state m.context e ≡ true
      → s.machine ≡ failed m
      → s.result.accepted ≡ true
      → Ends now m e rules s
  followed :
      (r : TransitionRule)
      → head? rules ≡ some r
      → (r.requires_guard ≡ true → evaluate_guard now m.state m.context e ≡ permitted)
      → s.machine ≡ record { state = r.to; context = apply_side_effects now e r.to m.context }
      → s.result.accepted ≡ true
      → Ends now m e rules s

pub GuardResult-cases : (g : GuardResult) → (g ≡ permitted) ⊎ ((r : Reason) × (g ≡ rejected r))
GuardResult-cases permitted = inl refl
GuardResult-cases (rejected r) = inr (r, refl)

take_rule-Ends :
    (now : ℕ) (m : BettingStateMachine) (e : StateMachineEvent) (rules : List TransitionRule)
    → Ends now m e rules (take_rule now m e rules)
unfolding take_rule
take_rule-Ends now m e [] = refused refl refl
take_rule-Ends now m e (r ∷ rs) = elim (Bool-cases r.requires_guard) [
  | inr free ↦ followed r refl (λ g. cc) (rw free) (rw free)
  | inl guarded ↦ elim (GuardResult-cases (evaluate_guard now m.state m.context e)) [
    | inl ok ↦ followed r refl (λ _. ok) (rw (guarded, ok)) (rw (guarded, ok))
    | inr (why, bad) ↦
        elim (Bool-cases (should_transition_to_error_on_guard_failure m.state m.context e)) [
          | inl fatal ↦ to_error fatal (rw (guarded, bad, fatal)) (rw (guarded, bad, fatal))
          | inr mild ↦ refused (rw (guarded, bad, mild)) (rw (guarded, bad, mild))
        ]
  ]
]

pub send-Ends :
    (now : ℕ) (m : BettingStateMachine) (e : StateMachineEvent)
    → Ends now (preloaded m e) e (find_transitions m.state (event_type e)) (send now m e)
unfolding send
send-Ends now m e = take_rule-Ends now (preloaded m e) e (find_transitions m.state (event_type e))
