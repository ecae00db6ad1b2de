-- ===== src/StateMachine/Runs.antt =====
-- Sequences of `send` with the clock of each call.
use crash_wave.Prelude.{ℕ, ◌≢◌, List, [], ◌∷◌}
use crash_wave.StateMachine.Types.{reset, StateMachineEvent, event_type}
use crash_wave.StateMachine.Dispatch.{BettingStateMachine, send}

unfoldable pub run : BettingStateMachine → List (ℕ × StateMachineEvent) → BettingStateMachine
unfolding send
run m [] = m
run m ((now, e) ∷ es) = run (send now m e).machine es

-- No event of the sequence is a RESET.
abbrev pub NoReset : List (ℕ × StateMachineEvent) → Type 0
NoReset [] = Unit
NoReset ((_, e) ∷ es) = (event_type e ≢ reset) × NoReset es
