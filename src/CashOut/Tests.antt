-- ===== src/CashOut/Tests.antt =====
-- Runs of a monitor, and each theorem at an input of its own.
use crash_wave.Prelude.{◌≡◌, refl, true, none, some, List, [], ◌∷◌, ◌++◌, leb, find, is_some}
use crash_wave.Betting.Types.{returned}
use crash_wave.CashOut.Controller.{
  CashOutResult, lost_result, new_monitor, Happening, tick, crash, answer, safety_timeout, aborting,
  step, run,
}
use crash_wave.CashOut.Monitor.{Consistent, run-Consistent}
use crash_wave.CashOut.Resolution.{ResolvedTo, run-ResolvedTo, run-resolved}
use crash_wave.CashOut.Ticks.{ticks, run-ticks}

abbrev paid : CashOutResult
paid = record { success = true; multiplier = some 131; pnl = some 217; error = none }

-- The target, the crash while the cash-out is in flight, and its answer.
abbrev won : List Happening
won =
    tick 100
    ∷ tick 131
    ∷ tick 140
    ∷ crash
    ∷ answer (returned true) (returned paid)
    ∷ safety_timeout
    ∷ []

won_requests : (run 130 won new_monitor).requests ≡ 1
unfolding step
won_requests = refl

run-Consistent_example : Consistent 130 (run 130 won new_monitor)
run-Consistent_example = run-Consistent 130 won

final_result_example :
    ResolvedTo lost_result (run 130 won (run 130 (tick 110 ∷ crash ∷ []) new_monitor))
unfolding step
final_result_example =
    run-ResolvedTo lost_result 130 won (run 130 (tick 110 ∷ crash ∷ []) new_monitor) refl

resolved_example :
    is_some (run 130 ((aborting ∷ []) ++ (safety_timeout ∷ won)) new_monitor).resolution ≡ true
resolved_example = run-resolved 130 (aborting ∷ []) won new_monitor

ticks_example :
    (run 130 (ticks (100 ∷ 135 ∷ 150 ∷ [])) new_monitor).state.triggered_at_multiplier
    ≡ find (leb 130) (100 ∷ 135 ∷ 150 ∷ [])
ticks_example = run-ticks 130 (100 ∷ 135 ∷ 150 ∷ [])
