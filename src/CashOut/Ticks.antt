-- ===== src/CashOut/Ticks.antt =====
-- Which tick triggers the cash-out of cashout.ts.
use Prim.Native.Nat.{ℕ}
use crash_wave.Prelude.{
  ◌≡◌, refl, ap, ◌∙◌, true, false, ◌||◌, List, [], ◌∷◌, leb, find, is_some, arith, if_cases,
  if_both, Bool-cases, inl, inr,
}
use crash_wave.CashOut.Controller.{
  Monitor, new_monitor, should_trigger, triggered_at, on_tick, Happening, tick, step, run,
}

abbrev pub ticks : List ℕ → List Happening
ticks [] = []
ticks (x ∷ xs) = tick x ∷ ticks xs

-- Ticks behind the trigger change nothing.
ticks_triggered :
    (target : ℕ) (xs : List ℕ) (m : Monitor)
    → m.state.triggered ≡ true
    → run target (ticks xs) m ≡ m
unfolding step on_tick
ticks_triggered target [] m h = refl
ticks_triggered target (x ∷ xs) m h =
    if_both (λ (n : Monitor). run target (ticks xs) n ≡ m) (is_some m.resolution || m.aborted)
      (ticks_triggered target xs m h)
      (if_cases (λ (n : Monitor). run target (ticks xs) n ≡ m) (should_trigger target x m)
        (λ go. ground (arith, go, h)) (λ _. ticks_triggered target xs m h))

first_hit :
    (target x : ℕ) → leb target x ≡ true → on_tick target x new_monitor ≡ triggered_at x new_monitor
unfolding on_tick
first_hit target x h = rw h refl

first_miss : (target x : ℕ) → leb target x ≡ false → on_tick target x new_monitor ≡ new_monitor
unfolding on_tick
first_miss target x h = rw h refl

-- A stream of ticks triggers at its first multiplier that is at the target or above, and at none
-- when there is no such multiplier.
pub run-ticks :
    (target : ℕ) (xs : List ℕ)
    → (run target (ticks xs) new_monitor).state.triggered_at_multiplier ≡ find (leb target) xs
unfolding step
run-ticks target [] = refl
run-ticks target (x ∷ xs) = elim (Bool-cases (leb target x)) [
  | inl hit ↦ rw hit (
      ap (λ (n : Monitor). (run target (ticks xs) n).state.triggered_at_multiplier)
        (first_hit target x hit)
      ∙ ap (λ (n : Monitor). n.state.triggered_at_multiplier)
          (ticks_triggered target xs (triggered_at x new_monitor) refl))
  | inr miss ↦ rw miss (
      ap (λ (n : Monitor). (run target (ticks xs) n).state.triggered_at_multiplier)
        (first_miss target x miss)
      ∙ run-ticks target xs)
]
