-- ===== src/CashOut/Resolution.antt =====
-- The promise that `runMonitor` of cashout.ts resolves.
use Prim.Native.Nat.{ℕ}
use crash_wave.Prelude.{
  ◌≡◌, refl, true, ◌||◌, some, List, [], ◌∷◌, ◌++◌, is_some, if_cases, if_both, Option-cases, inl,
  inr,
}
use crash_wave.CashOut.Controller.{
  CashOutMonitorResult, Monitor, resolve_once, should_trigger, on_tick, on_crash, deliver,
  on_answer, on_safety_timeout, Happening, tick, crash, answer, safety_timeout, aborting, step, run,
}

module _ (r : CashOutMonitorResult) where
  -- The promise has resolved to `r`.
  abbrev pub ResolvedTo : Monitor → Type 0
  ResolvedTo m = m.resolution ≡ some r

  resolved : (m : Monitor) → ResolvedTo m → is_some m.resolution ≡ true
  resolved m h = rw h refl

  resolve_once-ResolvedTo :
      (q : CashOutMonitorResult) (m : Monitor) → ResolvedTo m → ResolvedTo (resolve_once q m)
  unfolding resolve_once
  resolve_once-ResolvedTo q m h =
      if_cases ResolvedTo (is_some m.resolution) (λ _. h) (λ no. cc (resolved m h))

  step-ResolvedTo :
      (target : ℕ) (e : Happening) (m : Monitor) → ResolvedTo m → ResolvedTo (step target e m)
  unfolding step on_tick on_crash on_answer deliver on_safety_timeout
  step-ResolvedTo target (tick x) m h =
      if_cases ResolvedTo (is_some m.resolution || m.aborted) (λ _. h)
        (λ no. if_both ResolvedTo (should_trigger target x m) h h)
  step-ResolvedTo target crash m h =
      if_cases ResolvedTo (is_some m.resolution) (λ _. h) (λ no. cc (resolved m h))
  step-ResolvedTo target (answer q w) m h =
      if_cases ResolvedTo m.pending
        (λ _. if_cases ResolvedTo (is_some m.resolution) (λ _. h) (λ no. cc (resolved m h)))
        (λ _. h)
  step-ResolvedTo target safety_timeout m h = resolve_once-ResolvedTo _ m h
  step-ResolvedTo target aborting m h = h

  -- A monitor that has resolved keeps its result, whatever happens afterwards.
  pub run-ResolvedTo :
      (target : ℕ) (hs : List Happening) (m : Monitor) → ResolvedTo m → ResolvedTo (run target hs m)
  run-ResolvedTo target [] m h = h
  run-ResolvedTo target (e ∷ hs) m h =
      run-ResolvedTo target hs (step target e m) (step-ResolvedTo target e m h)

timeout_resolves :
    (target : ℕ) (m : Monitor) → is_some (step target safety_timeout m).resolution ≡ true
unfolding step on_safety_timeout resolve_once
timeout_resolves target m =
    if_cases (λ (n : Monitor). is_some n.resolution ≡ true) (is_some m.resolution) (λ yes. yes)
      (λ _. refl)

resolved_stays :
    (target : ℕ) (hs : List Happening) (m : Monitor)
    → is_some m.resolution ≡ true
    → is_some (run target hs m).resolution ≡ true
resolved_stays target hs m h = elim (Option-cases m.resolution) [
  | inl e ↦ cc
  | inr (r, e) ↦ rw (run-ResolvedTo r target hs m e) refl
]

-- The promise resolves: every run in which the safety timeout passes has a result at its end.
pub run-resolved :
    (target : ℕ) (before behind : List Happening) (m : Monitor)
    → is_some (run target (before ++ (safety_timeout ∷ behind)) m).resolution ≡ true
run-resolved target [] behind m =
    resolved_stays target behind (step target safety_timeout m) (timeout_resolves target m)
run-resolved target (e ∷ before) behind m = run-resolved target before behind (step target e m)
