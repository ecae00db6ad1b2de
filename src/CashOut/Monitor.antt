-- ===== src/CashOut/Monitor.antt =====
-- The invariant of the monitor of cashout.ts.
use Prim.Native.Nat.{ℕ}
use crash_wave.Prelude.{
  ◌≡◌, refl, Bool, true, false, not, ◌&&◌, ◌||◌, Option, none, some, List, [], ◌∷◌, leb,
  if◌then◌else◌, is_some, arith, if_cases, if_both,
}
use crash_wave.Betting.Types.{BetState, Outcome, Done, done}
use crash_wave.CashOut.Controller.{
  CashOutResult, CashOutMonitorResult, Monitor, new_monitor, execute_cash_out, resolve_once,
  should_trigger, on_tick, lost_result, on_crash, deliver, on_answer, on_safety_timeout, Happening,
  tick, crash, answer, safety_timeout, aborting, step, run,
}

-- The recorded trigger is there and at the target or above.
abbrev pub target_reached : ℕ → Option ℕ → Bool
target_reached target none = false
target_reached target (some x) = leb target x

-- What a final state says, by whether a cash-out was triggered.
abbrev pub StateTold : BetState → Bool → Bool → Type 0
StateTold BetState.cashed_out success triggered = (success ≡ true) × (triggered ≡ true)
StateTold BetState.failed success triggered = (success ≡ false) × (triggered ≡ true)
StateTold BetState.lost success triggered = (success ≡ false) × (triggered ≡ false)
StateTold _ success triggered = success ≡ false

abbrev pub Told : Option CashOutMonitorResult → Bool → Type 0
Told none triggered = Done
Told (some r) triggered = StateTold r.final_state r.success triggered

-- The monitor's invariant.
pub record Consistent (target : ℕ) (m : Monitor) : Type 0 where
  pub flight : m.cash_out_in_flight ≡ m.state.triggered
  pub reached : m.state.triggered ≡ target_reached target m.state.triggered_at_multiplier
  pub one_request : m.requests ≡ (if m.state.triggered then 1 else 0)
  pub pending_triggered : (m.pending && not m.state.triggered) ≡ false
  pub told : Told m.resolution m.state.triggered

on_tick-Consistent :
    (target x : ℕ) (m : Monitor) → Consistent target m → Consistent target (on_tick target x m)
unfolding on_tick
on_tick-Consistent target x m h =
    if_cases (Consistent target) (is_some m.resolution || m.aborted) (λ _. h)
      (λ free.
        if_cases (Consistent target) (should_trigger target x m)
          (λ go. record {
            flight = refl;
            reached = ground (arith, go);
            one_request = ground (arith, go, h.one_request);
            pending_triggered = refl;
            told = open_told m.resolution (ground (arith, free));
          })
          (λ _. h))
  where
    open_told : (o : Option CashOutMonitorResult) → is_some o ≡ false → Told o true
    open_told none e = done
    open_told (some r) e = cc

resolve_once-Consistent :
    (target : ℕ) (r : CashOutMonitorResult) (m : Monitor)
    → StateTold r.final_state r.success m.state.triggered
    → Consistent target m
    → Consistent target (resolve_once r m)
unfolding resolve_once
resolve_once-Consistent target r m t h =
    if_both (Consistent target) (is_some m.resolution) h (record {
      flight = h.flight;
      reached = h.reached;
      one_request = h.one_request;
      pending_triggered = h.pending_triggered;
      told = t;
    })

on_crash-Consistent :
    (target : ℕ) (m : Monitor) → Consistent target m → Consistent target (on_crash m)
unfolding on_crash
on_crash-Consistent target m h = if_both (Consistent target) (is_some m.resolution) h (
    if_both (Consistent target) m.cash_out_in_flight h (
      if_cases (Consistent target) m.state.triggered (λ _. h)
        (λ free. resolve_once-Consistent target lost_result m (refl, free) h)))

deliver-Consistent :
    (target : ℕ) (r : CashOutResult) (m : Monitor)
    → m.state.triggered ≡ true
    → Consistent target m
    → Consistent target (deliver r m)
unfolding deliver
deliver-Consistent target r m t h = if_both (Consistent target) (is_some m.resolution) h (
    if_both (Consistent target) r.success
      (resolve_once-Consistent target _ _ (refl, t)
        (record {
          flight = h.flight;
          reached = h.reached;
          one_request = h.one_request;
          pending_triggered = h.pending_triggered;
          told = h.told;
        }))
      (resolve_once-Consistent target _ _ (refl, t)
        (record {
          flight = h.flight;
          reached = h.reached;
          one_request = h.one_request;
          pending_triggered = h.pending_triggered;
          told = h.told;
        })))

on_answer-Consistent :
    (target : ℕ) (q : Outcome Bool) (w : Outcome CashOutResult) (m : Monitor)
    → Consistent target m
    → Consistent target (on_answer q w m)
unfolding on_answer
on_answer-Consistent target q w m h =
    if_cases (Consistent target) m.pending
      (λ waiting.
        deliver-Consistent target (execute_cash_out q w) (record m { pending = false })
          (ground (arith, h.pending_triggered, waiting))
          (record {
            flight = h.flight;
            reached = h.reached;
            one_request = h.one_request;
            pending_triggered = refl;
            told = h.told;
          }))
      (λ _. h)

step-Consistent :
    (target : ℕ) (e : Happening) (m : Monitor)
    → Consistent target m
    → Consistent target (step target e m)
unfolding step on_safety_timeout
step-Consistent target (tick x) m h = on_tick-Consistent target x m h
step-Consistent target crash m h = on_crash-Consistent target m h
step-Consistent target (answer q w) m h = on_answer-Consistent target q w m h
step-Consistent target safety_timeout m h = resolve_once-Consistent target _ m refl h
step-Consistent target aborting m h = record {
  flight = h.flight;
  reached = h.reached;
  one_request = h.one_request;
  pending_triggered = h.pending_triggered;
  told = h.told;
}

run-Consistent_from :
    (target : ℕ) (hs : List Happening) (m : Monitor)
    → Consistent target m
    → Consistent target (run target hs m)
run-Consistent_from target [] m h = h
run-Consistent_from target (e ∷ hs) m h =
    run-Consistent_from target hs (step target e m) (step-Consistent target e m h)

-- Whatever happens, in any order: the cash-out is requested at most once, and only by a tick at the
-- target or above; CASHED_OUT and FAILED mean that it was requested, and LOST that it was not; no
-- other answer than CASHED_OUT is a success.
pub run-Consistent :
    (target : ℕ) (hs : List Happening) → Consistent target (run target hs new_monitor)
run-Consistent target hs = run-Consistent_from target hs new_monitor (record {
  flight = refl;
  reached = refl;
  one_request = refl;
  pending_triggered = refl;
  told = done;
})
