-- ===== src/Utils/Admission.antt =====
-- When the breaker of src/utils/retry.ts admits a call.
use mathlib.Core.Path.{subst}
use crash_wave.Prelude.{
  ℕ, ◌+◌, ◌<◌, ◌≡◌, refl, sym, ap, none, Bool, true, false, List, [], ◌∷◌, leb, ltb, arith,
  if_cases, if_both, every, and_parts,
}
use crash_wave.Utils.Breaker.{
  CircuitState, closed, opened, half_open, CircuitBreaker, cooled_down, in_state, can_execute,
  success_in, record_success, failure_in, record_failure, BreakerStep, ask, succeed, fail, step,
  run_steps,
}

-- A closed breaker has seen fewer failures in a row than its threshold.
abbrev BelowIn : CircuitState → CircuitBreaker → Type 0
BelowIn closed b = b.failures < b.failure_threshold
BelowIn _ b = 0 < b.failure_threshold

abbrev pub Below : CircuitBreaker → Type 0
Below b = BelowIn b.state b

ask-Below :
    (now : ℕ) (s : CircuitState) (b : CircuitBreaker)
    → b.state ≡ s
    → BelowIn s b
    → Below (in_state s b now).1
unfolding in_state
ask-Below now closed b e h = rw e h
ask-Below now half_open b e h = rw e h
ask-Below now opened b e h =
    if_both (λ (r : Bool × CircuitBreaker). Below r.1)
      (cooled_down b.last_failure_time b.reset_timeout_ms now) h (rw e h)

success-Below :
    (s : CircuitState) (b : CircuitBreaker) → b.state ≡ s → BelowIn s b → Below (success_in s b)
unfolding success_in
success-Below closed b e h = rw e (omega arith)
success-Below half_open b e h =
    if_both Below (leb b.half_open_max_calls (b.half_open_calls + 1)) h (rw e h)
success-Below opened b e h = rw e h

failure-Below :
    (now : ℕ) (s : CircuitState) (b : CircuitBreaker)
    → b.state ≡ s
    → BelowIn s b
    → Below (failure_in s now b)
unfolding failure_in
failure-Below now half_open b e h = h
failure-Below now closed b e h =
    if_cases Below (leb b.failure_threshold (b.failures + 1)) (λ _. omega arith)
      (λ (t : leb b.failure_threshold (b.failures + 1) ≡ false). rw e (ground arith))
failure-Below now opened b e h =
    if_cases Below (leb b.failure_threshold (b.failures + 1)) (λ _. h)
      (λ (t : leb b.failure_threshold (b.failures + 1) ≡ false). rw e h)

step-Below : (s : BreakerStep) (b : CircuitBreaker) → Below b → Below (step s b)
unfolding can_execute record_success record_failure
step-Below (ask now) b h = ask-Below now b.state b refl h
step-Below succeed b h = success-Below b.state b refl h
step-Below (fail now) b h = failure-Below now b.state b refl h

-- A breaker that is closed with fewer failures than its threshold keeps that through any calls,
-- interleaved in any way: whenever it is closed, the failures since the last success are fewer than
-- the threshold.
pub run_steps-Below :
    (ss : List BreakerStep) (b : CircuitBreaker) → Below b → Below (run_steps ss b)
run_steps-Below [] b h = h
run_steps-Below (s ∷ ss) b h = run_steps-Below ss (step s b) (step-Below s b h)

-- A report of success, or a question.
abbrev pub no_failure : BreakerStep → Bool
no_failure (fail now) = false
no_failure _ = true

abbrev Stuck : CircuitBreaker → Type 0
Stuck b = (b.state ≡ opened) × (b.last_failure_time ≡ none)

Stuck-ask :
    (now : ℕ) (s : CircuitState) (b : CircuitBreaker)
    → b.state ≡ s
    → Stuck b
    → in_state s b now ≡ (false, b)
unfolding in_state cooled_down
Stuck-ask now closed b e h = cc
Stuck-ask now half_open b e h = cc
Stuck-ask now opened b e (_, t) = rw t refl

success_leaves :
    (s : CircuitState) (b : CircuitBreaker)
    → b.state ≡ s
    → b.state ≡ opened
    → Stuck (success_in s b)
unfolding success_in
success_leaves closed b e h = cc
success_leaves half_open b e h = cc
success_leaves opened b e h = (h, refl)

Stuck-step :
    (s : BreakerStep) (b : CircuitBreaker) → no_failure s ≡ true → Stuck b → Stuck (step s b)
unfolding can_execute record_success
Stuck-step (ask now) b n h =
    subst Stuck (sym (ap (λ (w : Bool × CircuitBreaker). w.1) (Stuck-ask now b.state b refl h))) h
Stuck-step succeed b n h = success_leaves b.state b refl h.0
Stuck-step (fail now) b n h = cc

Stuck-run :
    (ss : List BreakerStep) (b : CircuitBreaker)
    → every no_failure ss ≡ true
    → Stuck b
    → Stuck (run_steps ss b)
Stuck-run [] b n h = h
Stuck-run (s ∷ ss) b n h =
    let both = and_parts (no_failure s) (every no_failure ss) n in
    Stuck-run ss (step s b) both.1 (Stuck-step s b both.0 h)

-- When a call that was admitted before the breaker opened succeeds after it has, then as long as no
-- failure is reported the breaker admits no call any more, at any time: the time that it would wait
-- from is gone.
pub late_success-refused :
    (b : CircuitBreaker) (ss : List BreakerStep) (now : ℕ)
    → b.state ≡ opened
    → every no_failure ss ≡ true
    → (can_execute now (run_steps ss (record_success b))).0 ≡ false
unfolding can_execute record_success
late_success-refused b ss now h n =
    let r = run_steps ss (record_success b) in
    ap (λ (w : Bool × CircuitBreaker). w.0)
      (Stuck-ask now r.state r refl
        (Stuck-run ss (record_success b) n (success_leaves b.state b refl h)))

abbrev pub asks : List ℕ → List BreakerStep
asks [] = []
asks (t ∷ ts) = ask t ∷ asks ts

half_open_ask :
    (now : ℕ) (s : CircuitState) (b : CircuitBreaker)
    → b.state ≡ s
    → b.state ≡ half_open
    → b.half_open_calls < b.half_open_max_calls
    → in_state s b now ≡ (true, b)
unfolding in_state
half_open_ask now closed b e h l = cc
half_open_ask now opened b e h l = cc
half_open_ask now half_open b e h l = rw (admits b.half_open_calls b.half_open_max_calls l) refl
  where
    admits : (m n : ℕ) → m < n → ltb m n ≡ true
    admits m n l = ground arith

-- A half-open breaker that admits a call admits any number of them: as long as none has ended, a
-- question changes nothing, and `halfOpenMaxCalls` does not bound the calls on trial.
pub asks-admitted :
    (b : CircuitBreaker) (ts : List ℕ) (now : ℕ)
    → b.state ≡ half_open
    → b.half_open_calls < b.half_open_max_calls
    → (can_execute now (run_steps (asks ts) b)).0 ≡ true
unfolding can_execute
asks-admitted b [] now h l =
    ap (λ (w : Bool × CircuitBreaker). w.0) (half_open_ask now b.state b refl h l)
asks-admitted b (t ∷ ts) now h l =
    subst (λ (r : CircuitBreaker). (can_execute now (run_steps (asks ts) r)).0 ≡ true)
      (sym (ap (λ (w : Bool × CircuitBreaker). w.1) (half_open_ask t b.state b refl h l)))
      (asks-admitted b ts now h l)
