-- ===== src/Utils/Breaker.antt =====
-- CircuitBreaker and withCircuitBreaker of src/utils/retry.ts.
use crash_wave.Prelude.{
  ℕ, ◌+◌, ◌-◌, Option, none, some, Bool, true, false, List, [], ◌∷◌, leb, ltb, if◌then◌else◌, ◌&&◌,
}

pub data CircuitState : Type 0 where
  closed opened half_open : CircuitState

pub record CircuitBreaker : Type 0 where
  pub state : CircuitState
  pub failures : ℕ
  pub last_failure_time : Option ℕ
  pub half_open_calls : ℕ
  pub failure_threshold : ℕ
  pub reset_timeout_ms : ℕ
  pub half_open_max_calls : ℕ

abbrev pub new_breaker : ℕ → ℕ → ℕ → CircuitBreaker
new_breaker threshold timeout most = record {
  state = closed;
  failures = 0;
  last_failure_time = none;
  half_open_calls = 0;
  failure_threshold = threshold;
  reset_timeout_ms = timeout;
  half_open_max_calls = most;
}

-- `this.lastFailureTime && now - this.lastFailureTime >= this.resetTimeoutMs`: a time of 0 counts as
-- none.
unfoldable pub cooled_down : Option ℕ → ℕ → ℕ → Bool
cooled_down none timeout now = false
cooled_down (some t) timeout now = ltb 0 t && leb timeout (now - t)

unfoldable pub in_state : CircuitState → CircuitBreaker → ℕ → Bool × CircuitBreaker
unfolding cooled_down
in_state closed b now = (true, b)
in_state opened b now =
    if cooled_down b.last_failure_time b.reset_timeout_ms now
    then (true, record b { state = half_open; half_open_calls = 0 })
    else (false, b)
in_state half_open b now = (ltb b.half_open_calls b.half_open_max_calls, b)

unfoldable pub can_execute : ℕ → CircuitBreaker → Bool × CircuitBreaker
unfolding in_state
can_execute now b = in_state b.state b now

unfoldable pub success_in : CircuitState → CircuitBreaker → CircuitBreaker
success_in half_open b =
    if leb b.half_open_max_calls (b.half_open_calls + 1)
    then record b {
      half_open_calls = b.half_open_calls + 1;
      state = closed;
      failures = 0;
      last_failure_time = none;
    }
    else record b { half_open_calls = b.half_open_calls + 1 }
success_in _ b = record b { failures = 0; last_failure_time = none }

unfoldable pub record_success : CircuitBreaker → CircuitBreaker
unfolding success_in
record_success b = success_in b.state b

unfoldable pub failure_in : CircuitState → ℕ → CircuitBreaker → CircuitBreaker
failure_in half_open now b = record b { state = opened; last_failure_time = some now }
failure_in _ now b =
    if leb b.failure_threshold (b.failures + 1)
    then record b { failures = b.failures + 1; last_failure_time = some now; state = opened }
    else record b { failures = b.failures + 1; last_failure_time = some now }

unfoldable pub record_failure : ℕ → CircuitBreaker → CircuitBreaker
unfolding failure_in
record_failure now b = failure_in b.state now b

-- A guarded call in its two parts: it asks, and if it may it reports how the callback ended. Other
-- calls can ask and report in between.
pub data BreakerStep : Type 0 where
  ask : ℕ → BreakerStep
  succeed : BreakerStep
  fail : ℕ → BreakerStep

abbrev pub step : BreakerStep → CircuitBreaker → CircuitBreaker
step (ask now) b = (can_execute now b).1
step succeed b = record_success b
step (fail now) b = record_failure now b

abbrev pub run_steps : List BreakerStep → CircuitBreaker → CircuitBreaker
run_steps [] b = b
run_steps (s ∷ ss) b = run_steps ss (step s b)
