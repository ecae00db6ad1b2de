-- ===== src/Utils/Tests.antt =====
-- Runs of the retries, the breaker and the locks, and each theorem at an input of its own.
use crash_wave.Prelude.{
  ℕ, ◌+◌, ◌*◌, ◌-◌, ◌≤◌, ◌≡◌, refl, true, false, none, List, [], ◌∷◌, ◌++◌, ltb, if◌then◌else◌, inr,
  arith,
}
use crash_wave.Utils.Retry.{
  Err, Tried, gave, raised, RetryOptions, with_retry, capped_delay, calculate_delay, is_retryable,
}
use crash_wave.Utils.Attempts.{Complete, with_retry-Complete, calculate_delay-bounds}
use crash_wave.Utils.Breaker.{
  CircuitBreaker, new_breaker, half_open, opened, ask, fail, BreakerStep, run_steps, can_execute,
  record_success, record_failure,
}
use crash_wave.Utils.Admission.{Below, run_steps-Below, late_success-refused, asks, asks-admitted}
use crash_wave.Utils.Locks.{Semaphore, acquire, release}
use crash_wave.Utils.Fairness.{
  LockCall, acquire_call, release_call, run_calls, Owned, Counted, run_calls-Counted, grants,
  arrivals, run_calls-order,
}
use crash_wave.Utils.MutexRefinement.{Refines, run_mutex, run_mutex-Refines}

abbrev options : RetryOptions
options = record {
  max_retries = 3;
  base_delay_ms = 1000;
  max_delay_ms = 3000;
  jitter = true;
  retryable_errors = none;
  should_retry = none;
}

abbrev busy : Err
busy = record { name = "TransientError"; is_transient = true }

-- The callback fails until its third call.
abbrev third_time : ℕ → Tried ℕ × ℕ
third_time n = (if ltb n 2 then raised busy else gave n, n + 1)

third_succeeds : (with_retry third_time options (λ n e w. w) 0).0 ≡ gave 2
unfolding with_retry is_retryable
third_succeeds = refl

with_retry-Complete_example :
    Complete options 4
      (with_retry third_time options (λ n e w. w) 0).1
      (with_retry third_time options (λ n e w. w) 0).0
with_retry-Complete_example = with_retry-Complete third_time options (λ n e w. w) 0

delay_bounds_example :
    (capped_delay options 2 * (1000 - 300) * 1000 ≤ calculate_delay options 300 900 2)
    × (calculate_delay options 300 900 2 ≤ capped_delay options 2 * (1000 + 300) * 1000)
delay_bounds_example = calculate_delay-bounds options 300 900 2 (omega arith) (omega arith)

abbrev failing : List BreakerStep
failing = fail 5 ∷ fail 6 ∷ []

abbrev breaker : CircuitBreaker
breaker = run_steps failing (new_breaker 2 100 3)

breaker_opened : breaker.state ≡ opened
unfolding record_failure
breaker_opened = refl

run_steps-Below_example : Below breaker
run_steps-Below_example = run_steps-Below failing (new_breaker 2 100 3) (omega arith)

late_success_example :
    (can_execute 900 (run_steps (ask 500 ∷ []) (record_success breaker))).0 ≡ false
late_success_example = late_success-refused breaker (ask 500 ∷ []) 900 breaker_opened refl

abbrev on_trial : CircuitBreaker
on_trial = (can_execute 200 breaker).1

trial_half_open : on_trial.state ≡ half_open
unfolding record_failure can_execute
trial_half_open = refl

trial_calls : on_trial.half_open_calls ≡ 0
unfolding record_failure can_execute
trial_calls = refl

trial_most : on_trial.half_open_max_calls ≡ 3
unfolding record_failure can_execute
trial_most = refl

asks_example : (can_execute 205 (run_steps (asks (201 ∷ 202 ∷ 203 ∷ 204 ∷ [])) on_trial)).0 ≡ true
asks_example =
    asks-admitted on_trial (201 ∷ 202 ∷ 203 ∷ 204 ∷ []) 205 trial_half_open
      (omega (arith, trial_calls, trial_most))

abbrev free : Semaphore
free = record { permits = 1; queue = []; holders = [] }

abbrev lock_calls : List LockCall
lock_calls = acquire_call 7 ∷ acquire_call 8 ∷ release_call 7 ∷ acquire_call 9 ∷ []

lock-Owned : Owned lock_calls free
unfolding acquire release
lock-Owned = (refl, tt)

semaphore_example : Counted 1 (run_calls lock_calls free)
semaphore_example = run_calls-Counted 1 lock_calls free lock-Owned (refl, inr refl)

order_example :
    grants lock_calls free ++ (run_calls lock_calls free).queue ≡ free.queue ++ arrivals lock_calls
order_example = run_calls-order 1 lock_calls free lock-Owned (refl, inr refl)

mutex_example :
    Refines
      (run_mutex lock_calls (record { locked = false; queue = [] }))
      (run_calls lock_calls free)
mutex_example =
    run_mutex-Refines lock_calls (record { locked = false; queue = [] }) free lock-Owned
      (refl, inr refl) (refl, refl)
