-- ===== src/Risk/Circuit.antt =====
-- src/core/circuit-breaker/financial-circuit-breaker.ts without Redis, as `globalFinancialCircuitBreaker`
-- runs it: `hydrate` and `persist` then do nothing.
use Prim.Native.Nat.{ℕ, suc, ◌+◌}
use crash_wave.Prelude.{Bool, true, false, leb, if◌then◌else◌}

pub data CircuitState : Type 0 where
  closed open_circuit half_open : CircuitState

pub record FinancialCircuitBreaker : Type 0 where
  pub failures : ℕ
  pub state : CircuitState
  pub opened_at : ℕ

abbrev pub new_circuit : FinancialCircuitBreaker
new_circuit = record { failures = 0; state = closed; opened_at = 0 }

-- `OPEN`: still open, unless the cool-down is over. `Date.now() - openedAt` is compared by adding.
unfoldable pub probe :
    ℕ → ℕ → CircuitState → FinancialCircuitBreaker → Bool × FinancialCircuitBreaker
probe cool_down now open_circuit c =
    if leb (c.opened_at + cool_down) now then (false, record c { state = half_open }) else (true, c)
probe cool_down now _ c = (false, c)

unfoldable pub is_open : ℕ → ℕ → FinancialCircuitBreaker → Bool × FinancialCircuitBreaker
unfolding probe
is_open cool_down now c = probe cool_down now c.state c

unfoldable pub record_success : FinancialCircuitBreaker → FinancialCircuitBreaker
record_success c = record c { failures = 0; state = closed }

unfoldable pub record_failure : ℕ → ℕ → FinancialCircuitBreaker → FinancialCircuitBreaker
record_failure threshold now c =
    if leb threshold (suc c.failures)
    then record { failures = suc c.failures; state = open_circuit; opened_at = now }
    else record c { failures = suc c.failures }
