-- ===== src/Risk/Breaks.antt =====
-- The state of financial-circuit-breaker.ts against the results that it was told.
use Prim.Native.Nat.{ℕ, suc, ◌+◌, ◌<◌}
use crash_wave.Prelude.{
  ◌≡◌, refl, Bool, true, false, List, [], ◌∷◌, ltb, leb, arith, if_cases, if_both,
}
use crash_wave.Risk.Circuit.{
  CircuitState, closed, open_circuit, half_open, FinancialCircuitBreaker, new_circuit, probe,
  is_open, record_success, record_failure,
}

-- A call, with the time of it.
pub data CircuitCall : Type 0 where
  success : CircuitCall
  failure question : ℕ → CircuitCall

-- The failures since the last success, from a number of them on.
abbrev pub failures_since : List CircuitCall → ℕ → ℕ
failures_since [] n = n
failures_since (success ∷ ks) n = failures_since ks 0
failures_since (failure now ∷ ks) n = failures_since ks (suc n)
failures_since (question now ∷ ks) n = failures_since ks n

abbrev pub is_closed : CircuitState → Bool
is_closed closed = true
is_closed _ = false

module _ (threshold cool_down : ℕ) where
  abbrev pub apply : CircuitCall → FinancialCircuitBreaker → FinancialCircuitBreaker
  apply success c = record_success c
  apply (failure now) c = record_failure threshold now c
  apply (question now) c = (is_open cool_down now c).1

  abbrev pub run_calls : List CircuitCall → FinancialCircuitBreaker → FinancialCircuitBreaker
  run_calls [] c = c
  run_calls (k ∷ ks) c = run_calls ks (apply k c)

  -- The breaker is closed exactly below its threshold, and has counted a number of failures.
  abbrev pub Counts : ℕ → FinancialCircuitBreaker → Type 0
  Counts n c = (c.failures ≡ n) × (is_closed c.state ≡ ltb n threshold)

  probe-Counts :
      (now n : ℕ) (s : CircuitState) (c : FinancialCircuitBreaker)
      → c.state ≡ s
      → Counts n c
      → Counts n (probe cool_down now s c).1
  unfolding probe
  probe-Counts now n closed c e h = h
  probe-Counts now n half_open c e h = h
  probe-Counts now n open_circuit c e h =
      if_both (λ (p : Bool × FinancialCircuitBreaker). Counts n p.1)
        (leb (c.opened_at + cool_down) now) (h.0, ground (arith, rw e at h.1)) h

  record_failure-Counts :
      (now n : ℕ) (c : FinancialCircuitBreaker)
      → Counts n c
      → Counts (suc n) (record_failure threshold now c)
  unfolding record_failure
  record_failure-Counts now n c h =
      if_cases (Counts (suc n)) (leb threshold (suc c.failures))
        (λ over. (ground (arith, h.0), ground (arith, h.0, over)))
        (λ under. (ground (arith, h.0), ground (arith, h.0, h.1, under)))

  run_calls-Counts :
      (ks : List CircuitCall) (n : ℕ) (c : FinancialCircuitBreaker)
      → 0 < threshold
      → Counts n c
      → Counts (failures_since ks n) (run_calls ks c)
  unfolding is_open record_success
  run_calls-Counts [] n c t h = h
  run_calls-Counts (success ∷ ks) n c t h =
      run_calls-Counts ks 0 (record_success c) t (refl, ground (arith, t))
  run_calls-Counts (failure now ∷ ks) n c t h =
      run_calls-Counts ks (suc n) (record_failure threshold now c) t
        (record_failure-Counts now n c h)
  run_calls-Counts (question now ∷ ks) n c t h =
      run_calls-Counts ks n (is_open cool_down now c).1 t (probe-Counts now n c.state c refl h)

  -- For a threshold above 0, after any calls on a new breaker it has counted the failures since
  -- the last success, and it is closed exactly when they are below the threshold: no passing of
  -- time closes it.
  pub run_calls-closed :
      (ks : List CircuitCall)
      → 0 < threshold
      → ((run_calls ks new_circuit).failures ≡ failures_since ks 0)
        × (is_closed (run_calls ks new_circuit).state ≡ ltb (failures_since ks 0) threshold)
  run_calls-closed ks t = run_calls-Counts ks 0 new_circuit t (refl, ground (arith, t))
