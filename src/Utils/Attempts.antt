-- ===== src/Utils/Attempts.antt =====
-- The runs of withRetry in src/utils/retry.ts.
use native.Mathlib.Nat.{mul-add, mul-le-mul_right}
use crash_wave.Prelude.{
  ℕ, zero, suc, ◌+◌, ◌-◌, ◌*◌, ◌≤◌, ◌⊎◌, inl, inr, ◌≡◌, refl, sym, ap, ◌∙◌, Bool, true, false, not,
  ◌||◌, List, [], ◌∷◌, ltb, if◌then◌else◌, length, arith, if_cases, Bool-cases,
}
use crash_wave.Utils.Retry.{
  Err, Tried, gave, raised, RetryOptions, is_retryable, after_call, retry_loop, with_retry,
  undefined_error, Run, capped_delay, calculate_delay,
}

module _ {T : Type 0} (o : RetryOptions) where
  -- Whether a run may stop at an outcome, with `n` more calls allowed.
  abbrev pub MayStop : ℕ → Tried T → Type 0
  MayStop n (gave a) = Unit
  MayStop n (raised e) = (n ≡ 0) ⊎ (is_retryable o e ≡ false)

  -- The outcomes of the calls of a run that may make `n` calls and ends with `r`: every one but
  -- the last is an error to be retried, the last is `r`, and the run may stop there.
  abbrev pub Complete : ℕ → List (Tried T) → Tried T → Type 0
  Complete n [] r = ⊥
  Complete zero (t ∷ ts) r = ⊥
  Complete (suc n) (t ∷ []) r = (t ≡ r) × MayStop n t
  Complete (suc n) (gave a ∷ u ∷ ts) r = ⊥
  Complete (suc n) (raised e ∷ u ∷ ts) r = (is_retryable o e ≡ true) × Complete n (u ∷ ts) r

  Complete-cons :
      (n : ℕ) (e : Err) (ts : List (Tried T)) (r : Tried T)
      → is_retryable o e ≡ true
      → Complete n ts r
      → Complete (suc n) (raised e ∷ ts) r
  Complete-cons n e [] r h c = absurd c
  Complete-cons n e (u ∷ ts) r h c = (h, c)

  pub length-Complete :
      (n : ℕ) (ts : List (Tried T)) (r : Tried T) → Complete n ts r → length ts ≤ n
  length-Complete n [] r c = absurd c
  length-Complete zero (t ∷ ts) r c = absurd c
  length-Complete (suc n) (t ∷ []) r c = omega arith
  length-Complete (suc n) (gave a ∷ u ∷ ts) r c = absurd c
  length-Complete (suc n) (raised e ∷ u ∷ ts) r c = omega (arith, length-Complete n (u ∷ ts) r c.1)

stop_reason :
    (o : RetryOptions) (e : Err) (attempt left : ℕ)
    → attempt + left ≡ o.max_retries + 1
    → (ltb o.max_retries attempt || not (is_retryable o e)) ≡ true
    → (left ≡ 0) ⊎ (is_retryable o e ≡ false)
stop_reason o e attempt left k h = elim (Bool-cases (is_retryable o e)) [
  | inl again ↦ inl (ground arith)
  | inr final ↦ inr final
]

module _ {T W : Type 0} (fn : W → Tried T × W) (o : RetryOptions) (on_retry : ℕ → Err → W → W) where
  after_call-Complete :
      (t : Tried T) (w : W) (attempt left : ℕ) (again : Err → W → Run fn o on_retry)
      → attempt + left ≡ o.max_retries + 1
      → ((e : Err) (v : W)
          → ltb o.max_retries attempt ≡ false
          → Complete o left (again e v).1 (again e v).0)
      → Complete o
          (suc left)
          (after_call fn o on_retry t w attempt again).1
          (after_call fn o on_retry t w attempt again).0
  unfolding after_call
  after_call-Complete (gave a) w attempt left again k h = (refl, tt)
  after_call-Complete (raised e) w attempt left again k h =
      if_cases (λ (r : Run fn o on_retry). Complete o (suc left) r.1 r.0)
        (ltb o.max_retries attempt || not (is_retryable o e))
        (λ (stop : (ltb o.max_retries attempt || not (is_retryable o e)) ≡ true).
          (refl, stop_reason o e attempt left k stop))
        (λ (on : (ltb o.max_retries attempt || not (is_retryable o e)) ≡ false).
          Complete-cons o left e (again e (on_retry attempt e w)).1
            (again e (on_retry attempt e w)).0 (ground arith)
            (h e (on_retry attempt e w) (ground arith)))

  retry_loop-Complete :
      (left attempt : ℕ) (last : Err) (w : W)
      → attempt + left ≡ o.max_retries + 2
      → attempt ≤ o.max_retries + 1
      → Complete o left
          (retry_loop fn o on_retry left attempt last w).1
          (retry_loop fn o on_retry left attempt last w).0
  unfolding retry_loop
  retry_loop-Complete zero attempt last w k b = absurd (omega arith)
  retry_loop-Complete (suc left) attempt last w k b =
      after_call-Complete (fn w).0 (fn w).1 attempt left
        (retry_loop fn o on_retry left (attempt + 1)) (omega arith)
        (λ e v (on : ltb o.max_retries attempt ≡ false).
          retry_loop-Complete left (attempt + 1) e v (omega arith) (ground arith))

  -- Whatever the callback does, and while shouldRetry and onRetry throw nothing, a retried call ends:
  -- it makes one call at least and `maxRetries` + 1 at most, answers what the last of them gave or
  -- threw, repeats only errors that are retryable, and gives up only on a result, an error that is not
  -- retryable, or the last call allowed.
  pub with_retry-Complete :
      (w : W)
      → Complete o (o.max_retries + 1) (with_retry fn o on_retry w).1 (with_retry fn o on_retry w).0
  unfolding with_retry
  with_retry-Complete w =
      retry_loop-Complete (o.max_retries + 1) 1 undefined_error w (omega arith) (omega arith)

jitter_bounds :
    (j : Bool) (c f d r : ℕ)
    → f + d ≡ 1000
    → r ≤ 1000
    → (c * d * 1000 ≤ (if j then c * 1000000 + r * (c * f) * 2 - c * f * 1000 else c * 1000000))
      × ((if j then c * 1000000 + r * (c * f) * 2 - c * f * 1000 else c * 1000000)
          ≤ c * (1000 + f) * 1000)
jitter_bounds true c f d r e h =
    let split = sym (mul-add c f d) ∙ ap (λ (k : ℕ). c * k) e in
    let most : r * (c * f) ≤ 1000 * (c * f) = mul-le-mul_right (c * f) h in
    (omega (arith, split, most), omega (arith, split, most))
jitter_bounds false c f d r e h =
    let split = sym (mul-add c f d) ∙ ap (λ (k : ℕ). c * k) e in (omega (arith, split), omega arith)

-- The delay before a further attempt is off the capped delay by the jitter factor at most, both
-- ways, when the factor and the random number are below 1.
pub calculate_delay-bounds :
    (o : RetryOptions) (factor random attempt : ℕ)
    → factor ≤ 1000
    → random ≤ 1000
    → (capped_delay o attempt * (1000 - factor) * 1000 ≤ calculate_delay o factor random attempt)
      × (calculate_delay o factor random attempt ≤ capped_delay o attempt * (1000 + factor) * 1000)
unfolding calculate_delay
calculate_delay-bounds o factor random attempt f r =
    jitter_bounds o.jitter (capped_delay o attempt) factor (1000 - factor) random (omega arith) r
