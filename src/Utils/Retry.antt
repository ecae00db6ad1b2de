-- ===== src/Utils/Retry.antt =====
-- withRetry, isRetryable and calculateDelay of src/utils/retry.ts. The callback is a function of a
-- world that it may change, and so is `onRetry`, which is the identity where the option is missing and
-- may stand for any use of the delay that it is told. Both `shouldRetry` and `onRetry` are taken to
-- return, not to throw. The run also returns the outcomes of its calls.
use Prim.Native.Nat.{◌^◌}
use crash_wave.Prelude.{
  ℕ, zero, suc, ◌+◌, ◌-◌, ◌*◌, String, Option, none, some, Bool, false, not, ◌||◌, List, [], ◌∷◌,
  min, ltb, if◌then◌else◌,
}
use text.Mathlib.Text.{◌==◌ as str_eq}

pub record Err : Type 0 where
  pub name : String
  pub is_transient : Bool

pub data Tried (T : Type 0) : Type 0 where
  gave : T → Tried T
  raised : Err → Tried T

-- The defaults stand in the options already.
pub record RetryOptions : Type 0 where
  pub max_retries : ℕ
  pub base_delay_ms : ℕ
  pub max_delay_ms : ℕ
  pub jitter : Bool
  pub retryable_errors : Option (List String)
  pub should_retry : Option (Err → Bool)

includes : List String → String → Bool
includes [] x = false
includes (y ∷ ys) x = str_eq y x || includes ys x

listed_name : Option (List String) → String → Bool
listed_name none x = false
listed_name (some names) x = includes names x

unfoldable pub is_retryable : RetryOptions → Err → Bool
unfolding includes listed_name
is_retryable o e = elim o.should_retry [
  | some test ↦ test e
  | none ↦ e.is_transient || listed_name o.retryable_errors e.name
]

-- `baseDelay * 2 ** (attempt - 1)`, capped.
unfoldable pub capped_delay : RetryOptions → ℕ → ℕ
capped_delay o attempt = min (o.base_delay_ms * 2 ^ (attempt - 1)) o.max_delay_ms

-- The delay in millionths of a millisecond, with a jitter factor and a random number below 1, both in
-- thousandths.
unfoldable pub calculate_delay : RetryOptions → ℕ → ℕ → ℕ → ℕ
unfolding capped_delay
calculate_delay o factor random attempt =
    let capped = capped_delay o attempt in
    if o.jitter
    then capped * 1000000 + random * (capped * factor) * 2 - capped * factor * 1000
    else capped * 1000000

-- `lastError` before the first call.
abbrev pub undefined_error : Err
undefined_error = record { name = "undefined"; is_transient = false }

module _ {T W : Type 0} (fn : W → Tried T × W) (o : RetryOptions) (on_retry : ℕ → Err → W → W) where
  -- What a run ends with, the outcomes of its calls in order, and the world that it leaves.
  abbrev pub Run : Type 0
  Run = Tried T × List (Tried T) × W

  abbrev pub noted : Tried T → Run → Run
  noted t (r, ts, w) = (r, t ∷ ts, w)

  unfoldable pub after_call : Tried T → W → ℕ → (Err → W → Run) → Run
  after_call (gave a) w attempt again = (gave a, gave a ∷ [], w)
  after_call (raised e) w attempt again =
      if ltb o.max_retries attempt || not (is_retryable o e)
      then (raised e, raised e ∷ [], w)
      else noted (raised e) (again e (on_retry attempt e w))

  -- The loop, by the rounds that its condition leaves; `last` is `lastError`.
  unfoldable pub retry_loop : ℕ → ℕ → Err → W → Run
  unfolding after_call
  retry_loop zero attempt last w = (raised last, [], w)
  retry_loop (suc left) attempt last w =
      let (t, w') = fn w in after_call t w' attempt (retry_loop left (attempt + 1))

  unfoldable pub with_retry : W → Run
  unfolding retry_loop
  with_retry w = retry_loop (o.max_retries + 1) 1 undefined_error w
