-- ===== src/Retry.antt =====
-- The retry policies of core/retry.py. Seconds, and the backoff factor, are whole millionths: the
-- resolution of the `timedelta` that a delay becomes. A power is rounded down to it.
pub mod Build
pub mod Delay
pub mod RoundTrip
mod Examples
use distributed_job_orchestr.Common.{
  ℕ, ◌+◌, ◌-◌, ◌*◌, ◌/◌, ◌^◌, min, max, Bool, true, false, not, List, [], ◌∷◌, Option, none, some,
  ltb, leb, if◌then◌else◌,
}

-- The exceptions that the module raises.
pub data Error : Type 0 where
  value_error type_error assertion_error overflow_error : Error

pub data Result {ℓ} (A : Type ℓ) : Type ℓ where
  ok : A → Result A
  err : Error → Result A

-- An exception ends the calculation.
infixl 5 ◌>>=◌ ◌>>◌
abbrev pub ◌>>=◌ : {A B : Type 0} → Result A → (A → Result B) → Result B
err e >>= next = err e
ok value >>= next = next value

-- `if b: raise e`
abbrev pub raise_if : Bool → Error → Result (Unit {0})
raise_if raised e = if raised then err e else ok tt

abbrev pub ◌>>◌ : {B : Type 0} → Result (Unit {0}) → Result B → Result B
first >> rest = first >>= λ _. rest

-- 1.0, in millionths.
abbrev pub one : ℕ
one = 1000000

-- MAX_DELAY_SECONDS
abbrev pub max_delay_seconds : ℕ
max_delay_seconds = 86400 * one

-- NoRetry, FixedDelay and ExponentialBackoff; the random source is an argument of the methods.
pub data RetryPolicy : Type 0 where
  no_retry : RetryPolicy
  fixed_delay : (delay attempts : ℕ) → RetryPolicy
  exponential_backoff : (base factor attempts max_delay : ℕ) → (jitter : Bool) → RetryPolicy

-- the property `max_attempts` of each class
unfoldable pub max_attempts : RetryPolicy → ℕ
max_attempts no_retry = 1
max_attempts (fixed_delay delay attempts) = attempts
max_attempts (exponential_backoff base factor attempts max_delay jitter) = attempts

-- `random.Random.uniform(0.0, raw)`: a draw of 53 bits is the fraction `draw / 2 ^ 53`.
unfoldable pub uniform : ℕ → ℕ → ℕ
uniform raw draw = raw * draw / 2 ^ 53

-- The least number that a float of 64 bits rounds to infinity.
unfoldable pub float_limit : ℕ
float_limit = 2 ^ 1024 - 2 ^ 970

-- `factor ** exponent` does not fit a float.
unfoldable pub overflows : ℕ → ℕ → Bool
overflows factor exponent = leb (float_limit * one ^ exponent) (factor ^ exponent)

-- `base * factor ** exponent`; the power of two floats raises an OverflowError, and the product
-- does not: an infinite one is cut by the `min` that follows.
unfoldable pub power : ℕ → ℕ → ℕ → Result ℕ
unfolding overflows
power base factor exponent =
    if overflows factor exponent
    then err overflow_error
    else ok (base * factor ^ exponent / one ^ exponent)

-- ExponentialBackoff.compute_delay before the jitter
unfoldable pub raw_delay : ℕ → ℕ → ℕ → ℕ → Result ℕ
unfolding power
raw_delay base factor max_delay attempt =
    power base factor (min (attempt - 1) 64) >>= λ x. ok (min x max_delay)

-- compute_delay of each class; `draw` is what the random source gives.
unfoldable pub compute_delay : RetryPolicy → ℕ → ℕ → Result ℕ
unfolding raw_delay uniform
compute_delay no_retry attempt draw = err assertion_error
compute_delay (fixed_delay delay attempts) attempt draw = ok delay
compute_delay (exponential_backoff base factor attempts max_delay jitter) attempt draw =
    raw_delay base factor max_delay attempt >>= λ raw. ok (if jitter then uniform raw draw else raw)

-- RetryPolicy.should_retry
unfoldable pub should_retry : RetryPolicy → ℕ → Bool
unfolding max_attempts
should_retry p attempt = ltb attempt (max_attempts p)

-- RetryPolicy.next_delay
unfoldable pub next_delay : RetryPolicy → ℕ → ℕ → Result (Option ℕ)
unfolding should_retry compute_delay
next_delay p attempt draw =
    if ltb attempt 1
    then err value_error
    else if not (should_retry p attempt)
    then ok none
    else do delay ← compute_delay p attempt draw; ok (some (min (max 0 delay) max_delay_seconds))
