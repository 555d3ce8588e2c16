-- ===== src/Retry/Examples.antt =====
-- The theorems of this part at concrete policies.
use distributed_job_orchestr.Common.{◌≡◌, refl, false, [], ◌∷◌, some, arith, ◌*◌}
use distributed_job_orchestr.Common.Text.{codes}
use distributed_job_orchestr.Retry.{
  value_error, type_error, overflow_error, ok, err, one, float_limit, RetryPolicy, fixed_delay,
  exponential_backoff, next_delay,
}
use distributed_job_orchestr.Retry.Build.{build_policy, describe, Setting}
use distributed_job_orchestr.Retry.RoundTrip.{build_policy-describe}
use distributed_job_orchestr.Retry.Delay.{Delayed, next_delay-Delayed}

abbrev steady : RetryPolicy
steady = exponential_backoff one (2 * one) 5 (300 * one) false

build_policy-describe_example :
    build_policy (some (describe (fixed_delay 7000000 3))) ≡ ok (fixed_delay 7000000 3)
build_policy-describe_example =
    build_policy-describe (fixed_delay 7000000 3) (omega arith) (λ e. cc)

next_delay-Delayed_example : Delayed steady 2 5 (next_delay steady 2 5)
next_delay-Delayed_example = next_delay-Delayed steady 2 5 (omega arith) (omega arith)

-- A factor of a million to the power of 64.
abbrev steep : RetryPolicy
steep = exponential_backoff one (one * one) 100 (300 * one) false

steep_overflows : next_delay steep 65 0 ≡ err overflow_error
unfolding next_delay float_limit
steep_overflows = refl

steep_waits : next_delay steep 50 0 ≡ ok (some (300 * one))
unfolding next_delay float_limit
steep_waits = refl

-- `attempt` counts from 1.
next_delay_zero : next_delay steady 0 0 ≡ err value_error
unfolding next_delay
next_delay_zero = refl

-- A keyword that is a class variable passes the check of unknown options, and the constructor
-- refuses it with a TypeError.
wire_name_keyword : build_policy (some (Setting.other (codes "wire_name") ∷ [])) ≡ err type_error
unfolding build_policy
wire_name_keyword = refl

misspelt : build_policy (some (Setting.other (codes "max_attemps") ∷ [])) ≡ err value_error
unfolding build_policy
misspelt = refl
