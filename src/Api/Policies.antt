-- ===== src/Api/Policies.antt =====
-- The policies that the API accepts, as the worker runs them.
use distributed_job_orchestr.Common.{
  ℕ, ◌*◌, ◌^◌, ◌≤◌, ◌<◌, ◌≡◌, refl, sym, subst, ◌∙◌, ◌⊎◌, Bool, true, ◌&&◌, ◌++◌, Option, none,
  some, arith, inl, inr, leb,
}
use distributed_job_orchestr.Common.Int.{ℤ, pos, pos_part}
use distributed_job_orchestr.Retry.{
  ok, one, RetryPolicy, no_retry, fixed_delay, exponential_backoff, max_attempts, next_delay,
}
use distributed_job_orchestr.Retry.Build.{
  Setting, Spec, Kind, none_kind, fixed_kind, exponential_kind, wire_name, build_policy, build_spec,
  build_from, construct, or_default, make_fixed, make_exponential, get_factor, get_delay, get_base,
  get_max_delay, get_jitter, attempts_of,
}
use distributed_job_orchestr.Retry.RoundTrip.{build_kind-construct}
use distributed_job_orchestr.Retry.Delay.{Overflows, IsWait, next_delay-Delayed, small_factor-fits}
use distributed_job_orchestr.Api.Schemas.{RetryPolicySpec, accepts, to_spec, given_value, within}

-- The factor, if there is one, is at most ten.
abbrev HasSmallFactor : RetryPolicy → Type 0
HasSmallFactor no_retry = Unit
HasSmallFactor (fixed_delay delay attempts) = Unit
HasSmallFactor (exponential_backoff base factor attempts max_delay jitter) = factor ≤ 10 * one

make_fixed-HasSmallFactor : (d n : ℤ) (p : RetryPolicy) → make_fixed d n ≡ ok p → HasSmallFactor p
unfolding make_fixed
make_fixed-HasSmallFactor d n no_retry e = tt
make_fixed-HasSmallFactor d n (fixed_delay _ _) e = tt
make_fixed-HasSmallFactor d n (exponential_backoff _ _ _ _ _) e = ground (arith, e)

make_exponential-HasSmallFactor :
    (b f n m : ℤ) (j : Bool) (p : RetryPolicy)
    → pos_part f ≤ 10 * one
    → make_exponential b f n m j ≡ ok p
    → HasSmallFactor p
unfolding make_exponential
make_exponential-HasSmallFactor b f n m j no_retry h e = tt
make_exponential-HasSmallFactor b f n m j (fixed_delay _ _) h e = tt
make_exponential-HasSmallFactor b f n m j (exponential_backoff _ _ _ _ _) h e = ground (arith, h, e)

abbrev factor_of : Spec → ℕ
factor_of s = pos_part (or_default (get_factor s) (pos (2 * one)))

construct-HasSmallFactor :
    (k : Kind) (s : Spec) (p : RetryPolicy)
    → factor_of s ≤ 10 * one
    → construct k s ≡ ok p
    → HasSmallFactor p
unfolding construct
construct-HasSmallFactor none_kind s no_retry h e = tt
construct-HasSmallFactor none_kind s (fixed_delay _ _) h e = tt
construct-HasSmallFactor none_kind s (exponential_backoff _ _ _ _ _) h e =
    absurd (ground (arith, e))
construct-HasSmallFactor fixed_kind s p h e =
    make_fixed-HasSmallFactor (or_default (get_delay s) (pos (5 * one))) (attempts_of s (pos 3)) p e
construct-HasSmallFactor exponential_kind s p h e =
    make_exponential-HasSmallFactor (or_default (get_base s) (pos one))
      (or_default (get_factor s) (pos (2 * one))) (attempts_of s (pos 5))
      (or_default (get_max_delay s) (pos (300 * one))) (or_default (get_jitter s) true) p h e

build_from-HasSmallFactor :
    (k : Option Kind) (s : Spec) (p : RetryPolicy)
    → factor_of s ≤ 10 * one
    → build_from k s ≡ ok p
    → HasSmallFactor p
build_from-HasSmallFactor none s p h e = absurd (ground (arith, e))
build_from-HasSmallFactor (some k) s p h e =
    construct-HasSmallFactor k s p h (build_kind-construct k s p e)

-- The dictionary holds the factor of the request.
skip_delay :
    (o : Option ℕ) (s : Spec)
    → get_factor (given_value (λ n. Setting.delay (pos n)) o ++ s) ≡ get_factor s
skip_delay none s = refl
skip_delay (some n) s = refl

skip_base :
    (o : Option ℕ) (s : Spec)
    → get_factor (given_value (λ n. Setting.base (pos n)) o ++ s) ≡ get_factor s
skip_base none s = refl
skip_base (some n) s = refl

factor_at :
    (o m : Option ℕ) (j : Option Bool)
    → within (λ n. leb one n && leb n (10 * one)) o ≡ true
    → pos_part (
        or_default
          (get_factor (
            given_value (λ n. Setting.factor (pos n)) o
            ++ (given_value (λ n. Setting.max_delay (pos n)) m ++ given_value Setting.jitter j)))
          (pos (2 * one)))
      ≤ 10 * one
factor_at (some n) m j h = ground (arith, h)
factor_at none none none h = omega arith
factor_at none none (some j) h = omega arith
factor_at none (some m) none h = omega arith
factor_at none (some m) (some j) h = omega arith

factor_of-to_spec : (s : RetryPolicySpec) → accepts s ≡ true → factor_of (to_spec s) ≤ 10 * one
unfolding accepts to_spec wire_name
factor_of-to_spec s h =
    let rest =
      given_value (λ n. Setting.factor (pos n)) s.factor
      ++ (given_value (λ n. Setting.max_delay (pos n)) s.max_delay
          ++ given_value Setting.jitter s.jitter) in
    let same : get_factor (to_spec s) ≡ get_factor rest =
      skip_delay s.delay (given_value (λ n. Setting.base (pos n)) s.base ++ rest)
      ∙ skip_base s.base rest in
    subst (λ o. pos_part (or_default o (pos (2 * one))) ≤ 10 * one) (sym same)
      (factor_at s.factor s.max_delay s.jitter (ground (arith, h)))

HasSmallFactor-fits : (p : RetryPolicy) (attempt : ℕ) → HasSmallFactor p → ¬ Overflows p attempt
HasSmallFactor-fits no_retry attempt h o = o
HasSmallFactor-fits (fixed_delay _ _) attempt h o = o
HasSmallFactor-fits (exponential_backoff b f n m j) attempt h o =
    small_factor-fits b f n m attempt j h o

accepted-HasSmallFactor :
    (s : RetryPolicySpec) (p : RetryPolicy)
    → accepts s ≡ true
    → build_policy (some (to_spec s)) ≡ ok p
    → HasSmallFactor p
unfolding build_policy build_spec to_spec
accepted-HasSmallFactor s p h e =
    build_from-HasSmallFactor _ (to_spec s) p (factor_of-to_spec s h) e

-- A policy that is built from a request that the API accepts never raises when it is asked for a
-- delay, at any attempt counted from 1 and for any 53-bit draw: it gives no delay exactly when the
-- attempts are used up, and otherwise its wait.
pub accepted-waits :
    (s : RetryPolicySpec) (p : RetryPolicy) (attempt draw : ℕ)
    → accepts s ≡ true
    → build_policy (some (to_spec s)) ≡ ok p
    → 1 ≤ attempt
    → draw < 2 ^ 53
    → (max_attempts p ≤ attempt) × (next_delay p attempt draw ≡ ok none)
      ⊎ (attempt < max_attempts p)
        × ((d : ℕ) × (next_delay p attempt draw ≡ ok (some d)) × IsWait p attempt draw d)
accepted-waits s p attempt draw h e one_up small =
    elim (next_delay-Delayed p attempt draw one_up small) [
      | inl spent ↦ inl spent
      | inr (more, inl (big, _)) ↦
          absurd (HasSmallFactor-fits p attempt (accepted-HasSmallFactor s p h e) big)
      | inr (more, inr (fits, wait)) ↦ inr (more, wait)
    ]
