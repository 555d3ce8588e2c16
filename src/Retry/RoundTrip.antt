-- ===== src/Retry/RoundTrip.antt =====
-- What `build_policy` accepts, the policies that it builds, and their way back from `describe`.
use distributed_job_orchestr.Common.{
  ◌*◌, ◌≤◌, ◌<◌, ◌≡◌, refl, ◌≢◌, Bool, true, [], ◌∷◌, Option, none, some, arith, any, Bool-cases,
  inl, inr,
}
use distributed_job_orchestr.Common.Int.{ℤ, pos}
use distributed_job_orchestr.Retry.{
  value_error, ok, err, one, RetryPolicy, no_retry, fixed_delay, exponential_backoff, max_attempts,
}
use distributed_job_orchestr.Retry.Build
use distributed_job_orchestr.Retry.Build.{
  Setting, Spec, Kind, none_kind, fixed_kind, exponential_kind, build_policy, build_spec,
  build_kind, construct, make_fixed, make_exponential, describe, default_policy, is_unknown,
  policy_class, wire_name, type_name, or_default, get_type, build_from, is_other,
}

-- What the constructors of the three classes check.
abbrev pub IsValid : RetryPolicy → Type 0
IsValid no_retry = Unit
IsValid (fixed_delay delay attempts) = 1 ≤ attempts
IsValid (exponential_backoff base factor attempts max_delay jitter) =
    (1 ≤ attempts) × (one ≤ factor) × (0 < max_delay)

-- A valid policy other than NoRetry comes back unchanged from its description.
pub build_policy-describe :
    (p : RetryPolicy) → IsValid p → p ≢ no_retry → build_policy (some (describe p)) ≡ ok p
unfolding build_policy describe
build_policy-describe no_retry v h = absurd (h refl)
build_policy-describe (fixed_delay d n) v h = ground arith
build_policy-describe (exponential_backoff b f n m j) v h = ground arith

make_fixed-IsValid : (d n : ℤ) (p : RetryPolicy) → make_fixed d n ≡ ok p → IsValid p
unfolding make_fixed
make_fixed-IsValid d n no_retry e = tt
make_fixed-IsValid d n (fixed_delay _ _) e = ground arith
make_fixed-IsValid d n (exponential_backoff _ _ _ _ _) e = ground arith

make_exponential-IsValid :
    (b f n m : ℤ) (j : Bool) (p : RetryPolicy) → make_exponential b f n m j ≡ ok p → IsValid p
unfolding make_exponential
make_exponential-IsValid b f n m j no_retry e = tt
make_exponential-IsValid b f n m j (fixed_delay _ _) e = ground arith
make_exponential-IsValid b f n m j (exponential_backoff _ _ _ _ _) e = ground arith

construct-IsValid : (k : Kind) (s : Spec) (p : RetryPolicy) → construct k s ≡ ok p → IsValid p
unfolding construct
construct-IsValid none_kind s no_retry e = tt
construct-IsValid none_kind s (fixed_delay _ _) e = cc
construct-IsValid none_kind s (exponential_backoff _ _ _ _ _) e = cc
construct-IsValid fixed_kind s p e =
    make_fixed-IsValid (or_default (Build.get_delay s) (pos (5 * one)))
      (Build.attempts_of s (pos 3)) p e
construct-IsValid exponential_kind s p e =
    make_exponential-IsValid (or_default (Build.get_base s) (pos one))
      (or_default (Build.get_factor s) (pos (2 * one))) (Build.attempts_of s (pos 5))
      (or_default (Build.get_max_delay s) (pos (300 * one))) (or_default (Build.get_jitter s) true)
      p e

pub build_kind-construct :
    (k : Kind) (s : Spec) (p : RetryPolicy) → build_kind k s ≡ ok p → construct k s ≡ ok p
unfolding build_kind
build_kind-construct k s p e = elim (Bool-cases (any (is_unknown k) s)) [
  | inl u ↦ absurd (ground arith)
  | inr u ↦ elim (Bool-cases (any is_other s)) [
    | inl w ↦ absurd (ground arith)
    | inr w ↦ rw (u, w) at e
  ]
]

build_from-IsValid :
    (k : Option Kind) (s : Spec) (p : RetryPolicy) → build_from k s ≡ ok p → IsValid p
build_from-IsValid none s p e = cc
build_from-IsValid (some k) s p e = construct-IsValid k s p (build_kind-construct k s p e)

build_spec-IsValid : (s : Spec) (p : RetryPolicy) → build_spec s ≡ ok p → IsValid p
unfolding build_spec
build_spec-IsValid [] no_retry e = tt
build_spec-IsValid [] (fixed_delay _ _) e = cc
build_spec-IsValid [] (exponential_backoff _ _ _ _ _) e = ground arith
build_spec-IsValid (x ∷ s) p e = build_from-IsValid _ (x ∷ s) p e

max_attempts_pos : (p : RetryPolicy) → IsValid p → 1 ≤ max_attempts p
unfolding max_attempts
max_attempts_pos no_retry v = omega arith
max_attempts_pos (fixed_delay _ _) v = v
max_attempts_pos (exponential_backoff _ _ _ _ _) v = v.0

-- Whatever specification is accepted, the policy built is valid, and its `max_attempts` is at
-- least 1.
pub build_policy-IsValid :
    (s : Option Spec) (p : RetryPolicy) → build_policy s ≡ ok p → IsValid p × (1 ≤ max_attempts p)
unfolding build_policy
build_policy-IsValid none p e =
    let v = build_spec-IsValid [] p (unfold build_spec in e) in (v, max_attempts_pos p v)
build_policy-IsValid (some s) p e = let v = build_spec-IsValid s p e in (v, max_attempts_pos p v)

-- NoRetry does not come back from its own description: the `max_attempts` that `describe` writes
-- is refused by `build_policy`.
pub build_policy-describe_none : build_policy (some (describe no_retry)) ≡ err value_error
unfolding build_policy describe
build_policy-describe_none = refl
