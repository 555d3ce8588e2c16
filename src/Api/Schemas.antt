-- ===== src/Api/Schemas.antt =====
-- RetryPolicySpec of api/schemas.py: what the API accepts as a retry policy, and the dictionary
-- that it stores. Seconds and the factor are whole millionths; the type is one of three literals.
use distributed_job_orchestr.Common.{
  ℕ, ◌*◌, ◌≤◌, ◌≡◌, refl, Bool, true, ◌&&◌, [], ◌∷◌, ◌++◌, Option, none, some, arith, leb, ltb,
}
use distributed_job_orchestr.Common.Int.{pos}
use distributed_job_orchestr.Retry.{ok, err, value_error, one, fixed_delay}
use distributed_job_orchestr.Retry.Build.{
  Setting, Spec, Kind, none_kind, fixed_kind, wire_name, build_policy, or_default, make_fixed,
}

-- RetryPolicySpec
pub record RetryPolicySpec : Type 0 where
  pub type : Kind
  pub max_attempts : ℕ
  pub delay : Option ℕ
  pub base : Option ℕ
  pub factor : Option ℕ
  pub max_delay : Option ℕ
  pub jitter : Option Bool

abbrev pub within : (ℕ → Bool) → Option ℕ → Bool
within p none = true
within p (some n) = p n

-- the bounds of the fields
unfoldable pub accepts : RetryPolicySpec → Bool
accepts s =
    leb 1 s.max_attempts
    && leb s.max_attempts 100
    && within (λ n. leb n (86400 * one)) s.delay
    && within (λ n. ltb 0 n && leb n (3600 * one)) s.base
    && within (λ n. leb one n && leb n (10 * one)) s.factor
    && within (λ n. ltb 0 n && leb n (86400 * one)) s.max_delay

abbrev pub given_value : {A : Type 0} → (A → Setting) → Option A → Spec
given_value f none = []
given_value f (some a) = f a ∷ []

-- to_spec; `max_attempts` is never None.
unfoldable pub to_spec : RetryPolicySpec → Spec
unfolding wire_name
to_spec s =
    Setting.type_name (wire_name s.type)
    ∷ Setting.max_attempts (pos s.max_attempts)
    ∷ (given_value (λ n. Setting.delay (pos n)) s.delay
        ++ (given_value (λ n. Setting.base (pos n)) s.base
            ++ (given_value (λ n. Setting.factor (pos n)) s.factor
                ++ (given_value (λ n. Setting.max_delay (pos n)) s.max_delay
                    ++ given_value Setting.jitter s.jitter))))

-- A policy of type "none" always holds max_attempts, which NoRetry does not take: build_policy
-- refuses the stored policy whatever else the request sets.
pub none_policy_refused :
    (s : RetryPolicySpec) → s.type ≡ none_kind → build_policy (some (to_spec s)) ≡ err value_error
unfolding to_spec build_policy wire_name
none_policy_refused s h = rw h refl

-- The specs that set options of their own type alone.
abbrev fixed_spec : ℕ → Option ℕ → RetryPolicySpec
fixed_spec n seconds = record {
  type = fixed_kind;
  max_attempts = n;
  delay = seconds;
  base = none;
  factor = none;
  max_delay = none;
  jitter = none;
}

make_fixed_pos : (x n : ℕ) → 1 ≤ n → make_fixed (pos x) (pos n) ≡ ok (fixed_delay x n)
unfolding make_fixed
make_fixed_pos x n h = ground (arith, h)

-- An accepted policy of type "fixed" that sets no option of another type can be built: its delay
-- is the given one, or 5 seconds.
fixed_policy_builds :
    (n : ℕ) (seconds : Option ℕ)
    → accepts (fixed_spec n seconds) ≡ true
    → build_policy (some (to_spec (fixed_spec n seconds)))
      ≡ ok (fixed_delay (or_default seconds (5 * one)) n)
unfolding to_spec build_policy wire_name accepts
fixed_policy_builds n none h = make_fixed_pos (5 * one) n (ground (arith, h))
fixed_policy_builds n (some x) h = make_fixed_pos x n (ground (arith, h))
