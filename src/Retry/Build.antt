-- ===== src/Retry/Build.antt =====
-- Building a policy from its wire form, and the wire form of a policy.
use distributed_job_orchestr.Common.{
  ◌*◌, Bool, true, false, List, [], ◌∷◌, Option, none, some, any, if◌then◌else◌,
}
use distributed_job_orchestr.Common.Int.{ℤ, pos, pos_part, ltb_ℤ, leb_ℤ}
use distributed_job_orchestr.Common.Text.{Text, codes, text_eq, lower}
use distributed_job_orchestr.Retry.{
  Error, value_error, type_error, Result, ok, err, ◌>>=◌, ◌>>◌, raise_if, one, RetryPolicy,
  no_retry, fixed_delay, exponential_backoff,
}
use distributed_job_orchestr.Retry

-- One entry of the dictionary `spec`, with a value of the type that the API gives it. Any other
-- key is `other`.
pub data Setting : Type 0 where
  type_name : Text → Setting
  max_attempts attempts : ℤ → Setting
  delay base factor max_delay : ℤ → Setting
  jitter : Bool → Setting
  other : Text → Setting

abbrev pub Spec : Type 0
Spec = List Setting

-- `spec.get(key)`, for each key.
abbrev pub get_type : Spec → Option Text
get_type [] = none
get_type (type_name t ∷ s) = some t
get_type (_ ∷ s) = get_type s

abbrev pub get_max_attempts : Spec → Option ℤ
get_max_attempts [] = none
get_max_attempts (max_attempts n ∷ s) = some n
get_max_attempts (_ ∷ s) = get_max_attempts s

abbrev pub get_attempts : Spec → Option ℤ
get_attempts [] = none
get_attempts (attempts n ∷ s) = some n
get_attempts (_ ∷ s) = get_attempts s

abbrev pub get_delay : Spec → Option ℤ
get_delay [] = none
get_delay (delay x ∷ s) = some x
get_delay (_ ∷ s) = get_delay s

abbrev pub get_base : Spec → Option ℤ
get_base [] = none
get_base (base x ∷ s) = some x
get_base (_ ∷ s) = get_base s

abbrev pub get_factor : Spec → Option ℤ
get_factor [] = none
get_factor (factor x ∷ s) = some x
get_factor (_ ∷ s) = get_factor s

abbrev pub get_max_delay : Spec → Option ℤ
get_max_delay [] = none
get_max_delay (max_delay x ∷ s) = some x
get_max_delay (_ ∷ s) = get_max_delay s

abbrev pub get_jitter : Spec → Option Bool
get_jitter [] = none
get_jitter (jitter b ∷ s) = some b
get_jitter (_ ∷ s) = get_jitter s

abbrev pub or_default {ℓ} : {A : Type ℓ} → Option A → A → A
or_default none d = d
or_default (some a) d = a

-- `kwargs["attempts"] = kwargs.pop("max_attempts")`, then the keyword or its default.
abbrev pub attempts_of : Spec → ℤ → ℤ
attempts_of s d = or_default (get_max_attempts s) (or_default (get_attempts s) d)

-- The classes of the registry _POLICIES.
pub data Kind : Type 0 where
  none_kind fixed_kind exponential_kind : Kind

-- _POLICIES, by the class attribute `wire_name`
unfoldable pub wire_name : Kind → Text
wire_name none_kind = codes "none"
wire_name fixed_kind = codes "fixed"
wire_name exponential_kind = codes "exponential"

unfoldable pub policy_class : Text → Option Kind
unfolding wire_name
policy_class t =
    if text_eq t (wire_name none_kind)
    then some none_kind
    else if text_eq t (wire_name fixed_kind)
    then some fixed_kind
    else if text_eq t (wire_name exponential_kind)
    then some exponential_kind
    else none

-- A keyword, renamed, that is not among the `__dataclass_fields__` of the class. These hold the
-- class variable `wire_name` too, and `rng` is taken out.
unfoldable pub is_unknown : Kind → Setting → Bool
is_unknown k (type_name _) = false
is_unknown none_kind (max_attempts _) = true
is_unknown none_kind (attempts _) = true
is_unknown _ (max_attempts _) = false
is_unknown _ (attempts _) = false
is_unknown fixed_kind (delay _) = false
is_unknown exponential_kind (base _) = false
is_unknown exponential_kind (factor _) = false
is_unknown exponential_kind (max_delay _) = false
is_unknown exponential_kind (jitter _) = false
is_unknown _ (other t) = if text_eq t (codes "wire_name") then false else true
is_unknown _ _ = true

-- `wire_name` passes as a known field, and the constructor then refuses it as a keyword.
abbrev pub is_other : Setting → Bool
is_other (other _) = true
is_other _ = false

-- _validate
unfoldable pub validate : ℤ → ℤ → Result (Unit {0})
validate n seconds = do
  raise_if (ltb_ℤ n (pos 1)) value_error
  raise_if (ltb_ℤ seconds (pos 0)) value_error

-- The constructors, with `__post_init__`.
unfoldable pub make_fixed : ℤ → ℤ → Result RetryPolicy
unfolding validate
make_fixed seconds n = do validate n seconds; ok (fixed_delay (pos_part seconds) (pos_part n))

unfoldable pub make_exponential : ℤ → ℤ → ℤ → ℤ → Bool → Result RetryPolicy
unfolding validate
make_exponential b f n cap spread = do
  validate n b
  raise_if (ltb_ℤ f (pos one)) value_error
  raise_if (leb_ℤ cap (pos 0)) value_error
  ok (exponential_backoff (pos_part b) (pos_part f) (pos_part n) (pos_part cap) spread)

-- `policy_cls(**kwargs)`
unfoldable pub construct : Kind → Spec → Result RetryPolicy
unfolding make_fixed make_exponential
construct none_kind s = ok no_retry
construct fixed_kind s =
    make_fixed (or_default (get_delay s) (pos (5 * one))) (attempts_of s (pos 3))
construct exponential_kind s =
    make_exponential (or_default (get_base s) (pos one)) (or_default (get_factor s) (pos (2 * one)))
      (attempts_of s (pos 5)) (or_default (get_max_delay s) (pos (300 * one)))
      (or_default (get_jitter s) true)

-- the class is known; its keywords are checked
unfoldable pub build_kind : Kind → Spec → Result RetryPolicy
unfolding is_unknown construct
build_kind k s = do
  raise_if (any (is_unknown k) s) value_error
  raise_if (any is_other s) type_error
  construct k s

-- `ExponentialBackoff()`
unfoldable pub default_policy : RetryPolicy
default_policy = exponential_backoff one (2 * one) 5 (300 * one) true

abbrev pub build_from : Option Kind → Spec → Result RetryPolicy
build_from none s = err value_error
build_from (some k) s = build_kind k s

-- build_policy on a dictionary, and on None
unfoldable pub build_spec : Spec → Result RetryPolicy
unfolding build_kind policy_class default_policy
build_spec [] = ok default_policy
build_spec (x ∷ s) =
    build_from (policy_class (lower (or_default (get_type (x ∷ s)) (codes "exponential")))) (x ∷ s)

unfoldable pub build_policy : Option Spec → Result RetryPolicy
unfolding build_spec default_policy
build_policy none = ok default_policy
build_policy (some s) = build_spec s

-- RetryPolicy.describe, with each class's _options
unfoldable pub describe : RetryPolicy → Spec
unfolding wire_name Retry.max_attempts
describe no_retry = type_name (wire_name none_kind) ∷ max_attempts (pos 1) ∷ []
describe (fixed_delay d n) =
    type_name (wire_name fixed_kind) ∷ max_attempts (pos n) ∷ delay (pos d) ∷ []
describe (exponential_backoff b f n m j) =
    type_name (wire_name exponential_kind)
    ∷ max_attempts (pos n)
    ∷ base (pos b)
    ∷ factor (pos f)
    ∷ max_delay (pos m)
    ∷ jitter j
    ∷ []
