-- ===== src/Retry/Delay.antt =====
-- When `next_delay` gives another attempt, and how long it waits.
use native.Mathlib.Nat.{
  div-mul-le_self, div-le_of_le-mul, lt-div-mul-add, pow-zero, pow-suc, one-le-pow, mul-le-mul_left,
  mul-le-mul_right, pow-le-pow_right,
}
use distributed_job_orchestr.Common.{
  ℕ, zero, suc, ◌+◌, ◌-◌, ◌*◌, ◌/◌, ◌^◌, ◌≤◌, ◌<◌, min, max, ◌≡◌, refl, ◌⊎◌, Bool, true, false,
  Option, none, some, arith, Bool-cases, inl, inr, ltb, if◌then◌else◌,
}
use distributed_job_orchestr.Retry.{
  Result, ok, err, overflow_error, ◌>>=◌, one, max_delay_seconds, RetryPolicy, no_retry,
  fixed_delay, exponential_backoff, max_attempts, uniform, float_limit, overflows, power, raw_delay,
  compute_delay, next_delay,
}

-- A jittered delay never exceeds the delay that it spreads.
uniform-le : (raw draw : ℕ) → draw < 2 ^ 53 → uniform raw draw ≤ raw
unfolding uniform
uniform-le raw draw h = div-le_of_le-mul (2 ^ 53) (grind arith)

-- The upper end of what a policy may wait.
abbrev pub cap : RetryPolicy → ℕ
cap no_retry = 0
cap (fixed_delay delay attempts) = delay
cap (exponential_backoff base factor attempts max_delay jitter) = max_delay

-- `q` is the quotient of `n` by `d`, rounded down.
abbrev pub IsQuotient : ℕ → ℕ → ℕ → Type 0
IsQuotient n d q = (q * d ≤ n) × (n < (q + 1) * d)

-- A delay that the jitter, if there is one, spreads over the 53 bits of the draw.
abbrev pub IsSpread : Bool → ℕ → ℕ → ℕ → Type 0
IsSpread true draw raw y = IsQuotient (raw * draw) (2 ^ 53) y
IsSpread false draw raw y = y ≡ raw

-- The delay that the policy promises after an attempt: a fixed one, or the base times the factor to
-- the number of the attempts before, 64 at most, within max_delay; always within the day.
abbrev pub Waits : RetryPolicy → ℕ → ℕ → ℕ → Type 0
Waits no_retry attempt draw d = ⊥
Waits (fixed_delay delay attempts) attempt draw d = d ≡ min delay max_delay_seconds
Waits (exponential_backoff base factor attempts max_delay jitter) attempt draw d =
    (x : ℕ) × (y : ℕ) × IsQuotient (base * factor ^ min (attempt - 1) 64)
      (one ^ min (attempt - 1) 64) x
    × IsSpread jitter draw (min x max_delay) y
    × (d ≡ min y max_delay_seconds)

-- The policy's wait, within the day and the policy's own bound.
abbrev pub IsWait : RetryPolicy → ℕ → ℕ → ℕ → Type 0
IsWait p attempt draw d = (d ≤ max_delay_seconds) × (d ≤ cap p) × Waits p attempt draw d

-- The power of the factor is beyond the floats.
abbrev pub Overflows : RetryPolicy → ℕ → Type 0
Overflows no_retry attempt = ⊥
Overflows (fixed_delay delay attempts) attempt = ⊥
Overflows (exponential_backoff base factor attempts max_delay jitter) attempt =
    float_limit * one ^ min (attempt - 1) 64 ≤ factor ^ min (attempt - 1) 64

-- The two answers of `next_delay` while there are attempts, and all three.
abbrev pub Answers : RetryPolicy → ℕ → ℕ → Result (Option ℕ) → Type 0
Answers p attempt draw r =
    Overflows p attempt × (r ≡ err overflow_error)
    ⊎ ¬ Overflows p attempt × ((d : ℕ) × (r ≡ ok (some d)) × IsWait p attempt draw d)

abbrev pub Delayed : RetryPolicy → ℕ → ℕ → Result (Option ℕ) → Type 0
Delayed p attempt draw r =
    (max_attempts p ≤ attempt) × (r ≡ ok none)
    ⊎ (attempt < max_attempts p) × Answers p attempt draw r

abbrev clamp : ℕ → ℕ
clamp d = min (max 0 d) max_delay_seconds

next_delay-more :
    (p : RetryPolicy) (attempt draw : ℕ) (r : Result ℕ)
    → 1 ≤ attempt
    → ltb attempt (max_attempts p) ≡ true
    → compute_delay p attempt draw ≡ r
    → next_delay p attempt draw ≡ (r >>= λ d. ok (some (clamp d)))
unfolding next_delay
next_delay-more p attempt draw r h more e =
    let known : ltb attempt 1 ≡ false = ground arith in rw (known, more, e) refl

next_delay-spent :
    (p : RetryPolicy) (attempt draw : ℕ)
    → 1 ≤ attempt
    → ltb attempt (max_attempts p) ≡ false
    → next_delay p attempt draw ≡ ok none
unfolding next_delay
next_delay-spent p attempt draw h done =
    let known : ltb attempt 1 ≡ false = ground arith in rw (known, done) refl

div-IsQuotient : (n d : ℕ) → 0 < d → IsQuotient n d (n / d)
div-IsQuotient n d h = (div-mul-le_self n d, omega (arith, lt-div-mul-add {a = n} {b = d} h))

power-pos : (e : ℕ) → 0 < one ^ e
power-pos e = one-le-pow e one (omega arith)

-- The delay of an exponential policy when its power fits a float.
abbrev grown : ℕ → ℕ → ℕ → ℕ
grown b f e = b * f ^ e / one ^ e

abbrev capped : ℕ → ℕ → ℕ → ℕ → ℕ
capped b f m attempt = min (grown b f (min (attempt - 1) 64)) m

abbrev spread : Bool → ℕ → ℕ → ℕ
spread j draw raw = if j then uniform raw draw else raw

compute_delay-fits :
    (b f n m attempt draw : ℕ) (j : Bool)
    → overflows f (min (attempt - 1) 64) ≡ false
    → compute_delay (exponential_backoff b f n m j) attempt draw
      ≡ ok (spread j draw (capped b f m attempt))
unfolding compute_delay raw_delay power
compute_delay-fits b f n m attempt draw j h = rw h refl

compute_delay-overflows :
    (b f n m attempt draw : ℕ) (j : Bool)
    → overflows f (min (attempt - 1) 64) ≡ true
    → compute_delay (exponential_backoff b f n m j) attempt draw ≡ err overflow_error
unfolding compute_delay raw_delay power
compute_delay-overflows b f n m attempt draw j h = rw h refl

spread-le : (j : Bool) (draw raw : ℕ) → draw < 2 ^ 53 → spread j draw raw ≤ raw
spread-le true draw raw h = uniform-le raw draw h
spread-le false draw raw h = omega arith

spread-IsSpread : (j : Bool) (draw raw : ℕ) → IsSpread j draw raw (spread j draw raw)
unfolding uniform
spread-IsSpread true draw raw = div-IsQuotient (raw * draw) (2 ^ 53) (omega arith)
spread-IsSpread false draw raw = refl

capped-IsWait :
    (b f n m attempt draw : ℕ) (j : Bool)
    → draw < 2 ^ 53
    → IsWait
        (exponential_backoff b f n m j)
        attempt
        draw
        (clamp (spread j draw (capped b f m attempt)))
capped-IsWait b f n m attempt draw j h =
    let e = min (attempt - 1) 64 in
    let raw = capped b f m attempt in
    let y = spread j draw raw in
    let low : y ≤ raw = spread-le j draw raw h in
    let under : raw ≤ m = omega arith in
    (
      omega arith,
      omega (arith, low, under),
      (
        grown b f e,
        y,
        div-IsQuotient (b * f ^ e) (one ^ e) (power-pos e),
        spread-IsSpread j draw raw,
        omega arith,
      ),
    )

overflows_iff :
    (f e : ℕ)
    → (overflows f e ≡ true → float_limit * one ^ e ≤ f ^ e)
      × (overflows f e ≡ false → ¬ (float_limit * one ^ e ≤ f ^ e))
unfolding overflows
overflows_iff f e = (λ h. ground (arith, h), λ h k. ground (arith, h, k))

-- A factor of at most ten, which is all that the API accepts, never leaves the floats.
power-ten : (f e : ℕ) → f ≤ 10 * one → f ^ e ≤ 10 ^ e * one ^ e
power-ten f zero h = rw (pow-zero f) (omega arith)
power-ten f (suc e) h =
    let rest : f ^ e * f ≤ 10 ^ e * one ^ e * f = mul-le-mul_right f (power-ten f e h) in
    let last : 10 ^ e * one ^ e * f ≤ 10 ^ e * one ^ e * (10 * one) =
      mul-le-mul_left (10 ^ e * one ^ e) h in
    rw (pow-suc f e, pow-suc 10 e, pow-suc one e) (omega (arith, rest, last))

ten-fits : 10 ^ 64 < float_limit
unfolding float_limit
ten-fits = omega arith

pub small_factor-fits :
    (base factor attempts max_delay attempt : ℕ) (jitter : Bool)
    → factor ≤ 10 * one
    → ¬ Overflows (exponential_backoff base factor attempts max_delay jitter) attempt
small_factor-fits base factor attempts max_delay attempt jitter h big =
    let e = min (attempt - 1) 64 in
    let few : 10 ^ e ≤ 10 ^ 64 =
      pow-le-pow_right {n = 10} (omega arith) {i = e} {j = 64} (omega arith) in
    let under : 10 ^ e + 1 ≤ float_limit = omega (arith, few, ten-fits) in
    let over : (10 ^ e + 1) * one ^ e ≤ float_limit * one ^ e = mul-le-mul_right (one ^ e) under in
    omega (arith, over, big, power-ten factor e h, power-pos e)

next_delay-Answers :
    (p : RetryPolicy) (attempt draw : ℕ)
    → 1 ≤ attempt
    → draw < 2 ^ 53
    → ltb attempt (max_attempts p) ≡ true
    → Answers p attempt draw (next_delay p attempt draw)
unfolding max_attempts compute_delay
next_delay-Answers no_retry attempt draw h k more = absurd (ground (arith, h, more))
next_delay-Answers (fixed_delay delay attempts) attempt draw h k more = inr (
  λ e. e,
  (
    clamp delay,
    next_delay-more (fixed_delay delay attempts) attempt draw (ok delay) h more refl,
    (omega arith, omega arith, omega arith),
  ),
)
next_delay-Answers (exponential_backoff b f n m j) attempt draw h k more =
    let e = min (attempt - 1) 64 in
    elim (Bool-cases (overflows f e)) [
      | inl big ↦ inl (
        (overflows_iff f e).0 big,
        next_delay-more (exponential_backoff b f n m j) attempt draw (err overflow_error) h more
            (compute_delay-overflows b f n m attempt draw j big),
      )
      | inr fits ↦ inr (
        (overflows_iff f e).1 fits,
        (
          clamp (spread j draw (capped b f m attempt)),
          next_delay-more (exponential_backoff b f n m j) attempt draw
              (ok (spread j draw (capped b f m attempt))) h more
              (compute_delay-fits b f n m attempt draw j fits),
          capped-IsWait b f n m attempt draw j k,
        ),
      )
    ]

-- For any attempt counted from 1 and any 53-bit draw: `next_delay` gives no delay exactly when the
-- attempts are used up. Otherwise it raises an OverflowError exactly when the power of an
-- exponential policy's factor does not fit a float, and else gives the policy's wait, which is
-- within MAX_DELAY_SECONDS and the policy's own bound.
pub next_delay-Delayed :
    (p : RetryPolicy) (attempt draw : ℕ)
    → 1 ≤ attempt
    → draw < 2 ^ 53
    → Delayed p attempt draw (next_delay p attempt draw)
next_delay-Delayed p attempt draw h k = elim (Bool-cases (ltb attempt (max_attempts p))) [
  | inl more ↦ inr (ground (arith, more), next_delay-Answers p attempt draw h k more)
  | inr done ↦ inl (ground (arith, done), next_delay-spent p attempt draw h done)
]
