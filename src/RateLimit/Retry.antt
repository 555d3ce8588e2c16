-- ===== src/RateLimit/Retry.antt =====
-- What a refused client is told: when to come back.
use native.Mathlib.Nat.{lt-div-mul-add, mul-le-mul_right}
use distributed_job_orchestr.Common.{
  ℕ, ◌+◌, ◌-◌, ◌*◌, ◌/◌, ◌≤◌, ◌<◌, ◌≡◌, refl, true, false, some, ◌⊎◌, arith, max, leb,
}
use distributed_job_orchestr.RateLimit.{
  Decision, TokenBucket, one, token, headers, refill, quotient, decide, try_acquire,
}
use distributed_job_orchestr.RateLimit.Grants.{IsBucket}

quotient-enough : (n r : ℕ) → 1 ≤ r → n ≤ (quotient n r + 1) * r
unfolding quotient
quotient-enough n r h = omega (arith, lt-div-mul-add {a = n} {b = r} h)

-- A tick after the wait, the refilled bucket holds the cost.
refill-covers :
    (cost later : ℕ) (b : TokenBucket)
    → IsBucket b
    → cost ≤ b.capacity
    → b.tokens < cost * token
    → b.updated_at + quotient (cost * token - b.tokens) b.refill_rate < later
    → cost * token ≤ (refill later b).tokens
unfolding refill
refill-covers cost later b v k short h =
    let q = quotient (cost * token - b.tokens) b.refill_rate in
    let enough = quotient-enough (cost * token - b.tokens) b.refill_rate v.refills in
    let time : (q + 1) * b.refill_rate ≤ (later - b.updated_at) * b.refill_rate =
      mul-le-mul_right b.refill_rate (omega arith) in
    ground (arith, enough, time)

pub decide-allowed :
    (cost : ℕ) (b : TokenBucket) → (decide cost b).0.allowed ≡ leb (cost * token) b.tokens
unfolding decide
decide-allowed cost b = ground arith

decide-refused :
    (cost : ℕ) (b : TokenBucket)
    → (decide cost b).0.allowed ≡ false
    → ((decide cost b).1 ≡ b)
      × (b.tokens < cost * token)
      × ((decide cost b).0.retry_after ≡ quotient (cost * token - b.tokens) b.refill_rate)
unfolding decide
decide-refused cost b h = ground arith

pub accepted_cost :
    (cost now : ℕ) (b : TokenBucket)
    → 1 ≤ cost
    → cost ≤ b.capacity
    → try_acquire cost now b ≡ some (decide cost (refill now b))
unfolding try_acquire
accepted_cost cost now b h k = ground arith

refill-kept :
    (now : ℕ) (b : TokenBucket)
    → b.updated_at ≤ now
    → IsBucket b
    → IsBucket (refill now b)
      × ((refill now b).capacity ≡ b.capacity)
      × ((refill now b).updated_at ≡ now)
unfolding refill
refill-kept now b h v = ground arith

-- In exact arithmetic: a call to a bucket within its capacity, at a time not before the bucket's and
-- with a cost from one to the capacity, gets a decision; if that is a refusal, the same call, made
-- when at least one tick more than `retry_after` has passed, is granted.
pub try_acquire-retry :
    (cost now later : ℕ) (b : TokenBucket)
    → IsBucket b
    → 1 ≤ cost
    → cost ≤ b.capacity
    → b.updated_at ≤ now
    → (d : Decision) × (b' : TokenBucket) × (try_acquire cost now b ≡ some (d, b'))
      × ((d.allowed ≡ false)
          → now + d.retry_after < later
          → (d' : Decision) × (b'' : TokenBucket) × (try_acquire cost later b' ≡ some (d', b''))
            × (d'.allowed ≡ true))
try_acquire-retry cost now later b v h k m =
    let c = refill now b in
    let (w, same, at) = refill-kept now b m v in
    (
      (decide cost c).0,
      (decide cost c).1,
      accepted_cost cost now b h k,
      λ no late.
          let (left, short, wait) = decide-refused cost c no in
          let covers = refill-covers cost later c w (rw same k) short (omega (arith, at, wait)) in
          (
            (decide cost (refill later c)).0,
            (decide cost (refill later c)).1,
            rw left (accepted_cost cost later c h (rw same k)),
            rw (decide-allowed cost (refill later c)) (ground (arith, covers)),
          ),
    )

-- The Retry-After header of a refusal is a whole number of seconds, at least one, that is less than
-- a millisecond too short, and less than a second too long unless it is one second.
pub headers-wait :
    (d : Decision)
    → d.allowed ≡ false
    → (seconds : ℕ) × ((headers d).retry_header ≡ some seconds)
      × (1 ≤ seconds)
      × (d.retry_after ≤ seconds * one + 999)
      × ((seconds ≡ 1) ⊎ (seconds * one ≤ d.retry_after + 999000))
unfolding headers
headers-wait d h =
    (max 1 ((d.retry_after + 999000) / one), rw h refl, omega arith, omega arith, ground arith)
