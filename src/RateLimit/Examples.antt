-- ===== src/RateLimit/Examples.antt =====
-- The theorems of the rate limiter at a limiter of two tokens, refilled by one a second.
use distributed_job_orchestr.Common.{
  ℕ, ◌+◌, ◌-◌, ◌*◌, ◌≤◌, ◌<◌, ◌≡◌, refl, true, false, List, [], ◌∷◌, some, arith,
}
use distributed_job_orchestr.RateLimit.{
  Decision, TokenBucket, RateLimiter, token, headers, refill, try_acquire, check, evict_idle,
}
use distributed_job_orchestr.RateLimit.Grants.{IsBucket, serve, serve-bounded}
use distributed_job_orchestr.RateLimit.Retry.{try_acquire-retry}
use distributed_job_orchestr.RateLimit.Idle.{IsLimiter, check-evict_idle}
use distributed_job_orchestr.RateLimit.Keeps.{check-IsLimiter}
use distributed_job_orchestr.RateLimit.Forgets.{evict_idle-forgets}

abbrev bucket_with : ℕ → TokenBucket
bucket_with tokens = record { capacity = 2; refill_rate = 1000000; tokens = tokens; updated_at = 0 }

spent-IsBucket : IsBucket (bucket_with 0)
spent-IsBucket = record { full = omega arith; refills = omega arith }

-- The limiter after a client, key 9, has spent both tokens at time 0.
abbrev limiter : ℕ → List (ℕ × TokenBucket) → List (ℕ × ℕ) → RateLimiter
limiter ttl buckets seen = record {
  capacity = 2;
  refill_rate = 1000000;
  idle_ttl = ttl;
  buckets = buckets;
  last_seen = seen;
}

abbrev used : ℕ → RateLimiter
used ttl = limiter ttl ((9, bucket_with 0) ∷ []) ((9, 0) ∷ [])

empty-IsLimiter : (ttl : ℕ) → IsLimiter 0 (limiter ttl [] [])
empty-IsLimiter ttl = record { seen = λ k b e. absurd (ground arith); distinct = tt }

used-IsLimiter : (ttl : ℕ) → IsLimiter 0 (used ttl)
unfolding check
used-IsLimiter ttl = check-IsLimiter 9 2 0 0 (limiter ttl [] []) (empty-IsLimiter ttl) (omega arith)

serve-bounded_example :
    let (n, b') = serve ((500000, 1) ∷ (2000000, 1) ∷ []) (bucket_with 0) in
    (n * token ≤ 2 * token + (b'.updated_at - 0) * 1000000) × (b'.tokens ≤ b'.capacity * token)
serve-bounded_example =
    serve-bounded ((500000, 1) ∷ (2000000, 1) ∷ []) (bucket_with 0) spent-IsBucket

try_acquire-retry_example :
    (d : Decision) × (b' : TokenBucket) × (try_acquire 1 500000 (bucket_with 0) ≡ some (d, b'))
    × ((d.allowed ≡ false)
        → 500000 + d.retry_after < 1000001
        → (d' : Decision) × (b'' : TokenBucket) × (try_acquire 1 1000001 b' ≡ some (d', b''))
          × (d'.allowed ≡ true))
try_acquire-retry_example =
    try_acquire-retry 1 500000 1000001 (bucket_with 0) spent-IsBucket (omega arith) (omega arith)
      (omega arith)

abbrev refusal : Decision
refusal = record { allowed = false; remaining = 0; retry_after = 1000500; limit = 2 }

-- A wait of a second and half a millisecond is announced as one second.
early_header : (headers refusal).retry_header ≡ some 1
unfolding headers
early_header = refl

check-evict_idle_example :
    (check 9 1 4000000 (evict_idle 4000000 (used 3000000)).1).0
    ≡ (check 9 1 4000000 (used 3000000)).0
check-evict_idle_example =
    check-evict_idle 9 1 4000000 4000000 0 (used 3000000) (used-IsLimiter 3000000) (omega arith)
      (omega arith)

evict_idle-forgets_example :
    (d : Decision) × (d' : Decision) × ((check 9 1 500000 (used 400000)).0 ≡ some d)
    × (d.allowed ≡ false)
    × ((check 9 1 500000 (evict_idle 500000 (used 400000)).1).0 ≡ some d')
    × (d'.allowed ≡ true)
unfolding refill
evict_idle-forgets_example =
    evict_idle-forgets 9 1 500000 0 0 (used 400000) (bucket_with 0) (used-IsLimiter 400000) refl
      refl (omega arith) (omega arith) (omega arith) (omega arith)
