-- ===== src/RateLimit/Grants.antt =====
-- How much a bucket grants over time.
use distributed_job_orchestr.Common.{
  ℕ, ◌+◌, ◌-◌, ◌*◌, ◌≤◌, ◌≡◌, List, [], ◌∷◌, Option, none, some, arith, if◌then◌else◌,
}
use distributed_job_orchestr.RateLimit.{Decision, TokenBucket, token, refill, decide, try_acquire}

-- The bucket holds no more than its capacity, and it refills.
pub record IsBucket (b : TokenBucket) : Type 0 where
  pub full : b.tokens ≤ b.capacity * token
  pub refills : 1 ≤ b.refill_rate

-- What a call took out of the bucket, and the bucket after it; a call that raises changes nothing.
abbrev pub granted : ℕ → Option (Decision × TokenBucket) → ℕ
granted cost none = 0
granted cost (some (d, b)) = if d.allowed then cost else 0

abbrev pub left : TokenBucket → Option (Decision × TokenBucket) → TokenBucket
left b none = b
left b (some (d, b')) = b'

-- A run of calls, each at a time and with a cost, and the tokens that they get in all.
unfoldable pub serve : List (ℕ × ℕ) → TokenBucket → ℕ × TokenBucket
serve [] b = (0, b)
serve ((now, cost) ∷ calls) b =
    let r = try_acquire cost now b in
    let (n, b') = serve calls (left b r) in (granted cost r + n, b')

-- One call: what it grants is paid for by the tokens and by the time that passed.
pub record Paid (n : ℕ) (b b' : TokenBucket) : Type 0 where
  pub later : b.updated_at ≤ b'.updated_at
  pub rate_kept : b'.refill_rate ≡ b.refill_rate
  pub capacity_kept : b'.capacity ≡ b.capacity
  pub budget : n * token + b'.tokens ≤ b.tokens + (b'.updated_at - b.updated_at) * b.refill_rate

refill-Paid : (now : ℕ) (b : TokenBucket) → Paid 0 b (refill now b)
unfolding refill
refill-Paid now b = ground arith

refill-IsBucket : (now : ℕ) (b : TokenBucket) → IsBucket b → IsBucket (refill now b)
unfolding refill
refill-IsBucket now b v = ground arith

try_acquire-Paid :
    (cost now : ℕ) (b : TokenBucket)
    → let r = try_acquire cost now b in Paid (granted cost r) b (left b r)
unfolding try_acquire decide
try_acquire-Paid cost now b = ground (arith, refill-Paid now b)

try_acquire-IsBucket :
    (cost now : ℕ) (b : TokenBucket) → IsBucket b → IsBucket (left b (try_acquire cost now b))
unfolding try_acquire decide
try_acquire-IsBucket cost now b v = ground (arith, refill-IsBucket now b v)

elapsed : (a b c r : ℕ) → a ≤ b → b ≤ c → (c - a) * r ≡ (b - a) * r + (c - b) * r
elapsed a b c r h k = let parts : c - a ≡ (b - a) + (c - b) = omega arith in rw parts (omega arith)

Paid-trans : (m n : ℕ) (a b c : TokenBucket) → Paid m a b → Paid n b c → Paid (m + n) a c
Paid-trans m n a b c p q =
    ground (arith, elapsed a.updated_at b.updated_at c.updated_at a.refill_rate p.later q.later)

serve-Paid : (calls : List (ℕ × ℕ)) (b : TokenBucket) → let (n, b') = serve calls b in Paid n b b'
unfolding serve
serve-Paid [] b = ground arith
serve-Paid ((now, cost) ∷ calls) b =
    let r = try_acquire cost now b in
    Paid-trans (granted cost r) (serve calls (left b r)).0 b (left b r) (serve calls (left b r)).1
      (try_acquire-Paid cost now b) (serve-Paid calls (left b r))

serve-IsBucket : (calls : List (ℕ × ℕ)) (b : TokenBucket) → IsBucket b → IsBucket (serve calls b).1
unfolding serve
serve-IsBucket [] b v = v
serve-IsBucket ((now, cost) ∷ calls) b v =
    let r = try_acquire cost now b in
    serve-IsBucket calls (left b r) (try_acquire-IsBucket cost now b v)

-- Over any run of calls to a bucket that refills and whose tokens are within its capacity, at
-- times in any order, the tokens granted in all are at most the capacity and what the rate refills
-- from the time of the bucket to the latest time that it saw; it stays within its capacity.
pub serve-bounded :
    (calls : List (ℕ × ℕ)) (b : TokenBucket)
    → IsBucket b
    → let (n, b') = serve calls b in
      (n * token ≤ b.capacity * token + (b'.updated_at - b.updated_at) * b.refill_rate)
      × (b'.tokens ≤ b'.capacity * token)
serve-bounded calls b v = ground (arith, serve-Paid calls b, serve-IsBucket calls b v, v.full)
