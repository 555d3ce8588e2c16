-- ===== src/RateLimit.antt =====
-- The token bucket of core/ratelimit.py. Time is a count of ticks, a millionth of a second each,
-- and the clock is read once in a call. The refill rate is in millionths of a token per second; a
-- token is a million times a million shares, so the rate is also the shares per tick. The sums of
-- the floats are exact here, and a quotient is rounded down to the tick.
pub mod Grants
pub mod Retry
pub mod Idle
pub mod Keeps
pub mod Forgets
mod Examples
use distributed_job_orchestr.Common.{
  ℕ, suc, ◌+◌, ◌-◌, ◌*◌, ◌/◌, min, max, Bool, true, false, not, List, [], ◌∷◌, ◌++◌, map, Option,
  none, some, ltb, leb, length, if◌then◌else◌,
}
use distributed_job_orchestr.Common.Dict.{lookup, put, del}

-- A second in ticks.
abbrev pub one : ℕ
one = 1000000

-- A token in shares.
abbrev pub token : ℕ
token = 1000000000000

-- Decision
pub record Decision : Type 0 where
  pub allowed : Bool
  pub remaining : ℕ
  pub retry_after : ℕ
  pub limit : ℕ

-- Decision.headers: X-RateLimit-Limit, X-RateLimit-Remaining and Retry-After
pub record Headers : Type 0 where
  pub limit_header : ℕ
  pub remaining_header : ℕ
  pub retry_header : Option ℕ

unfoldable pub headers : Decision → Headers
headers d = record {
  limit_header = d.limit;
  remaining_header = d.remaining;
  retry_header = if not d.allowed then some (max 1 ((d.retry_after + 999000) / one)) else none;
}

-- TokenBucket
pub record TokenBucket : Type 0 where
  pub capacity : ℕ
  pub refill_rate : ℕ
  pub tokens : ℕ
  pub updated_at : ℕ

-- TokenBucket.__init__; a ValueError is `none`, here and in the calls below.
unfoldable pub make_bucket : ℕ → ℕ → ℕ → Option TokenBucket
make_bucket capacity refill_rate now =
    if ltb capacity 1
    then none
    else if leb refill_rate 0
    then none
    else some (record {
      capacity = capacity;
      refill_rate = refill_rate;
      tokens = capacity * token;
      updated_at = now;
    })

-- TokenBucket._refill
unfoldable pub refill : ℕ → TokenBucket → TokenBucket
refill now b = if leb now b.updated_at then b else record b {
  tokens = min (b.capacity * token) (b.tokens + (now - b.updated_at) * b.refill_rate);
  updated_at = now;
}

-- `deficit / self._refill_rate`, rounded down; the constructor promises that the rate is positive.
unfoldable pub quotient : ℕ → ℕ → ℕ
quotient n rate = n / rate

-- the decision on a bucket that is refilled
unfoldable pub decide : ℕ → TokenBucket → Decision × TokenBucket
unfolding quotient
decide cost b =
    if leb (cost * token) b.tokens
    then (
      record {
        allowed = true;
        remaining = (b.tokens - cost * token) / token;
        retry_after = 0;
        limit = b.capacity;
      },
      record b { tokens = b.tokens - cost * token },
    )
    else (
      record {
        allowed = false;
        remaining = b.tokens / token;
        retry_after = quotient (cost * token - b.tokens) b.refill_rate;
        limit = b.capacity;
      },
      b,
    )

-- TokenBucket.try_acquire
unfoldable pub try_acquire : ℕ → ℕ → TokenBucket → Option (Decision × TokenBucket)
unfolding refill decide
try_acquire cost now b =
    if ltb cost 1
    then none
    else if ltb b.capacity cost
    then none
    else some (decide cost (refill now b))

-- RateLimiter
pub record RateLimiter : Type 0 where
  pub capacity : ℕ
  pub refill_rate : ℕ
  pub idle_ttl : ℕ
  pub buckets : List (ℕ × TokenBucket)
  pub last_seen : List (ℕ × ℕ)

-- the bucket of a key, a new one if there is none
unfoldable pub bucket_of : ℕ → ℕ → RateLimiter → Option TokenBucket
unfolding make_bucket
bucket_of key now l = elim (lookup key l.buckets) [
  | some b ↦ some b
  | none ↦ make_bucket l.capacity l.refill_rate now
]

-- what a call that reached try_acquire leaves behind, also when that raises
abbrev pub checked :
    ℕ
    → ℕ
    → RateLimiter
    → TokenBucket
    → Option (Decision × TokenBucket)
    → Option Decision × RateLimiter
checked key now l b none =
    (none, record l { buckets = put key b l.buckets; last_seen = put key now l.last_seen })
checked key now l b (some (d, b')) =
    (some d, record l { buckets = put key b' l.buckets; last_seen = put key now l.last_seen })

abbrev pub check_bucket :
    ℕ → ℕ → ℕ → RateLimiter → Option TokenBucket → Option Decision × RateLimiter
check_bucket key cost now l none = (none, l)
check_bucket key cost now l (some b) = checked key now l b (try_acquire cost now b)

-- RateLimiter.check
unfoldable pub check : ℕ → ℕ → ℕ → RateLimiter → Option Decision × RateLimiter
unfolding bucket_of try_acquire
check key cost now l = check_bucket key cost now l (bucket_of key now l)

-- the keys that were last seen before the cutoff `now - idle_ttl`
unfoldable pub stale : ℕ → ℕ → List (ℕ × ℕ) → List ℕ
stale now ttl [] = []
stale now ttl ((key, seen) ∷ d) =
    let rest = stale now ttl d in if ltb (seen + ttl) now then key ∷ rest else rest

-- the loop of evict_idle
unfoldable pub drop_keys : List ℕ → RateLimiter → RateLimiter
drop_keys [] l = l
drop_keys (key ∷ keys) l =
    drop_keys keys (record l { buckets = del key l.buckets; last_seen = del key l.last_seen })

-- RateLimiter.evict_idle
unfoldable pub evict_idle : ℕ → RateLimiter → ℕ × RateLimiter
unfolding stale drop_keys
evict_idle now l = let keys = stale now l.idle_ttl l.last_seen in (length keys, drop_keys keys l)
