-- ===== src/RateLimit/Idle.antt =====
-- The eviction of idle buckets: when it is safe, and when it is not.
use native.Mathlib.Nat.{mul-le-mul_right}
use distributed_job_orchestr.Common.{
  ℕ, ◌+◌, ◌-◌, ◌*◌, ◌≤◌, ◌<◌, ◌≡◌, ◌≢◌, refl, sym, ap, ap₂, ◌∙◌, Bool, true, List, [], ◌∷◌, Option,
  none, some, arith, ◌==◌, any, Bool-cases, Option-cases, inl, inr, if◌then◌else◌,
}
use distributed_job_orchestr.Common.Dict.{lookup, del, Distinct, lookup-del}
use distributed_job_orchestr.RateLimit.{
  Decision, TokenBucket, RateLimiter, token, make_bucket, refill, try_acquire, bucket_of, check,
  check_bucket, checked, stale, drop_keys, evict_idle,
}
use distributed_job_orchestr.RateLimit.Grants.{IsBucket}

-- A bucket of this limiter, within its capacity.
pub record IsOwn (l : RateLimiter) (b : TokenBucket) : Type 0 where
  pub capacity_own : b.capacity ≡ l.capacity
  pub rate_own : b.refill_rate ≡ l.refill_rate
  pub bounded : IsBucket b
  pub room : 1 ≤ l.capacity

-- Each bucket was last seen at a time that is neither before its own nor after `latest`.
abbrev pub Seen : ℕ → RateLimiter → Type 0
Seen latest l =
    (key : ℕ) (b : TokenBucket)
    → lookup key l.buckets ≡ some b
    → IsOwn l b × ((t : ℕ) × (lookup key l.last_seen ≡ some t) × (b.updated_at ≤ t) × (t ≤ latest))

pub record IsLimiter (latest : ℕ) (l : RateLimiter) : Type 0 where
  pub seen : Seen latest l
  pub distinct : Distinct l.last_seen

abbrev pub has : ℕ → List ℕ → Bool
has key keys = any (λ k. k == key) keys

pub drop_keys-lookup :
    (keys : List ℕ) (l : RateLimiter) (key : ℕ)
    → let m = drop_keys keys l in
      (lookup key m.buckets ≡ (if has key keys then none else lookup key l.buckets))
      × (m.capacity ≡ l.capacity)
      × (m.refill_rate ≡ l.refill_rate)
unfolding drop_keys
drop_keys-lookup [] l key = (refl, refl, refl)
drop_keys-lookup (k ∷ keys) l key =
    let m = record l { buckets = del k l.buckets; last_seen = del k l.last_seen } in
    let (a, b, c) = drop_keys-lookup keys m key in
    (ground (arith, a, lookup-del key k l.buckets), b, c)

-- A key that is dropped was seen before the cutoff.
pub stale-lookup :
    (now ttl : ℕ) (d : List (ℕ × ℕ)) (key : ℕ)
    → Distinct d
    → has key (stale now ttl d) ≡ true
    → (t : ℕ) × (lookup key d ≡ some t) × (t + ttl < now)
unfolding stale
stale-lookup now ttl [] key v h = ground arith
stale-lookup now ttl ((k, t) ∷ d) key v h = elim (Bool-cases (has key (stale now ttl d))) [
  | inl later ↦
      let (u, e, old) = stale-lookup now ttl d key v.1 later in
      let apart : k ≢ key = λ same. ground (arith, v.0, e, same) in
      (u, ground (arith, e, apart), old)
  | inr never ↦ (t, ground (arith, h, never), ground (arith, h, never))
]

-- A bucket left alone for long enough is full.
refill-full :
    (later : ℕ) (l : RateLimiter) (b : TokenBucket)
    → IsOwn l b
    → l.capacity * token ≤ (later - b.updated_at) * l.refill_rate
    → b.updated_at < later
    → (c : TokenBucket) × (make_bucket l.capacity l.refill_rate later ≡ some c)
      × (refill later b ≡ refill later c)
      × (b.capacity ≡ c.capacity)
unfolding make_bucket refill
refill-full later l b v h k = (
  record {
    capacity = l.capacity;
    refill_rate = l.refill_rate;
    tokens = l.capacity * token;
    updated_at = later;
  },
  ground (arith, v.room, v.rate_own, v.bounded.refills),
  ground (arith, v.capacity_own, v.rate_own, v.bounded.full),
  v.capacity_own,
)

try_acquire-refill :
    (cost now : ℕ) (b c : TokenBucket)
    → refill now b ≡ refill now c
    → b.capacity ≡ c.capacity
    → try_acquire cost now b ≡ try_acquire cost now c
unfolding try_acquire
try_acquire-refill cost now b c e f = rw (e, f)

abbrev pub decision_of : Option (Decision × TokenBucket) → Option Decision
decision_of none = none
decision_of (some (d, b)) = some d

-- What a check answers with a bucket in hand.
abbrev pub answer : ℕ → ℕ → Option TokenBucket → Option Decision
answer cost now none = none
answer cost now (some b) = decision_of (try_acquire cost now b)

checked-decision :
    (key now : ℕ) (l : RateLimiter) (b : TokenBucket) (r : Option (Decision × TokenBucket))
    → (checked key now l b r).0 ≡ decision_of r
checked-decision key now l b none = refl
checked-decision key now l b (some (d, c)) = refl

pub check-answer :
    (key cost now : ℕ) (l : RateLimiter)
    → (check key cost now l).0 ≡ answer cost now (bucket_of key now l)
unfolding check
check-answer key cost now l = go (bucket_of key now l)
  where
    go : (o : Option TokenBucket) → (check_bucket key cost now l o).0 ≡ answer cost now o
    go none = refl
    go (some b) = checked-decision key now l b (try_acquire cost now b)

pub bucket-found :
    (key now : ℕ) (l : RateLimiter) (b : TokenBucket)
    → lookup key l.buckets ≡ some b
    → bucket_of key now l ≡ some b
unfolding bucket_of
bucket-found key now l b e = rw (e, bucket_of) refl

pub bucket-made :
    (key now : ℕ) (l : RateLimiter)
    → lookup key l.buckets ≡ none
    → bucket_of key now l ≡ make_bucket l.capacity l.refill_rate now
unfolding bucket_of
bucket-made key now l e = rw (e, bucket_of) refl

-- A bucket that a limiter lost, when it was full anyway, is not missed.
answer-lost :
    (key cost later : ℕ) (l m : RateLimiter) (x : TokenBucket)
    → IsOwn l x
    → l.capacity * token ≤ (later - x.updated_at) * l.refill_rate
    → x.updated_at < later
    → bucket_of key later m ≡ make_bucket l.capacity l.refill_rate later
    → answer cost later (bucket_of key later m) ≡ answer cost later (some x)
answer-lost key cost later l m x own enough past e =
    let (y, made, full, cap) = refill-full later l x own enough past in
    ap (answer cost later) (e ∙ made)
    ∙ ap decision_of (sym (try_acquire-refill cost later x y full cap))

-- After an eviction the bucket of a key answers as before it.
answer-evict_idle :
    (key cost now later latest : ℕ) (l : RateLimiter)
    → IsLimiter latest l
    → now ≤ later
    → l.capacity * token ≤ l.idle_ttl * l.refill_rate
    → answer cost later (bucket_of key later (evict_idle now l).1)
      ≡ answer cost later (bucket_of key later l)
unfolding evict_idle
answer-evict_idle key cost now later latest l v h k =
    let keys = stale now l.idle_ttl l.last_seen in
    let m = drop_keys keys l in
    let (a, b, c) = drop_keys-lookup keys l key in
    let fresh : lookup key m.buckets ≡ none
        → bucket_of key later m ≡ make_bucket l.capacity l.refill_rate later =
      λ e. bucket-made key later m e ∙ ap₂ (λ n r. make_bucket n r later) b c in
    elim (Option-cases (lookup key l.buckets)) [
      | inl e ↦
          let gone : lookup key m.buckets ≡ none = ground (arith, a, e) in
          ap (answer cost later) (fresh gone ∙ sym (bucket-made key later l e))
      | inr (x, e) ↦ elim (Bool-cases (has key keys)) [
        | inr kept ↦
            let still : lookup key m.buckets ≡ some x = ground (arith, a, kept, e) in
            ap (answer cost later)
              (bucket-found key later m x still ∙ sym (bucket-found key later l x e))
        | inl dropped ↦
            let (own, (t, seen, before, _)) = v.seen key x e in
            let (u, also, old) = stale-lookup now l.idle_ttl l.last_seen key v.distinct dropped in
            let same : u ≡ t = ground (arith, seen, also) in
            let gone : lookup key m.buckets ≡ none = ground (arith, a, dropped) in
            let wait : l.idle_ttl * l.refill_rate ≤ (later - x.updated_at) * l.refill_rate =
              mul-le-mul_right l.refill_rate (omega arith) in
            answer-lost key cost later l m x own (omega (arith, wait)) (omega arith) (fresh gone)
            ∙ sym (ap (answer cost later) (bucket-found key later l x e))
      ]
    ]

-- In a well-formed limiter whose idle time is long enough to refill a bucket, an eviction goes
-- unnoticed: at that time and any later one every key gets the decision that it would have got
-- without it.
pub check-evict_idle :
    (key cost now later latest : ℕ) (l : RateLimiter)
    → IsLimiter latest l
    → now ≤ later
    → l.capacity * token ≤ l.idle_ttl * l.refill_rate
    → (check key cost later (evict_idle now l).1).0 ≡ (check key cost later l).0
check-evict_idle key cost now later latest l v h k =
    check-answer key cost later (evict_idle now l).1
    ∙ answer-evict_idle key cost now later latest l v h k
    ∙ sym (check-answer key cost later l)
