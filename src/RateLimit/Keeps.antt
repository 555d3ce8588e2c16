-- ===== src/RateLimit/Keeps.antt =====
-- A check and an eviction keep the limiter well formed.
use distributed_job_orchestr.Common.{
  ℕ, ◌+◌, ◌≤◌, ◌≡◌, refl, sym, subst, ◌∙◌, false, List, [], ◌∷◌, Option, none, some, arith, ◌==◌,
  Bool-cases, Option-cases, inl, inr,
}
use distributed_job_orchestr.Common.Dict.{
  lookup, put, del, lookup-put, lookup-del, Distinct-put, Distinct-del,
}
use distributed_job_orchestr.RateLimit.{
  Decision, TokenBucket, RateLimiter, make_bucket, refill, decide, try_acquire, bucket_of, check,
  check_bucket, checked, stale, drop_keys, evict_idle,
}
use distributed_job_orchestr.RateLimit.Grants.{left}
use distributed_job_orchestr.RateLimit.Idle.{
  drop_keys-lookup, has, bucket-found, bucket-made, stale-lookup, IsOwn, Seen, IsLimiter,
}

-- A call to a bucket of the limiter leaves a bucket of it, no later than the call.
left-IsOwn :
    (l : RateLimiter) (cost now : ℕ) (b : TokenBucket)
    → IsOwn l b
    → b.updated_at ≤ now
    → let c = left b (try_acquire cost now b) in IsOwn l c × (c.updated_at ≤ now)
unfolding try_acquire refill decide
left-IsOwn l cost now b v h = ground arith

made-IsOwn :
    (l : RateLimiter) (now : ℕ) (b : TokenBucket)
    → make_bucket l.capacity l.refill_rate now ≡ some b
    → IsOwn l b × (b.updated_at ≤ now)
unfolding make_bucket
made-IsOwn l now b e = ground arith

bucket_of-IsOwn :
    (l : RateLimiter) (key latest now : ℕ) (b : TokenBucket)
    → IsLimiter latest l
    → latest ≤ now
    → bucket_of key now l ≡ some b
    → IsOwn l b × (b.updated_at ≤ now)
bucket_of-IsOwn l key latest now b v h e = elim (Option-cases (lookup key l.buckets)) [
  | inl f ↦ made-IsOwn l now b (sym (bucket-made key now l f) ∙ e)
  | inr (x, f) ↦
      let found : some x ≡ some b = sym (bucket-found key now l x f) ∙ e in
      let same : x ≡ b = cc in
      let (own, (t, _, before, past)) = v.seen key x f in
      (rw (← same) own, rw (← same) (omega arith))
]

abbrev stored : ℕ → ℕ → TokenBucket → RateLimiter → RateLimiter
stored key now b l = record l { buckets = put key b l.buckets; last_seen = put key now l.last_seen }

-- The settings of the limiter are all that its buckets share with it.
settings-IsOwn :
    (l m : RateLimiter) (b : TokenBucket)
    → m.capacity ≡ l.capacity
    → m.refill_rate ≡ l.refill_rate
    → IsOwn l b
    → IsOwn m b
settings-IsOwn l m b e f v = record {
  capacity_own = v.capacity_own ∙ sym e;
  rate_own = v.rate_own ∙ sym f;
  bounded = v.bounded;
  room = rw e v.room;
}

stored-Seen :
    (l : RateLimiter) (key latest now : ℕ) (b : TokenBucket)
    → IsLimiter latest l
    → latest ≤ now
    → IsOwn l b
    → b.updated_at ≤ now
    → Seen now (stored key now b l)
stored-Seen l key latest now b v h own past k c e =
    let m = stored key now b l in
    elim (Bool-cases (key == k)) [
      | inl hit ↦
          let same : b ≡ c = ground (arith, lookup-put k key b l.buckets, e, hit) in
          (
            settings-IsOwn l m c refl refl (rw (← same) own),
            (
              now,
              ground (arith, lookup-put k key now l.last_seen, hit),
              rw (← same) past,
              omega arith,
            ),
          )
      | inr miss ↦
          let old : lookup k l.buckets ≡ some c =
            ground (arith, lookup-put k key b l.buckets, e, miss) in
          let (kept, (t, seen, before, early)) = v.seen k c old in
          (
            settings-IsOwn l m c refl refl kept,
            (t, ground (arith, lookup-put k key now l.last_seen, miss, seen), before, omega arith),
          )
    ]

stored-IsLimiter :
    (l : RateLimiter) (key latest now : ℕ) (b : TokenBucket)
    → IsLimiter latest l
    → latest ≤ now
    → IsOwn l b
    → b.updated_at ≤ now
    → IsLimiter now (stored key now b l)
stored-IsLimiter l key latest now b v h own past = record {
  seen = stored-Seen l key latest now b v h own past;
  distinct = Distinct-put key now l.last_seen v.distinct;
}

checked-stored :
    (key now : ℕ) (l : RateLimiter) (b : TokenBucket) (r : Option (Decision × TokenBucket))
    → (checked key now l b r).1 ≡ stored key now (left b r) l
checked-stored key now l b none = refl
checked-stored key now l b (some (d, c)) = refl

later-IsLimiter :
    (l : RateLimiter) (latest now : ℕ) → IsLimiter latest l → latest ≤ now → IsLimiter now l
later-IsLimiter l latest now v h = record {
  seen = λ k c e.
      let (own, (t, seen, before, early)) = v.seen k c e in (own, (t, seen, before, omega arith));
  distinct = v.distinct;
}

-- A check at a time that is not before the latest one keeps the limiter well formed, whatever it
-- answers and also when it raises.
pub check-IsLimiter :
    (key cost latest now : ℕ) (l : RateLimiter)
    → IsLimiter latest l
    → latest ≤ now
    → IsLimiter now (check key cost now l).1
unfolding check
check-IsLimiter key cost latest now l v h = go (bucket_of key now l) refl
  where
    go :
        (o : Option TokenBucket)
        → bucket_of key now l ≡ o
        → IsLimiter now (check_bucket key cost now l o).1
    go none e = later-IsLimiter l latest now v h
    go (some b) e =
        let (own, past) = bucket_of-IsOwn l key latest now b v h e in
        let (own', past') = left-IsOwn l cost now b own past in
        let c = left b (try_acquire cost now b) in
        subst (IsLimiter now) (sym (checked-stored key now l b (try_acquire cost now b)))
          (stored-IsLimiter l key latest now c v h own' past')

dropped-IsLimiter :
    (latest key : ℕ) (l : RateLimiter)
    → IsLimiter latest l
    → IsLimiter latest (record l { buckets = del key l.buckets; last_seen = del key l.last_seen })
dropped-IsLimiter latest key l v = record {
  seen = λ k c e.
      let miss : (key == k) ≡ false = ground (arith, lookup-del k key l.buckets, e) in
      let old : lookup k l.buckets ≡ some c = ground (arith, lookup-del k key l.buckets, e) in
      let (own, (t, seen, before, early)) = v.seen k c old in
      (
        settings-IsOwn l _ c refl refl own,
        (t, ground (arith, lookup-del k key l.last_seen, miss, seen), before, early),
      );
  distinct = Distinct-del key l.last_seen v.distinct;
}

drop_keys-IsLimiter :
    (latest : ℕ) (keys : List ℕ) (l : RateLimiter)
    → IsLimiter latest l
    → IsLimiter latest (drop_keys keys l)
unfolding drop_keys
drop_keys-IsLimiter latest [] l v = v
drop_keys-IsLimiter latest (k ∷ keys) l v =
    drop_keys-IsLimiter latest keys _ (dropped-IsLimiter latest k l v)

-- An eviction keeps the limiter well formed, and every key that was seen within the idle time
-- keeps its bucket.
pub evict_idle-IsLimiter :
    (latest now : ℕ) (l : RateLimiter)
    → IsLimiter latest l
    → IsLimiter latest (evict_idle now l).1
      × ((key t : ℕ)
          → lookup key l.last_seen ≡ some t
          → now ≤ t + l.idle_ttl
          → lookup key (evict_idle now l).1.buckets ≡ lookup key l.buckets)
unfolding evict_idle
evict_idle-IsLimiter latest now l v =
    let keys = stale now l.idle_ttl l.last_seen in
    (
      drop_keys-IsLimiter latest keys l v,
      λ key t e h.
          let (a, _, _) = drop_keys-lookup keys l key in
          elim (Bool-cases (has key keys)) [
            | inr kept ↦ ground (arith, a, kept)
            | inl dropped ↦
                let (u, also, old) =
                  stale-lookup now l.idle_ttl l.last_seen key v.distinct dropped in
                let same : u ≡ t = ground (arith, e, also) in absurd (omega arith)
          ],
    )
