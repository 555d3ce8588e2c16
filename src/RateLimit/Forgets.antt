-- ===== src/RateLimit/Forgets.antt =====
-- An idle time too short for a refill: the eviction forgets what a client has spent.
use distributed_job_orchestr.Common.{
  ℕ, ◌+◌, ◌*◌, ◌≤◌, ◌<◌, ◌≡◌, ap, ◌∙◌, true, false, List, [], ◌∷◌, none, some, arith, leb,
}
use distributed_job_orchestr.Common.Dict.{lookup}
use distributed_job_orchestr.RateLimit.{
  Decision, TokenBucket, RateLimiter, token, make_bucket, refill, decide, check, stale, drop_keys,
  evict_idle,
}
use distributed_job_orchestr.RateLimit.Retry.{accepted_cost, decide-allowed}
use distributed_job_orchestr.RateLimit.Idle.{
  has, drop_keys-lookup, bucket-found, bucket-made, answer, decision_of, check-answer, IsLimiter,
}

lookup-stale :
    (now ttl : ℕ) (d : List (ℕ × ℕ)) (key t : ℕ)
    → lookup key d ≡ some t
    → t + ttl < now
    → has key (stale now ttl d) ≡ true
unfolding stale
lookup-stale now ttl [] key t e h = ground arith
lookup-stale now ttl ((k, u) ∷ d) key t e h = ground (arith, lookup-stale now ttl d key t)

-- The decision of a check whose cost is allowed, from the tokens of the refilled bucket.
answer-allowed :
    (cost now : ℕ) (b : TokenBucket)
    → 1 ≤ cost
    → cost ≤ b.capacity
    → answer cost now (some b) ≡ some (decide cost (refill now b)).0
answer-allowed cost now b h k = ap decision_of (accepted_cost cost now b h k)

fresh-answer :
    (capacity rate cost now : ℕ)
    → 1 ≤ rate
    → 1 ≤ cost
    → cost ≤ capacity
    → (d : Decision) × (answer cost now (make_bucket capacity rate now) ≡ some d)
      × (d.allowed ≡ true)
unfolding make_bucket refill
fresh-answer capacity rate cost now r h k =
    let c : TokenBucket = record {
      capacity = capacity;
      refill_rate = rate;
      tokens = capacity * token;
      updated_at = now;
    } in
    let made : make_bucket capacity rate now ≡ some c = ground arith in
    let enough : leb (cost * token) (refill now c).tokens ≡ true = ground arith in
    (
      (decide cost (refill now c)).0,
      ap (answer cost now) made ∙ answer-allowed cost now c h k,
      decide-allowed cost (refill now c) ∙ enough,
    )

-- In a well-formed limiter, a client whose bucket does not hold the cost of a call is refused; if
-- its idle time is over at that moment and an eviction comes first, the same call is granted.
pub evict_idle-forgets :
    (key cost now latest t : ℕ) (l : RateLimiter) (b : TokenBucket)
    → IsLimiter latest l
    → lookup key l.buckets ≡ some b
    → lookup key l.last_seen ≡ some t
    → t + l.idle_ttl < now
    → 1 ≤ cost
    → cost ≤ l.capacity
    → (refill now b).tokens < cost * token
    → (d : Decision) × (d' : Decision) × ((check key cost now l).0 ≡ some d)
      × (d.allowed ≡ false)
      × ((check key cost now (evict_idle now l).1).0 ≡ some d')
      × (d'.allowed ≡ true)
unfolding evict_idle
evict_idle-forgets key cost now latest t l b v e seen old h k short =
    let keys = stale now l.idle_ttl l.last_seen in
    let m = drop_keys keys l in
    let (a, cap, rate) = drop_keys-lookup keys l key in
    let (own, _) = v.seen key b e in
    let dropped = lookup-stale now l.idle_ttl l.last_seen key t seen old in
    let gone : lookup key m.buckets ≡ none = ground (arith, a, dropped) in
    let (d', e', granted) =
      fresh-answer m.capacity m.refill_rate cost now (rw (rate, ← own.rate_own) own.bounded.refills)
        h (rw cap k) in
    (
      (decide cost (refill now b)).0,
      d',
      check-answer key cost now l
          ∙ ap (answer cost now) (bucket-found key now l b e)
          ∙ answer-allowed cost now b h (rw own.capacity_own k),
      decide-allowed cost (refill now b) ∙ ground (arith, short),
      check-answer key cost now m ∙ ap (answer cost now) (bucket-made key now m gone) ∙ e',
      granted,
    )
