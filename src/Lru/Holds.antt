-- ===== src/Lru/Holds.antt =====
-- What it means that a cache holds a list of entries, and that a call agrees with the list's.
use distributed_job_orchestr.Common.{
  ℕ, suc, ◌≡◌, refl, sym, ap, ◌∙◌, false, List, [], ◌∷◌, map, Option, none, some, arith, length,
  ◌==◌, Bool-cases, inl, inr,
}
use distributed_job_orchestr.Common.Dict.{lookup, del}
use distributed_job_orchestr.Lru.{Store, LruCache, move_to_front, init}
use distributed_job_orchestr.Lru.Links.{move_to_front-Relinked}
use distributed_job_orchestr.Lru.Entries.{addresses, Represents, lookup-has}
use distributed_job_orchestr.Lru.Moves.{front-Represents}

module _ {V : Type 0} where
  abbrev pub recency : List (ℕ × (ℕ × V)) → List (ℕ × V)
  recency es = map (λ (k, (a, v)). (k, v)) es

  abbrev pub value_of : Option (ℕ × V) → Option V
  value_of none = none
  value_of (some (a, v)) = some v

  pub lookup-recency :
      (k : ℕ) (es : List (ℕ × (ℕ × V))) → lookup k (recency es) ≡ value_of (lookup k es)
  lookup-recency k [] = refl
  lookup-recency k ((i, (b, w)) ∷ es) = ground (arith, lookup-recency k es)

  pub del-recency : (k : ℕ) (es : List (ℕ × (ℕ × V))) → del k (recency es) ≡ recency (del k es)
  del-recency k [] = refl
  del-recency k ((i, (b, w)) ∷ es) = elim (Bool-cases (i == k)) [
    | inl hit ↦ rw hit (del-recency k es)
    | inr miss ↦ rw miss (ap (λ l. (i, w) ∷ l) (del-recency k es))
  ]

  pub length-recency : (es : List (ℕ × (ℕ × V))) → length (recency es) ≡ length es
  length-recency [] = refl
  length-recency ((i, (b, w)) ∷ es) = ap suc (length-recency es)

  -- The cache holds these entries, in this order of use.
  abbrev pub Holds : LruCache V → List (ℕ × V) → Type 0
  Holds c l = (es : List (ℕ × (ℕ × V))) × Represents c es × (recency es ≡ l)

  -- A call of the cache goes like the call on the list: no exception, the same answer.
  abbrev pub Agrees :
      {A : Type 0} → LruCache V → Option (A × LruCache V) → A × List (ℕ × V) → Type 0
  Agrees c call (answer, l) =
      (c' : LruCache V) × (call ≡ some (answer, c')) × (c'.capacity ≡ c.capacity) × Holds c' l

  pub init-Holds : (capacity : ℕ) → Holds (init capacity) []
  unfolding init
  init-Holds capacity = (
    [],
    record {
      chain = (ground arith, ground arith);
      apart = ground arith;
      old = λ a h. ground (arith, h);
      stored = tt;
      distinct = tt;
      index = λ k. refl;
      keys = tt;
      sizes = refl;
    },
    refl,
  )

  -- The counters are not part of the list.
  pub recounted :
      (c : LruCache V) (es : List (ℕ × (ℕ × V)))
      → Represents c es
      → (hits misses : ℕ) → Represents (record c { hits = hits; misses = misses }) es
  recounted c es r hits misses = record {
    chain = r.chain;
    apart = r.apart;
    old = r.old;
    stored = r.stored;
    distinct = r.distinct;
    index = r.index;
    keys = r.keys;
    sizes = r.sizes;
  }

  -- A node that is in use moves to the front, its value written before.
  pub moved :
      (c : LruCache V) (values : ℕ → Option V) (k a : ℕ) (v w : V) (es : List (ℕ × (ℕ × V)))
      → Represents c es
      → lookup k es ≡ some (a, v)
      → ((x : ℕ) → (a == x) ≡ false → values x ≡ c.store.value x)
      → values a ≡ some w
      → (s : Store V) × (move_to_front a (record c.store { value = values }) ≡ some s)
        × (s.value a ≡ some w)
        × ((hits misses : ℕ)
            → Holds
                (record c { store = s; hits = hits; misses = misses })
                ((k, w) ∷ del k (recency es)))
  moved c values k a v w es r at others new =
      let (s, e, (keys, same_values, chain)) =
        move_to_front-Relinked a (record c.store { value = values }) (addresses es) r.chain r.apart
          (lookup-has k a v es at) in
      let value : s.value a ≡ some w = ap (λ f. f a) same_values ∙ new in
      (
        s,
        e,
        value,
        λ hits misses. (
          (k, (a, w)) ∷ del k es,
          front-Represents c (record c { store = s; hits = hits; misses = misses }) es k a v w r at
              refl refl chain (λ x. ap (λ f. f x) keys)
              (λ x h. ap (λ f. f x) same_values ∙ others x h) value,
          ap (λ l. (k, w) ∷ l) (sym (del-recency k es)),
        ),
      )
