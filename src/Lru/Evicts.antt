-- ===== src/Lru/Evicts.antt =====
-- The eviction takes the last entry of the list.
use distributed_job_orchestr.Common.{
  ℕ, ◌≡◌, refl, sym, ap, subst, ◌∙◌, false, List, [], ◌∷◌, none, some, arith, length, ◌==◌, ltb,
  Bool-cases, inl, inr,
}
use distributed_job_orchestr.Common.Dict.{lookup, del, Distinct}
use distributed_job_orchestr.Lru.{
  LruCache, head_node, tail_node, and_then, settle, evict, del_key, with_eviction,
}
use distributed_job_orchestr.Lru.Chain.{last_of, Chain-last, differ}
use distributed_job_orchestr.Lru.Links.{unlink-Relinked}
use distributed_job_orchestr.Lru.Entries.{
  addresses, address_of, Represents, lookup-has, lookup-Stored,
}
use distributed_job_orchestr.Lru.Moves.{drop-Represents}
use distributed_job_orchestr.Lru.Recency.{last_key, without_last, trim}
use distributed_job_orchestr.Lru.Holds.{recency, length-recency, Holds, Agrees}

module _ {V : Type 0} where
  last_entry :
      (from : ℕ) (e : ℕ × (ℕ × V)) (es : List (ℕ × (ℕ × V)))
      → Distinct (e ∷ es)
      → (k : ℕ) × (a : ℕ) × (v : V) × (lookup k (e ∷ es) ≡ some (a, v))
        × (last_of from (addresses (e ∷ es)) ≡ a)
        × (last_key (recency (e ∷ es)) ≡ some k)
        × (recency (del k (e ∷ es)) ≡ without_last (recency (e ∷ es)))
  last_entry from (k, (a, v)) [] u = (k, a, v, ground arith, refl, refl, ground arith)
  last_entry from (i, (b, w)) (f ∷ es) u =
      let (k, a, v, at, last, key, rest) = last_entry b f es u.1 in
      let apart : (i == k) ≡ false = elim (Bool-cases (i == k)) [
        | inl hit ↦
            let same : i ≡ k = ground (arith, hit) in
            let gone : lookup k (f ∷ es) ≡ none = subst (λ j. lookup j (f ∷ es) ≡ none) same u.0 in
            absurd (ground (arith, gone, at))
        | inr miss ↦ miss
      ] in
      let left : del k ((i, (b, w)) ∷ f ∷ es) ≡ (i, (b, w)) ∷ del k (f ∷ es) =
        ground (arith, apart) in
      (k, a, v, ground (arith, apart, at), last, key, ap recency left ∙ ap (λ l. (i, w) ∷ l) rest)

  evict-Holds :
      (c : LruCache V) (e : ℕ × (ℕ × V)) (es : List (ℕ × (ℕ × V)))
      → Represents c (e ∷ es)
      → (k : ℕ) × (c' : LruCache V) × (evict c ≡ some (k, c'))
        × (c'.capacity ≡ c.capacity)
        × (last_key (recency (e ∷ es)) ≡ some k)
        × Holds c' (without_last (recency (e ∷ es)))
  unfolding evict
  evict-Holds c e es r =
      let (k, a, v, at, last, key, rest) = last_entry head_node e es r.distinct in
      let there = lookup-has k a v (e ∷ es) at in
      let (s, es1, (keys, values, chain)) =
        unlink-Relinked a c.store (addresses (e ∷ es)) r.chain r.apart there in
      let not_head = differ head_node a (addresses (e ∷ es)) (ground (arith, r.apart)) there in
      let victim : c.store.prev tail_node ≡ some a =
        Chain-last c.store.next c.store.prev head_node (addresses (e ∷ es)) tail_node r.chain
        ∙ ap some last in
      let not_sentinel : (a == head_node) ≡ false = ground (arith, not_head) in
      let its_key : s.key a ≡ some k =
        ap (λ f. f a) keys ∙ (lookup-Stored k a v c.store (e ∷ es) r.stored at).0 in
      let known : lookup k c.nodes ≡ some a = r.index k ∙ ap address_of at in
      let c' = record c { store = s; nodes = del k c.nodes } in
      let call : evict c ≡ some (k, c') =
        rw (victim, and_then, not_sentinel, es1, and_then, its_key, del_key, known) refl in
      (
        k,
        c',
        call,
        refl,
        key,
        (
          del k (e ∷ es),
          drop-Represents c c' (e ∷ es) k a v r at refl refl chain (λ x. ap (λ f. f x) keys)
              (λ x. ap (λ f. f x) values),
          rest,
        ),
      )

  pub settle-Agrees :
      (c : LruCache V) (e : ℕ × (ℕ × V)) (es : List (ℕ × (ℕ × V)))
      → Represents c (e ∷ es)
      → Agrees c (settle c) (trim c.capacity (recency (e ∷ es)))
  unfolding settle
  settle-Agrees c e es r =
      let sizes : length c.nodes ≡ length (recency (e ∷ es)) =
        r.sizes ∙ sym (length-recency (e ∷ es)) in
      elim (Bool-cases (ltb c.capacity (length (recency (e ∷ es))))) [
        | inl over ↦
            let (k, c', call, capacity, key, holds) = evict-Holds c e es r in
            let at : settle c ≡ some (last_key (recency (e ∷ es)), c') =
              rw (sizes, over, call, and_then, with_eviction, key) refl in
            rw over (c', at, capacity, holds)
        | inr fits ↦
            let at : settle c ≡ some (none, c) = rw (sizes, fits) refl in
            rw fits (c, at, refl, (e ∷ es, r, refl))
      ]
