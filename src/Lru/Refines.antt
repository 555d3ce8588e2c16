-- ===== src/Lru/Refines.antt =====
-- Every operation of the cache does what the same operation does on the list of its entries.
use distributed_job_orchestr.Common.{
  ℕ, ◌+◌, ◌≡◌, refl, sym, ap, subst, ◌∙◌, true, false, List, [], ◌∷◌, Option, none, some, arith,
  ◌==◌, Bool-cases, Option-cases, inl, inr,
}
use distributed_job_orchestr.Common.Dict.{lookup, put as set_key, del}
use distributed_job_orchestr.Lru.{
  LruCache, head_node, tail_node, set_at, and_then, get, put, settle, get_or_load, invalidate,
  clear, new_node, loaded, raised,
}
use distributed_job_orchestr.Lru.Chain.{Chain-ext}
use distributed_job_orchestr.Lru.Links.{Between}
use distributed_job_orchestr.Lru.Links.{push_front-Relinked, unlink-Relinked}
use distributed_job_orchestr.Lru.Entries.{
  addresses, address_of, Represents, lookup-has, lookup-Stored,
}
use distributed_job_orchestr.Lru.Moves.{drop-Represents, push-Represents, fresh-Apart}
use distributed_job_orchestr.Lru.Recency.{read, trim, write, load, load_known, load_new, drop}
use distributed_job_orchestr.Lru.Holds.{
  recency, value_of, lookup-recency, del-recency, Holds, Agrees, recounted, moved,
}
use distributed_job_orchestr.Lru.Evicts.{settle-Agrees}

module _ {V : Type 0} where
  -- While the cache holds a list of entries, `get` raises nothing, answers as a read of the list
  -- does, and leaves the cache with the entries in the order of that read.
  pub get-Agrees :
      (k : ℕ) (default : Option V) (c : LruCache V) (l : List (ℕ × V))
      → Holds c l
      → Agrees c (get k default c) (read k default l)
  unfolding get
  get-Agrees k default c l (es, r, same) =
      subst (λ l. Agrees c (get k default c) (read k default l)) same
        (elim (Option-cases (lookup k es)) [
          | inl miss ↦
              let away : lookup k (recency es) ≡ none = lookup-recency k es ∙ ap value_of miss in
              let known : lookup k c.nodes ≡ none = r.index k ∙ ap address_of miss in
              let c' = record c { misses = c.misses + 1 } in
              let at : get k default c ≡ some (default, c') = rw (get, known) refl in
              let goes : read k default (recency es) ≡ (default, recency es) =
                rw (read, away) refl in
              subst (Agrees c (get k default c)) (sym goes)
                (c', at, refl, (es, recounted c es r c.hits (c.misses + 1), refl))
          | inr ((a, v), hit) ↦
              let there : lookup k (recency es) ≡ some v = lookup-recency k es ∙ ap value_of hit in
              let known : lookup k c.nodes ≡ some a = r.index k ∙ ap address_of hit in
              let (s, e, value, holds) =
                moved c c.store.value k a v v es r hit (λ x h. refl)
                  (lookup-Stored k a v c.store es r.stored hit).1 in
              let c' = record c { hits = c.hits + 1; store = s } in
              let at : get k default c ≡ some (some v, c') =
                rw (get, known, e, and_then, value) refl in
              let goes : read k default (recency es) ≡ (some v, (k, v) ∷ del k (recency es)) =
                rw (read, there) refl in
              subst (Agrees c (get k default c)) (sym goes)
                (c', at, refl, holds (c.hits + 1) c.misses)
        ])

  put-absent :
      (k : ℕ) (v : V) (c : LruCache V) (es : List (ℕ × (ℕ × V)))
      → Represents c es
      → (c.capacity == 0) ≡ false
      → lookup k es ≡ none
      → Agrees c (put k v c) (trim c.capacity ((k, v) ∷ recency es))
  unfolding put
  put-absent k v c es r some_room miss =
      let known : lookup k c.nodes ≡ none = r.index k ∙ ap address_of miss in
      let store = new_node c.fresh (some k) (some v) c.store in
      let here : Between store (addresses es) =
        Chain-ext c.store.next c.store.prev store.next store.prev head_node (addresses es) tail_node
          (λ x h. ground (arith, r.old x (ground (arith, h))))
          (λ x h. ground (arith, r.old x (ground (arith, h)))) r.chain in
      let (s, e, (keys, values, chain)) =
        push_front-Relinked c.fresh store (addresses es) here
          (fresh-Apart c.fresh (addresses es) r.apart r.old) in
      let c1 = record c { nodes = set_key k c.fresh c.nodes; store = s; fresh = c.fresh + 1 } in
      let pushed : Represents c1 ((k, (c.fresh, v)) ∷ es) =
        push-Represents c c1 es k v r miss refl refl chain (ap (λ f. f c.fresh) keys ∙ ground arith)
          (ap (λ f. f c.fresh) values ∙ ground arith)
          (λ x h.
            (ap (λ f. f x) keys ∙ ground (arith, h), ap (λ f. f x) values ∙ ground (arith, h))) in
      let (c2, call, capacity, holds) = settle-Agrees c1 (k, (c.fresh, v)) es pushed in
      let at : put k v c ≡ settle c1 = rw (put, some_room, known, e, and_then) refl in
      (c2, at ∙ call, capacity, holds)

  -- While the cache holds a list of entries, `put` raises nothing, answers as a write of the list
  -- does (with the evicted key, if one is evicted), and leaves the cache with the written list.
  pub put-Agrees :
      (k : ℕ) (v : V) (c : LruCache V) (l : List (ℕ × V))
      → Holds c l
      → Agrees c (put k v c) (write c.capacity k v l)
  unfolding put
  put-Agrees k v c l (es, r, same) =
      subst (λ l. Agrees c (put k v c) (write c.capacity k v l)) same
        (elim (Bool-cases (c.capacity == 0)) [
          | inl no_room ↦
              let at : put k v c ≡ some (some k, c) = rw (put, no_room) refl in
              let goes : write c.capacity k v (recency es) ≡ (some k, recency es) =
                rw (write, no_room) refl in
              subst (Agrees c (put k v c)) (sym goes) (c, at, refl, (es, r, refl))
          | inr some_room ↦ elim (Option-cases (lookup k es)) [
            | inl miss ↦
                let away : lookup k (recency es) ≡ none = lookup-recency k es ∙ ap value_of miss in
                let goes : write c.capacity k v (recency es)
                    ≡ trim c.capacity ((k, v) ∷ recency es) =
                  rw (write, some_room, away) refl in
                subst (Agrees c (put k v c)) (sym goes) (put-absent k v c es r some_room miss)
            | inr ((a, w), hit) ↦
                let there : lookup k (recency es) ≡ some w =
                  lookup-recency k es ∙ ap value_of hit in
                let known : lookup k c.nodes ≡ some a = r.index k ∙ ap address_of hit in
                let (s, e, value, holds) =
                  moved c (set_at a (some v) c.store.value) k a w v es r hit
                    (λ x h. ground (arith, h)) (ground arith) in
                let c' = record c { store = s } in
                let at : put k v c ≡ some (none, c') =
                  rw (put, some_room, known, e, and_then) refl in
                let goes : write c.capacity k v (recency es) ≡ (none, (k, v) ∷ del k (recency es)) =
                  rw (write, some_room, there) refl in
                subst (Agrees c (put k v c)) (sym goes) (c', at, refl, holds c.hits c.misses)
          ]
        ])

  -- While the cache holds a list of entries, `get_or_load` raises nothing of its own, and answers
  -- and leaves the entries as a read through the loader of the list does; when the loader raises,
  -- the entries stay.
  pub get_or_load-Agrees :
      (k : ℕ) (loader : ℕ → Option V) (c : LruCache V) (l : List (ℕ × V))
      → Holds c l
      → Agrees c (get_or_load k loader c) (load c.capacity k loader l)
  unfolding get_or_load
  get_or_load-Agrees k loader c l (es, r, same) =
      subst (λ l. Agrees c (get_or_load k loader c) (load c.capacity k loader l)) same
        (elim (Option-cases (lookup k es)) [
          | inl miss ↦
              let away : lookup k (recency es) ≡ none = lookup-recency k es ∙ ap value_of miss in
              let known : lookup k c.nodes ≡ none = r.index k ∙ ap address_of miss in
              let c1 = record c { misses = c.misses + 1 } in
              let r1 = recounted c es r c.hits (c.misses + 1) in
              elim (Option-cases (loader k)) [
                | inl fails ↦
                    let at : get_or_load k loader c ≡ some (raised, c1) =
                      rw (get_or_load, known, fails) refl in
                    let goes : load c.capacity k loader (recency es) ≡ (raised, recency es) =
                      ap (λ o. load_known o c.capacity k loader (recency es)) away
                      ∙ ap (λ o. load_new o c.capacity k (recency es)) fails in
                    subst (Agrees c (get_or_load k loader c)) (sym goes)
                      (c1, at, refl, (es, r1, refl))
                | inr (v, gives) ↦
                    let (c2, call, capacity, holds) =
                      put-Agrees k v c1 (recency es) (es, r1, refl) in
                    let at : get_or_load k loader c ≡ some (loaded (some v), c2) =
                      rw (get_or_load, known, gives, call, and_then) refl in
                    let goes : load c.capacity k loader (recency es)
                        ≡ (loaded (some v), (write c.capacity k v (recency es)).1) =
                      ap (λ o. load_known o c.capacity k loader (recency es)) away
                      ∙ ap (λ o. load_new o c.capacity k (recency es)) gives in
                    subst (Agrees c (get_or_load k loader c)) (sym goes) (c2, at, capacity, holds)
              ]
          | inr ((a, v), hit) ↦
              let there : lookup k (recency es) ≡ some v = lookup-recency k es ∙ ap value_of hit in
              let known : lookup k c.nodes ≡ some a = r.index k ∙ ap address_of hit in
              let (s, e, value, holds) =
                moved c c.store.value k a v v es r hit (λ x h. refl)
                  (lookup-Stored k a v c.store es r.stored hit).1 in
              let c' = record c { hits = c.hits + 1; store = s } in
              let at : get_or_load k loader c ≡ some (loaded (some v), c') =
                rw (get_or_load, known, e, and_then, value) refl in
              let goes : load c.capacity k loader (recency es)
                  ≡ (loaded (some v), (k, v) ∷ del k (recency es)) =
                ap (λ o. load_known o c.capacity k loader (recency es)) there in
              subst (Agrees c (get_or_load k loader c)) (sym goes)
                (c', at, refl, holds (c.hits + 1) c.misses)
        ])

  -- While the cache holds a list of entries, `invalidate` raises nothing, answers whether the key
  -- is in the list, and leaves the list without it.
  pub invalidate-Agrees :
      (k : ℕ) (c : LruCache V) (l : List (ℕ × V)) → Holds c l → Agrees c (invalidate k c) (drop k l)
  unfolding invalidate
  invalidate-Agrees k c l (es, r, same) =
      subst (λ l. Agrees c (invalidate k c) (drop k l)) same
        (elim (Option-cases (lookup k es)) [
          | inl miss ↦
              let away : lookup k (recency es) ≡ none = lookup-recency k es ∙ ap value_of miss in
              let known : lookup k c.nodes ≡ none = r.index k ∙ ap address_of miss in
              let at : invalidate k c ≡ some (false, c) = rw (invalidate, known) refl in
              let goes : drop k (recency es) ≡ (false, recency es) = rw (drop, away) refl in
              subst (Agrees c (invalidate k c)) (sym goes) (c, at, refl, (es, r, refl))
          | inr ((a, v), hit) ↦
              let there : lookup k (recency es) ≡ some v = lookup-recency k es ∙ ap value_of hit in
              let known : lookup k c.nodes ≡ some a = r.index k ∙ ap address_of hit in
              let (s, e, (keys, values, chain)) =
                unlink-Relinked a c.store (addresses es) r.chain r.apart
                  (lookup-has k a v es hit) in
              let c' = record c { nodes = del k c.nodes; store = s } in
              let at : invalidate k c ≡ some (true, c') =
                rw (invalidate, known, e, and_then) refl in
              let goes : drop k (recency es) ≡ (true, del k (recency es)) = rw (drop, there) refl in
              let holds : Holds c' (del k (recency es)) = (
                del k es,
                drop-Represents c c' es k a v r hit refl refl chain (λ x. ap (λ f. f x) keys)
                    (λ x. ap (λ f. f x) values),
                sym (del-recency k es),
              ) in
              subst (Agrees c (invalidate k c)) (sym goes) (c', at, refl, holds)
        ])

  pub clear-Holds : (c : LruCache V) (l : List (ℕ × V)) → Holds c l → Holds (clear c) []
  unfolding clear
  clear-Holds c l (es, r, same) = (
    [],
    record {
      chain = (ground arith, ground arith);
      apart = ground arith;
      old = λ a h. r.old a (ground (arith, h));
      stored = tt;
      distinct = tt;
      index = λ k. refl;
      keys = tt;
      sizes = refl;
    },
    refl,
  )
