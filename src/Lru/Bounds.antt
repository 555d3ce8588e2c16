-- ===== src/Lru/Bounds.antt =====
-- The list of the entries stays in bounds, and so does the cache.
use distributed_job_orchestr.Common.{
  ℕ, suc, ◌+◌, ◌≤◌, ◌≡◌, refl, sym, ap, subst, ◌∙◌, true, false, List, [], ◌∷◌, map, Option, none,
  some, arith, length, ◌==◌, ltb, Bool-cases, Option-cases, inl, inr,
}
use distributed_job_orchestr.Common.Dict.{lookup, del, Distinct, lookup-del, Distinct-del}
use distributed_job_orchestr.Lru.{
  Store, LruCache, head_node, tail_node, and_then, init, loaded, raised, keys_from, iterate,
}
use distributed_job_orchestr.Lru.Chain.{has, Chain}
use distributed_job_orchestr.Lru.Entries.{addresses, Stored, Represents, length-del}
use distributed_job_orchestr.Lru.Recency.{
  without_last, read, trim, write, load, load_known, load_new, drop,
}
use distributed_job_orchestr.Lru.Holds.{recency, length-recency}
use distributed_job_orchestr.Lru.Traces.{
  Call, get_call, put_call, load_call, invalidate_call, clear_call, Answer, run, expected, run_list,
  run_refines,
}

module _ {V : Type 0} where
  -- The list stays in bounds.
  abbrev InBounds : ℕ → List (ℕ × V) → Type 0
  InBounds n l = Distinct l × (length l ≤ n)

  length-without_last : (e : ℕ × V) (l : List (ℕ × V)) → length (without_last (e ∷ l)) ≡ length l
  length-without_last e [] = refl
  length-without_last e (f ∷ l) = ap suc (length-without_last f l)

  lookup-without_last :
      (k : ℕ) (l : List (ℕ × V)) → lookup k l ≡ none → lookup k (without_last l) ≡ none
  lookup-without_last k [] h = refl
  lookup-without_last k ((i, v) ∷ []) h = refl
  lookup-without_last k ((i, v) ∷ f ∷ l) h = ground (arith, h, lookup-without_last k (f ∷ l))

  without_last-Distinct : (l : List (ℕ × V)) → Distinct l → Distinct (without_last l)
  without_last-Distinct [] u = tt
  without_last-Distinct ((i, v) ∷ []) u = tt
  without_last-Distinct ((i, v) ∷ f ∷ l) u =
      (lookup-without_last i (f ∷ l) u.0, without_last-Distinct (f ∷ l) u.1)

  front-InBounds :
      (n k : ℕ) (v w : V) (l : List (ℕ × V))
      → lookup k l ≡ some v
      → InBounds n l
      → InBounds n ((k, w) ∷ del k l)
  front-InBounds n k v w l h (u, fits) = (
    (ground (arith, lookup-del k k l), Distinct-del k l u),
    omega (arith, fits, length-del k v l u h),
  )

  drop-InBounds : (n k : ℕ) (l : List (ℕ × V)) → InBounds n l → InBounds n (drop k l).1
  drop-InBounds n k l (u, fits) = elim (Option-cases (lookup k l)) [
    | inl miss ↦
        let goes : drop k l ≡ (false, l) = rw (drop, miss) refl in
        subst (λ r. Distinct r.1 × (length r.1 ≤ n)) (sym goes) (u, fits)
    | inr (v, hit) ↦
        let goes : drop k l ≡ (true, del k l) = rw (drop, hit) refl in
        subst (λ r. Distinct r.1 × (length r.1 ≤ n)) (sym goes)
          (Distinct-del k l u, omega (arith, fits, length-del k v l u hit))
  ]

  trim-InBounds :
      (n k : ℕ) (v : V) (l : List (ℕ × V))
      → lookup k l ≡ none
      → InBounds n l
      → InBounds n (trim n ((k, v) ∷ l)).1
  trim-InBounds n k v l away (u, fits) = elim (Bool-cases (ltb n (length ((k, v) ∷ l)))) [
    | inl over ↦ rw over (
      without_last-Distinct ((k, v) ∷ l) (away, u),
      omega (arith, fits, length-without_last (k, v) l),
    )
    | inr room ↦ rw room ((away, u), ground (arith, room))
  ]

  write-InBounds :
      (n k : ℕ) (v : V) (l : List (ℕ × V)) → InBounds n l → InBounds n (write n k v l).1
  write-InBounds n k v l b = elim (Bool-cases (n == 0)) [
    | inl no_room ↦
        let goes : write n k v l ≡ (some k, l) = rw (write, no_room) refl in
        subst (λ r. InBounds n r.1) (sym goes) b
    | inr some_room ↦ elim (Option-cases (lookup k l)) [
      | inr (w, hit) ↦
          let goes : write n k v l ≡ (none, (k, v) ∷ del k l) = rw (write, some_room, hit) refl in
          subst (λ r. InBounds n r.1) (sym goes) (front-InBounds n k w v l hit b)
      | inl miss ↦
          let goes : write n k v l ≡ trim n ((k, v) ∷ l) = rw (write, some_room, miss) refl in
          subst (λ r. InBounds n r.1) (sym goes) (trim-InBounds n k v l miss b)
    ]
  ]

  expected-InBounds :
      (n : ℕ) (call : Call V) (l : List (ℕ × V)) → InBounds n l → InBounds n (expected n call l).1
  expected-InBounds n (get_call k default) l b = elim (Option-cases (lookup k l)) [
    | inl miss ↦
        let goes : read k default l ≡ (default, l) = rw (read, miss) refl in
        subst (λ r. InBounds n r.1) (sym goes) b
    | inr (v, hit) ↦
        let goes : read k default l ≡ (some v, (k, v) ∷ del k l) = rw (read, hit) refl in
        subst (λ r. InBounds n r.1) (sym goes) (front-InBounds n k v v l hit b)
  ]
  expected-InBounds n (put_call k v) l b = write-InBounds n k v l b
  expected-InBounds n (load_call k loader) l b = elim (Option-cases (lookup k l)) [
    | inl miss ↦ elim (Option-cases (loader k)) [
      | inl fails ↦
          let goes : load n k loader l ≡ (raised, l) =
            ap (λ o. load_known o n k loader l) miss ∙ ap (λ o. load_new o n k l) fails in
          subst (λ r. InBounds n r.1) (sym goes) b
      | inr (v, gives) ↦
          let goes : load n k loader l ≡ (loaded (some v), (write n k v l).1) =
            ap (λ o. load_known o n k loader l) miss ∙ ap (λ o. load_new o n k l) gives in
          subst (λ r. InBounds n r.1) (sym goes) (write-InBounds n k v l b)
    ]
    | inr (v, hit) ↦
        let goes : load n k loader l ≡ (loaded (some v), (k, v) ∷ del k l) =
          ap (λ o. load_known o n k loader l) hit in
        subst (λ r. InBounds n r.1) (sym goes) (front-InBounds n k v v l hit b)
  ]
  expected-InBounds n (invalidate_call k) l b = drop-InBounds n k l b
  expected-InBounds n clear_call l b = (tt, ground arith)

  run_list-InBounds :
      (n : ℕ) (calls : List (Call V)) (l : List (ℕ × V))
      → InBounds n l
      → InBounds n (run_list n calls l).1
  run_list-InBounds n [] l b = b
  run_list-InBounds n (call ∷ calls) l b =
      run_list-InBounds n calls (expected n call l).1 (expected-InBounds n call l b)

  keys-recency :
      (es : List (ℕ × (ℕ × V)))
      → ◌≡◌ {A = List (Option ℕ)} (map (λ (k, e). some k) es) (map (λ (k, v). some k) (recency es))
  keys-recency [] = refl
  keys-recency ((k, (a, v)) ∷ es) = ap (λ l. some k ∷ l) (keys-recency es)

  keys_from-keys :
      (s : Store V) (from : ℕ) (es : List (ℕ × (ℕ × V)))
      → Chain s.next s.prev from (addresses es) tail_node
      → has tail_node (addresses es) ≡ false
      → Stored s es
      → keys_from (length es + 1) s (s.next from) ≡ some (map (λ (k, e). some k) es)
  unfolding keys_from
  keys_from-keys s from [] c away st = rw (c.0, keys_from) refl
  keys_from-keys s from ((k, (a, v)) ∷ es) c away st =
      let rest = keys_from-keys s a es c.2 (ground (arith, away)) st.2 in
      let inside : (a == tail_node) ≡ false = ground (arith, away) in
      let more : suc (length es) + 1 ≡ suc (length es + 1) = omega arith in
      let step : keys_from (suc (length es + 1)) s (some a)
          ≡ some (some k ∷ map (λ (k, e). some k) es) =
        rw (keys_from, inside, rest, and_then, st.0) refl in
      rw (c.0) (
        subst (λ n. keys_from n s (some a) ≡ some (some k ∷ map (λ (k, e). some k) es)) (sym more)
          step)

  iterate-keys :
      (c : LruCache V) (es : List (ℕ × (ℕ × V)))
      → Represents c es
      → iterate c ≡ some (map (λ (k, v). some k) (recency es))
  unfolding iterate
  iterate-keys c es r =
      let steps = keys_from-keys c.store head_node es r.chain (ground (arith, r.apart)) r.stored in
      rw (r.sizes) (steps ∙ ap some (keys-recency es))

  -- For every capacity and every sequence of calls of a new cache, the cache then has at most as
  -- many entries as its capacity, no key stands twice among them, and going through it gives the
  -- key of each, the most recently used first.
  pub run-bounded :
      (capacity : ℕ) (calls : List (Call V))
      → (answers : List (Answer V)) × (c : LruCache V) × (run calls (init capacity)
          ≡ some (answers, c))
        × (length c.nodes ≤ capacity)
        × Distinct (run_list capacity calls []).1
        × (iterate c ≡ some (map (λ (k, v). some k) (run_list capacity calls []).1))
  run-bounded capacity calls =
      let (c, e, (es, r, same)) = run_refines capacity calls in
      let (distinct, fits) = run_list-InBounds capacity calls [] (tt, ground arith) in
      let sizes : length c.nodes ≡ length (run_list capacity calls []).1 =
        r.sizes ∙ sym (length-recency es) ∙ ap length same in
      (
        (run_list capacity calls []).0,
        c,
        e,
        omega (arith, sizes, fits),
        distinct,
        iterate-keys c es r ∙ ap (λ l. some (map (λ (k, v). some k) l)) same,
      )
