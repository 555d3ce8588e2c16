-- ===== src/Lru/Traces.antt =====
-- Any sequence of calls: the cache answers like the list of its entries, which stays in bounds.
use distributed_job_orchestr.Common.{ℕ, ◌≡◌, refl, subst, ◌∙◌, Bool, List, [], ◌∷◌, Option, some}
use distributed_job_orchestr.Lru.{
  LruCache, and_then, init, get, put, get_or_load, invalidate, clear, Loaded,
}
use distributed_job_orchestr.Lru.Recency.{read, write, load, drop}
use distributed_job_orchestr.Lru.Holds.{Holds, Agrees, init-Holds}
use distributed_job_orchestr.Lru.Refines.{
  get-Agrees, put-Agrees, get_or_load-Agrees, invalidate-Agrees, clear-Holds,
}

-- A call of the cache.
pub data Call (V : Type 0) : Type 0 where
  get_call : ℕ → Option V → Call V
  put_call : ℕ → V → Call V
  load_call : ℕ → (ℕ → Option V) → Call V
  invalidate_call : ℕ → Call V
  clear_call : Call V

-- What a call returns.
pub data Answer (V : Type 0) : Type 0 where
  got : Option V → Answer V
  evicted : Option ℕ → Answer V
  through : Loaded V → Answer V
  dropped : Bool → Answer V
  cleared : Answer V

init-capacity : (V : Type 0) (n : ℕ) → (init {V = V} n).capacity ≡ n
unfolding init
init-capacity V n = refl

module _ {V : Type 0} where
  abbrev pub answered : {A : Type 0} → (A → Answer V) → A × LruCache V → Answer V × LruCache V
  answered f (a, c) = (f a, c)

  abbrev pub on_list : {A : Type 0} → (A → Answer V) → A × List (ℕ × V) → Answer V × List (ℕ × V)
  on_list f (a, l) = (f a, l)

  unfoldable pub perform : Call V → LruCache V → Option (Answer V × LruCache V)
  unfolding get put get_or_load invalidate clear
  perform (get_call k default) c = and_then (get k default c) (λ r. some (answered got r))
  perform (put_call k v) c = and_then (put k v c) (λ r. some (answered evicted r))
  perform (load_call k loader) c =
      and_then (get_or_load k loader c) (λ r. some (answered through r))
  perform (invalidate_call k) c = and_then (invalidate k c) (λ r. some (answered dropped r))
  perform clear_call c = some (cleared, clear c)

  -- The same call on the list.
  abbrev pub expected : ℕ → Call V → List (ℕ × V) → Answer V × List (ℕ × V)
  expected capacity (get_call k default) l = on_list got (read k default l)
  expected capacity (put_call k v) l = on_list evicted (write capacity k v l)
  expected capacity (load_call k loader) l = on_list through (load capacity k loader l)
  expected capacity (invalidate_call k) l = on_list dropped (drop k l)
  expected capacity clear_call l = (cleared, [])

  -- A sequence of calls, with the answers in order.
  unfoldable pub run : List (Call V) → LruCache V → Option (List (Answer V) × LruCache V)
  unfolding perform
  run [] c = some ([], c)
  run (call ∷ calls) c =
      and_then (perform call c)
        (λ (a, c'). and_then (run calls c') (λ (answers, c''). some (a ∷ answers, c'')))

  abbrev pub run_list : ℕ → List (Call V) → List (ℕ × V) → List (Answer V) × List (ℕ × V)
  run_list capacity [] l = ([], l)
  run_list capacity (call ∷ calls) l =
      let (a, l') = expected capacity call l in
      let (answers, l'') = run_list capacity calls l' in (a ∷ answers, l'')

  lifted :
      {A : Type 0} (f : A → Answer V) (c : LruCache V) (call : Option (A × LruCache V))
      (r : A × List (ℕ × V))
      → Agrees c call r
      → Agrees c (and_then call (λ r. some (answered f r))) (on_list f r)
  lifted f c call (a, l) (c', e, capacity, holds) = (c', rw e refl, capacity, holds)

  clear-capacity : (c : LruCache V) → (clear c).capacity ≡ c.capacity
  unfolding clear
  clear-capacity c = refl

  perform-Agrees :
      (call : Call V) (c : LruCache V) (l : List (ℕ × V))
      → Holds c l
      → Agrees c (perform call c) (expected c.capacity call l)
  unfolding perform
  perform-Agrees (get_call k default) c l h = lifted got c _ _ (get-Agrees k default c l h)
  perform-Agrees (put_call k v) c l h = lifted evicted c _ _ (put-Agrees k v c l h)
  perform-Agrees (load_call k loader) c l h =
      lifted through c _ _ (get_or_load-Agrees k loader c l h)
  perform-Agrees (invalidate_call k) c l h = lifted dropped c _ _ (invalidate-Agrees k c l h)
  perform-Agrees clear_call c l h = (clear c, refl, clear-capacity c, clear-Holds c l h)

  perform_at :
      (n : ℕ) (call : Call V) (c : LruCache V) (l : List (ℕ × V))
      → c.capacity ≡ n
      → Holds c l
      → Agrees c (perform call c) (expected n call l)
  perform_at n call c l e h =
      subst (λ m. Agrees c (perform call c) (expected m call l)) e (perform-Agrees call c l h)

  pub run-Agrees :
      (n : ℕ) (calls : List (Call V)) (c : LruCache V) (l : List (ℕ × V))
      → c.capacity ≡ n
      → Holds c l
      → Agrees c (run calls c) (run_list n calls l)
  unfolding run
  run-Agrees n [] c l e h = (c, refl, refl, h)
  run-Agrees n (call ∷ calls) c l e h =
      let (c1, e1, capacity1, h1) = perform_at n call c l e h in
      let (c2, e2, capacity2, h2) =
        run-Agrees n calls c1 (expected n call l).1 (capacity1 ∙ e) h1 in
      let at : run (call ∷ calls) c ≡ some ((run_list n (call ∷ calls) l).0, c2) =
        rw (run, e1, and_then, e2) refl in
      (c2, at, capacity2 ∙ capacity1, h2)

  -- For every capacity and every sequence of calls of a new cache, no call raises an exception of
  -- the cache's own, the answers are those of the same calls on a list of entries that starts
  -- empty, and the cache then holds that list in its order.
  pub run_refines :
      (capacity : ℕ) (calls : List (Call V))
      → (c : LruCache V) × (run calls (init capacity) ≡ some ((run_list capacity calls []).0, c))
        × Holds c (run_list capacity calls []).1
  run_refines capacity calls =
      let (c, e, same, h) =
        run-Agrees capacity calls (init capacity) [] (init-capacity V capacity)
          (init-Holds capacity) in
      (c, e, h)
