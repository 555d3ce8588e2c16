-- ===== src/Lru/Examples.antt =====
-- The cache with two entries, at a few calls.
use distributed_job_orchestr.Common.{
  ℕ, ◌≤◌, ◌≡◌, refl, false, List, [], ◌∷◌, map, none, some, length,
}
use distributed_job_orchestr.Common.Dict.{Distinct}
use distributed_job_orchestr.Lru.{LruCache, init, loaded, iterate}
use distributed_job_orchestr.Lru.Traces.{
  Call, get_call, put_call, load_call, invalidate_call, Answer, got, evicted, through, dropped, run,
  run_list, run_refines,
}
use distributed_job_orchestr.Lru.Holds.{Holds}
use distributed_job_orchestr.Lru.Bounds.{run-bounded}

-- The read of 1 saves it from the eviction that the third key causes.
abbrev calls : List (Call ℕ)
calls = put_call 1 10 ∷ put_call 2 20 ∷ get_call 1 none ∷ put_call 3 30 ∷ invalidate_call 2 ∷ []

run_refines_example :
    (c : LruCache ℕ) × (run calls (init 2) ≡ some ((run_list 2 calls []).0, c))
    × Holds c (run_list 2 calls []).1
run_refines_example = run_refines 2 calls

run-bounded_example :
    (answers : List (Answer ℕ)) × (c : LruCache ℕ) × (run calls (init 2) ≡ some (answers, c))
    × (length c.nodes ≤ 2)
    × Distinct (run_list 2 calls []).1
    × (iterate c ≡ some (map (λ (k, v). some k) (run_list 2 calls []).1))
run-bounded_example = run-bounded 2 calls

second_evicted : run_list 2 calls [] ≡ (
  evicted none ∷ evicted none ∷ got (some 10) ∷ evicted (some 2) ∷ dropped false ∷ [],
  (3, 30) ∷ (1, 10) ∷ [],
)
second_evicted = refl

-- A cache of capacity 0 keeps nothing and evicts what it is handed.
zero_capacity :
    run_list 0 (put_call 1 10 ∷ load_call 2 (λ k. some k) ∷ []) []
    ≡ (evicted (some 1) ∷ through (loaded (some 2)) ∷ [], [])
zero_capacity = refl
