-- ===== src/Lru/Recency.antt =====
-- The abstract view of the cache: its entries in a list, the most recently used first, without
-- nodes and links.
use distributed_job_orchestr.Common.{
  ℕ, Bool, true, false, List, [], ◌∷◌, Option, none, some, length, ◌==◌, ltb, if◌then◌else◌,
}
use distributed_job_orchestr.Common.Dict.{lookup, del}
use distributed_job_orchestr.Lru.{Loaded, loaded, raised}

module _ {V : Type 0} where
  abbrev pub last_key : List (ℕ × V) → Option ℕ
  last_key [] = none
  last_key ((k, v) ∷ []) = some k
  last_key (e ∷ f ∷ es) = last_key (f ∷ es)

  abbrev pub without_last : List (ℕ × V) → List (ℕ × V)
  without_last [] = []
  without_last (e ∷ []) = []
  without_last (e ∷ f ∷ es) = e ∷ without_last (f ∷ es)

  -- A read finds the value and makes the entry the most recent one.
  abbrev pub read : ℕ → Option V → List (ℕ × V) → Option V × List (ℕ × V)
  read k default es = elim (lookup k es) [
    | none ↦ (default, es)
    | some v ↦ (some v, (k, v) ∷ del k es)
  ]

  -- Over the capacity the least recently used entry goes.
  abbrev pub trim : ℕ → List (ℕ × V) → Option ℕ × List (ℕ × V)
  trim capacity es = if ltb capacity (length es) then (last_key es, without_last es) else (none, es)

  abbrev pub write : ℕ → ℕ → V → List (ℕ × V) → Option ℕ × List (ℕ × V)
  write capacity k v es = if capacity == 0 then (some k, es) else elim (lookup k es) [
    | some w ↦ (none, (k, v) ∷ del k es)
    | none ↦ trim capacity ((k, v) ∷ es)
  ]

  abbrev pub load_new : Option V → ℕ → ℕ → List (ℕ × V) → Loaded V × List (ℕ × V)
  load_new none capacity k es = (raised, es)
  load_new (some v) capacity k es = (loaded (some v), (write capacity k v es).1)

  abbrev pub load_known : Option V → ℕ → ℕ → (ℕ → Option V) → List (ℕ × V) → Loaded V × List (ℕ × V)
  load_known none capacity k loader es = load_new (loader k) capacity k es
  load_known (some v) capacity k loader es = (loaded (some v), (k, v) ∷ del k es)

  -- A read through the loader writes what it loads.
  abbrev pub load : ℕ → ℕ → (ℕ → Option V) → List (ℕ × V) → Loaded V × List (ℕ × V)
  load capacity k loader es = load_known (lookup k es) capacity k loader es

  abbrev pub drop : ℕ → List (ℕ × V) → Bool × List (ℕ × V)
  drop k es = elim (lookup k es) [ none ↦ (false, es) | some v ↦ (true, del k es) ]
