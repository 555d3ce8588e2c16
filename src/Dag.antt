-- ===== src/Dag.antt =====
-- The workflow graph of core/dag.py. A node is a number, a dictionary an association list in the
-- order of insertion; a missing key reads as the empty list or as 0, but the code reads only keys
-- that it has tested or that it takes from the graph itself.
pub mod Mirror
pub mod Build
pub mod Rounds
pub mod Kahn
pub mod Served
pub mod Cycle
pub mod Count
pub mod Total
pub mod Cursor
mod Examples
use distributed_job_orchestr.Common.{
  ℕ, zero, suc, ◌+◌, ◌-◌, Bool, true, false, not, List, [], ◌∷◌, ◌++◌, map, Option, none, some,
  length, any, ◌==◌, if◌then◌else◌,
}
use distributed_job_orchestr.Common.Dict.{lookup, put}

-- Dag
pub record Dag : Type 0 where
  pub children : List (ℕ × List ℕ)
  pub parents : List (ℕ × List ℕ)

-- UnknownNodeError, CycleError, ValueError, AssertionError, and the model's fuel.
pub data Error : Type 0 where
  unknown_node : ℕ → Error
  cycle_error : List ℕ → Error
  value_error assertion_error out_of_fuel : Error

pub data Result {ℓ} (A : Type ℓ) : Type ℓ where
  ok : A → Result A
  err : Error → Result A

abbrev pub has : ℕ → List ℕ → Bool
has n xs = any (λ x. x == n) xs

-- `node in self._children`
abbrev pub has_key {ℓ} : {A : Type ℓ} → ℕ → List (ℕ × A) → Bool
has_key n d = any (λ (k, a). k == n) d

abbrev pub or_empty : Option (List ℕ) → List ℕ
or_empty none = []
or_empty (some xs) = xs

abbrev pub or_zero : Option ℕ → ℕ
or_zero none = 0
or_zero (some n) = n

-- d[node]
abbrev pub items : ℕ → List (ℕ × List ℕ) → List ℕ
items n d = or_empty (lookup n d)

-- d.setdefault(node, [])
abbrev pub set_default : ℕ → List (ℕ × List ℕ) → List (ℕ × List ℕ)
set_default n d = if has_key n d then d else put n [] d

-- Dag.__init__
abbrev pub empty_dag : Dag
empty_dag = record { children = []; parents = [] }

-- Dag.add_node
unfoldable pub add_node : ℕ → Dag → Dag
add_node n g = record { children = set_default n g.children; parents = set_default n g.parents }

-- Dag.add_edge
unfoldable pub add_edge : ℕ → ℕ → Dag → Result Dag
add_edge parent child g =
    if not (has_key parent g.children)
    then err (unknown_node parent)
    else if not (has_key child g.children)
    then err (unknown_node child)
    else if parent == child
    then err (cycle_error (parent ∷ parent ∷ []))
    else if has child (items parent g.children)
    then ok g
    else ok (record {
      children = put parent (items parent g.children ++ child ∷ []) g.children;
      parents = put child (items child g.parents ++ parent ∷ []) g.parents;
    })

-- Dag.from_dependencies: the two loops
unfoldable pub add_nodes : List (ℕ × List ℕ) → Dag → Dag
unfolding add_node
add_nodes [] g = g
add_nodes ((n, ps) ∷ deps) g = add_nodes deps (add_node n g)

abbrev pub and_then : Result Dag → (Dag → Result Dag) → Result Dag
and_then (err e) k = err e
and_then (ok g) k = k g

unfoldable pub add_parents : ℕ → List ℕ → Dag → Result Dag
unfolding add_edge
add_parents n [] g = ok g
add_parents n (p ∷ ps) g = and_then (add_edge p n g) (add_parents n ps)

unfoldable pub add_edges : List (ℕ × List ℕ) → Dag → Result Dag
unfolding add_parents
add_edges [] g = ok g
add_edges ((n, ps) ∷ deps) g = and_then (add_parents n ps g) (add_edges deps)

-- Dag.from_dependencies
unfoldable pub from_dependencies : List (ℕ × List ℕ) → Result Dag
unfolding add_nodes add_edges
from_dependencies deps = add_edges deps (add_nodes deps empty_dag)

-- Dag.nodes
abbrev pub nodes : Dag → List ℕ
nodes g = map (λ (n, xs). n) g.children

-- Dag.in_degrees
unfoldable pub in_degrees : Dag → List (ℕ × ℕ)
in_degrees g = map (λ (n, ps). (n, length ps)) g.parents

abbrev pub degree : ℕ → List (ℕ × ℕ) → ℕ
degree n d = or_zero (lookup n d)

-- the nodes of degree zero, in order
abbrev pub roots_of : List (ℕ × ℕ) → List ℕ → List ℕ
roots_of d [] = []
roots_of d (n ∷ ns) = let rest = roots_of d ns in if degree n d == 0 then n ∷ rest else rest

-- the loop over the children: a child is queued when its degree falls from 1 to 0
unfoldable pub visit : List ℕ → List (ℕ × ℕ) → List ℕ → List (ℕ × ℕ) × List ℕ
visit [] d queue = (d, queue)
visit (c ∷ cs) d queue =
    let n = degree c d in visit cs (put c (n - 1) d) (if n == 1 then queue ++ c ∷ [] else queue)

-- the loop of topological_order; each round takes a node off the queue
unfoldable pub kahn : ℕ → Dag → List (ℕ × ℕ) → List ℕ → List ℕ → Option (List ℕ)
unfolding visit
kahn zero g d queue order = none
kahn (suc fuel) g d [] order = some order
kahn (suc fuel) g d (n ∷ queue) order =
    let (d', queue') = visit (items n g.children) d queue in kahn fuel g d' queue' (order ++ n ∷ [])

-- the order that topological_order builds, with a round for each node and one more
unfoldable pub kahn_order : Dag → Option (List ℕ)
unfolding kahn in_degrees
kahn_order g = let d = in_degrees g in kahn (length g.children + 1) g d (roots_of d (nodes g)) []
