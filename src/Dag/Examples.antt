-- ===== src/Dag/Examples.antt =====
-- The theorems of the graph at a diamond: 1 before 2 and 3, and both before 4.
use distributed_job_orchestr.Common.{ℕ, ◌≡◌, ◌⊎◌, refl, List, [], ◌∷◌, some}
use distributed_job_orchestr.Dag.{
  Dag, Result, ok, err, cycle_error, unknown_node, has, items, in_degrees, from_dependencies,
  kahn_order, empty_dag,
}
use distributed_job_orchestr.Dag.Mirror.{IsDag}
use distributed_job_orchestr.Dag.Build.{declared, from_dependencies-IsDag}
use distributed_job_orchestr.Dag.Cycle.{topological_order}
use distributed_job_orchestr.Dag.Total.{IsOrder, topological_order_lem}
use distributed_job_orchestr.Dag.Cycle.Walks.{IsCycle}
use distributed_job_orchestr.Dag.Cursor.{DagCursor, make_cursor, ready}

abbrev diamond : List (ℕ × List ℕ)
diamond = (4, 2 ∷ 3 ∷ []) ∷ (3, 1 ∷ []) ∷ (2, 1 ∷ []) ∷ (1, []) ∷ []

abbrev built : Result Dag → Dag
built (ok g) = g
built (err e) = empty_dag

abbrev graph : Dag
unfolding from_dependencies
graph = built (from_dependencies diamond)

from_dependencies-IsDag_example :
    IsDag graph × ((p c : ℕ) → has p (items c graph.parents) ≡ declared p c diamond)
unfolding from_dependencies
from_dependencies-IsDag_example = from_dependencies-IsDag diamond graph refl

graph-IsDag : IsDag graph
unfolding from_dependencies
graph-IsDag = (from_dependencies-IsDag diamond graph refl).0

unknown_parent : from_dependencies ((1, 7 ∷ []) ∷ []) ≡ err (unknown_node 7)
unfolding from_dependencies
unknown_parent = refl

self_edge : from_dependencies ((1, 1 ∷ []) ∷ []) ≡ err (cycle_error (1 ∷ 1 ∷ []))
unfolding from_dependencies
self_edge = refl

abbrev tangle : Dag
unfolding from_dependencies
tangle = built (from_dependencies ((1, 2 ∷ []) ∷ (2, 3 ∷ []) ∷ (3, 2 ∷ []) ∷ []))

tangle_refused : topological_order tangle ≡ err (cycle_error (2 ∷ 3 ∷ 2 ∷ []))
unfolding topological_order from_dependencies
tangle_refused = refl

-- A cycle leaves the loop with fewer nodes than the graph has.
stuck_order :
    kahn_order (built (from_dependencies ((1, 2 ∷ []) ∷ (2, 1 ∷ []) ∷ (3, []) ∷ [])))
    ≡ some (3 ∷ [])
unfolding kahn_order from_dependencies
stuck_order = refl

tangle-IsDag : IsDag tangle
unfolding from_dependencies
tangle-IsDag =
    (from_dependencies-IsDag ((1, 2 ∷ []) ∷ (2, 3 ∷ []) ∷ (3, 2 ∷ []) ∷ []) tangle refl).0

topological_order_lem_example :
    ((o : List ℕ) × (topological_order graph ≡ ok o) × IsOrder graph o)
    ⊎ ((c : List ℕ) × (topological_order graph ≡ err (cycle_error c)) × IsCycle graph c)
topological_order_lem_example = topological_order_lem graph graph-IsDag

graph_sorted : topological_order graph ≡ ok (1 ∷ 3 ∷ 2 ∷ 4 ∷ [])
unfolding topological_order from_dependencies
graph_sorted = refl

abbrev start : DagCursor
unfolding in_degrees
start = record { dag = graph; pending = in_degrees graph; succeeded = []; failed = [] }

cursor_starts : make_cursor graph ≡ ok start
unfolding make_cursor from_dependencies in_degrees
cursor_starts = refl

abbrev next : DagCursor
unfolding in_degrees
next = record start { pending = (4, 2) ∷ (3, 0) ∷ (2, 0) ∷ (1, 0) ∷ []; succeeded = 1 ∷ [] }

ready_after : ready next ≡ 3 ∷ 2 ∷ []
unfolding ready next
ready_after = refl
