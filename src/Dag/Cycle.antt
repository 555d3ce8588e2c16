-- ===== src/Dag/Cycle.antt =====
-- _find_cycle and topological_order: the depth-first search that names a cycle.
use distributed_job_orchestr.Common.{
  ℕ, zero, suc, ◌+◌, Bool, true, false, not, List, [], ◌∷◌, ◌++◌, map, Option, none, some, length,
  ◌==◌, if◌then◌else◌,
}
use distributed_job_orchestr.Common.Dict.{lookup, put}
use distributed_job_orchestr.Dag.{
  Dag, Error, cycle_error, assertion_error, out_of_fuel, Result, ok, err, items, nodes, kahn_order,
}
pub mod Walks
pub mod Rule
pub mod Sound
pub mod Cost
pub mod Finish
pub mod Complete

-- _WHITE, _GREY and _BLACK
pub data Colour : Type 0 where
  white grey black : Colour

-- colour[node]; at the start every node is white.
abbrev pub or_white : Option Colour → Colour
or_white none = white
or_white (some c) = c

abbrev pub colour : ℕ → List (ℕ × Colour) → Colour
colour n d = or_white (lookup n d)

-- xs[index], if there is one
abbrev pub nth : ℕ → List ℕ → Option ℕ
nth n [] = none
nth zero (x ∷ xs) = some x
nth (suc n) (x ∷ xs) = nth n xs

-- path[path.index(child):]
unfoldable pub from_node : ℕ → List ℕ → List ℕ
from_node n [] = []
from_node n (x ∷ xs) = let rest = from_node n xs in if x == n then x ∷ xs else rest

-- path.pop(), without its value
abbrev pub drop_last : List ℕ → List ℕ
drop_last [] = []
drop_last (x ∷ []) = []
drop_last (x ∷ y ∷ xs) = x ∷ drop_last (y ∷ xs)

-- How the search from one start ends: with a cycle, or with the colours of what it explored.
pub data Outcome : Type 0 where
  found : List ℕ → Outcome
  explored : List (ℕ × Colour) → Outcome
  unfinished : Outcome

-- the loop over the stack, whose top comes first; each round looks at one child or leaves a node
unfoldable pub search_from : ℕ → Dag → List (ℕ × Colour) → List (ℕ × ℕ) → List ℕ → Outcome
unfolding from_node
search_from zero g colours stack path = unfinished
search_from (suc fuel) g colours [] path = explored colours
search_from (suc fuel) g colours ((node, index) ∷ stack) path =
    elim (nth index (items node g.children)) [
      | none ↦ search_from fuel g (put node black colours) stack (drop_last path)
      | some child ↦
          let here = (node, index + 1) ∷ stack in
          elim (colour child colours) [
            | grey ↦ found (from_node child path ++ child ∷ [])
            | white ↦
                search_from fuel g (put child grey colours) ((child, 0) ∷ here) (path ++ child ∷ [])
            | black ↦ search_from fuel g colours here path
          ]
    ]

-- the search from one start, unless it is explored already
unfoldable pub start_search : ℕ → Dag → List (ℕ × Colour) → ℕ → Outcome
unfolding search_from
start_search fuel g colours start = elim (colour start colours) [
  | white ↦ search_from fuel g (put start grey colours) ((start, 0) ∷ []) (start ∷ [])
  | grey ↦ explored colours
  | black ↦ explored colours
]

-- the loop over the starts
unfoldable pub search_all : ℕ → Dag → List (ℕ × Colour) → List ℕ → Result (List ℕ)
unfolding start_search
search_all fuel g colours [] = err assertion_error
search_all fuel g colours (start ∷ starts) = elim (start_search fuel g colours start) [
  | found cycle ↦ ok cycle
  | explored colours' ↦ search_all fuel g colours' starts
  | unfinished ↦ err out_of_fuel
]

abbrev pub edge_count : List (ℕ × List ℕ) → ℕ
edge_count [] = 0
edge_count ((n, cs) ∷ d) = length cs + edge_count d

-- _find_cycle, with a round for each edge, one for each node and one more
unfoldable pub find_cycle : Dag → Result (List ℕ)
unfolding search_all
find_cycle g = search_all (edge_count g.children + length g.children + 1) g [] (nodes g)

abbrev pub as_error : Result (List ℕ) → Error
as_error (ok cycle) = cycle_error cycle
as_error (err e) = e

abbrev pub checked_order : Dag → Option (List ℕ) → Result (List ℕ)
checked_order g none = err out_of_fuel
checked_order g (some order) =
    if not (length order == length g.children) then err (as_error (find_cycle g)) else ok order

-- topological_order
unfoldable pub topological_order : Dag → Result (List ℕ)
unfolding kahn_order find_cycle
topological_order g = checked_order g (kahn_order g)

-- is_acyclic; another exception than CycleError passes through.
abbrev pub acyclic_result : Result (List ℕ) → Result Bool
acyclic_result (ok order) = ok true
acyclic_result (err (cycle_error c)) = ok false
acyclic_result (err e) = err e

unfoldable pub is_acyclic : Dag → Result Bool
unfolding topological_order
is_acyclic g = acyclic_result (topological_order g)
