-- ===== src/Dag/Cycle/Cost.antt =====
-- The rounds of the search: each one leaves a node or looks at an edge.
use distributed_job_orchestr.Common.{
  ℕ, zero, suc, ◌+◌, ◌-◌, ◌≤◌, ◌<◌, ◌≡◌, ◌≢◌, refl, Bool, true, false, List, [], ◌∷◌, none, some,
  arith, length, ◌==◌, Bool-cases, inl, inr, if◌then◌else◌,
}
use distributed_job_orchestr.Common.Dict.{lookup, put, Distinct}
use distributed_job_orchestr.Dag.{Dag, has_key, items}
use distributed_job_orchestr.Dag.Mirror.{IsDag}
use distributed_job_orchestr.Dag.Cycle.{
  Colour, white, grey, black, colour, nth, Outcome, found, explored, unfinished, start_search,
  edge_count,
}
use distributed_job_orchestr.Dag.Cycle.Rule.{colour-put, SearchRule, start_rule}
use distributed_job_orchestr.Dag.Cycle.Walks.{nth-has}

abbrev is_white : ℕ → List (ℕ × Colour) → Bool
is_white n colours = elim (colour n colours) [ white ↦ true | _ ↦ false ]

-- The rounds that the white nodes of a part of the graph still cost.
abbrev pub white_cost : List (ℕ × List ℕ) → List (ℕ × Colour) → ℕ
white_cost [] colours = 0
white_cost ((n, cs) ∷ d) colours =
    let rest = white_cost d colours in if is_white n colours then length cs + 1 + rest else rest

-- The rounds that the stack costs.
abbrev stack_cost : Dag → List (ℕ × ℕ) → ℕ
stack_cost g [] = 0
stack_cost g ((n, i) ∷ stack) = (length (items n g.children) - i) + 1 + stack_cost g stack

white_cost-put :
    (d : List (ℕ × List ℕ)) (x : ℕ) (c : Colour) (colours : List (ℕ × Colour))
    → c ≢ white
    → white_cost d (put x c colours) ≤ white_cost d colours
white_cost-put [] x c colours h = omega arith
white_cost-put ((n, cs) ∷ d) x c colours h =
    ground (arith, h, colour-put n x c colours, white_cost-put d x c colours h)

white_cost-away :
    (d : List (ℕ × List ℕ)) (x : ℕ) (c : Colour) (colours : List (ℕ × Colour))
    → lookup x d ≡ none
    → white_cost d (put x c colours) ≡ white_cost d colours
white_cost-away [] x c colours h = refl
white_cost-away ((n, cs) ∷ d) x c colours h =
    ground (arith, h, colour-put n x c colours, white_cost-away d x c colours)

white_cost-enter :
    (d : List (ℕ × List ℕ)) (x : ℕ) (colours : List (ℕ × Colour))
    → Distinct d
    → has_key x d ≡ true
    → colour x colours ≡ white
    → white_cost d (put x grey colours) + length (items x d) + 1 ≡ white_cost d colours
white_cost-enter [] x colours v k h = absurd (ground (arith, k))
white_cost-enter ((n, cs) ∷ d) x colours v k h = elim (Bool-cases (n == x)) [
  | inl hit ↦
      let same : n ≡ x = ground (arith, hit) in
      let gone : lookup x d ≡ none = rw (← same) v.0 in
      let pale : colour n colours ≡ white = rw same h in
      ground (arith, hit, pale, colour-put n x grey colours, white_cost-away d x grey colours gone)
  | inr miss ↦
      let rest = white_cost-enter d x colours v.1 (ground (arith, k, miss)) h in
      ground (arith, miss, rest, colour-put n x grey colours)
]

nth-inside : (i : ℕ) (xs : List ℕ) (c : ℕ) → nth i xs ≡ some c → i < length xs
nth-inside i [] c h = absurd (ground (arith, h))
nth-inside zero (x ∷ xs) c h = omega arith
nth-inside (suc i) (x ∷ xs) c h = omega (arith, nth-inside i xs c h)

-- The rounds left cover what is left to do, which is within a bound.
record Covers (g : Dag) (bound fuel : ℕ) (colours : List (ℕ × Colour)) (stack : List (ℕ × ℕ))
    (path : List ℕ) : Type 0 where
  enough : white_cost g.children colours + stack_cost g stack < fuel
  bounded : white_cost g.children colours ≤ bound

-- The search ends, and leaves no more to do than before.
abbrev pub Ends : Dag → ℕ → Outcome → Type 0
Ends g bound (found c) = Unit
Ends g bound (explored colours) = white_cost g.children colours ≤ bound
Ends g bound unfinished = ⊥

Ends-rule : (g : Dag) (bound : ℕ) → IsDag g → SearchRule g (Covers g bound) (Ends g bound)
Ends-rule g bound d = record {
  starved = λ colours stack path v. omega (arith, v.enough);
  finish = λ fuel colours path v. v.bounded;
  leave = λ fuel n i colours stack path v done.
      let less = white_cost-put g.children n black colours (ground arith) in
      record { enough = omega (arith, less, v.enough); bounded = omega (arith, less, v.bounded) };
  back = λ fuel n i child colours stack path v at is_grey. tt;
  enter = λ fuel n i child colours stack path v at pale.
      let known = (d.known n child (nth-has i (items n g.children) child at)).1 in
      let less = white_cost-enter g.children child colours d.distinct_children known pale in
      let inside = nth-inside i (items n g.children) child at in
      record {
        enough = omega (arith, less, inside, v.enough);
        bounded = omega (arith, less, v.bounded);
      };
  skip = λ fuel n i child colours stack path v at is_black.
      let inside = nth-inside i (items n g.children) child at in
      record { enough = omega (arith, inside, v.enough); bounded = v.bounded };
}

pub start_search-Ends :
    (fuel : ℕ) (g : Dag) (colours : List (ℕ × Colour)) (start : ℕ)
    → IsDag g
    → has_key start g.children ≡ true
    → white_cost g.children colours < fuel
    → Ends g (white_cost g.children colours) (start_search fuel g colours start)
start_search-Ends fuel g colours start d k h =
    start_rule (Ends-rule g (white_cost g.children colours) d) fuel colours start (λ _. omega arith)
      (λ pale.
        let less = white_cost-enter g.children start colours d.distinct_children k pale in
        record { enough = omega (arith, less, h); bounded = omega (arith, less) })

-- At the start every node is white.
pub white_cost-start : (d : List (ℕ × List ℕ)) → white_cost d [] ≡ edge_count d + length d
white_cost-start [] = refl
white_cost-start ((n, cs) ∷ d) = omega (arith, white_cost-start d)
