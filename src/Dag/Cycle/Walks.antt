-- ===== src/Dag/Cycle/Walks.antt =====
-- Walks along edges, and the path that the stack of the search stands for.
use distributed_job_orchestr.Common.{
  ℕ, zero, suc, ◌≡◌, refl, sym, ap, subst, ◌∙◌, true, false, List, [], ◌∷◌, ◌++◌, some, arith,
  Bool-cases, inl, inr,
}
use distributed_job_orchestr.Dag.{Dag, has, items}
use distributed_job_orchestr.Dag.Mirror.{has-append}
use distributed_job_orchestr.Dag.Cycle.{nth, from_node, drop_last}

-- From `a` through the nodes of the list, along edges, to `b`.
abbrev pub Walk : Dag → ℕ → List ℕ → ℕ → Type 0
Walk g a [] b = a ≡ b
Walk g a (x ∷ xs) b = (has x (items a g.children) ≡ true) × Walk g x xs b

-- A closed walk with an edge.
abbrev pub IsCycle : Dag → List ℕ → Type 0
IsCycle g [] = ⊥
IsCycle g (x ∷ []) = ⊥
IsCycle g (x ∷ y ∷ xs) = Walk g x (y ∷ xs) x

-- The path that a stack stands for, and the edges between its entries.
abbrev pub unwind : List (ℕ × ℕ) → List ℕ
unwind [] = []
unwind ((n, i) ∷ stack) = unwind stack ++ n ∷ []

abbrev pub Linked : Dag → List (ℕ × ℕ) → Type 0
Linked g [] = Unit
Linked g (e ∷ []) = Unit
Linked g ((n, i) ∷ (m, j) ∷ stack) = (has n (items m g.children) ≡ true) × Linked g ((m, j) ∷ stack)

pub Walk-snoc :
    (g : Dag) (a b c : ℕ) (xs : List ℕ)
    → Walk g a xs b
    → has c (items b g.children) ≡ true
    → Walk g a (xs ++ c ∷ []) c
Walk-snoc g a b c [] w h = (subst (λ n. has c (items n g.children) ≡ true) (sym w) h, refl)
Walk-snoc g a b c (x ∷ xs) w h = (w.0, Walk-snoc g x b c xs w.1 h)

pub from_node-append :
    (n : ℕ) (xs ys : List ℕ) → has n xs ≡ true → from_node n (xs ++ ys) ≡ from_node n xs ++ ys
unfolding from_node
from_node-append n [] ys h = absurd (ground (arith, h))
from_node-append n (x ∷ xs) ys h = ground (arith, h, from_node-append n xs ys)

from_node-last : (n : ℕ) (xs : List ℕ) → has n xs ≡ false → from_node n (xs ++ n ∷ []) ≡ n ∷ []
unfolding from_node
from_node-last n [] h = ground arith
from_node-last n (x ∷ xs) h = ground (arith, h, from_node-last n xs)

-- The part of the path from one of its nodes is a walk to the top of the stack.
pub from_node-Walk :
    (g : Dag) (child n i : ℕ) (stack : List (ℕ × ℕ))
    → Linked g ((n, i) ∷ stack)
    → has child (unwind ((n, i) ∷ stack)) ≡ true
    → (rest : List ℕ) × (from_node child (unwind ((n, i) ∷ stack)) ≡ child ∷ rest)
      × Walk g child rest n
from_node-Walk g child n i [] l h =
    let same : child ≡ n = ground (arith, h) in
    ([], subst (λ c. from_node c (n ∷ []) ≡ c ∷ []) (sym same) (from_node-last n [] refl), same)
from_node-Walk g child n i ((m, j) ∷ stack) l h =
    let path = unwind ((m, j) ∷ stack) in
    elim (Bool-cases (has child path)) [
      | inl there ↦
          let (rest, e, w) = from_node-Walk g child m j stack l.1 there in
          (
            rest ++ n ∷ [],
            from_node-append child path (n ∷ []) there ∙ ap (λ xs. xs ++ n ∷ []) e,
            Walk-snoc g child m n rest w l.0,
          )
      | inr away ↦
          let same : child ≡ n = ground (arith, h, away, has-append child path (n ∷ [])) in
          let last : has n path ≡ false = rw (← same) away in
          (
            [],
            subst (λ c. from_node c (path ++ n ∷ []) ≡ c ∷ []) (sym same)
                (from_node-last n path last),
            same,
          )
    ]

pub Walk-closed :
    (g : Dag) (a b : ℕ) (xs : List ℕ)
    → Walk g a xs b
    → has a (items b g.children) ≡ true
    → IsCycle g (a ∷ xs ++ a ∷ [])
Walk-closed g a b [] w h = Walk-snoc g a b a [] w h
Walk-closed g a b (x ∷ xs) w h = Walk-snoc g a b a (x ∷ xs) w h

pub nth-has : (k : ℕ) (xs : List ℕ) (c : ℕ) → nth k xs ≡ some c → has c xs ≡ true
nth-has k [] c h = absurd (ground (arith, h))
nth-has zero (x ∷ xs) c h = let same : x ≡ c = cc in ground (arith, same)
nth-has (suc k) (x ∷ xs) c h = ground (arith, nth-has k xs c h)

pub drop_last-snoc : (xs : List ℕ) (n : ℕ) → drop_last (xs ++ n ∷ []) ≡ xs
drop_last-snoc [] n = refl
drop_last-snoc (x ∷ []) n = refl
drop_last-snoc (x ∷ y ∷ xs) n = ap (λ l. x ∷ l) (drop_last-snoc (y ∷ xs) n)
