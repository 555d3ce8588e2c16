-- ===== src/Dag/Cycle/Finish.antt =====
-- A search that finds no cycle has finished every node after all its children.
use distributed_job_orchestr.Common.{
  ℕ, zero, suc, ◌+◌, ◌≡◌, ◌≢◌, ◌⊎◌, refl, ap, true, false, ◌||◌, List, [], ◌∷◌, none, some, arith,
  take, ◌==◌, Bool-cases, inl, inr,
}
use distributed_job_orchestr.Common.Dict.{put}
use distributed_job_orchestr.Dag.{Dag, has, has_key, items}
use distributed_job_orchestr.Dag.Mirror.{NoDup}
use distributed_job_orchestr.Dag.Cycle.{Colour, white, grey, black, colour, nth}
use distributed_job_orchestr.Dag.Cycle.Rule.{colour-put}

-- The nodes that are finished, the last one first: the children of each stand behind it.
abbrev pub Done : Dag → List ℕ → Type 0
Done g [] = Unit
Done g (x ∷ done) = ((c : ℕ) → has c (items x g.children) ≡ true → has c done ≡ true) × Done g done

-- The children that an entry of the stack has passed are finished, but for the entry above it.
abbrev pub Under : Dag → List (ℕ × Colour) → ℕ → List (ℕ × ℕ) → Type 0
Under g colours above [] = Unit
Under g colours above ((n, i) ∷ stack) =
    ((c : ℕ)
      → has c (take i (items n g.children)) ≡ true
      → (colour c colours ≡ black) ⊎ (c ≡ above))
    × Under g colours n stack

abbrev pub Covered : Dag → List (ℕ × Colour) → List (ℕ × ℕ) → Type 0
Covered g colours [] = Unit
Covered g colours ((n, i) ∷ stack) =
    ((c : ℕ) → has c (take i (items n g.children)) ≡ true → colour c colours ≡ black)
    × Under g colours n stack

-- The nodes of the stack are grey and different.
abbrev pub GreyStack : List (ℕ × Colour) → List (ℕ × ℕ) → Type 0
GreyStack colours [] = Unit
GreyStack colours ((n, i) ∷ stack) =
    (colour n colours ≡ grey) × (has_key n stack ≡ false) × GreyStack colours stack

-- The finished nodes are the black ones.
pub record Finished (g : Dag) (base colours : List (ℕ × Colour)) (done : List ℕ) : Type 0 where
  pub ordered : Done g done
  pub once : NoDup done
  pub black_done : (x : ℕ) → colour x colours ≡ black → has x done ≡ true
  pub done_black : (x : ℕ) → has x done ≡ true → colour x colours ≡ black
  pub kept : (x : ℕ) → colour x base ≢ white → colour x colours ≢ white

pub enter-black :
    (x n : ℕ) (colours : List (ℕ × Colour))
    → colour n colours ≡ white
    → colour x colours ≡ black
    → colour x (put n grey colours) ≡ black
enter-black x n colours h e = elim (Bool-cases (n == x)) [
  | inl hit ↦
      let same : n ≡ x = ground (arith, hit) in
      let pale : colour x colours ≡ white = rw (← same) h in absurd (ground (arith, pale, e))
  | inr miss ↦ ground (arith, miss, e, colour-put x n grey colours)
]

-- A node leaves the path: it is finished.
pub finished-leave :
    (g : Dag) (base colours : List (ℕ × Colour)) (done : List ℕ) (n : ℕ)
    → Finished g base colours done
    → colour n colours ≡ grey
    → ((c : ℕ) → has c (items n g.children) ≡ true → colour c colours ≡ black)
    → Finished g base (put n black colours) (n ∷ done)
finished-leave g base colours done n v h covered = record {
  ordered = (λ c e. v.black_done c (covered c e), v.ordered);
  once = (ground (arith, v.done_black n, h), v.once);
  black_done = λ x e. ground (arith, e, colour-put x n black colours, v.black_done x);
  done_black = λ x e. ground (arith, e, colour-put x n black colours, v.done_black x);
  kept = λ x e. ground (arith, e, colour-put x n black colours, v.kept x);
}

-- A white node enters the path.
pub finished-enter :
    (g : Dag) (base colours : List (ℕ × Colour)) (done : List ℕ) (n : ℕ)
    → Finished g base colours done
    → colour n colours ≡ white
    → Finished g base (put n grey colours) done
finished-enter g base colours done n v h = record {
  ordered = v.ordered;
  once = v.once;
  black_done = λ x e. ground (arith, e, colour-put x n grey colours, v.black_done x);
  done_black = λ x e. enter-black x n colours h (v.done_black x e);
  kept = λ x e. ground (arith, e, colour-put x n grey colours, v.kept x);
}

pub take-all : (i : ℕ) (xs : List ℕ) → nth i xs ≡ none → take i xs ≡ xs
take-all zero [] h = refl
take-all zero (x ∷ xs) h = absurd (ground (arith, h))
take-all (suc i) [] h = refl
take-all (suc i) (x ∷ xs) h = ap (λ l. x ∷ l) (take-all i xs h)

pub has-take :
    (c i child : ℕ) (xs : List ℕ)
    → nth i xs ≡ some child
    → has c (take (i + 1) xs) ≡ (has c (take i xs) || child == c)
has-take c i child [] h = absurd (ground (arith, h))
has-take c zero child (x ∷ xs) h = let same : x ≡ child = cc in ground (arith, same)
has-take c (suc i) child (x ∷ xs) h = ground (arith, has-take c i child xs h)

-- Colours change so that a black node stays black.
abbrev pub Blackens : List (ℕ × Colour) → List (ℕ × Colour) → Type 0
Blackens colours colours' = (c : ℕ) → colour c colours ≡ black → colour c colours' ≡ black

pub Under-later :
    (g : Dag) (colours colours' : List (ℕ × Colour)) (above : ℕ) (stack : List (ℕ × ℕ))
    → Blackens colours colours'
    → Under g colours above stack
    → Under g colours' above stack
Under-later g colours colours' above [] b u = tt
Under-later g colours colours' above ((n, i) ∷ stack) b u = (
  λ c h. elim (u.0 c h) [ inl old ↦ inl (b c old) | inr same ↦ inr same ],
  Under-later g colours colours' n stack b u.1,
)

pub leave-Covered :
    (g : Dag) (colours : List (ℕ × Colour)) (n : ℕ) (stack : List (ℕ × ℕ))
    → Under g colours n stack
    → Covered g (put n black colours) stack
leave-Covered g colours n [] u = tt
leave-Covered g colours n ((m, j) ∷ stack) u = (
  λ c h. elim (u.0 c h) [
    | inl old ↦ ground (arith, old, colour-put c n black colours)
    | inr same ↦ ground (arith, same, colour-put c n black colours)
  ],
  Under-later g colours (put n black colours) m stack
      (λ c h. ground (arith, h, colour-put c n black colours)) u.1,
)

pub put-GreyStack :
    (colours : List (ℕ × Colour)) (n : ℕ) (c : Colour) (stack : List (ℕ × ℕ))
    → has_key n stack ≡ false
    → GreyStack colours stack
    → GreyStack (put n c colours) stack
put-GreyStack colours n c [] h p = tt
put-GreyStack colours n c ((m, j) ∷ stack) h p = (
  ground (arith, h, p.0, colour-put m n c colours),
  p.1,
  put-GreyStack colours n c stack (ground (arith, h)) p.2,
)

pub white-away :
    (colours : List (ℕ × Colour)) (n : ℕ) (stack : List (ℕ × ℕ))
    → colour n colours ≡ white
    → GreyStack colours stack
    → has_key n stack ≡ false
white-away colours n [] h p = refl
white-away colours n ((m, j) ∷ stack) h p = elim (Bool-cases (m == n)) [
  | inl hit ↦
      let same : m ≡ n = ground (arith, hit) in
      let pale : colour m colours ≡ white = rw same h in absurd (ground (arith, pale, p.0))
  | inr miss ↦ ground (arith, miss, white-away colours n stack h p.2)
]
