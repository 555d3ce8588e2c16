-- ===== src/Dag/Cycle/Sound.antt =====
-- A cycle that the search names is a cycle of the graph.
use distributed_job_orchestr.Common.{
  ℕ, ◌+◌, ◌≡◌, ◌⊎◌, refl, sym, ap, subst, ◌∙◌, true, List, [], ◌∷◌, ◌++◌, arith, inl, inr,
}
use distributed_job_orchestr.Common.Dict.{put}
use distributed_job_orchestr.Dag.{Dag, out_of_fuel, ok, err, has, items, nodes}
use distributed_job_orchestr.Dag.Mirror.{has-append}
use distributed_job_orchestr.Dag.Cycle.{
  Colour, grey, black, colour, from_node, drop_last, Outcome, found, explored, unfinished,
  start_search, search_all, find_cycle,
}
use distributed_job_orchestr.Dag.Cycle.Walks.{
  IsCycle, unwind, Linked, from_node-Walk, Walk-closed, nth-has, drop_last-snoc,
}
use distributed_job_orchestr.Dag.Cycle.Rule.{colour-put, SearchRule, start_rule}

-- A grey node stands on the path.
abbrev pub Grey : List (ℕ × Colour) → List (ℕ × ℕ) → Type 0
Grey colours stack = (x : ℕ) → colour x colours ≡ grey → has x (unwind stack) ≡ true

-- What the search from a stack answers: a cycle, or colours without a grey node.
abbrev pub Sound : Dag → Outcome → Type 0
Sound g (found c) = IsCycle g c
Sound g (explored colours) = Grey colours []
Sound g unfinished = Unit

left-Grey :
    (n i : ℕ) (colours : List (ℕ × Colour)) (stack : List (ℕ × ℕ))
    → Grey colours ((n, i) ∷ stack)
    → Grey (put n black colours) stack
left-Grey n i colours stack h x e =
    ground (arith, e, colour-put x n black colours, h x, has-append x (unwind stack) (n ∷ []))

pushed-Grey :
    (n i : ℕ) (colours : List (ℕ × Colour)) (stack : List (ℕ × ℕ))
    → Grey colours stack
    → Grey (put n grey colours) ((n, i) ∷ stack)
pushed-Grey n i colours stack h x e =
    ground (arith, e, colour-put x n grey colours, h x, has-append x (unwind stack) (n ∷ []))

Linked-index :
    (g : Dag) (n i j : ℕ) (stack : List (ℕ × ℕ))
    → Linked g ((n, i) ∷ stack)
    → Linked g ((n, j) ∷ stack)
Linked-index g n i j [] l = tt
Linked-index g n i j (e ∷ stack) l = l

Linked-rest :
    (g : Dag) (n i : ℕ) (stack : List (ℕ × ℕ)) → Linked g ((n, i) ∷ stack) → Linked g stack
Linked-rest g n i [] l = tt
Linked-rest g n i (e ∷ stack) l = l.1

-- A back edge closes a cycle.
found-IsCycle :
    (g : Dag) (child n i : ℕ) (stack : List (ℕ × ℕ)) (path : List ℕ)
    → Linked g ((n, i) ∷ stack)
    → path ≡ unwind ((n, i) ∷ stack)
    → has child path ≡ true
    → has child (items n g.children) ≡ true
    → IsCycle g (from_node child path ++ child ∷ [])
found-IsCycle g child n i stack path l e there edge =
    let on : has child (unwind ((n, i) ∷ stack)) ≡ true = rw (← e) there in
    let (rest, f, w) = from_node-Walk g child n i stack l on in
    rw (e, f) (Walk-closed g child n rest w edge)

-- The path is the stack's, along edges, and holds every grey node.
record OnPath (g : Dag) (fuel : ℕ) (colours : List (ℕ × Colour)) (stack : List (ℕ × ℕ))
    (path : List ℕ) : Type 0 where
  linked : Linked g stack
  unwound : path ≡ unwind stack
  greys : Grey colours stack

Sound-rule : (g : Dag) → SearchRule g (OnPath g) (Sound g)
Sound-rule g = record {
  starved = λ colours stack path v. tt;
  finish = λ fuel colours path v. v.greys;
  leave = λ fuel n i colours stack path v done. record {
    linked = Linked-rest g n i stack v.linked;
    unwound = ap drop_last v.unwound ∙ drop_last-snoc (unwind stack) n;
    greys = left-Grey n i colours stack v.greys;
  };
  back = λ fuel n i child colours stack path v at is_grey.
      found-IsCycle g child n i stack path v.linked v.unwound (rw v.unwound (v.greys child is_grey))
        (nth-has i (items n g.children) child at);
  enter = λ fuel n i child colours stack path v at is_white. record {
    linked = (nth-has i (items n g.children) child at, Linked-index g n i (i + 1) stack v.linked);
    unwound = ap (λ xs. xs ++ child ∷ []) v.unwound;
    greys = pushed-Grey child 0 colours ((n, i + 1) ∷ stack) v.greys;
  };
  skip = λ fuel n i child colours stack path v at is_black. record {
    linked = Linked-index g n i (i + 1) stack v.linked;
    unwound = v.unwound;
    greys = v.greys;
  };
}

pub start_search-Sound :
    (fuel : ℕ) (g : Dag) (colours : List (ℕ × Colour)) (start : ℕ)
    → Grey colours []
    → Sound g (start_search fuel g colours start)
start_search-Sound fuel g colours start h =
    start_rule (Sound-rule g) fuel colours start (λ _. h)
      (λ _. record { linked = tt; unwound = refl; greys = pushed-Grey start 0 colours [] h })

pub Outcome-cases :
    (o : Outcome)
    → ((c : List ℕ) × (o ≡ found c))
      ⊎ (((d : List (ℕ × Colour)) × (o ≡ explored d)) ⊎ (o ≡ unfinished))
Outcome-cases (found c) = inl (c, refl)
Outcome-cases (explored d) = inr (inl (d, refl))
Outcome-cases unfinished = inr (inr refl)

search_all-IsCycle :
    (fuel : ℕ) (g : Dag) (colours : List (ℕ × Colour)) (starts : List ℕ) (c : List ℕ)
    → Grey colours []
    → search_all fuel g colours starts ≡ ok c
    → IsCycle g c
unfolding search_all
search_all-IsCycle fuel g colours [] c h e = absurd (ground (arith, e))
search_all-IsCycle fuel g colours (start ∷ starts) c h e =
    let sound = start_search-Sound fuel g colours start h in
    elim (Outcome-cases (start_search fuel g colours start)) [
      | inl (cycle, f) ↦
          let at : search_all fuel g colours (start ∷ starts) ≡ ok cycle =
            rw (f, search_all) refl in
          let whole : ok cycle ≡ ok c = sym at ∙ e in
          let same : cycle ≡ c = cc in subst (IsCycle g) same (subst (Sound g) f sound)
      | inr (inl (colours', f)) ↦
          let at : search_all fuel g colours (start ∷ starts) ≡ search_all fuel g colours' starts =
            rw (f, search_all) refl in
          search_all-IsCycle fuel g colours' starts c (subst (Sound g) f sound) (sym at ∙ e)
      | inr (inr f) ↦
          let at : search_all fuel g colours (start ∷ starts) ≡ err out_of_fuel =
            rw (f, search_all) refl in
          let never : err out_of_fuel ≡ ok c = sym at ∙ e in absurd (ground (arith, never))
    ]

-- A list that the search names is a cycle of the graph: it goes along edges from a node back to
-- the same node.
pub find_cycle-IsCycle : (g : Dag) (c : List ℕ) → find_cycle g ≡ ok c → IsCycle g c
unfolding find_cycle
find_cycle-IsCycle g c e =
    search_all-IsCycle _ g [] (nodes g) c (λ x h. absurd (ground (arith, h))) e
