-- ===== src/Dag/Total.antt =====
-- topological_order: every well-formed graph gets a complete order or an error that names a cycle.
use distributed_job_orchestr.Common.{
  ℕ, ◌+◌, ◌≡◌, ◌≢◌, ◌⊎◌, refl, sym, subst, ◌∙◌, true, false, List, [], ◌∷◌, arith, length, ◌==◌,
  Bool-cases, inl, inr,
}
use distributed_job_orchestr.Dag.{Dag, ok, err, cycle_error, has, has_key, items, nodes}
use distributed_job_orchestr.Dag.Mirror.{IsDag, NoDup, has_key-keys}
use distributed_job_orchestr.Dag.Rounds.{kahn_order-returns}
use distributed_job_orchestr.Dag.Kahn.{unmet, Follows, kahn_order-Follows}
use distributed_job_orchestr.Dag.Served.{Closed, kahn_order-Closed}
use distributed_job_orchestr.Dag.Cycle.{
  Colour, edge_count, find_cycle, checked_order, topological_order, is_acyclic,
}
use distributed_job_orchestr.Dag.Cycle.Walks.{IsCycle}
use distributed_job_orchestr.Dag.Cycle.Cost.{white_cost-start}
use distributed_job_orchestr.Dag.Cycle.Finish.{Done}
use distributed_job_orchestr.Dag.Cycle.Complete.{Settled, search_all-cases}
use distributed_job_orchestr.Dag.Count.{kahn_order-Named, complete_length, length_complete}

-- A parent that is not in the order, if not all are.
unmet_parent : (o ps : List ℕ) → unmet o ps ≢ 0 → (p : ℕ) × (has p ps ≡ true) × (has p o ≡ false)
unmet_parent o [] h = absurd (h refl)
unmet_parent o (p ∷ ps) h = elim (Bool-cases (has p o)) [
  | inl in_order ↦
      let (q, there, away) = unmet_parent o ps (ground (arith, h, in_order)) in
      (q, ground (arith, there), away)
  | inr away ↦ (p, ground arith, away)
]

Done-member :
    (g : Dag) (l : List ℕ) (p c : ℕ)
    → Done g l
    → has p l ≡ true
    → has c (items p g.children) ≡ true
    → has c l ≡ true
Done-member g [] p c v h e = absurd (ground (arith, h))
Done-member g (x ∷ l) p c v h e = elim (Bool-cases (x == p)) [
  | inl hit ↦
      let same : x ≡ p = ground (arith, hit) in
      let there : has c l ≡ true =
        v.0 c (subst (λ i. has c (items i g.children) ≡ true) (sym same) e) in
      ground (arith, there)
  | inr miss ↦ ground (arith, Done-member g l p c v.1 (ground (arith, h, miss)) e)
]

Left : Dag → List ℕ → List ℕ → Type 0
Left g o l = (c : ℕ) → has_key c g.children ≡ true → has c o ≡ false → has c l ≡ true

-- The first of the nodes that may be left out is not: one of its parents is, and that one comes
-- after its children.
head_in_order :
    (g : Dag) (o : List ℕ) (x : ℕ) (l : List ℕ)
    → IsDag g
    → Closed g o
    → Done g l
    → has x l ≡ false
    → Left g o (x ∷ l)
    → has_key x g.children ≡ true
    → has x o ≡ true
unfolding Left
head_in_order g o x l v closed d new left k = elim (Bool-cases (has x o)) [
  | inl there ↦ there
  | inr away ↦
      let unmet_x : unmet o (items x g.parents) ≢ 0 =
        λ e. absurd (ground (arith, closed x k e, away)) in
      let (p, parent, p_away) = unmet_parent o (items x g.parents) unmet_x in
      let child : has x (items p g.children) ≡ true = v.mirror p x ∙ parent in
      let looped : (x == p) ≡ true → has x (items x g.children) ≡ true = λ hit.
        let same : x ≡ p = ground (arith, hit) in
        subst (λ i. has x (items i g.children) ≡ true) (sym same) child in
      let behind : has p l ≡ true =
        ground (arith, left p (v.known p x child).0 p_away, looped, v.loop_free x) in
      absurd (ground (arith, Done-member g l p x d behind child, new))
]

none-Left :
    (g : Dag) (o l : List ℕ)
    → IsDag g
    → Closed g o
    → Done g l
    → NoDup l
    → Left g o l
    → (c : ℕ) → has_key c g.children ≡ true
    → has c o ≡ true
unfolding Left
none-Left g o [] v closed d u left = λ c k. ground (arith, left c k)
none-Left g o (x ∷ l) v closed d u left =
    let x_in = head_in_order g o x l v closed d.1 u.0 left in
    none-Left g o l v closed d.1 u.1 (λ c k away. elim (Bool-cases (x == c)) [
      | inl hit ↦
          let same : x ≡ c = ground (arith, hit) in
          let there : has c o ≡ true = rw (← same) (x_in (rw same k)) in
          absurd (ground (arith, there, away))
      | inr miss ↦ ground (arith, left c k away, miss)
    ])

-- A search that explores the whole graph shows that the order is complete.
Settled-order :
    (g : Dag) (o : List ℕ) (colours : List (ℕ × Colour)) (seen : List ℕ)
    → IsDag g
    → Closed g o
    → Settled g colours seen
    → ((x : ℕ) → has x (nodes g) ≡ true → has x seen ≡ true)
    → (c : ℕ) → has_key c g.children ≡ true
    → has c o ≡ true
unfolding Left
Settled-order g o colours seen v closed s all =
    none-Left g o s.done v closed s.finished.ordered s.finished.once (λ c k away.
      s.finished.black_done c
        (ground (arith, s.seen c (all c (sym (has_key-keys c g.children) ∙ k)), s.greys c)))

-- find_cycle names a cycle, or the order is complete.
find_cycle-cases :
    (g : Dag) (o : List ℕ)
    → IsDag g
    → Closed g o
    → ((c : List ℕ) × (find_cycle g ≡ ok c) × IsCycle g c)
      ⊎ ((c : ℕ) → has_key c g.children ≡ true → has c o ≡ true)
unfolding find_cycle
find_cycle-cases g o v closed =
    let enough = white_cost-start g.children in
    let start : Settled g [] [] = record {
      done = [];
      finished = record {
        ordered = tt;
        once = tt;
        black_done = λ x h. absurd (ground (arith, h));
        done_black = λ x h. absurd (ground (arith, h));
        kept = λ x h. h;
      };
      greys = λ x h. absurd (ground (arith, h));
      seen = λ x h. absurd (ground (arith, h));
    } in
    elim (search_all-cases (edge_count g.children + length g.children + 1) g [] [] (nodes g) v
      (λ x h. has_key-keys x g.children ∙ h) (omega (arith, enough)) start) [
        | inl cycle ↦ inl cycle
        | inr (colours, seen, all, settled) ↦
            inr (Settled-order g o colours seen v closed settled (λ x h. all x (inr h)))
      ]

-- What a finished call promises: an order of exactly the nodes, each once and after its parents.
abbrev pub IsOrder : Dag → List ℕ → Type 0
IsOrder g o = Follows g [] o × NoDup o × ((n : ℕ) → has n o ≡ has_key n g.children)

-- On a well-formed graph `topological_order` always answers: it returns an order of exactly the
-- graph's nodes that holds each once and after all its parents, or it raises a CycleError whose
-- nodes are a cycle of the graph.
pub topological_order_lem :
    (g : Dag)
    → IsDag g
    → ((o : List ℕ) × (topological_order g ≡ ok o) × IsOrder g o)
      ⊎ ((c : List ℕ) × (topological_order g ≡ err (cycle_error c)) × IsCycle g c)
unfolding topological_order
topological_order_lem g v =
    let (o, e) = kahn_order-returns g v in
    let (follows, once) = kahn_order-Follows g o v e in
    let named = kahn_order-Named g o v e in
    elim (Bool-cases (length o == length g.children)) [
      | inl hit ↦
          let at : topological_order g ≡ ok o =
            rw (topological_order, e, checked_order, hit) refl in
          inl (o, at, (follows, once, length_complete g o once named (ground (arith, hit))))
      | inr miss ↦ elim (find_cycle-cases g o v (kahn_order-Closed g o v e)) [
        | inl (c, f, cycle) ↦
            let at : topological_order g ≡ err (cycle_error c) =
              rw (topological_order, e, checked_order, miss, f) refl in
            inr (c, at, cycle)
        | inr all ↦ absurd (ground (arith, miss, complete_length g o v once named all))
      ]
    ]

-- On a well-formed graph `is_acyclic` never raises: it returns true when there is an order of
-- exactly the graph's nodes with each after its parents, and false when the graph has a cycle.
pub is_acyclic_lem :
    (g : Dag)
    → IsDag g
    → ((is_acyclic g ≡ ok true) × ((o : List ℕ) × IsOrder g o))
      ⊎ ((is_acyclic g ≡ ok false) × ((c : List ℕ) × IsCycle g c))
unfolding is_acyclic
is_acyclic_lem g v = elim (topological_order_lem g v) [
  | inl (o, e, order) ↦
      let at : is_acyclic g ≡ ok true = rw (is_acyclic, e) refl in inl (at, (o, order))
  | inr (c, e, cycle) ↦
      let at : is_acyclic g ≡ ok false = rw (is_acyclic, e) refl in inr (at, (c, cycle))
]
