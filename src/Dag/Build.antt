-- ===== src/Dag/Build.antt =====
-- Building a graph from a mapping of dependencies.
use distributed_job_orchestr.Common.{
  ℕ, ◌≡◌, ◌≢◌, refl, sym, ap, subst, ◌∙◌, Bool, true, false, ◌&&◌, ◌||◌, List, [], ◌∷◌, arith, any,
  ◌==◌, Bool-cases, inl, inr,
}
use distributed_job_orchestr.Dag.{
  Dag, Result, ok, err, has, has_key, items, empty_dag, add_node, add_edge, add_nodes, add_parents,
  add_edges, and_then, from_dependencies,
}
use distributed_job_orchestr.Dag.Mirror.{
  IsDag, linked, linked-IsDag, has-linked, add_node-IsDag, items-set_default,
}

-- The mapping names `p` as a dependency of `c`.
abbrev pub declared : ℕ → ℕ → List (ℕ × List ℕ) → Bool
declared p c deps = any (λ (n, ps). n == c && has p ps) deps

-- From `g` to `g'`: a well-formed graph, whose edges are those of `g` and those that `extra` has.
pub record Grows (g g' : Dag) (extra : ℕ → ℕ → Bool) : Type 0 where
  pub dag : IsDag g'
  pub edges : (p c : ℕ) → has p (items c g'.parents) ≡ (has p (items c g.parents) || extra p c)

abbrev edge : ℕ → ℕ → ℕ → ℕ → Bool
edge p c x y = p == x && c == y

-- An edge that is there already adds nothing.
kept-Grows :
    (p c : ℕ) (g : Dag) → IsDag g → has c (items p g.children) ≡ true → Grows g g (edge p c)
kept-Grows p c g v old = record {
  dag = v;
  edges = λ x y. elim (Bool-cases (edge p c x y)) [
    | inl hit ↦
        let a : p ≡ x = ground (arith, hit) in
        let b : c ≡ y = ground (arith, hit) in
        let there : has x (items y g.parents) ≡ true =
          subst (λ n. has n (items y g.parents) ≡ true) a
            (subst (λ n. has p (items n g.parents) ≡ true) b (sym (v.mirror p c) ∙ old)) in
        ground (arith, there)
    | inr miss ↦ ground (arith, miss)
  ];
}

linked-Grows :
    (p c : ℕ) (g : Dag)
    → IsDag g
    → has_key p g.children ≡ true
    → has_key c g.children ≡ true
    → p ≢ c
    → has c (items p g.children) ≡ false
    → Grows g (linked p c g) (edge p c)
linked-Grows p c g v hp hc apart new = record {
  dag = linked-IsDag p c g v hp hc apart new;
  edges = λ x y. ground (arith, has-linked y x c p g.parents);
}

-- What an accepted edge does.
add_edge-Grows : (p c : ℕ) (g g' : Dag) → IsDag g → add_edge p c g ≡ ok g' → Grows g g' (edge p c)
unfolding add_edge
add_edge-Grows p c g g' v e = elim (Bool-cases (has_key p g.children)) [
  | inr no_parent ↦ absurd (ground (arith, e, no_parent))
  | inl hp ↦ elim (Bool-cases (has_key c g.children)) [
    | inr no_child ↦ absurd (ground (arith, e, hp, no_child))
    | inl hc ↦ elim (Bool-cases (p == c)) [
      | inl loop ↦ absurd (ground (arith, e, hp, hc, loop))
      | inr apart ↦ elim (Bool-cases (has c (items p g.children))) [
        | inl old ↦
            let same : ok g ≡ ok g' = ground (arith, e, hp, hc, apart, old) in
            let there : g ≡ g' = cc in
            subst (λ h. Grows g h (edge p c)) there (kept-Grows p c g v old)
        | inr new ↦
            let same : ok (linked p c g) ≡ ok g' = ground (arith, e, hp, hc, apart, new) in
            let there : linked p c g ≡ g' = cc in
            subst (λ h. Grows g h (edge p c)) there
              (linked-Grows p c g v hp hc (ground (arith, apart)) new)
      ]
    ]
  ]
]

Grows-refl : (g : Dag) (f : ℕ → ℕ → Bool) → IsDag g → ((x y : ℕ) → f x y ≡ false) → Grows g g f
Grows-refl g f v h = record { dag = v; edges = λ x y. ground (arith, h x y) }

Grows-trans :
    (a b c : Dag) (f f' k : ℕ → ℕ → Bool)
    → Grows a b f
    → Grows b c f'
    → ((x y : ℕ) → k x y ≡ (f x y || f' x y))
    → Grows a c k
Grows-trans a b c f f' k p q h = record {
  dag = q.dag;
  edges = λ x y. ground (arith, p.edges x y, q.edges x y, h x y);
}

-- A chain of two insertions that is accepted.
and_then_inv :
    (r : Result Dag) (k : Dag → Result Dag) (g' : Dag)
    → and_then r k ≡ ok g'
    → (g : Dag) × (r ≡ ok g) × (k g ≡ ok g')
and_then_inv (ok g) k g' e = (g, refl, e)
and_then_inv (err x) k g' e = absurd (ground (arith, e))

add_parents-Grows :
    (n : ℕ) (ps : List ℕ) (g g' : Dag)
    → IsDag g
    → add_parents n ps g ≡ ok g'
    → Grows g g' (λ x y. n == y && has x ps)
unfolding add_parents
add_parents-Grows n [] g g' v e =
    let same : g ≡ g' = cc in
    subst (λ h. Grows g h (λ x y. n == y && has x [])) same
      (Grows-refl g (λ x y. n == y && has x []) v (λ x y. ground arith))
add_parents-Grows n (p ∷ ps) g g' v e =
    let (h, first, rest) = and_then_inv (add_edge p n g) (add_parents n ps) g' e in
    let one = add_edge-Grows p n g h v first in
    Grows-trans g h g' (edge p n) (λ x y. n == y && has x ps) _ one
      (add_parents-Grows n ps h g' one.dag rest) (λ x y. ground arith)

add_edges-Grows :
    (deps : List (ℕ × List ℕ)) (g g' : Dag)
    → IsDag g
    → add_edges deps g ≡ ok g'
    → Grows g g' (λ x y. declared x y deps)
unfolding add_edges
add_edges-Grows [] g g' v e =
    let same : g ≡ g' = cc in
    subst (λ h. Grows g h (λ x y. false)) same (Grows-refl g (λ x y. false) v (λ x y. refl))
add_edges-Grows ((n, ps) ∷ deps) g g' v e =
    let (h, first, rest) = and_then_inv (add_parents n ps g) (add_edges deps) g' e in
    let one = add_parents-Grows n ps g h v first in
    Grows-trans g h g' (λ x y. n == y && has x ps) (λ x y. declared x y deps) _ one
      (add_edges-Grows deps h g' one.dag rest) (λ x y. refl)

add_node-items : (n i : ℕ) (g : Dag) → items i (add_node n g).parents ≡ items i g.parents
unfolding add_node
add_node-items n i g = items-set_default i n g.parents

empty-IsDag : IsDag empty_dag
empty-IsDag = record {
  same_keys = refl;
  distinct_children = tt;
  distinct_parents = tt;
  mirror = λ p c. refl;
  known = λ p c h. ground (arith, h);
  loop_free = λ n. refl;
  children_once = λ n. tt;
  parents_once = λ n. tt;
}

add_nodes-IsDag :
    (deps : List (ℕ × List ℕ)) (g : Dag)
    → IsDag g
    → IsDag (add_nodes deps g) × ((n : ℕ) → items n (add_nodes deps g).parents ≡ items n g.parents)
unfolding add_nodes
add_nodes-IsDag [] g v = (v, λ n. refl)
add_nodes-IsDag ((n, ps) ∷ deps) g v =
    let (w, same) = add_nodes-IsDag deps (add_node n g) (add_node-IsDag n g v) in
    (w, λ i. same i ∙ add_node-items n i g)

-- A mapping that is accepted gives a well-formed graph: every edge stands once in each of the two
-- dictionaries, between two different nodes of the graph, and the edges are exactly the
-- dependencies that the mapping names.
pub from_dependencies-IsDag :
    (deps : List (ℕ × List ℕ)) (g : Dag)
    → from_dependencies deps ≡ ok g
    → IsDag g × ((p c : ℕ) → has p (items c g.parents) ≡ declared p c deps)
unfolding from_dependencies
from_dependencies-IsDag deps g e =
    let (w, same) = add_nodes-IsDag deps empty_dag empty-IsDag in
    let grown = add_edges-Grows deps (add_nodes deps empty_dag) g w e in
    (grown.dag, λ p c. ground (arith, grown.edges p c, ap (has p) (same c)))
