-- ===== src/Dag/Served.antt =====
-- What Kahn's loop leaves out: only nodes with a parent that it leaves out.
use distributed_job_orchestr.Common.{
  ℕ, zero, suc, ◌+◌, ◌-◌, ◌≡◌, sym, subst, ◌∙◌, true, ◌||◌, List, [], ◌∷◌, ◌++◌, map, some, arith,
  length, ◌==◌, if◌then◌else◌,
}
use distributed_job_orchestr.Common.Dict.{put}
use distributed_job_orchestr.Dag.{
  Dag, has, has_key, items, degree, roots_of, in_degrees, visit, kahn, kahn_order, nodes,
}
use distributed_job_orchestr.Dag.Mirror.{IsDag, has-append, has_key-keys}
use distributed_job_orchestr.Dag.Kahn.{
  unmet, Follows, Ready, visit-Ready, next_node, new_children, taken-Ready, start-Ready,
  Follows-snoc, has-queued, degree-put, same_degree,
}

-- Every node without an unmet parent is queued or in the order.
abbrev Served : Dag → List (ℕ × ℕ) → List ℕ → List ℕ → Type 0
Served g d queue order =
    (c : ℕ) → has_key c g.children ≡ true → degree c d ≡ 0 → (has c queue || has c order) ≡ true

visit-Served :
    (g : Dag) (cs : List ℕ) (d : List (ℕ × ℕ)) (queue order : List ℕ)
    → Served g d queue order
    → let (d', queue') = visit cs d queue in Served g d' queue' order
unfolding visit
visit-Served g [] d queue order s = s
visit-Served g (c ∷ cs) d queue order s =
    let n = degree c d in
    visit-Served g cs (put c (n - 1) d) (if n == 1 then queue ++ c ∷ [] else queue) order (λ k h e.
      ground (arith, e, s k h, has-queued k n c queue, degree-put k c (n - 1) d, same_degree k c d))

-- The order is closed: a node whose parents are all in it is in it.
abbrev pub Closed : Dag → List ℕ → Type 0
Closed g o =
    (c : ℕ) → has_key c g.children ≡ true → unmet o (items c g.parents) ≡ 0 → has c o ≡ true

kahn-Closed :
    (fuel : ℕ) (g : Dag) (d : List (ℕ × ℕ)) (queue order o : List ℕ)
    → IsDag g
    → Ready g [] d queue order
    → Follows g [] order
    → Served g d queue order
    → kahn fuel g d queue order ≡ some o
    → Closed g o
unfolding kahn
kahn-Closed zero g d queue order o v r f s e = absurd (ground (arith, e))
kahn-Closed (suc fuel) g d [] order o v r f s e =
    let same : order ≡ o = cc in
    subst (Closed g) same (λ c h k. ground (arith, r.counts c, s c h, k))
kahn-Closed (suc fuel) g d (n ∷ queue) order o v r f s e =
    let (new, done) = next_node g d n queue order r in
    let (d', queue') = visit (items n g.children) d queue in
    kahn-Closed fuel g d' queue' (order ++ n ∷ []) o v
      (visit-Ready g (items n g.children) d queue (order ++ n ∷ []) (v.children_once n)
        (new_children g n order v f new) (taken-Ready g d n queue order v r new))
      (Follows-snoc g [] order n f done)
      (visit-Served g (items n g.children) d queue (order ++ n ∷ [])
        (λ c h k. ground (arith, s c h k, has-append c order (n ∷ []))))
      e

roots-has :
    (c : ℕ) (d : List (ℕ × ℕ)) (ns : List ℕ)
    → has c ns ≡ true
    → degree c d ≡ 0
    → has c (roots_of d ns) ≡ true
roots-has c d [] h k = h
roots-has c d (n ∷ ns) h k = ground (arith, h, k, same_degree c n d, roots-has c d ns)

pub kahn_order-Closed : (g : Dag) (o : List ℕ) → IsDag g → kahn_order g ≡ some o → Closed g o
unfolding kahn_order in_degrees
kahn_order-Closed g o v e =
    let d = map (λ (n, ps). (n, length ps)) g.parents in
    kahn-Closed (length g.children + 1) g d (roots_of d (nodes g)) [] o v (start-Ready g v) tt
      (λ c h k. ground (arith, roots-has c d (nodes g) (sym (has_key-keys c g.children) ∙ h) k)) e
