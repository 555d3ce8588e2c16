-- ===== src/Dag/Kahn.antt =====
-- Kahn's loop puts every node after its parents.
use distributed_job_orchestr.Common.{
  append-nil, append_assoc, ℕ, zero, suc, ◌+◌, ◌-◌, ◌≡◌, refl, sym, ap, subst, ◌∙◌, true, false,
  ◌&&◌, ◌||◌, List, [], ◌∷◌, ◌++◌, map, none, some, arith, length, ◌==◌, Bool-cases, inl, inr,
  if◌then◌else◌,
}
use distributed_job_orchestr.Common.Dict.{Distinct, lookup, put, lookup-put}
use distributed_job_orchestr.Dag.{
  Dag, has, items, degree, roots_of, in_degrees, visit, kahn, kahn_order, nodes,
}
use distributed_job_orchestr.Dag.Mirror.{keys, IsDag, NoDup, has-append, NoDup-snoc}

-- The number of parents that are not in the order yet.
abbrev pub unmet : List ℕ → List ℕ → ℕ
unmet order [] = 0
unmet order (p ∷ ps) = let rest = unmet order ps in if has p order then rest else suc rest

-- Each node of the list comes after all its parents; those in `before` are done.
abbrev pub Follows : Dag → List ℕ → List ℕ → Type 0
Follows g before [] = Unit
Follows g before (n ∷ order) =
    (unmet before (items n g.parents) ≡ 0) × Follows g (before ++ n ∷ []) order

unmet-snoc :
    (order ps : List ℕ) (n : ℕ)
    → NoDup ps
    → has n order ≡ false
    → unmet order ps ≡ unmet (order ++ n ∷ []) ps + (if has n ps then 1 else 0)
unmet-snoc order [] n v h = refl
unmet-snoc order (p ∷ ps) n v h =
    let rest = unmet-snoc order ps n v.1 h in
    let joined = has-append p order (n ∷ []) in
    elim (Bool-cases (p == n)) [
      | inl hit ↦
          let same : p ≡ n = ground (arith, hit) in
          let new : has p order ≡ false = rw same h in
          let last : has n ps ≡ false = rw (← same) v.0 in
          ground (arith, hit, new, last, rest, joined)
      | inr miss ↦ ground (arith, miss, rest, joined)
    ]

pub degree-put :
    (k c v : ℕ) (d : List (ℕ × ℕ)) → degree k (put c v d) ≡ (if c == k then v else degree k d)
degree-put k c v d = ground (arith, lookup-put k c v d)

-- The loop's invariant over the children `cs` of the last node that are still to be visited.
pub record Ready (g : Dag) (cs : List ℕ) (d : List (ℕ × ℕ)) (queue order : List ℕ) : Type 0 where
  pub counts : (c : ℕ) → degree c d ≡ unmet order (items c g.parents) + (if has c cs then 1 else 0)
  pub free : (c : ℕ) → has c queue ≡ true → degree c d ≡ 0
  pub fresh : (c : ℕ) → has c queue ≡ true → has c order ≡ false
  pub once : NoDup queue

abbrev pub queued : ℕ → ℕ → List ℕ → List ℕ
queued n c queue = if n == 1 then queue ++ c ∷ [] else queue

pub has-queued :
    (k n c : ℕ) (queue : List ℕ) → has k (queued n c queue) ≡ (has k queue || n == 1 && c == k)
has-queued k n c queue = ground (arith, has-append k queue (c ∷ []))

queued-NoDup :
    (n c : ℕ) (queue : List ℕ)
    → NoDup queue
    → (has c queue ≡ true → n ≡ 0)
    → NoDup (queued n c queue)
queued-NoDup n c queue v h = elim (Bool-cases (n == 1)) [
  | inl hit ↦ rw hit (NoDup-snoc c queue v (ground (arith, hit, h)))
  | inr miss ↦ rw miss v
]

pub same_degree : (k c : ℕ) (d : List (ℕ × ℕ)) → (c == k) ≡ true → degree c d ≡ degree k d
same_degree k c d h = let same : c ≡ k = ground (arith, h) in ap (λ n. degree n d) same

queued-fresh :
    (k n c : ℕ) (queue order : List ℕ)
    → (has k queue ≡ true → has k order ≡ false)
    → has c order ≡ false
    → has k (queued n c queue) ≡ true
    → has k order ≡ false
queued-fresh k n c queue order h new e = elim (Bool-cases (c == k)) [
  | inl hit ↦ let same : c ≡ k = ground (arith, hit) in rw (← same) new
  | inr miss ↦ h (ground (arith, e, miss, has-queued k n c queue))
]

pub visit-Ready :
    (g : Dag) (cs : List ℕ) (d : List (ℕ × ℕ)) (queue order : List ℕ)
    → NoDup cs
    → ((c : ℕ) → has c cs ≡ true → has c order ≡ false)
    → Ready g cs d queue order
    → let (d', queue') = visit cs d queue in Ready g [] d' queue' order
unfolding visit
visit-Ready g [] d queue order v h r = r
visit-Ready g (c ∷ cs) d queue order v h r =
    let n = degree c d in
    visit-Ready g cs (put c (n - 1) d) (if n == 1 then queue ++ c ∷ [] else queue) order v.1
      (λ k e. h k (ground (arith, e)))
      (record {
        counts = λ k. ground (arith, r.counts k, degree-put k c (n - 1) d, v.0);
        free = λ k e. ground (
          arith,
          e,
          has-queued k n c queue,
          r.free k,
          degree-put k c (n - 1) d,
          same_degree k c d,
        );
        fresh = λ k e. queued-fresh k n c queue order (r.fresh k) (h c (ground arith)) e;
        once = queued-NoDup n c queue r.once (r.free c);
      })

unmet-more : (before after ps : List ℕ) → unmet before ps ≡ 0 → unmet (before ++ after) ps ≡ 0
unmet-more before after [] h = refl
unmet-more before after (p ∷ ps) h =
    ground (arith, h, has-append p before after, unmet-more before after ps)

pub unmet-member :
    (order ps : List ℕ) (n : ℕ) → unmet order ps ≡ 0 → has n ps ≡ true → has n order ≡ true
unmet-member order [] n h e = ground (arith, e)
unmet-member order (p ∷ ps) n h e = elim (Bool-cases (p == n)) [
  | inl hit ↦
      let same : p ≡ n = ground (arith, hit) in
      let there : has p order ≡ true = ground (arith, h) in rw (← same) there
  | inr miss ↦ unmet-member order ps n (ground (arith, h)) (ground (arith, e, miss))
]

pub Follows-snoc :
    (g : Dag) (before order : List ℕ) (n : ℕ)
    → Follows g before order
    → unmet (before ++ order) (items n g.parents) ≡ 0
    → Follows g before (order ++ n ∷ [])
Follows-snoc g before [] n f h = (rw (← append-nil before) h, tt)
Follows-snoc g before (x ∷ order) n f h =
    (f.0, Follows-snoc g (before ++ x ∷ []) order n f.1 (rw (append_assoc before (x ∷ []) order) h))

Follows-member :
    (g : Dag) (before order : List ℕ) (c : ℕ)
    → Follows g before order
    → has c order ≡ true
    → unmet (before ++ order) (items c g.parents) ≡ 0
Follows-member g before [] c f h = ground (arith, h)
Follows-member g before (x ∷ order) c f h = elim (Bool-cases (x == c)) [
  | inl hit ↦
      let same : x ≡ c = ground (arith, hit) in
      subst (λ i. unmet (before ++ x ∷ order) (items i g.parents) ≡ 0) same
        (unmet-more before (x ∷ order) (items x g.parents) f.0)
  | inr miss ↦
      let rest = Follows-member g (before ++ x ∷ []) order c f.1 (ground (arith, h, miss)) in
      rw (← append_assoc before (x ∷ []) order) rest
]

-- A node taken off the queue is ready: it is new, and its parents are all in the order.
pub next_node :
    (g : Dag) (d : List (ℕ × ℕ)) (n : ℕ) (queue order : List ℕ)
    → Ready g [] d (n ∷ queue) order
    → (has n order ≡ false) × (unmet order (items n g.parents) ≡ 0)
next_node g d n queue order r =
    let head : has n (n ∷ queue) ≡ true = ground arith in
    (r.fresh n head, ground (arith, r.counts n, r.free n head))

-- No child of that node is in the order, not even with the node appended.
pub new_children :
    (g : Dag) (n : ℕ) (order : List ℕ)
    → IsDag g
    → Follows g [] order
    → has n order ≡ false
    → (c : ℕ) → has c (items n g.children) ≡ true
    → has c (order ++ n ∷ []) ≡ false
new_children g n order v f new c h =
    let joined = has-append c order (n ∷ []) in
    let looped : (n == c) ≡ true → has c (items c g.children) ≡ true = λ hit.
      let same : n ≡ c = ground (arith, hit) in
      subst (λ i. has c (items i g.children) ≡ true) same h in
    let apart : (n == c) ≡ false = ground (arith, looped, v.loop_free c) in
    let late : has c order ≡ true → has n order ≡ true = λ old.
      unmet-member order (items c g.parents) n (Follows-member g [] order c f old)
        (sym (v.mirror n c) ∙ h) in
    ground (arith, joined, apart, late, new)

appended_fresh :
    (c n : ℕ) (queue order : List ℕ)
    → has n queue ≡ false
    → has c queue ≡ true
    → has c order ≡ false
    → has c (order ++ n ∷ []) ≡ false
appended_fresh c n queue order away there new = elim (Bool-cases (n == c)) [
  | inl hit ↦
      let same : n ≡ c = ground (arith, hit) in
      let gone : has c queue ≡ false = rw (← same) away in absurd (ground (arith, gone, there))
  | inr miss ↦ ground (arith, miss, new, has-append c order (n ∷ []))
]

pub taken-Ready :
    (g : Dag) (d : List (ℕ × ℕ)) (n : ℕ) (queue order : List ℕ)
    → IsDag g
    → Ready g [] d (n ∷ queue) order
    → has n order ≡ false
    → Ready g (items n g.children) d queue (order ++ n ∷ [])
taken-Ready g d n queue order v r new = record {
  counts = λ c. ground (
    arith,
    r.counts c,
    unmet-snoc order (items c g.parents) n (v.parents_once c) new,
    v.mirror n c,
  );
  free = λ c h. r.free c (ground (arith, h));
  fresh = λ c h. appended_fresh c n queue order r.once.0 h (r.fresh c (ground (arith, h)));
  once = r.once.1;
}

kahn-Follows :
    (fuel : ℕ) (g : Dag) (d : List (ℕ × ℕ)) (queue order o : List ℕ)
    → IsDag g
    → Ready g [] d queue order
    → Follows g [] order
    → NoDup order
    → kahn fuel g d queue order ≡ some o
    → Follows g [] o × NoDup o
unfolding kahn
kahn-Follows zero g d queue order o v r f u e = absurd (ground (arith, e))
kahn-Follows (suc fuel) g d [] order o v r f u e =
    let same : order ≡ o = cc in (subst (Follows g []) same f, subst NoDup same u)
kahn-Follows (suc fuel) g d (n ∷ queue) order o v r f u e =
    let (new, done) = next_node g d n queue order r in
    let (d', queue') = visit (items n g.children) d queue in
    kahn-Follows fuel g d' queue' (order ++ n ∷ []) o v
      (visit-Ready g (items n g.children) d queue (order ++ n ∷ []) (v.children_once n)
        (new_children g n order v f new) (taken-Ready g d n queue order v r new))
      (Follows-snoc g [] order n f done) (NoDup-snoc n order u new) e

-- At the start the degrees count all parents, and the nodes without one are queued.
pub lookup-degrees :
    (c : ℕ) (d : List (ℕ × List ℕ))
    → degree c (map (λ (n, ps). (n, length ps)) d) ≡ length (items c d)
lookup-degrees c [] = refl
lookup-degrees c ((n, ps) ∷ d) = ground (arith, lookup-degrees c d)

pub unmet-nil : (ps : List ℕ) → unmet [] ps ≡ length ps
unmet-nil [] = refl
unmet-nil (p ∷ ps) = ap suc (unmet-nil ps)

pub has-roots :
    (c : ℕ) (d : List (ℕ × ℕ)) (ns : List ℕ)
    → has c (roots_of d ns) ≡ true
    → (degree c d ≡ 0) × (has c ns ≡ true)
has-roots c d [] h = ground (arith, h)
has-roots c d (n ∷ ns) h = elim (Bool-cases (n == c)) [
  | inl hit ↦
      let same : n ≡ c = ground (arith, hit) in
      ground (arith, hit, h, ap (λ i. degree i d) same, has-roots c d ns)
  | inr miss ↦ ground (arith, miss, h, has-roots c d ns)
]

pub roots-NoDup : (d : List (ℕ × ℕ)) (ns : List ℕ) → NoDup ns → NoDup (roots_of d ns)
roots-NoDup d [] v = tt
roots-NoDup d (n ∷ ns) v = ground (arith, v.0, roots-NoDup d ns v.1, has-roots n d ns)

pub lookup-has : (k : ℕ) (d : List (ℕ × List ℕ)) → lookup k d ≡ none → has k (keys d) ≡ false
lookup-has k [] h = refl
lookup-has k ((n, ps) ∷ d) h = ground (arith, h, lookup-has k d)

pub keys-NoDup : (d : List (ℕ × List ℕ)) → Distinct d → NoDup (keys d)
keys-NoDup [] v = tt
keys-NoDup ((n, ps) ∷ d) v = (lookup-has n d v.0, keys-NoDup d v.1)

pub start-Ready :
    (g : Dag) → IsDag g → Ready g [] (in_degrees g) (roots_of (in_degrees g) (nodes g)) []
unfolding in_degrees
start-Ready g v =
    let d = in_degrees g in
    record {
      counts = λ c. ground (arith, lookup-degrees c g.parents, unmet-nil (items c g.parents));
      free = λ c h. (has-roots c d (nodes g) h).0;
      fresh = λ c h. refl;
      once = roots-NoDup d (nodes g) (keys-NoDup g.children v.distinct_children);
    }

-- On a well-formed graph the order that Kahn's loop builds holds no node twice and puts each node
-- after all its parents.
pub kahn_order-Follows :
    (g : Dag) (o : List ℕ) → IsDag g → kahn_order g ≡ some o → Follows g [] o × NoDup o
unfolding kahn_order in_degrees
kahn_order-Follows g o v e =
    let d = map (λ (n, ps). (n, length ps)) g.parents in
    kahn-Follows (length g.children + 1) g d (roots_of d (nodes g)) [] o v (start-Ready g v) tt tt e
