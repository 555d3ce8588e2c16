-- ===== src/Workflows/Restored.antt =====
-- The dependencies that `create` has stored, as `dependencies` gives them back.
use mathlib.Core.List.{Permᴰ}
use distributed_job_orchestr.Common.{
  ℕ, ◌≡◌, refl, sym, ap, subst, ◌∙◌, true, false, List, [], ◌∷◌, ◌++◌, map, Option, none, some, All,
  arith, ◌==◌, Bool-cases, inl, inr,
}
use distributed_job_orchestr.Common.Text.{Text, text_eq}
use distributed_job_orchestr.Queue.Rows.{Task, TaskDependency}
use distributed_job_orchestr.Workflows.{
  RowOrder, keys_in, has_duplicates, TaskSpec, Workflow, Catalog, Result, ok, is_in, keys_of,
  task_rows, dependency_rows, find_task, joined, key_pairs, append_parents, dependencies, create,
  validate, grown, insert_workflow,
}
use distributed_job_orchestr.Workflows.Publish.{text_eq_refl, new_workflow, insert_workflow_lem}
use distributed_job_orchestr.Workflows.Valid.{bind_ok, validate-IsValid, Checked, IsValid}
use distributed_job_orchestr.Workflows.Edges.{
  text_eq_same, parents_with, pairs_of, edges_of, Within, Found, dependency_rows-edges, repeats_id,
  find_task-task_rows, find_task-append, find_task-older,
}
use distributed_job_orchestr.Workflows.Grouped.{
  keys_in-task_rows, keys_in-append, append_parents-gather,
}
use distributed_job_orchestr.Workflows.Orders.{has_duplicates-perm, Restored, with_parents-Restored}

-- Both keys of the pair are keys of the definition.
abbrev Known : List TaskSpec → Text × Text → Type 0
Known all p = (is_in p.0 (keys_of all) ≡ true) × (is_in p.1 (keys_of all) ≡ true)

parents_with-Known :
    (all : List TaskSpec) (child : Text) (ps : List Text) (rest : List (Text × Text))
    → is_in child (keys_of all) ≡ true
    → All (λ p. is_in p (keys_of all) ≡ true) ps
    → All (Known all) rest
    → All (Known all) (parents_with child ps ++ rest)
parents_with-Known all child [] rest c h k = k
parents_with-Known all child (p ∷ ps) rest c h k =
    ((c, h.0), parents_with-Known all child ps rest c h.1 k)

pairs_of-Known :
    (all tasks : List TaskSpec) → All (Within all) tasks → All (Known all) (pairs_of tasks)
pairs_of-Known all [] h = tt
pairs_of-Known all (t ∷ tasks) h =
    parents_with-Known all t.key t.depends_on (pairs_of tasks) h.0.0 h.0.1
      (pairs_of-Known all tasks h.1)

-- The new edges join to their pairs of keys.
joined-Found :
    (id : ℕ) (j k : Text) (child parent : Option Task)
    → Found id j child
    → Found id k parent
    → joined id child parent ≡ some (j, k)
joined-Found id j k child parent (t, at_t, of_id, key_t) (u, at_u, _, key_u) =
    rw (at_t, at_u, joined, of_id, key_t, key_u)
      (let same : (id == id) ≡ true = ground arith in rw same refl)

-- The edges before the call are of other workflows.
abbrev pub OfOther : ℕ → List Task → TaskDependency → Type 0
OfOther id old d =
    (t : Task) × (find_task d.child_task_id old ≡ some t) × ((t.workflow_id == id) ≡ false)

joined-other :
    (id : ℕ) (t : Task) (child parent : Option Task)
    → child ≡ some t
    → (t.workflow_id == id) ≡ false
    → joined id child parent ≡ none
joined-other id t child none at other = rw at refl
joined-other id t child (some u) at other = rw (at, other) refl

key_pairs-other :
    (id : ℕ) (old rows : List Task) (ds es : List TaskDependency)
    → All (OfOther id old) ds
    → key_pairs id (old ++ rows) (ds ++ es) ≡ key_pairs id (old ++ rows) es
unfolding key_pairs
key_pairs-other id old rows [] es h = refl
key_pairs-other id old rows (d ∷ ds) es ((t, at, other), h) =
    rw
      (joined-other id t (find_task d.child_task_id (old ++ rows))
        (find_task d.parent_task_id (old ++ rows)) (find_task-older d.child_task_id t old rows at)
        other)
      (key_pairs-other id old rows ds es h)

module _ (id : ℕ) (fresh : Text → ℕ) (old : List Task) (all : List TaskSpec)
    (apart : repeats_id (map fresh (keys_of all)) ≡ false)
    (unused : (k : Text) → is_in k (keys_of all) ≡ true → find_task (fresh k) old ≡ none) where
  found :
      (k : Text)
      → is_in k (keys_of all) ≡ true
      → Found id k (find_task (fresh k) (old ++ task_rows id fresh all))
  found k h =
      subst (Found id k)
        (sym (find_task-append (fresh k) old (task_rows id fresh all) (unused k h)))
        (find_task-task_rows id fresh k all apart h)

  key_pairs-edges_of :
      (pairs : List (Text × Text))
      → All (Known all) pairs
      → key_pairs id (old ++ task_rows id fresh all) (edges_of fresh pairs) ≡ pairs
  unfolding key_pairs
  key_pairs-edges_of [] h = refl
  key_pairs-edges_of ((j, k) ∷ pairs) ((c, p), h) =
      let rows = old ++ task_rows id fresh all in
      rw
        (
          joined-Found id j k (find_task (fresh j) rows) (find_task (fresh k) rows) (found j c)
              (found k p),
          key_pairs-edges_of pairs h,
        )
        refl

-- The tasks that `create` has checked are within the definition.
is_in-later :
    (k : Text) (ks : List Text) (tasks : List TaskSpec)
    → All (λ (t : TaskSpec). is_in t.key ks ≡ true) tasks
    → All (λ (t : TaskSpec). is_in t.key (k ∷ ks) ≡ true) tasks
is_in-later k ks [] h = tt
is_in-later k ks (t ∷ tasks) (i, h) = (ground (arith, i), is_in-later k ks tasks h)

is_in-keys_of :
    (tasks : List TaskSpec) → All (λ (t : TaskSpec). is_in t.key (keys_of tasks) ≡ true) tasks
is_in-keys_of [] = tt
is_in-keys_of (t ∷ tasks) = (
  ground (arith, text_eq_refl t.key),
  is_in-later t.key (keys_of tasks) tasks (is_in-keys_of tasks),
)

Checked-Within :
    (all tasks : List TaskSpec)
    → All (Checked (keys_of all)) tasks
    → All (λ (t : TaskSpec). is_in t.key (keys_of all) ≡ true) tasks
    → All (Within all) tasks
Checked-Within all [] h k = tt
Checked-Within all (t ∷ tasks) (c, h) (i, k) = ((i, c.0), Checked-Within all tasks h k)

-- What holds of all the keys holds of each.
at_key : (P : Text → Type 0) (k : Text) (ks : List Text) → All P ks → is_in k ks ≡ true → P k
at_key P k [] h i = absurd (ground (arith, i))
at_key P k (j ∷ ks) (p, h) i = elim (Bool-cases (text_eq j k)) [
  | inl hit ↦ subst P (text_eq_same j k hit) p
  | inr miss ↦ at_key P k ks h (ground (arith, i, miss))
]

ok_same : {A : Type 0} (x y : A) → ◌≡◌ {A = Result A} (ok x) (ok y) → x ≡ y
ok_same x y h = cc

-- The database gives all the rows of a query, in an order of its own.
pub record IsRowOrder (o : RowOrder) : Type 0 where
  pub all_keys : (ks : List Text) → Permᴰ ks (o.keys ks)
  pub all_pairs : (ps : List (Text × Text)) → Permᴰ ps (o.pairs ps)

-- The tables of a successful insertion give the pairs and the keys of the valid tasks.
insert_workflow-dependencies :
    (o : RowOrder) (fresh : Text → ℕ) (v : Workflow) (tasks : List TaskSpec) (order : List ℕ)
    (c : Catalog) (edges : List TaskDependency)
    → IsRowOrder o
    → IsValid tasks order
    → dependency_rows (task_rows v.id fresh tasks) tasks ≡ ok edges
    → repeats_id (map fresh (keys_of tasks)) ≡ false
    → All (λ k. find_task (fresh k) c.tables.tasks ≡ none) (keys_of tasks)
    → All (λ (t : Task). (t.workflow_id == v.id) ≡ false) c.tables.tasks
    → All (OfOther v.id c.tables.tasks) c.tables.dependencies
    → Restored tasks (dependencies o v.id (grown c v (task_rows v.id fresh tasks) edges).tables)
unfolding dependencies
insert_workflow-dependencies o fresh v tasks order c edges every valid made apart unused others
      older =
    let inside = is_in-keys_of tasks in
    let within = Checked-Within tasks tasks valid.checked inside in
    let same : edges_of fresh (pairs_of tasks) ≡ edges =
      ok_same (edges_of fresh (pairs_of tasks)) edges
        (sym (dependency_rows-edges v.id fresh tasks tasks within) ∙ made) in
    let rows = c.tables.tasks ++ task_rows v.id fresh tasks in
    let pairs : key_pairs v.id rows (c.tables.dependencies ++ edges) ≡ pairs_of tasks =
      key_pairs-other v.id c.tables.tasks (task_rows v.id fresh tasks) c.tables.dependencies edges
        older
      ∙ ap (key_pairs v.id rows) (sym same)
      ∙ key_pairs-edges_of v.id fresh c.tables.tasks tasks apart
          (λ k i.
            at_key (λ k. find_task (fresh k) c.tables.tasks ≡ none) k (keys_of tasks) unused i)
          (pairs_of tasks) (pairs_of-Known tasks tasks within) in
    let keys : keys_in v.id rows ≡ keys_of tasks =
      keys_in-append v.id c.tables.tasks (task_rows v.id fresh tasks) others
      ∙ keys_in-task_rows v.id fresh tasks in
    let moved = every.all_keys (keys_of tasks) in
    let once : has_duplicates (o.keys (keys_of tasks)) ≡ false =
      sym (has_duplicates-perm moved) ∙ valid.distinct in
    subst
      (λ ps.
        Restored tasks
          (append_parents (o.pairs ps) (map (λ k. (k, [])) (o.keys (keys_in v.id rows)))))
      (sym pairs)
      (subst
        (λ ks.
          Restored tasks
            (append_parents (o.pairs (pairs_of tasks)) (map (λ k. (k, [])) (o.keys ks))))
        (sym keys)
        (subst (Restored tasks)
          (sym (append_parents-gather (o.pairs (pairs_of tasks)) (o.keys (keys_of tasks)) once))
          (with_parents-Restored tasks (o.keys (keys_of tasks)) (o.pairs (pairs_of tasks))
            valid.distinct inside moved (every.all_pairs (pairs_of tasks)))))

-- What `create` has stored, `dependencies` gives back, in whatever order the database returns the
-- rows of its two queries: each key of the definition once, with exactly its parents, up to the
-- order of the keys and of each list. The new UUIDs differ from each other and from the task ids of
-- the tables, the new workflow id is not of a task there, and the dependencies there are of tasks
-- there.
pub create-dependencies :
    (o : RowOrder) (id : ℕ) (fresh : Text → ℕ) (now : ℕ) (seen : List Workflow) (name : Text)
    (tasks : List TaskSpec) (description : Option Text) (c : Catalog) (w : Workflow) (c' : Catalog)
    → IsRowOrder o
    → create id fresh now seen name tasks description c ≡ ok (w, c')
    → repeats_id (map fresh (keys_of tasks)) ≡ false
    → All (λ k. find_task (fresh k) c.tables.tasks ≡ none) (keys_of tasks)
    → All (λ (t : Task). (t.workflow_id == id) ≡ false) c.tables.tasks
    → All (OfOther id c.tables.tasks) c.tables.dependencies
    → Restored tasks (dependencies o w.id c'.tables)
unfolding create
create-dependencies o id fresh now seen name tasks description c w c' every h apart unused others
      older =
    let v = new_workflow id now seen name description in
    let rows = task_rows id fresh tasks in
    let (order, valid, h1) =
      bind_ok (validate tasks) (λ order. insert_workflow fresh v tasks c) (w, c') h in
    let (untaken, same_w, (edges, made, same_c)) = insert_workflow_lem fresh v tasks c w c' h1 in
    subst (λ (x : Workflow). Restored tasks (dependencies o x.id c'.tables)) same_w
      (subst (λ (x : Catalog). Restored tasks (dependencies o id x.tables)) same_c
        (insert_workflow-dependencies o fresh v tasks order c edges every
          (validate-IsValid tasks order valid) made apart unused others older))
