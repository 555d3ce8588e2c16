-- ===== src/Workflows/Publish.antt =====
-- The row that publishing a workflow adds, and that the new version is the one a name stands for.
use distributed_job_orchestr.Common.{
  ℕ, suc, ◌+◌, ◌<◌, ◌≡◌, refl, ap, subst, ◌∙◌, max, true, false, List, [], ◌∷◌, ◌++◌, Option, some,
  arith, ◌&&◌, ◌==◌, length, any, leb, length-append, Bool-cases, inl, inr,
}
use distributed_job_orchestr.Common.Text.{Text, text_eq}
use distributed_job_orchestr.Queue.Rows.{TaskDependency}
use distributed_job_orchestr.Workflows.{
  TaskSpec, Workflow, Catalog, integrity_error, conflict_error, Result, ok, err, validate,
  max_version, next_version, task_rows, dependency_rows, is_taken, is_refused, repeats_edge,
  insert_workflow, grown, create, newer, get_latest, get_version,
}
use distributed_job_orchestr.Workflows.Valid.{bind_ok, raise_if_ok, IsValid, validate-IsValid}

pub text_eq_refl : (t : Text) → text_eq t t ≡ true
text_eq_refl [] = refl
text_eq_refl (c ∷ t) = ground (arith, text_eq_refl t)

-- The row that `create` adds.
abbrev pub new_workflow : ℕ → ℕ → List Workflow → Text → Option Text → Workflow
new_workflow id now seen name description = record {
  id = id;
  name = name;
  version = next_version name seen;
  description = description;
  created_at = now;
}

get_version-snoc :
    (w : Workflow) (ws : List Workflow)
    → is_taken w.name w.version ws ≡ false
    → get_version w.name w.version (ws ++ w ∷ []) ≡ some w
unfolding get_version
get_version-snoc w [] h = ground (arith, text_eq_refl w.name)
get_version-snoc w (v ∷ ws) h = ground (arith, h, get_version-snoc w ws)

get_latest-snoc :
    (w : Workflow) (ws : List Workflow)
    → max_version w.name ws < w.version
    → get_latest w.name (ws ++ w ∷ []) ≡ some w
unfolding get_latest
get_latest-snoc w [] h = ground (arith, text_eq_refl w.name)
get_latest-snoc w (v ∷ ws) h = elim (Bool-cases (text_eq v.name w.name)) [
  | inl hit ↦
      let both : max v.version (max_version w.name ws) < w.version = ground (arith, h, hit) in
      let rest = get_latest-snoc w ws (omega (arith, both)) in
      let older : leb w.version v.version ≡ false = ground (arith, both) in
      rw (hit, rest, newer, older) refl
  | inr miss ↦ rw miss (get_latest-snoc w ws (ground (arith, h, miss)))
]

-- What a successful call has done.
pub record Published (id now : ℕ) (seen : List Workflow) (name : Text) (tasks : List TaskSpec)
    (description : Option Text) (c : Catalog) (w : Workflow) (c' : Catalog) : Type 0 where
  pub order : List ℕ
  pub valid : IsValid tasks order
  pub row : w ≡ new_workflow id now seen name description
  pub resolved : get_version name w.version c'.workflows ≡ some w
  pub latest : seen ≡ c.workflows → get_latest name c'.workflows ≡ some w
  pub tasks_added : length c'.tables.tasks ≡ length c.tables.tasks + length tasks
  pub others_kept : (c'.tables.runs ≡ c.tables.runs) × (c'.tables.task_runs ≡ c.tables.task_runs)

length-task_rows :
    (id : ℕ) (fresh : Text → ℕ) (tasks : List TaskSpec)
    → length (task_rows id fresh tasks) ≡ length tasks
length-task_rows id fresh [] = refl
length-task_rows id fresh (t ∷ tasks) = ap suc (length-task_rows id fresh tasks)

next_version_over :
    (name : Text) (seen ws : List Workflow)
    → seen ≡ ws
    → max_version name ws < next_version name seen
unfolding next_version
next_version_over name seen ws same = let at = ap (max_version name) same in omega (arith, at)

ok_pairs :
    {A B : Type 0} (p q : A × B)
    → ◌≡◌ {A = Result (A × B)} (ok p) (ok q)
    → (p.0 ≡ q.0) × (p.1 ≡ q.1)
ok_pairs p q h = let both : p ≡ q = cc in (ap (λ r. r.0) both, ap (λ r. r.1) both)

-- A successful insertion has passed the unique constraint, and has added the rows.
pub insert_workflow_lem :
    (fresh : Text → ℕ) (v : Workflow) (tasks : List TaskSpec) (c : Catalog) (w : Workflow)
    (c' : Catalog)
    → insert_workflow fresh v tasks c ≡ ok (w, c')
    → (is_taken v.name v.version c.workflows ≡ false)
      × (v ≡ w)
      × ((edges : List TaskDependency) × (dependency_rows (task_rows v.id fresh tasks) tasks
            ≡ ok edges)
          × (grown c v (task_rows v.id fresh tasks) edges ≡ c'))
unfolding insert_workflow
insert_workflow_lem fresh v tasks c w c' h =
    let rows = task_rows v.id fresh tasks in
    let (untaken, h1) =
      raise_if_ok (is_taken v.name v.version c.workflows) integrity_error _ (w, c') h in
    let (allowed, h2) = raise_if_ok (any is_refused rows) integrity_error _ (w, c') h1 in
    let (edges, made, h3) = bind_ok (dependency_rows rows tasks) _ (w, c') h2 in
    let (once, h4) =
      raise_if_ok (repeats_edge edges) conflict_error (ok (v, grown c v rows edges)) (w, c') h3 in
    let (same_w, same_c) = ok_pairs (v, grown c v rows edges) (w, c') h4 in
    (untaken, same_w, (edges, made, same_c))

-- A call of `create` that succeeds has valid tasks: at least one, with distinct keys, that depend
-- only on each other, have policies that can be built, and form a graph with an order of its
-- nodes. It adds a row with the next version of the name, which `get_version` finds; the tables
-- get a row for each task, and the runs stay. When the version was read from the table as it still
-- is, `get_latest` gives the new row for the name.
pub create-Published :
    (id : ℕ) (fresh : Text → ℕ) (now : ℕ) (seen : List Workflow) (name : Text)
    (tasks : List TaskSpec) (description : Option Text) (c : Catalog) (w : Workflow) (c' : Catalog)
    → create id fresh now seen name tasks description c ≡ ok (w, c')
    → Published id now seen name tasks description c w c'
unfolding create
create-Published id fresh now seen name tasks description c w c' h =
    let v = new_workflow id now seen name description in
    let rows = task_rows id fresh tasks in
    let (order, valid, h1) =
      bind_ok (validate tasks) (λ order. insert_workflow fresh v tasks c) (w, c') h in
    let (untaken, same_w, (edges, made, same_c)) = insert_workflow_lem fresh v tasks c w c' h1 in
    let p : Published id now seen name tasks description c v (grown c v rows edges) = record {
      order = order;
      valid = validate-IsValid tasks order valid;
      row = refl;
      resolved = get_version-snoc v c.workflows untaken;
      latest = λ same. get_latest-snoc v c.workflows (next_version_over name seen c.workflows same);
      tasks_added =
          length-append c.tables.tasks rows
          ∙ ap (λ n. length c.tables.tasks + n) (length-task_rows id fresh tasks);
      others_kept = (refl, refl);
    } in
    subst (λ x. Published id now seen name tasks description c x c') same_w
      (subst (Published id now seen name tasks description c v) same_c p)

refused_taken :
    (id : ℕ) (fresh : Text → ℕ) (now : ℕ) (seen : List Workflow) (name : Text)
    (tasks : List TaskSpec) (order : List ℕ) (description : Option Text) (c : Catalog)
    → validate tasks ≡ ok order
    → is_taken name (next_version name seen) c.workflows ≡ true
    → create id fresh now seen name tasks description c ≡ err integrity_error
unfolding create insert_workflow
refused_taken id fresh now seen name tasks order description c h taken =
    rw (create, h, insert_workflow, taken) refl

get_version-is_taken :
    (name : Text) (version : ℕ) (ws : List Workflow) {w : Workflow}
    → get_version name version ws ≡ some w
    → is_taken name version ws ≡ true
unfolding get_version
get_version-is_taken name version [] h = absurd (ground (arith, h))
get_version-is_taken name version (v ∷ ws) h =
    elim (Bool-cases (text_eq v.name name && v.version == version)) [
      | inl hit ↦ rw hit refl
      | inr miss ↦ rw miss (get_version-is_taken name version ws (rw miss at h))
    ]

-- Two calls publish the same name and have read its version from the same rows. When the first one
-- has succeeded, the second one, on the tables that the first has left, ends in an IntegrityError,
-- whatever valid tasks it brings: not in the ConflictError that the method promises.
pub create-race :
    (id id' : ℕ) (fresh fresh' : Text → ℕ) (now now' : ℕ) (seen : List Workflow) (name : Text)
    (tasks tasks' : List TaskSpec) (order : List ℕ) (description description' : Option Text)
    (c c' : Catalog) (w : Workflow)
    → create id fresh now seen name tasks description c ≡ ok (w, c')
    → validate tasks' ≡ ok order
    → create id' fresh' now' seen name tasks' description' c' ≡ err integrity_error
create-race id id' fresh fresh' now now' seen name tasks tasks' order description description' c c'
      w first valid =
    let p = create-Published id fresh now seen name tasks description c w c' first in
    let at : w.version ≡ next_version name seen = ap (λ (x : Workflow). x.version) p.row in
    refused_taken id' fresh' now' seen name tasks' order description' c' valid (
      subst (λ n. is_taken name n c'.workflows ≡ true) at
        (get_version-is_taken name w.version c'.workflows p.resolved))
