-- ===== src/Workflows/Edges.antt =====
-- The rows of the dependencies, and reading them back with the join.
use distributed_job_orchestr.Common.{
  ℕ, ◌≡◌, refl, sym, ap, subst, ◌∙◌, Bool, true, false, ◌||◌, List, [], ◌∷◌, ◌++◌, map, Option,
  none, some, All, arith, any, ◌==◌, Bool-cases, inl, inr,
}
use distributed_job_orchestr.Common.Text.{Text, text_eq}
use distributed_job_orchestr.Queue.Rows.{Task, TaskDependency}
use distributed_job_orchestr.Workflows.{
  TaskSpec, ok, is_in, keys_of, task_rows, id_of, parent_rows, dependency_rows, find_task,
}

pub text_eq_same : (s t : Text) → text_eq s t ≡ true → s ≡ t
text_eq_same [] [] h = refl
text_eq_same [] (b ∷ t) h = absurd (ground (arith, h))
text_eq_same (a ∷ s) [] h = absurd (ground (arith, h))
text_eq_same (a ∷ s) (b ∷ t) h =
    let head : a ≡ b = ground (arith, h) in
    let tail : s ≡ t = text_eq_same s t (ground (arith, h)) in
    ap (λ c. c ∷ s) head ∙ ap (λ l. b ∷ l) tail

-- The pairs of a task and one of its parents, in the order of the definition.
abbrev pub parents_with : Text → List Text → List (Text × Text)
parents_with child ps = map (λ p. (child, p)) ps

abbrev pub pairs_of : List TaskSpec → List (Text × Text)
pairs_of [] = []
pairs_of (t ∷ tasks) = parents_with t.key t.depends_on ++ pairs_of tasks

abbrev pub edges_of : (Text → ℕ) → List (Text × Text) → List TaskDependency
edges_of fresh [] = []
edges_of fresh ((child, parent) ∷ pairs) =
    record { parent_task_id = fresh parent; child_task_id = fresh child } ∷ edges_of fresh pairs

edges_of-append :
    (fresh : Text → ℕ) (xs ys : List (Text × Text))
    → edges_of fresh (xs ++ ys) ≡ edges_of fresh xs ++ edges_of fresh ys
edges_of-append fresh [] ys = refl
edges_of-append fresh ((child, parent) ∷ xs) ys =
    ap (λ l. record { parent_task_id = fresh parent; child_task_id = fresh child } ∷ l)
      (edges_of-append fresh xs ys)

-- Every key has its row, with the new UUID.
id_of-task_rows :
    (id : ℕ) (fresh : Text → ℕ) (k : Text) (tasks : List TaskSpec)
    → is_in k (keys_of tasks) ≡ true
    → id_of k (task_rows id fresh tasks) ≡ some (fresh k)
id_of-task_rows id fresh k [] h = absurd (ground (arith, h))
id_of-task_rows id fresh k (t ∷ tasks) h = elim (Bool-cases (text_eq t.key k)) [
  | inl hit ↦ rw hit (ap (λ j. some (fresh j)) (text_eq_same t.key k hit))
  | inr miss ↦ rw miss (id_of-task_rows id fresh k tasks (ground (arith, h, miss)))
]

parent_rows-edges :
    (id : ℕ) (fresh : Text → ℕ) (all : List TaskSpec) (child : Text) (ps : List Text)
    → is_in child (keys_of all) ≡ true
    → All (λ p. is_in p (keys_of all) ≡ true) ps
    → parent_rows (task_rows id fresh all) child ps ≡ ok (edges_of fresh (parents_with child ps))
unfolding parent_rows
parent_rows-edges id fresh all child [] c h = refl
parent_rows-edges id fresh all child (p ∷ ps) c h =
    rw
      (
        id_of-task_rows id fresh p all h.0,
        id_of-task_rows id fresh child all c,
        parent_rows-edges id fresh all child ps c h.1,
      )
      refl

-- The tasks of a part of the definition, with their parents, are tasks of the whole.
abbrev pub Within : List TaskSpec → TaskSpec → Type 0
Within all t =
    (is_in t.key (keys_of all) ≡ true) × All (λ p. is_in p (keys_of all) ≡ true) t.depends_on

pub dependency_rows-edges :
    (id : ℕ) (fresh : Text → ℕ) (all tasks : List TaskSpec)
    → All (Within all) tasks
    → dependency_rows (task_rows id fresh all) tasks ≡ ok (edges_of fresh (pairs_of tasks))
unfolding dependency_rows
dependency_rows-edges id fresh all [] h = refl
dependency_rows-edges id fresh all (t ∷ tasks) h =
    rw
      (
        parent_rows-edges id fresh all t.key t.depends_on h.0.0 h.0.1,
        dependency_rows-edges id fresh all tasks h.1,
        edges_of-append fresh (parents_with t.key t.depends_on) (pairs_of tasks),
      )
      refl

abbrev pub task_row : ℕ → (Text → ℕ) → TaskSpec → Task
task_row id fresh t = record {
  id = fresh t.key;
  workflow_id = id;
  key = t.key;
  executor = t.executor;
  params = t.params;
  retry_policy = t.retry_policy;
  priority = t.priority;
  timeout_seconds = t.timeout_seconds;
}

-- No UUID is given to two tasks.
abbrev pub repeats_id : List ℕ → Bool
repeats_id [] = false
repeats_id (i ∷ is) = any (λ j. j == i) is || repeats_id is

is_in-id :
    (fresh : Text → ℕ) (k : Text) (tasks : List TaskSpec)
    → is_in k (keys_of tasks) ≡ true
    → any (λ j. j == fresh k) (map fresh (keys_of tasks)) ≡ true
is_in-id fresh k [] h = absurd (ground (arith, h))
is_in-id fresh k (t ∷ tasks) h = elim (Bool-cases (text_eq t.key k)) [
  | inl hit ↦ let same = ap fresh (text_eq_same t.key k hit) in ground (arith, same)
  | inr miss ↦ let rest = is_in-id fresh k tasks (ground (arith, h, miss)) in ground (arith, rest)
]

-- The row of a key among the new rows.
abbrev pub Found : ℕ → Text → Option Task → Type 0
Found id k r = (t : Task) × (r ≡ some t) × (t.workflow_id ≡ id) × (t.key ≡ k)

pub find_task-task_rows :
    (id : ℕ) (fresh : Text → ℕ) (k : Text) (tasks : List TaskSpec)
    → repeats_id (map fresh (keys_of tasks)) ≡ false
    → is_in k (keys_of tasks) ≡ true
    → Found id k (find_task (fresh k) (task_rows id fresh tasks))
find_task-task_rows id fresh k [] apart h = absurd (ground (arith, h))
find_task-task_rows id fresh k (t ∷ tasks) apart h = elim (Bool-cases (text_eq t.key k)) [
  | inl hit ↦
      let same : t.key ≡ k = text_eq_same t.key k hit in
      let at : (fresh t.key == fresh k) ≡ true = let e = ap fresh same in ground (arith, e) in
      (task_row id fresh t, rw at refl, refl, same)
  | inr miss ↦
      let later : is_in k (keys_of tasks) ≡ true = ground (arith, h, miss) in
      let used = is_in-id fresh k tasks later in
      let (r, at, of_id, key) =
        find_task-task_rows id fresh k tasks (ground (arith, apart)) later in
      elim (Bool-cases (fresh t.key == fresh k)) [
        | inl hit ↦
            let e : fresh t.key ≡ fresh k = ground (arith, hit) in
            let twice : any (λ j. j == fresh t.key) (map fresh (keys_of tasks)) ≡ true =
              subst (λ i. any (λ j. j == i) (map fresh (keys_of tasks)) ≡ true) (sym e) used in
            absurd (ground (arith, apart, twice))
        | inr other ↦ (r, rw other at, of_id, key)
      ]
]

pub find_task-append :
    (i : ℕ) (old rows : List Task)
    → find_task i old ≡ none
    → find_task i (old ++ rows) ≡ find_task i rows
find_task-append i [] rows h = refl
find_task-append i (t ∷ old) rows h = elim (Bool-cases (t.id == i)) [
  | inl hit ↦ absurd (ground (arith, h, hit))
  | inr miss ↦ rw miss (find_task-append i old rows (ground (arith, h, miss)))
]

pub find_task-older :
    (i : ℕ) (t : Task) (old rows : List Task)
    → find_task i old ≡ some t
    → find_task i (old ++ rows) ≡ some t
find_task-older i t [] rows h = absurd (ground (arith, h))
find_task-older i t (x ∷ old) rows h = elim (Bool-cases (x.id == i)) [
  | inl hit ↦ rw hit (rw hit at h)
  | inr miss ↦ rw miss (find_task-older i t old rows (rw miss at h))
]
