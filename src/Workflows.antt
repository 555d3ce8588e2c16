-- ===== src/Workflows.antt =====
-- WorkflowRepository of db/repositories/workflows.py over the tables. `create` takes the new
-- UUIDs, the clock, and the rows of `workflows` as its query for the version saw them, which
-- another transaction may have added to since.
pub mod Valid
pub mod Publish
pub mod Edges
pub mod Grouped
pub mod Orders
pub mod Restored
mod Examples
use distributed_job_orchestr.Common.{
  ℕ, suc, ◌+◌, max, Bool, true, false, not, ◌&&◌, ◌||◌, List, [], ◌∷◌, ◌++◌, map, Option, none,
  some, any, leb, ◌==◌, if◌then◌else◌,
}
use distributed_job_orchestr.Common.Int.{ℤ}
use distributed_job_orchestr.Common.Text.{Text, text_eq}
use distributed_job_orchestr.Retry
use distributed_job_orchestr.Retry.Build.{Spec, build_policy}
use distributed_job_orchestr.Dag
use distributed_job_orchestr.Dag.{Dag, from_dependencies}
use distributed_job_orchestr.Dag.Cycle.{topological_order}
use distributed_job_orchestr.Queue.Rows.{Json, Task, TaskDependency, Store}
use distributed_job_orchestr.Queue.Monad.{select}
use distributed_job_orchestr.Pages.{Token, Page, list_page}

-- TaskSpec
pub record TaskSpec : Type 0 where
  pub key : Text
  pub executor : Text
  pub params : Json
  pub depends_on : List Text
  pub retry_policy : Spec
  pub priority : ℤ
  pub timeout_seconds : ℕ

-- Workflow
pub record Workflow : Type 0 where
  pub id : ℕ
  pub name : Text
  pub version : ℕ
  pub description : Option Text
  pub created_at : ℕ

-- The table of the workflows beside the others.
pub record Catalog : Type 0 where
  pub workflows : List Workflow
  pub tables : Store

-- What `create` raises: a ValueError, an exception of the retry policy or of the graph, the
-- IntegrityError of a constraint, a ConflictError, or a missing key.
pub data Error : Type 0 where
  value_error integrity_error conflict_error key_error : Error
  policy_error : Retry.Error → Error
  graph_error : Dag.Error → Error

pub data Result (A : Type 0) : Type 0 where
  ok : A → Result A
  err : Error → Result A

infixl 5 ◌>>=◌ ◌>>◌
abbrev pub ◌>>=◌ : {A B : Type 0} → Result A → (A → Result B) → Result B
err e >>= next = err e
ok value >>= next = next value

abbrev pub ◌>>◌ : {B : Type 0} → Result (Unit {0}) → Result B → Result B
first >> rest = first >>= λ _. rest

-- `if b: raise e`
abbrev pub raise_if : Bool → Error → Result (Unit {0})
raise_if raised e = if raised then err e else ok tt

abbrev pub is_in : Text → List Text → Bool
is_in t ts = any (λ u. text_eq u t) ts

abbrev pub is_none : {A : Type 0} → List A → Bool
is_none [] = true
is_none (x ∷ xs) = false

-- `keys.count(key) > 1` for one of the keys
abbrev pub has_duplicates : List Text → Bool
has_duplicates [] = false
has_duplicates (k ∷ ks) = is_in k ks || has_duplicates ks

abbrev pub keys_of : List TaskSpec → List Text
keys_of tasks = map (λ t. t.key) tasks

-- `retry_policy or None`
abbrev pub or_none : Spec → Option Spec
or_none [] = none
or_none (x ∷ s) = some (x ∷ s)

abbrev pub from_policy : {A : Type 0} → Retry.Result A → Result (Unit {0})
from_policy (Retry.ok p) = ok tt
from_policy (Retry.err e) = err (policy_error e)

abbrev pub from_graph : {A : Type 0} → Dag.Result A → Result A
from_graph (Dag.ok g) = ok g
from_graph (Dag.err e) = err (graph_error e)

-- the loop over the tasks that checks their dependencies and their policies
unfoldable pub check_tasks : List Text → List TaskSpec → Result (Unit {0})
check_tasks known [] = ok tt
check_tasks known (t ∷ tasks) =
    let rest = check_tasks known tasks in
    do
      raise_if (any (λ d. not (is_in d known)) t.depends_on) value_error
      from_policy (build_policy (or_none t.retry_policy))
      rest

-- A node of the graph is the place of its key in the list of the keys.
abbrev pub number_of : Text → List Text → ℕ
number_of t [] = 0
number_of t (k ∷ ks) = let later = suc (number_of t ks) in if text_eq k t then 0 else later

-- {task.key: list(task.depends_on) for task in tasks}
abbrev pub graph_of : List Text → List TaskSpec → List (ℕ × List ℕ)
graph_of keys tasks =
    map (λ (t : TaskSpec). (number_of t.key keys, map (λ d. number_of d keys) t.depends_on)) tasks

-- the checks of create, up to the topological order
unfoldable pub validate : List TaskSpec → Result (List ℕ)
unfolding check_tasks
validate tasks = do
  raise_if (is_none tasks) value_error
  raise_if (has_duplicates (keys_of tasks)) value_error
  check_tasks (keys_of tasks) tasks
  graph ← from_graph (from_dependencies (graph_of (keys_of tasks) tasks))
  from_graph (topological_order graph)

-- SELECT max(version) WHERE name = :name; NULL reads as 0.
abbrev pub max_version : Text → List Workflow → ℕ
max_version name [] = 0
max_version name (w ∷ ws) =
    let rest = max_version name ws in if text_eq w.name name then max w.version rest else rest

-- _next_version
unfoldable pub next_version : Text → List Workflow → ℕ
next_version name ws = max_version name ws + 1

-- the loop that makes the task rows; `fresh` gives the UUID of each key
abbrev pub task_rows : ℕ → (Text → ℕ) → List TaskSpec → List Task
task_rows workflow_id fresh tasks =
    map
      (λ (t : TaskSpec). record {
        id = fresh t.key;
        workflow_id = workflow_id;
        key = t.key;
        executor = t.executor;
        params = t.params;
        retry_policy = t.retry_policy;
        priority = t.priority;
        timeout_seconds = t.timeout_seconds;
      })
      tasks

-- by_key[key].id
abbrev pub id_of : Text → List Task → Option ℕ
id_of key [] = none
id_of key (r ∷ rows) = let rest = id_of key rows in if text_eq r.key key then some r.id else rest

abbrev pub dependency : Option ℕ → Option ℕ → Result TaskDependency
dependency (some parent) (some child) =
    ok (record { parent_task_id = parent; child_task_id = child })
dependency _ _ = err key_error

-- the two loops that make the dependency rows
unfoldable pub parent_rows : List Task → Text → List Text → Result (List TaskDependency)
parent_rows rows child [] = ok []
parent_rows rows child (p ∷ ps) = dependency (id_of p rows) (id_of child rows) >>= λ r.
    parent_rows rows child ps >>= λ rs. ok (r ∷ rs)

unfoldable pub dependency_rows : List Task → List TaskSpec → Result (List TaskDependency)
unfolding parent_rows
dependency_rows rows [] = ok []
dependency_rows rows (t ∷ tasks) = parent_rows rows t.key t.depends_on >>= λ first.
    dependency_rows rows tasks >>= λ rest. ok (first ++ rest)

-- the unique constraint on (name, version)
abbrev pub is_taken : Text → ℕ → List Workflow → Bool
is_taken name version ws = any (λ w. text_eq w.name name && w.version == version) ws

-- the CHECK constraints of `tasks`
abbrev pub is_refused : Task → Bool
is_refused r = r.timeout_seconds == 0 || is_none r.key

-- the primary key of `task_dependencies`
abbrev pub same_edge : TaskDependency → TaskDependency → Bool
same_edge d e = d.parent_task_id == e.parent_task_id && d.child_task_id == e.child_task_id

abbrev pub repeats_edge : List TaskDependency → Bool
repeats_edge [] = false
repeats_edge (d ∷ ds) = any (same_edge d) ds || repeats_edge ds

-- the tables with the new rows
abbrev pub grown : Catalog → Workflow → List Task → List TaskDependency → Catalog
grown c w rows edges = record {
  workflows = c.workflows ++ w ∷ [];
  tables = record c.tables {
    tasks = c.tables.tasks ++ rows;
    dependencies = c.tables.dependencies ++ edges;
  };
}

-- create: the insertions, each with its flush
unfoldable pub insert_workflow :
    (Text → ℕ) → Workflow → List TaskSpec → Catalog → Result (Workflow × Catalog)
unfolding dependency_rows
insert_workflow fresh w tasks c =
    let rows = task_rows w.id fresh tasks in
    do
      raise_if (is_taken w.name w.version c.workflows) integrity_error
      raise_if (any is_refused rows) integrity_error
      edges ← dependency_rows rows tasks
      raise_if (repeats_edge edges) conflict_error
      ok (w, grown c w rows edges)

-- create
unfoldable pub create :
    ℕ
    → (Text → ℕ)
    → ℕ
    → List Workflow
    → Text
    → List TaskSpec
    → Option Text
    → Catalog
    → Result (Workflow × Catalog)
unfolding validate next_version insert_workflow
create id fresh now seen name tasks description c = validate tasks >>= λ order.
    insert_workflow fresh
      (record {
        id = id;
        name = name;
        version = next_version name seen;
        description = description;
        created_at = now;
      })
      tasks c

-- ORDER BY version DESC LIMIT 1
abbrev pub newer : Workflow → Option Workflow → Option Workflow
newer w none = some w
newer w (some v) = if leb v.version w.version then some w else some v

-- get_latest
unfoldable pub get_latest : Text → List Workflow → Option Workflow
get_latest name [] = none
get_latest name (w ∷ ws) =
    let rest = get_latest name ws in if text_eq w.name name then newer w rest else rest

-- get_version
unfoldable pub get_version : Text → ℕ → List Workflow → Option Workflow
get_version name version [] = none
get_version name version (w ∷ ws) =
    let rest = get_version name version ws in
    if text_eq w.name name && w.version == version then some w else rest

abbrev pub find_task : ℕ → List Task → Option Task
find_task i [] = none
find_task i (t ∷ ts) = let rest = find_task i ts in if t.id == i then some t else rest

-- one row of the join: the child's key and the parent's, for the children of the workflow
abbrev pub joined : ℕ → Option Task → Option Task → Option (Text × Text)
joined workflow_id (some child) (some parent) =
    if child.workflow_id == workflow_id then some (child.key, parent.key) else none
joined workflow_id _ _ = none

abbrev pub prepend : {A : Type 0} → Option A → List A → List A
prepend none xs = xs
prepend (some x) xs = x ∷ xs

unfoldable pub key_pairs : ℕ → List Task → List TaskDependency → List (Text × Text)
key_pairs workflow_id tasks [] = []
key_pairs workflow_id tasks (d ∷ ds) =
    prepend
      (joined workflow_id (find_task d.child_task_id tasks) (find_task d.parent_task_id tasks))
      (key_pairs workflow_id tasks ds)

-- dependencies[child_key].append(parent_key); the key is there, since the child is of the workflow.
abbrev pub append_parent : Text → Text → List (Text × List Text) → List (Text × List Text)
append_parent child parent [] = []
append_parent child parent ((k, ps) ∷ d) =
    let rest = append_parent child parent d in
    if text_eq k child then (k, ps ++ parent ∷ []) ∷ d else (k, ps) ∷ rest

abbrev pub append_parents : List (Text × Text) → List (Text × List Text) → List (Text × List Text)
append_parents [] d = d
append_parents ((child, parent) ∷ rows) d = append_parents rows (append_parent child parent d)

-- SELECT key WHERE workflow_id = :workflow_id
abbrev pub keys_in : ℕ → List Task → List Text
keys_in workflow_id tasks =
    map (λ (t : Task). t.key) (select (λ (t : Task). t.workflow_id == workflow_id) tasks)

-- How the database orders the rows of the two queries of `dependencies`, which have no ORDER BY.
pub record RowOrder : Type 0 where
  pub keys : List Text → List Text
  pub pairs : List (Text × Text) → List (Text × Text)

-- dependencies
unfoldable pub dependencies : RowOrder → ℕ → Store → List (Text × List Text)
unfolding key_pairs
dependencies order workflow_id s =
    append_parents (order.pairs (key_pairs workflow_id s.tasks s.dependencies))
      (map (λ k. (k, [])) (order.keys (keys_in workflow_id s.tasks)))

-- list_page, on the rows of `workflows`
unfoldable pub list_workflows : ℕ → Option Token → List Workflow → Option (Page Workflow)
unfolding list_page
list_workflows limit token ws =
    list_page (λ w. record { created_at = w.created_at; id = w.id }) limit token ws
