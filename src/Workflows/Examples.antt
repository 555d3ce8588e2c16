-- ===== src/Workflows/Examples.antt =====
-- Publishing a build with three tasks, twice.
use mathlib.Core.List.Permᴰ
use distributed_job_orchestr.Common.{ℕ, ◌+◌, ◌≡◌, refl, List, [], ◌∷◌, none}
use distributed_job_orchestr.Common.Int.{pos}
use distributed_job_orchestr.Common.Text.{Text, codes}
use distributed_job_orchestr.Retry.Build.{build_policy}
use distributed_job_orchestr.Dag
use distributed_job_orchestr.Dag.{from_dependencies}
use distributed_job_orchestr.Dag.Cycle.{topological_order}
use distributed_job_orchestr.Workflows.{
  TaskSpec, Workflow, Catalog, integrity_error, conflict_error, graph_error, Result, ok, err,
  RowOrder, validate, create, dependencies,
}
use distributed_job_orchestr.Workflows.Edges.{task_row}
use distributed_job_orchestr.Workflows.Orders.{Restored}
use distributed_job_orchestr.Workflows.Restored.{IsRowOrder, create-dependencies}
use distributed_job_orchestr.Workflows.Publish.{Published, create-Published, create-race}

abbrev spec : Text → List Text → TaskSpec
spec key depends_on = record {
  key = key;
  executor = codes "http";
  params = [];
  depends_on = depends_on;
  retry_policy = [];
  priority = pos 0;
  timeout_seconds = 300;
}

abbrev fetch : Text
fetch = codes "f"

abbrev build : Text
build = codes "b"

abbrev deploy : Text
deploy = codes "d"

abbrev tasks : List TaskSpec
tasks = spec deploy (build ∷ fetch ∷ []) ∷ spec build (fetch ∷ []) ∷ spec fetch [] ∷ []

-- The new UUIDs are the code points of the one-letter keys.
abbrev fresh : Text → ℕ
fresh [] = 0
fresh (c ∷ t) = c

abbrev start : Catalog
start = record {
  workflows = [];
  tables = record { tasks = []; dependencies = []; runs = []; task_runs = []; attempts = [] };
}

abbrev published : Result (Workflow × Catalog) → Catalog
published (ok (w, c)) = c
published (err e) = start

abbrev row_of : Result (Workflow × Catalog) → List Workflow
row_of (ok (w, c)) = w ∷ []
row_of (err e) = []

abbrev first : Catalog
unfolding create build_policy from_dependencies topological_order
first = published (create 1 fresh 100 [] (codes "ci") tasks none start)

abbrev version_two : Workflow
version_two = record {
  id = 2;
  name = codes "ci";
  version = 2;
  description = none;
  created_at = 200;
}

abbrev second : Catalog
unfolding create build_policy from_dependencies topological_order
second = published (create 2 fresh 200 first.workflows (codes "ci") tasks none first)

create-Published_example :
    Published 2 200 first.workflows (codes "ci") tasks none first version_two second
unfolding create build_policy from_dependencies topological_order
create-Published_example =
    create-Published 2 fresh 200 first.workflows (codes "ci") tasks none first version_two second
      refl

abbrev version_one : Workflow
version_one = record {
  id = 1;
  name = codes "ci";
  version = 1;
  description = none;
  created_at = 100;
}

create-race_example : create 2 fresh 200 [] (codes "ci") tasks none first ≡ err integrity_error
unfolding create validate build_policy from_dependencies topological_order
create-race_example =
    create-race 1 2 fresh fresh 100 200 [] (codes "ci") tasks tasks (2 ∷ 1 ∷ 0 ∷ []) none none start
      first version_one refl refl

-- The second version with UUIDs of its own.
abbrev later : Text → ℕ
later t = fresh t + 1000

abbrev beside : Catalog
unfolding create build_policy from_dependencies topological_order
beside = published (create 2 later 200 first.workflows (codes "ci") tasks none first)

-- A database that returns the rows as they were inserted.
abbrev as_stored : RowOrder
as_stored = record { keys = λ ks. ks; pairs = λ ps. ps }

as_stored-IsRowOrder : IsRowOrder as_stored
as_stored-IsRowOrder = record { all_keys = λ ks. Permᴰ.refl ks; all_pairs = λ ps. Permᴰ.refl ps }

create-dependencies_example : Restored tasks (dependencies as_stored 2 beside.tables)
unfolding create build_policy from_dependencies topological_order
create-dependencies_example =
    create-dependencies as_stored 2 later 200 first.workflows (codes "ci") tasks none first
      version_two beside as_stored-IsRowOrder refl refl (refl, (refl, (refl, tt)))
      (refl, (refl, (refl, tt)))
      (
        (task_row 1 fresh (spec deploy (build ∷ fetch ∷ [])), refl, refl),
        (
          (task_row 1 fresh (spec deploy (build ∷ fetch ∷ [])), refl, refl),
          ((task_row 1 fresh (spec build (fetch ∷ [])), refl, refl), tt),
        ),
      )

dependencies_back :
    dependencies as_stored 1 first.tables
    ≡ (deploy, build ∷ fetch ∷ []) ∷ (build, fetch ∷ []) ∷ (fetch, []) ∷ []
unfolding dependencies create build_policy from_dependencies topological_order
dependencies_back = refl

-- The same dependency twice ends in the primary key of the edges, reported as a version conflict.
repeated_dependency :
    create 1 fresh 100 []
      (codes "ci")
      (spec build (fetch ∷ fetch ∷ []) ∷ spec fetch [] ∷ [])
      none
      start
    ≡ err conflict_error
unfolding create build_policy from_dependencies topological_order
repeated_dependency = refl

cycle_refused :
    create 1 fresh 100 []
      (codes "ci")
      (spec build (fetch ∷ []) ∷ spec fetch (build ∷ []) ∷ [])
      none
      start
    ≡ err (graph_error (Dag.cycle_error (0 ∷ 1 ∷ 0 ∷ [])))
unfolding create build_policy from_dependencies topological_order
cycle_refused = refl
