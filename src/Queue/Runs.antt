-- ===== src/Queue/Runs.antt =====
-- RunRepository: creating, cancelling and refreshing runs.
use distributed_job_orchestr.Common.{
  ℕ, ◌+◌, Bool, true, false, ◌&&◌, List, [], ◌∷◌, ◌++◌, map, Option, none, some, ◌==◌, length,
  if◌then◌else◌,
}
use distributed_job_orchestr.Common.Text.{Text, text_eq}
use distributed_job_orchestr.State.{
  TaskState, RunState, ready, retrying, same_run, member, derive_run_state, is_terminal_run,
}
use distributed_job_orchestr.Retry.Build.{build_policy}
use distributed_job_orchestr.Retry
use distributed_job_orchestr.Retry.{RetryPolicy}
use distributed_job_orchestr.Queue.Rows.{Json, Task, TaskRun, WorkflowRun, Clock, coalesce, given}
use distributed_job_orchestr.Queue.Monad.{
  value_error, policy_error, Result, ok, err, M, pure, ◌>>=◌, ◌>>◌, gets, select, count, patch,
  update_task_runs,
}

-- `dependencies.get(key, [])`
unfoldable pub parents_of : Text → List (Text × List Text) → List Text
parents_of key [] = []
parents_of key ((k, parents) ∷ rest) =
    let other = parents_of key rest in if text_eq k key then parents else other

-- the row of one task; `id` is its new UUID
unfoldable pub new_task_run : ℕ → ℕ → ℕ → Task → ℕ → RetryPolicy → TaskRun
unfolding Retry.max_attempts
new_task_run now id run_id task unmet policy = record {
  id = id;
  run_id = run_id;
  task_id = task.id;
  state = if unmet == 0 then ready else TaskState.pending;
  pending_deps = unmet;
  attempt = 0;
  max_attempts = Retry.max_attempts policy;
  priority = task.priority;
  scheduled_at = now;
  lease_expires_at = none;
  worker_id = none;
  started_at = none;
  finished_at = none;
  last_error = none;
  output = none;
  version = 0;
}

-- the loop over the tasks; `fresh` gives the UUID of each row
unfoldable pub new_task_runs :
    ℕ → (ℕ → ℕ) → ℕ → List (Text × List Text) → List Task → Result (List TaskRun)
unfolding new_task_run parents_of
new_task_runs now fresh run_id deps [] = ok []
new_task_runs now fresh run_id deps (t ∷ tasks) = elim (build_policy (some t.retry_policy)) [
  | Retry.err e ↦ err (policy_error e)
  | Retry.ok policy ↦ elim (new_task_runs now fresh run_id deps tasks) [
    | err e ↦ err e
    | ok rows ↦
        let unmet = length (parents_of t.key deps) in
        ok (new_task_run now (fresh t.id) run_id t unmet policy ∷ rows)
  ]
]

abbrev pub is_empty : List Task → Bool
is_empty [] = true
is_empty (_ ∷ _) = false

unfoldable pub new_run : ℕ → ℕ → Option Json → WorkflowRun
new_run run_id workflow_id payload = record {
  id = run_id;
  workflow_id = workflow_id;
  state = RunState.pending;
  trigger_payload = given payload;
  started_at = none;
  finished_at = none;
  version = 0;
}

-- create_run, with the new UUIDs; it returns the new run
unfoldable pub create_run :
    Clock → ℕ → (ℕ → ℕ) → ℕ → List (Text × List Text) → Option Json → M WorkflowRun
unfolding new_run new_task_runs
create_run clock run_id fresh workflow_id deps payload s =
    let run = new_run run_id workflow_id payload in
    let tasks = select (λ (t : Task). t.workflow_id == workflow_id) s.tasks in
    elim (new_task_runs clock.process fresh run_id deps tasks) [
      | err e ↦ err e
      | ok rows ↦
          if is_empty tasks
          then err value_error
          else ok (run, record s { runs = s.runs ++ run ∷ []; task_runs = s.task_runs ++ rows })
    ]

-- the states that refresh_run_state reads
unfoldable pub states_of : ℕ → List TaskRun → List TaskState
states_of run_id rows = map (λ r. r.state) (select (λ r. r.run_id == run_id) rows)

-- the values that refresh_run_state writes
unfoldable pub refreshed : Clock → RunState → WorkflowRun → WorkflowRun
unfolding is_terminal_run
refreshed clock derived run = record run {
  state = derived;
  version = run.version + 1;
  started_at =
      if same_run derived RunState.pending
      then run.started_at
      else coalesce run.started_at clock.database;
  finished_at =
      if is_terminal_run derived then coalesce run.finished_at clock.database else run.finished_at;
}

-- refresh_run_state
unfoldable pub refresh_run_state : Clock → ℕ → M RunState
unfolding states_of refreshed
refresh_run_state clock run_id s =
    let derived = derive_run_state (states_of run_id s.task_runs) in
    ok (derived, record s { runs = patch (λ r. r.id == run_id) (refreshed clock derived) s.runs })

-- WHERE run_id = :id AND state IN (cancellable)
unfoldable pub cancellable : ℕ → TaskRun → Bool
cancellable run_id r =
    r.run_id == run_id
    && member r.state (TaskState.pending ∷ ready ∷ TaskState.running ∷ retrying ∷ [])

unfoldable pub cancelled_row : Clock → TaskRun → TaskRun
cancelled_row clock r = record r {
  state = TaskState.cancelled;
  finished_at = some clock.database;
  lease_expires_at = none;
  worker_id = none;
  version = r.version + 1;
}

-- cancel
unfoldable pub cancel : Clock → ℕ → M ℕ
unfolding cancellable cancelled_row update_task_runs refresh_run_state
cancel clock run_id = do
  matched ← gets (λ s. count (cancellable run_id) s.task_runs)
  update_task_runs (cancellable run_id) (cancelled_row clock)
  derived ← refresh_run_state clock run_id
  pure matched
