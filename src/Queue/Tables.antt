-- ===== src/Queue/Tables.antt =====
-- A small workflow run: a task held by worker 7, its child, and two tasks that wait for a worker.
use distributed_job_orchestr.Common.{ℕ, true, List, [], ◌∷◌, none, some, arith}
use distributed_job_orchestr.Common.Int.{pos}
use distributed_job_orchestr.Common.Text.{codes}
use distributed_job_orchestr.State.{TaskState, RunState, ready}
use distributed_job_orchestr.Retry.{RetryPolicy, exponential_backoff, one}
use distributed_job_orchestr.Queue.Rows.{Task, TaskRun, TaskAttempt, Store, Clock}
use distributed_job_orchestr.Queue.Monad.{Result, ok, err}
use distributed_job_orchestr.Queue.Moves.{IsTable}

-- Ten seconds and a hundred seconds after the start.
abbrev pub early : Clock
early = record { process = 10000000; database = 10000000 }

abbrev pub late : Clock
late = record { process = 100000000; database = 100000000 }

abbrev pub any_task : ℕ → Task
any_task id = record {
  id = id;
  workflow_id = 1;
  key = id ∷ [];
  executor = codes "shell";
  params = [];
  retry_policy = [];
  priority = pos 0;
  timeout_seconds = 60;
}

abbrev pub waiting_row : ℕ → TaskRun
waiting_row id = record {
  id = id;
  run_id = 1;
  task_id = id;
  state = ready;
  pending_deps = 0;
  attempt = 0;
  max_attempts = 5;
  priority = pos 0;
  scheduled_at = id;
  lease_expires_at = none;
  worker_id = none;
  started_at = none;
  finished_at = none;
  last_error = none;
  output = none;
  version = 0;
}

-- The row of task 1, under way.
abbrev pub held_row : ℕ → TaskRun
held_row attempt = record (waiting_row 1) {
  state = TaskState.running;
  attempt = attempt;
  lease_expires_at = some 30000000;
  worker_id = some 7;
  started_at = some 5;
}

abbrev pub child_row : TaskRun
child_row = record (waiting_row 2) { state = TaskState.pending; pending_deps = 1 }

abbrev pub urgent_row : TaskRun
urgent_row = record (waiting_row 4) { priority = pos 5 }

abbrev pub open_attempt : ℕ → TaskAttempt
open_attempt attempt = record {
  task_run_id = 1;
  attempt = attempt;
  worker_id = 7;
  state = TaskState.running;
  started_at = 5;
  finished_at = none;
  duration = none;
  error = none;
}

abbrev pub rows_at : ℕ → List TaskRun
rows_at attempt = held_row attempt ∷ child_row ∷ waiting_row 3 ∷ urgent_row ∷ []

abbrev pub store_at : ℕ → Store
store_at attempt = record {
  tasks = any_task 1 ∷ any_task 2 ∷ any_task 3 ∷ any_task 4 ∷ [];
  dependencies = record { parent_task_id = 1; child_task_id = 2 } ∷ [];
  runs =
      record {
        id = 1;
        workflow_id = 1;
        state = RunState.running;
        trigger_payload = [];
        started_at = some 5;
        finished_at = none;
        version = 1;
      }
      ∷ [];
  task_runs = rows_at attempt;
  attempts = open_attempt attempt ∷ [];
}

abbrev pub store : Store
store = store_at 1

abbrev pub last_store : Store
last_store = store_at 5

abbrev pub default : RetryPolicy
default = exponential_backoff one 2000000 5 300000000 true

-- The tables after an operation that succeeds.
abbrev pub after {ℓ} : {A : Type ℓ} → Result (A × Store) → Store
after (ok (a, s)) = s
after (err e) = store

pub store-IsTable : IsTable store.task_runs
store-IsTable = record { sound = ground arith; unique = ground arith }

pub last_store-IsTable : IsTable last_store.task_runs
last_store-IsTable = record { sound = ground arith; unique = ground arith }
