-- ===== src/Queue/Rows.antt =====
-- The rows of db/models.py that the queue reads and writes. A UUID or a worker's name is a number,
-- a JSON object is a list of texts, and an instant is a count of microseconds.
use distributed_job_orchestr.Common.{
  ℕ, Bool, true, false, ◌&&◌, List, [], Option, none, some, ◌==◌, leb, any,
}
use distributed_job_orchestr.Common.Int.{ℤ}
use distributed_job_orchestr.Common.Text.{Text}
use distributed_job_orchestr.State.{TaskState, RunState, same}
use distributed_job_orchestr.Retry.Build.{Spec}

abbrev pub Json : Type 0
Json = List (Text × Text)

-- Task, with its workflow
pub record Task : Type 0 where
  pub id : ℕ
  pub workflow_id : ℕ
  pub key : Text
  pub executor : Text
  pub params : Json
  pub retry_policy : Spec
  pub priority : ℤ
  pub timeout_seconds : ℕ

-- TaskDependency
pub record TaskDependency : Type 0 where
  pub parent_task_id : ℕ
  pub child_task_id : ℕ

-- WorkflowRun
pub record WorkflowRun : Type 0 where
  pub id : ℕ
  pub workflow_id : ℕ
  pub state : RunState
  pub trigger_payload : Json
  pub started_at : Option ℕ
  pub finished_at : Option ℕ
  pub version : ℕ

-- TaskRun
pub record TaskRun : Type 0 where
  pub id : ℕ
  pub run_id : ℕ
  pub task_id : ℕ
  pub state : TaskState
  pub pending_deps : ℕ
  pub attempt : ℕ
  pub max_attempts : ℕ
  pub priority : ℤ
  pub scheduled_at : ℕ
  pub lease_expires_at : Option ℕ
  pub worker_id : Option ℕ
  pub started_at : Option ℕ
  pub finished_at : Option ℕ
  pub last_error : Option Text
  pub output : Option Json
  pub version : ℕ

-- TaskAttempt; its own UUID is never read.
pub record TaskAttempt : Type 0 where
  pub task_run_id : ℕ
  pub attempt : ℕ
  pub worker_id : ℕ
  pub state : TaskState
  pub started_at : ℕ
  pub finished_at : Option ℕ
  pub duration : Option ℕ
  pub error : Option Text

-- The tables of the database.
pub record Store : Type 0 where
  pub tasks : List Task
  pub dependencies : List TaskDependency
  pub runs : List WorkflowRun
  pub task_runs : List TaskRun
  pub attempts : List TaskAttempt

-- `utcnow()` reads the clock of the process, `func.now()` that of the database.
pub record Clock : Type 0 where
  pub process : ℕ
  pub database : ℕ

abbrev pub is_some {ℓ} : {A : Type ℓ} → Option A → Bool
is_some none = false
is_some (some _) = true

abbrev pub holds : Option ℕ → ℕ → Bool
holds none w = false
holds (some v) w = v == w

abbrev same_truth : Bool → Bool → Bool
same_truth true b = b
same_truth false true = false
same_truth false false = true

-- The CHECK constraints of `task_runs` that a natural number can break: the attempt is within the
-- budget, and a row is RUNNING exactly when it has a lease and a worker.
unfoldable pub checks : TaskRun → Bool
checks r =
    leb r.attempt r.max_attempts
    && same_truth (same r.state TaskState.running)
        (is_some r.lease_expires_at && is_some r.worker_id)

-- `id IN (ids)`
abbrev pub elem : ℕ → List ℕ → Bool
elem i ids = any (λ j. i == j) ids

-- coalesce(column, value)
abbrev pub coalesce : Option ℕ → ℕ → Option ℕ
coalesce none t = some t
coalesce (some u) t = some u

-- WHERE id = :id AND worker_id = :worker AND state = 'RUNNING'
unfoldable pub owned : ℕ → ℕ → TaskRun → Bool
owned id worker r = r.id == id && holds r.worker_id worker && same r.state TaskState.running

-- `value or {}`
abbrev pub given : Option Json → Json
given none = []
given (some o) = o
