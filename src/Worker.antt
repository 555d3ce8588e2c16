-- ===== src/Worker.antt =====
-- The worker of worker/worker.py: one batch, claimed in a transaction of its own, and one
-- transaction for the outcome of each task. What the executor does, whether the heartbeat finds the
-- lease lost, and the clock and the random draw of the outcome are an argument.
pub mod Batch
mod Examples
use distributed_job_orchestr.Common.{
  ℕ, suc, ◌+◌, Bool, true, false, List, [], ◌∷◌, Option, none, some, length, ◌==◌, if◌then◌else◌,
}
use distributed_job_orchestr.Common.Text.{Text}
use distributed_job_orchestr.Queue.Rows.{Json, Store, Clock, is_some}
use distributed_job_orchestr.Queue.Monad.{Error, Result, ok, err, M, pure, ◌>>=◌, ◌>>◌}
use distributed_job_orchestr.Queue.Claim.{ClaimedTask, claim_batch}
use distributed_job_orchestr.Queue.Complete.{record_success, record_failure}
use distributed_job_orchestr.Queue.Runs.{refresh_run_state}

-- WorkerStats, its counters of tasks
pub record WorkerStats : Type 0 where
  pub claimed : ℕ
  pub succeeded : ℕ
  pub failed : ℕ
  pub lost_leases : ℕ

-- The output of the executor, or the text of its exception.
pub data Execution : Type 0 where
  returned : Json → Execution
  raised : Text → Execution

-- What happens to one task outside the transactions.
pub record Effect : Type 0 where
  pub execution : Execution
  pub lost : Bool
  pub clock : Clock
  pub draw : ℕ

-- the calls that record the outcome, and the counters that they change
unfoldable pub record_outcome :
    ℕ → ClaimedTask → Effect → WorkerStats → Execution → M (Bool × WorkerStats)
record_outcome worker task e stats (returned output) = do
  accepted ← record_success e.clock task.task_run_id worker (some output)
  pure (accepted, record stats { succeeded = stats.succeeded + (if accepted then 1 else 0) })
record_outcome worker task e stats (raised error) = do
  state ← record_failure e.clock e.draw task.task_run_id worker error
  let accepted = is_some state
  pure (accepted, record stats { failed = stats.failed + (if accepted then 1 else 0) })

abbrev pub rejected : Bool × WorkerStats → WorkerStats
rejected (accepted, stats) = record stats {
  lost_leases = stats.lost_leases + (if accepted then 0 else 1);
}

-- the transaction of the outcome, with the run's cached state
abbrev pub report : ℕ → ClaimedTask → Effect → WorkerStats → M WorkerStats
report worker task e stats = record_outcome worker task e stats e.execution >>= λ outcome.
    refresh_run_state e.clock task.run_id >>= λ derived. pure (rejected outcome)

-- Worker._execute
unfoldable pub execute : ℕ → ClaimedTask → Effect → WorkerStats → M WorkerStats
unfolding record_outcome
execute worker task e stats =
    if e.lost
    then pure (record stats { lost_leases = stats.lost_leases + 1 })
    else report worker task e stats

-- How a batch ends: with the number of tasks, or with the exception of a transaction, when the
-- transactions before it stay committed.
pub record Ended : Type 0 where
  pub answer : Result ℕ
  pub stats : WorkerStats
  pub store : Store

-- the loop over the batch
unfoldable pub execute_all :
    ℕ → (ClaimedTask → Effect) → ℕ → List ClaimedTask → WorkerStats → Store → Ended
unfolding execute
execute_all worker effect n [] stats s = record { answer = ok n; stats = stats; store = s }
execute_all worker effect n (task ∷ batch) stats s =
    elim (execute worker task (effect task) stats s) [
      | err e ↦ record { answer = err e; stats = stats; store = s }
      | ok (stats', s') ↦ execute_all worker effect n batch stats' s'
    ]

-- `limit or self.settings.claim_batch_size`
abbrev pub batch_limit : Option ℕ → ℕ → ℕ
batch_limit none size = size
batch_limit (some n) size = if n == 0 then size else n

-- Worker.run_once
unfoldable pub run_once :
    Clock → ℕ → (ℕ → Bool) → ℕ → ℕ → Option ℕ → (ClaimedTask → Effect) → WorkerStats → Store → Ended
unfolding execute_all
run_once clock lease_seconds locked worker size limit effect stats s =
    elim (claim_batch clock lease_seconds locked worker (batch_limit limit size) s) [
      | err e ↦ record { answer = err e; stats = stats; store = s }
      | ok (batch, s') ↦
          execute_all worker effect (length batch) batch
            (record stats { claimed = stats.claimed + length batch }) s'
    ]
