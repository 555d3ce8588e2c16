-- ===== src/Queue/Lost.antt =====
-- A failure that is reported after the lease was lost, in the window between the read and the
-- write of record_failure.
use distributed_job_orchestr.Common.{ℕ, ◌≡◌, false, List, [], ◌∷◌, none, some, All, arith}
use distributed_job_orchestr.Common.Text.{Text}
use distributed_job_orchestr.Retry
use distributed_job_orchestr.Retry.{RetryPolicy, max_attempts, next_delay}
use distributed_job_orchestr.Retry.Build.{build_policy}
use distributed_job_orchestr.Queue.Rows.{Task, TaskRun, Store, Clock}
use distributed_job_orchestr.Queue.Monad.{ok, patch}
use distributed_job_orchestr.Queue.Complete.{
  find_run, task_of, finish_failure, fail_for_good, assigned, failed_row, is_open, closed_attempt,
  child_ids,
}
use distributed_job_orchestr.Queue.Moves.{IsTable}
use distributed_job_orchestr.Queue.Descend.{
  Stopped, block_descendants_returns, block_descendants-children,
}
use distributed_job_orchestr.Queue.Lease.{NotHeld, update_none}
use distributed_job_orchestr.Queue.Outcome.{final_state}

not_assigned :
    (id worker : ℕ) (rows : List TaskRun)
    → NotHeld id worker rows
    → All (λ r. assigned id worker r ≡ false) rows
unfolding assigned
not_assigned id worker [] h = tt
not_assigned id worker (r ∷ rows) h = (ground (arith, h.0), not_assigned id worker rows h.1)

-- In a sound table, the write half of record_failure does not look at how many rows its UPDATE
-- matched. If the worker no longer holds the task after the read, and the policy gives no delay,
-- it still answers with a terminal state, and no child of the task waits any more.
pub lost_failure_blocks_children :
    (clock : Clock) (draw id worker : ℕ) (error : Text) (s : Store) (seen r : TaskRun) (task : Task)
    (policy : RetryPolicy)
    → IsTable s.task_runs
    → NotHeld id worker s.task_runs
    → find_run id s.task_runs ≡ some r
    → task_of s.tasks seen ≡ some task
    → build_policy (some task.retry_policy) ≡ Retry.ok policy
    → next_delay policy seen.attempt draw ≡ Retry.ok none
    → (s' : Store) × (finish_failure clock draw id worker error seen s
        ≡ ok (some (final_state seen), s'))
      × Stopped r.run_id (child_ids (r.task_id ∷ []) s.dependencies) s'.task_runs
unfolding finish_failure fail_for_good
lost_failure_blocks_children clock draw id worker error s seen r task policy v free found has built
      spent =
    let t = record s {
      attempts =
          patch (is_open id seen.attempt) (closed_attempt clock (final_state seen) (some error))
            s.attempts;
    } in
    let missed =
      update_none (assigned id worker) (failed_row clock (final_state seen) error) s
        (not_assigned id worker s.task_runs free) in
    let (s', blocked) = block_descendants_returns clock id t v in
    let stopped = block_descendants-children clock id t s' v found blocked in
    (s', rw (has, finish_failure) (rw (built, spent, missed, blocked)), stopped)
