-- ===== src/Queue/Traces.antt =====
-- Interleavings of the queue's transactions: any workers, reapers and callers, in any order.
use distributed_job_orchestr.Common.{ℕ, ◌≡◌, refl, Bool, List, [], ◌∷◌, Option}
use distributed_job_orchestr.Common.Text.{Text}
use distributed_job_orchestr.State.{TaskState, RunState}
use distributed_job_orchestr.Queue.Rows.{Json, Store, Clock}
use distributed_job_orchestr.Queue.Monad.{Result, ok, err, M, pure, ◌>>=◌}
use distributed_job_orchestr.Queue.Claim.{ClaimedTask, claim_batch, renew_lease}
use distributed_job_orchestr.Queue.Complete.{record_success, record_failure, reap_expired_leases}
use distributed_job_orchestr.Queue.Runs.{refresh_run_state, cancel}
use distributed_job_orchestr.Queue.Moves.{
  IsTable, Rows, Rows-refl, Rows-trans, Rows-IsTable, Keeps, bind-Keeps, pure-Keeps,
}
use distributed_job_orchestr.Queue.Keeps.{
  renew_lease-Keeps, record_success-Keeps, record_failure-Keeps, reap_expired_leases-Keeps,
  refresh_run_state-Keeps, cancel-Keeps,
}
use distributed_job_orchestr.Queue.Candidates.{claim_batch-Keeps}

-- A transaction that some process asks for.
pub data Call : Type 0 where
  claim : (lease_seconds : ℕ) → (locked : ℕ → Bool) → (worker limit : ℕ) → Call
  renew : (lease_seconds task_run_id worker : ℕ) → Call
  succeed : (task_run_id worker : ℕ) → Option Json → Call
  fail : (draw task_run_id worker : ℕ) → Text → Call
  reap : Call
  refresh : (run_id : ℕ) → Call
  cancel_run : (run_id : ℕ) → Call

-- What it answers.
pub data Answer : Type 0 where
  claimed : List ClaimedTask → Answer
  accepted : Bool → Answer
  outcome : Option TaskState → Answer
  rows_touched : ℕ → Answer
  run_state : RunState → Answer

unfoldable pub perform : Clock → Call → M Answer
perform clock (claim lease locked worker limit) =
    claim_batch clock lease locked worker limit >>= λ a. pure (claimed a)
perform clock (renew lease id worker) = renew_lease clock lease id worker >>= λ a. pure (accepted a)
perform clock (succeed id worker output) =
    record_success clock id worker output >>= λ a. pure (accepted a)
perform clock (fail draw id worker error) =
    record_failure clock draw id worker error >>= λ a. pure (outcome a)
perform clock reap = reap_expired_leases clock >>= λ a. pure (rows_touched a)
perform clock (refresh run) = refresh_run_state clock run >>= λ a. pure (run_state a)
perform clock (cancel_run run) = cancel clock run >>= λ a. pure (rows_touched a)

-- A transaction that raises is rolled back.
abbrev pub committed : Result (Answer × Store) → Store → Store
committed (ok (a, s')) s = s'
committed (err e) s = s

-- The transactions of a schedule, one after the other.
unfoldable pub run : List (Clock × Call) → Store → Store
run [] s = s
run ((clock, c) ∷ calls) s = run calls (committed (perform clock c s) s)

perform-Keeps : (clock : Clock) (c : Call) → Keeps (perform clock c)
unfolding perform
perform-Keeps clock (claim lease locked worker limit) =
    bind-Keeps _ _ (claim_batch-Keeps clock lease locked worker limit) λ a. pure-Keeps (claimed a)
perform-Keeps clock (renew lease id worker) =
    bind-Keeps _ _ (renew_lease-Keeps clock lease id worker) λ a. pure-Keeps (accepted a)
perform-Keeps clock (succeed id worker output) =
    bind-Keeps _ _ (record_success-Keeps clock id worker output) λ a. pure-Keeps (accepted a)
perform-Keeps clock (fail draw id worker error) =
    bind-Keeps _ _ (record_failure-Keeps clock draw id worker error) λ a. pure-Keeps (outcome a)
perform-Keeps clock reap =
    bind-Keeps _ _ (reap_expired_leases-Keeps clock) λ a. pure-Keeps (rows_touched a)
perform-Keeps clock (refresh run) =
    bind-Keeps _ _ (refresh_run_state-Keeps clock run) λ a. pure-Keeps (run_state a)
perform-Keeps clock (cancel_run run) =
    bind-Keeps _ _ (cancel-Keeps clock run) λ a. pure-Keeps (rows_touched a)

committed-Rows :
    (clock : Clock) (c : Call) (s : Store)
    → IsTable s.task_runs
    → Rows s.task_runs (committed (perform clock c s) s).task_runs
committed-Rows clock c s v = go (perform clock c s) refl
  where
    go :
        (r : Result (Answer × Store))
        → perform clock c s ≡ r
        → Rows s.task_runs (committed r s).task_runs
    go (ok (a, s')) e = (perform-Keeps clock c).rows s a s' e v
    go (err x) e = Rows-refl s.task_runs v.sound

-- Over any schedule of claims, renewals, completions, failures, reaps, refreshes and
-- cancellations, on tables whose rows are sound under distinct ids, each row of `task_runs`
-- keeps its place, identity and budget, never loses an attempt, never changes once terminal, and
-- holds a lease and a worker exactly while RUNNING, within its budget.
pub run-Rows :
    (calls : List (Clock × Call)) (s : Store)
    → IsTable s.task_runs
    → Rows s.task_runs (run calls s).task_runs
unfolding run
run-Rows [] s v = Rows-refl s.task_runs v.sound
run-Rows ((clock, c) ∷ calls) s v =
    let t = committed (perform clock c s) s in
    let first = committed-Rows clock c s v in
    Rows-trans s.task_runs t.task_runs (run calls t).task_runs first
      (run-Rows calls t (Rows-IsTable s.task_runs t.task_runs first v))
