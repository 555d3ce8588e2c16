-- ===== src/Worker/Examples.antt =====
-- The theorems of the worker at the queue's small workflow run.
use distributed_job_orchestr.Common.{ℕ, ◌+◌, ◌≡◌, refl, false, [], none, some, All}
use distributed_job_orchestr.Common.Text.{codes}
use distributed_job_orchestr.State.{derive_run_state}
use distributed_job_orchestr.Queue.Rows.{Store, owned, checks}
use distributed_job_orchestr.Queue.Monad.{Result, ok, err}
use distributed_job_orchestr.Queue.Claim.{ClaimedTask, claim_batch}
use distributed_job_orchestr.Queue.Complete.{record_success}
use distributed_job_orchestr.Queue.Runs.{states_of, refresh_run_state}
use distributed_job_orchestr.Queue.Moves.{Rows}
use distributed_job_orchestr.Queue.RunState.{IsCurrent}
use distributed_job_orchestr.Queue.Tables.{early, late, store, store-IsTable}
use distributed_job_orchestr.Worker.{
  WorkerStats, returned, Effect, record_outcome, report, run_once,
}
use distributed_job_orchestr.Worker.Batch.{finished, report_lem, run_once-Rows}

abbrev no_stats : WorkerStats
no_stats = record { claimed = 0; succeeded = 0; failed = 0; lost_leases = 0 }

abbrev success : Effect
success = record { execution = returned []; lost = false; clock = late; draw = 0 }

abbrev held_task : ClaimedTask
held_task = record {
  task_run_id = 1;
  run_id = 1;
  executor = codes "shell";
  params = [];
  attempt = 1;
  max_attempts = 5;
  timeout_seconds = 60;
  lease_expires_at = some 30000000;
  retry_policy = [];
}

abbrev outcome : Result (WorkerStats × Store) → WorkerStats × Store
outcome (ok r) = r
outcome (err e) = (no_stats, store)

abbrev reported : WorkerStats × Store
unfolding record_success
reported = outcome (report 7 held_task success no_stats store)

report_lem_example :
    (finished reported.0 ≡ 0 + 1)
    × (reported.0.claimed ≡ 0)
    × All (IsCurrent 1 (derive_run_state (states_of 1 reported.1.task_runs))) reported.1.runs
unfolding record_outcome record_success refresh_run_state owned checks
report_lem_example = report_lem 7 held_task success no_stats reported.0 store reported.1 refl

run_once-Rows_example :
    let ended = run_once early 30000000 (λ id. false) 8 5 none (λ task. success) no_stats store in
    Rows store.task_runs ended.store.task_runs
    × ((n : ℕ)
        → ended.answer ≡ ok n
        → (ended.stats.claimed ≡ 0 + n) × (finished ended.stats ≡ 0 + n))
run_once-Rows_example =
    run_once-Rows early 30000000 (λ id. false) 8 5 none (λ task. success) no_stats store
      store-IsTable

-- Both tasks that wait are claimed and succeed.
batch_of_two :
    (run_once early 30000000 (λ id. false) 8 5 none (λ task. success) no_stats store).answer ≡ ok 2
unfolding run_once claim_batch record_outcome record_success refresh_run_state owned checks
batch_of_two = refl
