-- ===== src/Queue/Examples.antt =====
-- The theorems of the queue at the small workflow run.
use mathlib.Core.List.{Memᴰ}
use distributed_job_orchestr.Common.{
  ℕ, ◌≤◌, ◌<◌, ◌≡◌, refl, ◌⊎◌, Bool, true, false, List, [], ◌∷◌, map, none, some, All, arith,
  length,
}
use distributed_job_orchestr.Common.Text.{codes}
use distributed_job_orchestr.State.{
  TaskState, ready, retrying, dead_letter, is_terminal, derive_run_state,
}
use distributed_job_orchestr.Retry
use distributed_job_orchestr.Retry.{next_delay}
use distributed_job_orchestr.Retry.Build.{build_policy}
use distributed_job_orchestr.Queue.Rows.{owned, checks, TaskRun, Store, Clock, elem}
use distributed_job_orchestr.Queue.Monad.{integrity_error, Result, ok, err, select, count, patch}
use distributed_job_orchestr.Queue.Claim.{
  ClaimedTask, claimable, candidates, claim_batch, renew_lease,
}
use distributed_job_orchestr.Queue.Complete.{
  child_ids, unblock_rows, block_descendants, record_success, record_failure, finish_failure,
  expired, requeued_row, reap_expired_leases,
}
use distributed_job_orchestr.Queue.Runs.{
  states_of, refresh_run_state, cancellable, cancelled_row, cancel,
}
use distributed_job_orchestr.Queue.Moves.{Rows}
use distributed_job_orchestr.Queue.Traces.{Call, claim, succeed, fail, reap, perform, run, run-Rows}
use distributed_job_orchestr.Queue.Lease.{stale_worker_refused}
use distributed_job_orchestr.Queue.Once.{success_once}
use distributed_job_orchestr.Queue.Descend.{
  Stopped, block_descendants_returns, block_descendants-children,
}
use distributed_job_orchestr.Queue.Outcome.{record_failure-never_failed}
use distributed_job_orchestr.Queue.Unblock.{release, unblock_rows-release}
use distributed_job_orchestr.Queue.Order.{Before, candidates-first, candidates-all}
use distributed_job_orchestr.Queue.Handout.{claim_attempts_grow}
use distributed_job_orchestr.Queue.Recovered.{Dead, Recovered, Finished, reap-Recovered}
use distributed_job_orchestr.Queue.Reaped.{reaped_last_attempt_blocks_claims}
use distributed_job_orchestr.Queue.Lost.{lost_failure_blocks_children}
use distributed_job_orchestr.Queue.RunState.{
  IsTimed, IsCurrent, cancel_returns, refresh_run_state_lem,
}
use distributed_job_orchestr.Queue.Tables.{
  early, late, any_task, waiting_row, held_row, urgent_row, rows_at, store, last_store, default,
  after, store-IsTable, last_store-IsTable,
}

abbrev unlocked : ℕ → Bool
unlocked id = false

-- A lease that runs out is taken over by worker 8, and worker 7 reports too late.
abbrev takeover : List (Clock × Call)
takeover =
    (late, reap)
    ∷ (late, claim 30000000 unlocked 8 4)
    ∷ (late, fail 0 1 7 (codes "late"))
    ∷ (late, succeed 1 8 none)
    ∷ []

run-Rows_example : Rows store.task_runs (run takeover store).task_runs
run-Rows_example = run-Rows takeover store store-IsTable

-- The takeover ends with worker 8's success: the child is released.
takeover_states :
    map (λ r. r.state) (run takeover store).task_runs
    ≡ TaskState.succeeded ∷ ready ∷ TaskState.running ∷ TaskState.running ∷ []
unfolding run perform claim_batch record_success record_failure reap_expired_leases checks owned
takeover_states = refl

abbrev settled : Store
unfolding record_success owned checks
settled = after (record_success early 1 7 none store)

success_once_example :
    (record_success late 1 8 none (run takeover settled) ≡ ok (false, run takeover settled))
    × (record_failure late 0 1 8 [] (run takeover settled) ≡ ok (none, run takeover settled))
unfolding record_success owned checks
success_once_example =
    success_once early 1 7 none store settled takeover late 0 8 none [] store-IsTable refl

-- Worker 7 takes row 3, its lease runs out, and worker 8 takes the row again.
abbrev first_claim : Result (List ClaimedTask × Store)
first_claim = claim_batch early 30000000 unlocked 7 4 store

abbrev requeue : List (Clock × Call)
requeue = (late, reap) ∷ []

abbrev second_claim : Result (List ClaimedTask × Store)
unfolding claim_batch
second_claim = claim_batch late 30000000 unlocked 8 4 (run requeue (after first_claim))

abbrev given_out : Result (List ClaimedTask × Store) → List ClaimedTask
given_out (ok (results, s)) = results
given_out (err e) = []

abbrev claim_of : ℕ → ℕ → ℕ → ClaimedTask
claim_of id attempt lease = record {
  task_run_id = id;
  run_id = 1;
  executor = codes "shell";
  params = [];
  attempt = attempt;
  max_attempts = 5;
  timeout_seconds = 60;
  lease_expires_at = some lease;
  retry_policy = [];
}

claim_attempts_grow_example : 1 < 2
unfolding claim_batch run perform reap_expired_leases checks
claim_attempts_grow_example =
    claim_attempts_grow early late 30000000 30000000 unlocked unlocked 7 8 4 4 store
      (after first_claim) (after second_claim) requeue (given_out first_claim)
      (given_out second_claim) (claim_of 3 1 40000000) (claim_of 3 2 130000000) store-IsTable refl
      refl (Memᴰ.head refl) (Memᴰ.tail (Memᴰ.head refl)) refl

stale_worker_refused_example :
    (renew_lease early 30000000 1 8 store ≡ ok (false, store))
    × (record_success early 1 8 none store ≡ ok (false, store))
    × (record_failure early 0 1 8 [] store ≡ ok (none, store))
stale_worker_refused_example =
    stale_worker_refused early 30000000 0 1 8 none [] store (ground arith)

unblock_rows-release_example :
    unblock_rows 1 (2 ∷ []) store
    ≡ ok (tt, record store { task_runs = map (release 1 (2 ∷ [])) (rows_at 1) })
unblock_rows-release_example = unblock_rows-release 1 (2 ∷ []) store store-IsTable

-- Both free tasks may go, but one is asked for: the urgent one.
candidates-first_example : Before urgent_row (waiting_row 3)
unfolding candidates
candidates-first_example =
    candidates-first 10000000 unlocked 1 (rows_at 1) urgent_row (waiting_row 3) store-IsTable.unique
      (Memᴰ.tail (Memᴰ.tail (Memᴰ.tail (Memᴰ.head refl)))) (Memᴰ.tail (Memᴰ.tail (Memᴰ.head refl)))
      refl refl refl

candidates-all_example :
    (length (candidates 10000000 unlocked 2 (rows_at 1)) ≤ 2)
    × (length (select (claimable 10000000 unlocked) (rows_at 1)) ≤ 2
        → (x : TaskRun) → Memᴰ x (rows_at 1)
        → claimable 10000000 unlocked x ≡ true
        → elem x.id (candidates 10000000 unlocked 2 (rows_at 1)) ≡ true)
candidates-all_example = candidates-all 10000000 unlocked 2 (rows_at 1)

reap-Recovered_example :
    (n : ℕ) × (s' : Store) × (reap_expired_leases late store ≡ ok (n, s'))
    × Recovered late.process n store.task_runs s'.task_runs
    × ((r : TaskRun)
        → Memᴰ r store.task_runs
        → Dead late.process r
        → Finished r.id r.attempt s'.attempts)
reap-Recovered_example = reap-Recovered late store store-IsTable

block_descendants_returns_example : (s' : Store) × (block_descendants late 1 store ≡ ok (tt, s'))
block_descendants_returns_example = block_descendants_returns late 1 store store-IsTable

abbrev blocked_store : Store
unfolding block_descendants
blocked_store = after (block_descendants late 1 store)

block_descendants-children_example :
    Stopped 1 (child_ids (1 ∷ []) store.dependencies) blocked_store.task_runs
unfolding block_descendants checks
block_descendants-children_example =
    block_descendants-children late 1 store blocked_store {r = held_row 1} store-IsTable refl refl

cancel_returns_example :
    (s' : Store) × (cancel late 1 store ≡ ok (count (cancellable 1) store.task_runs, s'))
    × (s'.task_runs ≡ patch (cancellable 1) (cancelled_row late) store.task_runs)
    × All (λ r. r.run_id ≡ 1 → is_terminal r.state ≡ true) s'.task_runs
    × (s'.attempts ≡ store.attempts)
cancel_returns_example = cancel_returns late 1 store store-IsTable

refresh_run_state_lem_example :
    let derived = derive_run_state (states_of 1 store.task_runs) in
    (s' : Store) × (refresh_run_state late 1 store ≡ ok (derived, s'))
    × All (λ w. IsTimed w × IsCurrent 1 derived w) s'.runs
    × (s'.task_runs ≡ store.task_runs)
refresh_run_state_lem_example = refresh_run_state_lem late 1 store (ground arith)

-- The last attempt fails.
abbrev dead_store : Store
unfolding record_failure build_policy
dead_store = after (record_failure early 0 1 7 [] last_store)

record_failure-never_failed_example : (dead_letter ≡ retrying) ⊎ (dead_letter ≡ dead_letter)
unfolding record_failure build_policy checks Retry.max_attempts next_delay
record_failure-never_failed_example =
    record_failure-never_failed early 0 1 7 [] last_store dead_store (held_row 5) (any_task 1)
      default dead_letter last_store-IsTable refl refl refl refl refl (omega arith) refl refl

reaped_last_attempt_blocks_claims_example :
    (n : ℕ) × (s' : Store) × (reap_expired_leases late last_store ≡ ok (n, s'))
    × (claim_batch late 30000000 unlocked 8 10 s' ≡ err integrity_error)
unfolding expired claimable requeued_row
reaped_last_attempt_blocks_claims_example =
    reaped_last_attempt_blocks_claims late late 30000000 unlocked 8 10 last_store (held_row 5)
      last_store-IsTable (Memᴰ.head refl) refl refl (omega arith) refl (omega arith)

lost_failure_blocks_children_example :
    (s' : Store) × (finish_failure late 0 1 8 [] (held_row 5) last_store
      ≡ ok (some dead_letter, s'))
    × Stopped 1 (child_ids (1 ∷ []) store.dependencies) s'.task_runs
unfolding build_policy next_delay
lost_failure_blocks_children_example =
    lost_failure_blocks_children late 0 1 8 [] last_store (held_row 5) (held_row 5) (any_task 1)
      default last_store-IsTable (ground arith) refl refl refl refl
