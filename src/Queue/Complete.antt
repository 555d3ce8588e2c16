-- ===== src/Queue/Complete.antt =====
-- TaskQueueRepository: completion, lease expiry and the internals that they share.
use distributed_job_orchestr.Common.{
  ℕ, zero, suc, ◌+◌, ◌-◌, Bool, true, false, not, ◌&&◌, List, [], ◌∷◌, map, Option, none, some, ltb,
  leb, ◌==◌, take, length, if◌then◌else◌,
}
use distributed_job_orchestr.Common.Text.{Text, codes}
use distributed_job_orchestr.State.{TaskState, ready, retrying, dead_letter, blocked, same, member}
use distributed_job_orchestr.Retry.Build.{build_policy}
use distributed_job_orchestr.Retry.{next_delay}
use distributed_job_orchestr.Queue.Rows.{
  Json, Task, TaskDependency, TaskRun, TaskAttempt, Clock, holds, elem, owned, given,
}
use distributed_job_orchestr.Queue.Monad.{
  key_error, out_of_fuel, ok, err, M, pure, lift, ◌>>=◌, ◌>>◌, gets, select, count, patch, find,
  update_task_runs,
}

-- `error[:4000] if error else None`
abbrev pub kept_error : Option Text → Option Text
kept_error none = none
kept_error (some []) = none
kept_error (some (c ∷ e)) = some (take 4000 (c ∷ e))

abbrev pub is_none {ℓ} : {A : Type ℓ} → Option A → Bool
is_none none = true
is_none (some _) = false

-- the WHERE clause of _close_attempt
abbrev pub is_open : ℕ → ℕ → TaskAttempt → Bool
is_open task_run_id attempt a =
    a.task_run_id == task_run_id && a.attempt == attempt && is_none a.finished_at

unfoldable pub closed_attempt : Clock → TaskState → Option Text → TaskAttempt → TaskAttempt
closed_attempt clock state error a = record a {
  state = state;
  finished_at = some clock.database;
  error = kept_error error;
  duration = some (clock.database - a.started_at);
}

-- _close_attempt
unfoldable pub close_attempt : Clock → ℕ → ℕ → TaskState → Option Text → M (Unit {0})
unfolding closed_attempt
close_attempt clock task_run_id attempt state error s = ok (
  tt,
  record s {
    attempts = patch (is_open task_run_id attempt) (closed_attempt clock state error) s.attempts;
  },
)

-- `session.get(TaskRun, id)`
abbrev pub find_run : ℕ → List TaskRun → Option TaskRun
find_run id rows = find (λ r. r.id == id) rows

-- SELECT child_task_id WHERE parent_task_id = :id, or IN (:ids)
unfoldable pub child_ids : List ℕ → List TaskDependency → List ℕ
child_ids parents edges =
    map (λ e. e.child_task_id) (select (λ e. elem e.parent_task_id parents) edges)

-- the sibling_filter of _unblock_children
unfoldable pub sibling : ℕ → List ℕ → TaskRun → Bool
sibling run_id children r =
    r.run_id == run_id && elem r.task_id children && same r.state TaskState.pending

unfoldable pub decremented : TaskRun → TaskRun
decremented r = record r { pending_deps = r.pending_deps - 1; version = r.version + 1 }

unfoldable pub released : TaskRun → TaskRun
released r = record r { state = ready; version = r.version + 1 }

unfoldable pub unblock_rows : ℕ → List ℕ → M (Unit {0})
unfolding sibling decremented released update_task_runs
unblock_rows run_id children = do
  update_task_runs (λ r. sibling run_id children r && ltb 0 r.pending_deps) decremented
  update_task_runs (λ r. sibling run_id children r && r.pending_deps == 0) released

-- _unblock_children
unfoldable pub unblock_children : ℕ → M (Unit {0})
unfolding unblock_rows child_ids
unblock_children task_run_id s = elim (find_run task_run_id s.task_runs) [
  | none ↦ ok (tt, s)
  | some r ↦ unblock_rows r.run_id (child_ids (r.task_id ∷ []) s.dependencies) s
]

-- the WHERE clause and the SET clause of _block_descendants
unfoldable pub blockable : ℕ → List ℕ → TaskRun → Bool
blockable run_id children r =
    r.run_id == run_id && elem r.task_id children && member r.state (TaskState.pending ∷ ready ∷ [])

unfoldable pub blocked_row : Clock → TaskRun → TaskRun
blocked_row clock r = record r {
  state = blocked;
  finished_at = some clock.database;
  version = r.version + 1;
}

abbrev pub is_empty : List ℕ → Bool
is_empty [] = true
is_empty (_ ∷ _) = false

-- the loop of _block_descendants; the set of children stands as a list, read by membership alone
unfoldable pub block_loop : ℕ → Clock → ℕ → List ℕ → M (Unit {0})
unfolding blockable blocked_row child_ids update_task_runs
block_loop zero clock run_id frontier s = err out_of_fuel
block_loop (suc fuel) clock run_id frontier s =
    let children = child_ids frontier s.dependencies in
    let matched = count (blockable run_id children) s.task_runs in
    let next = block_loop fuel clock run_id children in
    let body = update_task_runs (blockable run_id children) (blocked_row clock) >>= λ _.
    if matched == 0 then pure tt else next in
    if is_empty children then ok (tt, s) else body s

-- _block_descendants; each round but the last blocks a row, so there are at most as many rounds
-- as rows and one more
unfoldable pub block_descendants : Clock → ℕ → M (Unit {0})
unfolding block_loop
block_descendants clock task_run_id s = elim (find_run task_run_id s.task_runs) [
  | none ↦ ok (tt, s)
  | some r ↦ block_loop (length s.task_runs + 1) clock r.run_id (r.task_id ∷ []) s
]

unfoldable pub succeeded_row : Clock → Option Json → TaskRun → TaskRun
succeeded_row clock output r = record r {
  state = TaskState.succeeded;
  finished_at = some clock.database;
  output = some (given output);
  lease_expires_at = none;
  worker_id = none;
  version = r.version + 1;
}

abbrev pub after_success : Clock → ℕ → List TaskRun → M Bool
after_success clock task_run_id [] = pure false
after_success clock task_run_id (_ ∷ _ ∷ _) = pure false
after_success clock task_run_id (r ∷ []) = do
  close_attempt clock task_run_id r.attempt TaskState.succeeded none
  unblock_children task_run_id
  pure true

-- record_success
unfoldable pub record_success : Clock → ℕ → ℕ → Option Json → M Bool
unfolding succeeded_row update_task_runs close_attempt unblock_children
record_success clock task_run_id worker output = do
  closed ← gets (λ s. select (owned task_run_id worker) s.task_runs)
  update_task_runs (owned task_run_id worker) (succeeded_row clock output)
  after_success clock task_run_id closed

-- WHERE id = :id AND worker_id = :worker
unfoldable pub assigned : ℕ → ℕ → TaskRun → Bool
assigned id worker r = r.id == id && holds r.worker_id worker

unfoldable pub failed_row : Clock → TaskState → Text → TaskRun → TaskRun
failed_row clock terminal error r = record r {
  state = terminal;
  finished_at = some clock.database;
  last_error = some (take 4000 error);
  lease_expires_at = none;
  worker_id = none;
  version = r.version + 1;
}

unfoldable pub retried_row : Clock → ℕ → Text → TaskRun → TaskRun
retried_row clock delay error r = record r {
  state = ready;
  scheduled_at = clock.process + delay;
  last_error = some (take 4000 error);
  lease_expires_at = none;
  worker_id = none;
  version = r.version + 1;
}

-- the two ways in which record_failure goes on, from the row that it has read
unfoldable pub fail_for_good : Clock → ℕ → ℕ → Text → TaskRun → M (Option TaskState)
unfolding failed_row assigned update_task_runs close_attempt block_descendants
fail_for_good clock task_run_id worker error seen = do
  let terminal = if leb seen.max_attempts seen.attempt then dead_letter else TaskState.failed
  update_task_runs (assigned task_run_id worker) (failed_row clock terminal error)
  close_attempt clock task_run_id seen.attempt terminal (some error)
  block_descendants clock task_run_id
  pure (some terminal)

unfoldable pub fail_and_retry : Clock → ℕ → ℕ → Text → TaskRun → ℕ → M (Option TaskState)
unfolding retried_row assigned update_task_runs close_attempt
fail_and_retry clock task_run_id worker error seen delay = do
  update_task_runs (assigned task_run_id worker) (retried_row clock delay error)
  close_attempt clock task_run_id seen.attempt retrying (some error)
  pure (some retrying)

abbrev pub apply_delay : Clock → ℕ → ℕ → Text → TaskRun → Option ℕ → M (Option TaskState)
apply_delay clock task_run_id worker error seen none =
    fail_for_good clock task_run_id worker error seen
apply_delay clock task_run_id worker error seen (some delay) =
    fail_and_retry clock task_run_id worker error seen delay

-- `task_run.task`, which the foreign key promises
abbrev pub task_of : List Task → TaskRun → Option Task
task_of tasks r = find (λ t. t.id == r.task_id) tasks

-- record_failure after its read of the row; `draw` is what the policy's random source gives
unfoldable pub finish_failure : Clock → ℕ → ℕ → ℕ → Text → TaskRun → M (Option TaskState)
unfolding fail_for_good fail_and_retry
finish_failure clock draw task_run_id worker error seen s = elim (task_of s.tasks seen) [
  | none ↦ err key_error
  | some task ↦
      (lift (build_policy (some task.retry_policy)) >>= λ policy.
      lift (next_delay policy seen.attempt draw) >>= λ delay.
      apply_delay clock task_run_id worker error seen delay)
        s
]

-- record_failure
unfoldable pub record_failure : Clock → ℕ → ℕ → ℕ → Text → M (Option TaskState)
unfolding finish_failure
record_failure clock draw task_run_id worker error s = elim (find_run task_run_id s.task_runs) [
  | none ↦ ok (none, s)
  | some r ↦
      if not (holds r.worker_id worker)
      then ok (none, s)
      else finish_failure clock draw task_run_id worker error r s
]

abbrev pub expiry_error : Text
expiry_error = codes "lease expired; worker presumed dead"

abbrev pub before : Option ℕ → ℕ → Bool
before none now = false
before (some t) now = ltb t now

-- WHERE state = 'RUNNING' AND lease_expires_at < now
unfoldable pub expired : ℕ → TaskRun → Bool
expired now r = same r.state TaskState.running && before r.lease_expires_at now

unfoldable pub requeued_row : TaskRun → TaskRun
requeued_row r = record r {
  state = ready;
  worker_id = none;
  lease_expires_at = none;
  last_error = some expiry_error;
  version = r.version + 1;
}

unfoldable pub close_all : Clock → List TaskRun → M (Unit {0})
unfolding close_attempt
close_all clock [] = pure tt
close_all clock (r ∷ rows) =
    close_attempt clock r.id r.attempt TaskState.failed (some expiry_error) >>= λ _.
    close_all clock rows

-- reap_expired_leases
unfoldable pub reap_expired_leases : Clock → M ℕ
unfolding expired requeued_row update_task_runs close_all
reap_expired_leases clock = do
  reaped ← gets (λ s. select (expired clock.process) s.task_runs)
  update_task_runs (expired clock.process) requeued_row
  close_all clock reaped
  pure (length reaped)
