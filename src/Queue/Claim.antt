-- ===== src/Queue/Claim.antt =====
-- TaskQueueRepository.claim_batch and renew_lease.
use distributed_job_orchestr.Common.{
  ℕ, ◌+◌, Bool, not, ◌&&◌, ◌||◌, List, [], ◌∷◌, ◌++◌, map, Option, none, some, leb, ◌==◌, any, take,
  if◌then◌else◌,
}
use distributed_job_orchestr.Common.Int.{ltb_ℤ, leb_ℤ}
use distributed_job_orchestr.Common.Text.{Text}
use distributed_job_orchestr.State.{TaskState, ready, same}
use distributed_job_orchestr.Retry.Build.{Spec}
use distributed_job_orchestr.Queue.Rows.{
  Json, Task, TaskRun, TaskAttempt, Clock, elem, coalesce, owned,
}
use distributed_job_orchestr.Queue.Monad.{
  conflict_error, key_error, Result, ok, err, M, pure, ◌>>=◌, ◌>>◌, gets, select, count, find,
  update_task_runs,
}

-- ClaimedTask
pub record ClaimedTask : Type 0 where
  pub task_run_id : ℕ
  pub run_id : ℕ
  pub executor : Text
  pub params : Json
  pub attempt : ℕ
  pub max_attempts : ℕ
  pub timeout_seconds : ℕ
  pub lease_expires_at : Option ℕ
  pub retry_policy : Spec

-- ORDER BY priority DESC, scheduled_at
unfoldable pub precedes : TaskRun → TaskRun → Bool
precedes a b =
    ltb_ℤ b.priority a.priority
    || (leb_ℤ b.priority a.priority && leb a.scheduled_at b.scheduled_at)

unfoldable pub insert_row : TaskRun → List TaskRun → List TaskRun
insert_row r [] = r ∷ []
insert_row r (x ∷ rows) =
    let later = x ∷ insert_row r rows in if precedes r x then r ∷ x ∷ rows else later

-- Rows that the ORDER BY leaves equal keep the order of the table; the database may choose another.
unfoldable pub order_rows : List TaskRun → List TaskRun
unfolding insert_row precedes
order_rows [] = []
order_rows (r ∷ rows) = insert_row r (order_rows rows)

-- WHERE state = 'READY' AND scheduled_at <= now, less the rows that SKIP LOCKED steps over
unfoldable pub claimable : ℕ → (ℕ → Bool) → TaskRun → Bool
claimable now locked r = same r.state ready && leb r.scheduled_at now && not (locked r.id)

-- the subquery of candidates
unfoldable pub candidates : ℕ → (ℕ → Bool) → ℕ → List TaskRun → List ℕ
unfolding claimable order_rows
candidates now locked limit rows =
    map (λ r. r.id) (take limit (order_rows (select (claimable now locked) rows)))

-- the SET clause of the claim
unfoldable pub claimed_row : Clock → ℕ → ℕ → TaskRun → TaskRun
claimed_row clock lease_until worker r = record r {
  state = TaskState.running;
  worker_id = some worker;
  lease_expires_at = some lease_until;
  attempt = r.attempt + 1;
  started_at = coalesce r.started_at clock.database;
  version = r.version + 1;
}

-- `definitions[row.task_id]`
unfoldable pub definition_of : List Task → ℕ → Option Task
definition_of tasks id = find (λ t. t.id == id) tasks

-- the attempt row and the ClaimedTask of one claimed row
unfoldable pub new_attempt : Clock → ℕ → TaskRun → TaskAttempt
new_attempt clock worker r = record {
  task_run_id = r.id;
  attempt = r.attempt;
  worker_id = worker;
  state = TaskState.running;
  started_at = clock.database;
  finished_at = none;
  duration = none;
  error = none;
}

unfoldable pub claimed_task : Task → TaskRun → ClaimedTask
claimed_task d r = record {
  task_run_id = r.id;
  run_id = r.run_id;
  executor = d.executor;
  params = d.params;
  attempt = r.attempt;
  max_attempts = r.max_attempts;
  timeout_seconds = d.timeout_seconds;
  lease_expires_at = r.lease_expires_at;
  retry_policy = d.retry_policy;
}

abbrev pub add_claim :
    TaskAttempt
    → ClaimedTask
    → Result (List TaskAttempt × List ClaimedTask)
    → Result (List TaskAttempt × List ClaimedTask)
add_claim a c (ok (added, results)) = ok (a ∷ added, c ∷ results)
add_claim a c (err e) = err e

-- the loop over the claimed rows: an attempt to add and a result for each
unfoldable pub describe_claims :
    Clock → ℕ → List Task → List TaskRun → Result (List TaskAttempt × List ClaimedTask)
unfolding definition_of new_attempt claimed_task
describe_claims clock worker tasks [] = ok ([], [])
describe_claims clock worker tasks (r ∷ rows) =
    let rest = describe_claims clock worker tasks rows in
    elim (definition_of tasks r.task_id) [
      | none ↦ err key_error
      | some d ↦ add_claim (new_attempt clock worker r) (claimed_task d r) rest
    ]

abbrev pub same_attempt : TaskAttempt → TaskAttempt → Bool
same_attempt a b = a.task_run_id == b.task_run_id && a.attempt == b.attempt

-- the flush: UNIQUE (task_run_id, attempt)
unfoldable pub insert_attempts : List TaskAttempt → List TaskAttempt → Result (List TaskAttempt)
insert_attempts table [] = ok table
insert_attempts table (a ∷ added) =
    let rest = insert_attempts (table ++ a ∷ []) added in
    if any (same_attempt a) table then err conflict_error else rest

abbrev pub store_attempts : List ClaimedTask → Result (List TaskAttempt) → M (List ClaimedTask)
store_attempts results (err e) s = err e
store_attempts results (ok table) s = ok (results, record s { attempts = table })

abbrev pub store_claims : Result (List TaskAttempt × List ClaimedTask) → M (List ClaimedTask)
store_claims (err e) s = err e
store_claims (ok (added, results)) s = store_attempts results (insert_attempts s.attempts added) s

abbrev pub finish_claim : Clock → ℕ → List TaskRun → M (List ClaimedTask)
finish_claim clock worker claimed s = store_claims (describe_claims clock worker s.tasks claimed) s

-- claim_batch
unfoldable pub claim_batch : Clock → ℕ → (ℕ → Bool) → ℕ → ℕ → M (List ClaimedTask)
unfolding candidates claimed_row describe_claims insert_attempts update_task_runs
claim_batch clock lease_seconds locked worker limit = do
  let now = clock.process
  let lease_until = now + lease_seconds
  ids ← gets (λ s. candidates now locked limit s.task_runs)
  before ← gets (λ s. select (λ r. elem r.id ids) s.task_runs)
  update_task_runs (λ r. elem r.id ids) (claimed_row clock lease_until worker)
  finish_claim clock worker (map (claimed_row clock lease_until worker) before)

-- renew_lease
unfoldable pub renew_lease : Clock → ℕ → ℕ → ℕ → M Bool
unfolding update_task_runs
renew_lease clock lease_seconds task_run_id worker = do
  let held = λ (r : TaskRun). owned task_run_id worker r
  matched ← gets (λ s. count held s.task_runs)
  update_task_runs held (λ r. record r {
    lease_expires_at = some (clock.process + lease_seconds);
    version = r.version + 1;
  })
  pure (matched == 1)
