-- ===== src/Queue/Keeps.antt =====
-- Every operation of the queue moves the rows of `task_runs` as `Moves` allows.
use distributed_job_orchestr.Common.{
  ℕ, zero, suc, ◌+◌, ◌≡◌, Bool, true, false, ◌&&◌, List, [], ◌∷◌, Option, none, some, arith, length,
  ltb, leb, ◌==◌, Bool-cases, Option-cases, inl, inr, if◌then◌else◌,
}
use distributed_job_orchestr.Common.Text.{Text}
use distributed_job_orchestr.State.{TaskState, dead_letter, retrying, is_terminal}
use distributed_job_orchestr.Retry.{next_delay}
use distributed_job_orchestr.Retry.Build.{build_policy}
use distributed_job_orchestr.Queue.Rows.{Json, TaskRun, Store, Clock, checks, holds, owned}
use distributed_job_orchestr.Queue.Monad.{
  Error, ok, err, M, pure, lift, ◌>>=◌, select, count, update_task_runs,
}
use distributed_job_orchestr.Queue.Claim.{renew_lease}
use distributed_job_orchestr.Queue.Complete.{
  close_attempt, sibling, decremented, released, unblock_rows, unblock_children, blockable,
  blocked_row, block_loop, block_descendants, succeeded_row, after_success, record_success,
  assigned, failed_row, retried_row, fail_for_good, fail_and_retry, finish_failure, record_failure,
  expired, requeued_row, close_all, reap_expired_leases, find_run, child_ids, task_of, apply_delay,
  is_empty, expiry_error,
}
use distributed_job_orchestr.Queue.Runs.{refresh_run_state, cancellable, cancelled_row, cancel}
use distributed_job_orchestr.Queue.Moves.{
  Keeps, Writes, update-Keeps, bind-Keeps, still-Keeps, pure-Keeps, gets-Keeps, lift-Keeps,
}

renewed-Writes :
    (id worker lease : ℕ)
    → Writes
        (owned id worker)
        (λ r. record r { lease_expires_at = some lease; version = r.version + 1 })
unfolding owned checks is_terminal
renewed-Writes id worker lease r v h c = ground arith

pub succeeded-Writes :
    (clock : Clock) (output : Option Json) (id worker : ℕ)
    → Writes (owned id worker) (succeeded_row clock output)
unfolding owned succeeded_row is_terminal
succeeded-Writes clock output id worker r v h c = ground arith

pub decremented-Writes :
    (run : ℕ) (ids : List ℕ) → Writes (λ r. sibling run ids r && ltb 0 r.pending_deps) decremented
unfolding sibling decremented is_terminal
decremented-Writes run ids r v h c = ground arith

released-Writes :
    (run : ℕ) (ids : List ℕ) → Writes (λ r. sibling run ids r && r.pending_deps == 0) released
unfolding sibling released is_terminal
released-Writes run ids r v h c = ground arith

pub blocked-Writes :
    (clock : Clock) (run : ℕ) (ids : List ℕ) → Writes (blockable run ids) (blocked_row clock)
unfolding blockable blocked_row is_terminal
blocked-Writes clock run ids r v h c = ground arith

pub failed-Writes :
    (clock : Clock) (t : TaskState) (error : Text) (id worker : ℕ)
    → is_terminal t ≡ true
    → Writes (assigned id worker) (failed_row clock t error)
unfolding assigned failed_row is_terminal
failed-Writes clock t error id worker e r v h c = ground arith

pub retried-Writes :
    (clock : Clock) (delay : ℕ) (error : Text) (id worker : ℕ)
    → Writes (assigned id worker) (retried_row clock delay error)
unfolding assigned retried_row is_terminal
retried-Writes clock delay error id worker r v h c = ground arith

requeued-Writes : (now : ℕ) → Writes (expired now) requeued_row
unfolding expired requeued_row is_terminal
requeued-Writes now r v h c = ground arith

cancelled-Writes : (clock : Clock) (run : ℕ) → Writes (cancellable run) (cancelled_row clock)
unfolding cancellable cancelled_row is_terminal
cancelled-Writes clock run r v h c = ground arith

pub close_attempt-Keeps :
    (clock : Clock) (id attempt : ℕ) (t : TaskState) (error : Option Text)
    → Keeps (close_attempt clock id attempt t error)
unfolding close_attempt
close_attempt-Keeps clock id attempt t error =
    still-Keeps (close_attempt clock id attempt t error) (λ s a s' e. ground arith)

pub renew_lease-Keeps :
    (clock : Clock) (lease id worker : ℕ) → Keeps (renew_lease clock lease id worker)
unfolding renew_lease
renew_lease-Keeps clock lease id worker = bind-Keeps _ _ (gets-Keeps _) λ matched.
    bind-Keeps _ _ (update-Keeps _ _ (renewed-Writes id worker (clock.process + lease)))
      λ _. pure-Keeps (matched == 1)

unblock_rows-Keeps : (run : ℕ) (ids : List ℕ) → Keeps (unblock_rows run ids)
unfolding unblock_rows
unblock_rows-Keeps run ids =
    bind-Keeps _ _ (update-Keeps _ _ (decremented-Writes run ids))
      λ _. update-Keeps _ _ (released-Writes run ids)

pub unblock_children-Keeps : (id : ℕ) → Keeps (unblock_children id)
unfolding unblock_children
unblock_children-Keeps id = record {
  rows = λ s a s' e v. elim (Option-cases (find_run id s.task_runs)) [
    | inl gone ↦
        (still-Keeps (pure tt) (λ s b s' e. ground arith)).rows s a s'
          (rw (gone, unblock_children) at e) v
    | inr (r, found) ↦
        (unblock_rows-Keeps r.run_id (child_ids (r.task_id ∷ []) s.dependencies)).rows s a s'
          (rw (found, unblock_children) at e) v
  ];
}

pub after_success-Keeps :
    (clock : Clock) (id : ℕ) (closed : List TaskRun) → Keeps (after_success clock id closed)
after_success-Keeps clock id [] = pure-Keeps false
after_success-Keeps clock id (_ ∷ _ ∷ _) = pure-Keeps false
after_success-Keeps clock id (r ∷ []) =
    bind-Keeps _ _ (close_attempt-Keeps clock id r.attempt TaskState.succeeded none)
      λ _. bind-Keeps _ _ (unblock_children-Keeps id) λ _. pure-Keeps true

pub record_success-Keeps :
    (clock : Clock) (id worker : ℕ) (output : Option Json)
    → Keeps (record_success clock id worker output)
unfolding record_success
record_success-Keeps clock id worker output = bind-Keeps _ _ (gets-Keeps _) λ closed.
    bind-Keeps _ _ (update-Keeps _ _ (succeeded-Writes clock output id worker))
      λ _. after_success-Keeps clock id closed

if-Keeps : {A : Type 0} (b : Bool) (m n : M A) → Keeps m → Keeps n → Keeps (if b then m else n)
if-Keeps true m n p q = p
if-Keeps false m n p q = q

none_ok : {A : Type 0} {x : Error} {y : A × Store} → err x ≡ ok y → ⊥
none_ok e = cc

block_loop-Keeps :
    (fuel : ℕ) (clock : Clock) (run : ℕ) (frontier : List ℕ)
    → Keeps (block_loop fuel clock run frontier)
unfolding block_loop
block_loop-Keeps zero clock run frontier = record { rows = λ s a s' e v. cc }
block_loop-Keeps (suc fuel) clock run frontier = record {
  rows = λ s a s' e v.
      let children = child_ids frontier s.dependencies in
      let matched = count (blockable run children) s.task_runs in
      elim (Bool-cases (is_empty children)) [
        | inl leaf ↦ (pure-Keeps tt).rows s a s' (rw (leaf, block_loop) at e) v
        | inr more ↦
            (bind-Keeps (update_task_runs (blockable run children) (blocked_row clock))
                (λ _. if matched == 0 then pure tt else block_loop fuel clock run children)
                (update-Keeps _ _ (blocked-Writes clock run children))
                λ _.
                  if-Keeps (matched == 0) _ _ (pure-Keeps tt)
                    (block_loop-Keeps fuel clock run children)).rows
              s a s' (rw (more, block_loop) at e) v
      ];
}

pub block_descendants-Keeps : (clock : Clock) (id : ℕ) → Keeps (block_descendants clock id)
unfolding block_descendants
block_descendants-Keeps clock id = record {
  rows = λ s a s' e v. elim (Option-cases (find_run id s.task_runs)) [
    | inl gone ↦ (pure-Keeps tt).rows s a s' (rw (gone, block_descendants) at e) v
    | inr (r, found) ↦
        (block_loop-Keeps (length s.task_runs + 1) clock r.run_id (r.task_id ∷ [])).rows s a s'
          (rw (found, block_descendants) at e) v
  ];
}

terminal_choice :
    (r : TaskRun)
    → is_terminal (if leb r.max_attempts r.attempt then dead_letter else TaskState.failed) ≡ true
unfolding is_terminal
terminal_choice r = ground arith

fail_for_good-Keeps :
    (clock : Clock) (id worker : ℕ) (error : Text) (r : TaskRun)
    → Keeps (fail_for_good clock id worker error r)
unfolding fail_for_good
fail_for_good-Keeps clock id worker error r =
    let terminal = if leb r.max_attempts r.attempt then dead_letter else TaskState.failed in
    bind-Keeps _ _
      (update-Keeps _ _ (failed-Writes clock terminal error id worker (terminal_choice r)))
      λ _.
        bind-Keeps _ _ (close_attempt-Keeps clock id r.attempt terminal (some error))
          λ _. bind-Keeps _ _ (block_descendants-Keeps clock id) λ _. pure-Keeps (some terminal)

fail_and_retry-Keeps :
    (clock : Clock) (id worker : ℕ) (error : Text) (r : TaskRun) (delay : ℕ)
    → Keeps (fail_and_retry clock id worker error r delay)
unfolding fail_and_retry
fail_and_retry-Keeps clock id worker error r delay =
    bind-Keeps _ _ (update-Keeps _ _ (retried-Writes clock delay error id worker)) λ _.
      bind-Keeps _ _ (close_attempt-Keeps clock id r.attempt retrying (some error))
        λ _. pure-Keeps (some retrying)

apply_delay-Keeps :
    (clock : Clock) (id worker : ℕ) (error : Text) (r : TaskRun) (delay : Option ℕ)
    → Keeps (apply_delay clock id worker error r delay)
apply_delay-Keeps clock id worker error r none = fail_for_good-Keeps clock id worker error r
apply_delay-Keeps clock id worker error r (some d) = fail_and_retry-Keeps clock id worker error r d

pub finish_failure-Keeps :
    (clock : Clock) (draw id worker : ℕ) (error : Text) (r : TaskRun)
    → Keeps (finish_failure clock draw id worker error r)
unfolding finish_failure
finish_failure-Keeps clock draw id worker error r = record {
  rows = λ s a s' e v. elim (Option-cases (task_of s.tasks r)) [
    | inl gone ↦ absurd (none_ok (rw (gone, finish_failure) at e))
    | inr (task, found) ↦
        (bind-Keeps (lift (build_policy (some task.retry_policy)))
            (λ policy. lift (next_delay policy r.attempt draw) >>= λ delay.
              apply_delay clock id worker error r delay)
            (lift-Keeps _)
            λ policy.
              bind-Keeps _ _ (lift-Keeps (next_delay policy r.attempt draw))
                λ delay. apply_delay-Keeps clock id worker error r delay).rows
          s a s' (rw (found, finish_failure) at e) v
  ];
}

pub record_failure-Keeps :
    (clock : Clock) (draw id worker : ℕ) (error : Text)
    → Keeps (record_failure clock draw id worker error)
unfolding record_failure
record_failure-Keeps clock draw id worker error = record {
  rows = λ s a s' e v. elim (Option-cases (find_run id s.task_runs)) [
    | inl gone ↦ (pure-Keeps none).rows s a s' (rw (gone, record_failure) at e) v
    | inr (r, found) ↦ elim (Bool-cases (holds r.worker_id worker)) [
      | inl mine ↦
          (finish_failure-Keeps clock draw id worker error r).rows s a s'
            (rw (found, record_failure, mine) at e) v
      | inr lost ↦ (pure-Keeps none).rows s a s' (rw (found, record_failure, lost) at e) v
    ]
  ];
}

close_all-Keeps : (clock : Clock) (rows : List TaskRun) → Keeps (close_all clock rows)
unfolding close_all
close_all-Keeps clock [] = pure-Keeps tt
close_all-Keeps clock (r ∷ rows) =
    bind-Keeps _ _ (close_attempt-Keeps clock r.id r.attempt TaskState.failed (some expiry_error))
      λ _. close_all-Keeps clock rows

pub reap_expired_leases-Keeps : (clock : Clock) → Keeps (reap_expired_leases clock)
unfolding reap_expired_leases
reap_expired_leases-Keeps clock =
    bind-Keeps _ _ (gets-Keeps (λ s. select (expired clock.process) s.task_runs)) λ reaped.
      bind-Keeps _ _ (update-Keeps _ _ (requeued-Writes clock.process))
        λ _. bind-Keeps _ _ (close_all-Keeps clock reaped) λ _. pure-Keeps (length reaped)

pub refresh_run_state-Keeps : (clock : Clock) (run : ℕ) → Keeps (refresh_run_state clock run)
unfolding refresh_run_state
refresh_run_state-Keeps clock run =
    still-Keeps (refresh_run_state clock run) (λ s a s' e. ground arith)

pub cancel-Keeps : (clock : Clock) (run : ℕ) → Keeps (cancel clock run)
unfolding cancel
cancel-Keeps clock run = bind-Keeps _ _ (gets-Keeps _) λ matched.
    bind-Keeps _ _ (update-Keeps _ _ (cancelled-Writes clock run))
      λ _. bind-Keeps _ _ (refresh_run_state-Keeps clock run) λ _. pure-Keeps matched
