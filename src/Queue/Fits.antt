-- ===== src/Queue/Fits.antt =====
-- The UPDATEs of the queue, the claim aside, break no CHECK constraint on sound rows.
use distributed_job_orchestr.Common.{
  ℕ, ◌+◌, ◌≡◌, refl, Bool, true, false, ◌≢◌, ◌&&◌, List, [], ◌∷◌, Option, some, arith, ltb, ◌==◌,
  Bool-cases, inl, inr,
}
use distributed_job_orchestr.Common.Text.{Text}
use distributed_job_orchestr.State.{TaskState}
use distributed_job_orchestr.Queue.Rows.{Json, TaskRun, Store, Clock, checks, owned}
use distributed_job_orchestr.Queue.Monad.{ok, patch, breaks, update_task_runs}
use distributed_job_orchestr.Queue.Complete.{
  sibling, decremented, released, blockable, blocked_row, succeeded_row, assigned, failed_row,
  retried_row, expired, requeued_row,
}
use distributed_job_orchestr.Queue.Runs.{cancellable, cancelled_row}
use distributed_job_orchestr.Queue.Moves.{IsSound, AllSound}

abbrev pub Fits : (TaskRun → Bool) → (TaskRun → TaskRun) → Type 0
Fits p f = (r : TaskRun) → IsSound r → p r ≡ true → checks (f r) ≡ true

Fits-breaks :
    (p : TaskRun → Bool) (f : TaskRun → TaskRun) (rows : List TaskRun)
    → Fits p f
    → AllSound rows
    → breaks p f rows ≡ false
unfolding breaks
Fits-breaks p f [] h v = refl
Fits-breaks p f (r ∷ rows) h v = elim (Bool-cases (p r)) [
  | inl hit ↦ rw (hit, h r v.0 hit) (Fits-breaks p f rows h v.1)
  | inr miss ↦ rw miss (Fits-breaks p f rows h v.1)
]

pub update-Fits :
    (p : TaskRun → Bool) (f : TaskRun → TaskRun)
    → Fits p f
    → (s : Store) → AllSound s.task_runs
    → update_task_runs p f s ≡ ok (tt, record s { task_runs = patch p f s.task_runs })
unfolding update_task_runs
update-Fits p f h s v = rw (Fits-breaks p f s.task_runs h v)

pub renewed-Fits :
    (id worker lease : ℕ)
    → Fits
        (owned id worker)
        (λ r. record r { lease_expires_at = some lease; version = r.version + 1 })
unfolding owned checks
renewed-Fits id worker lease r v h = ground arith

pub succeeded-Fits :
    (clock : Clock) (output : Option Json) (id worker : ℕ)
    → Fits (owned id worker) (succeeded_row clock output)
unfolding owned succeeded_row checks
succeeded-Fits clock output id worker r v h = ground arith

pub decremented-Fits :
    (run : ℕ) (ids : List ℕ) → Fits (λ r. sibling run ids r && ltb 0 r.pending_deps) decremented
unfolding sibling decremented checks
decremented-Fits run ids r v h = ground arith

pub released-Fits :
    (run : ℕ) (ids : List ℕ) → Fits (λ r. sibling run ids r && r.pending_deps == 0) released
unfolding sibling released checks
released-Fits run ids r v h = ground arith

pub blocked-Fits :
    (clock : Clock) (run : ℕ) (ids : List ℕ) → Fits (blockable run ids) (blocked_row clock)
unfolding blockable blocked_row checks
blocked-Fits clock run ids r v h = ground arith

pub failed-Fits :
    (clock : Clock) (t : TaskState) (error : Text) (id worker : ℕ)
    → t ≢ TaskState.running
    → Fits (assigned id worker) (failed_row clock t error)
unfolding assigned failed_row checks
failed-Fits clock t error id worker e r v h = ground arith

pub retried-Fits :
    (clock : Clock) (delay : ℕ) (error : Text) (id worker : ℕ)
    → Fits (assigned id worker) (retried_row clock delay error)
unfolding assigned retried_row checks
retried-Fits clock delay error id worker r v h = ground arith

pub requeued-Fits : (now : ℕ) → Fits (expired now) requeued_row
unfolding expired requeued_row checks
requeued-Fits now r v h = ground arith

pub cancelled-Fits : (clock : Clock) (run : ℕ) → Fits (cancellable run) (cancelled_row clock)
unfolding cancellable cancelled_row checks
cancelled-Fits clock run r v h = ground arith
