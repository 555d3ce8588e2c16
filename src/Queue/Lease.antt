-- ===== src/Queue/Lease.antt =====
-- A worker that does not hold a task's lease changes nothing: the loser discards its work.
use distributed_job_orchestr.Common.{
  ℕ, ◌≡◌, refl, Bool, false, List, [], ◌∷◌, Option, none, some, All, arith, ◌==◌, Bool-cases, inl,
  inr,
}
use distributed_job_orchestr.Common.Text.{Text}
use distributed_job_orchestr.Queue.Rows.{Json, TaskRun, Store, Clock, holds, owned}
use distributed_job_orchestr.Queue.Monad.{ok, select, count, patch, breaks, update_task_runs}
use distributed_job_orchestr.Queue.Claim.{renew_lease}
use distributed_job_orchestr.Queue.Complete.{
  record_success, record_failure, find_run, succeeded_row,
}

-- No row of that id is assigned to the worker.
abbrev pub NotHeld : ℕ → ℕ → List TaskRun → Type 0
NotHeld id worker = All (λ r. r.id ≡ id → holds r.worker_id worker ≡ false)

-- An UPDATE that matches nothing.
module _ (p : TaskRun → Bool) (f : TaskRun → TaskRun) where
  pub patch_none : (rows : List TaskRun) → All (λ r. p r ≡ false) rows → patch p f rows ≡ rows
  patch_none [] h = refl
  patch_none (r ∷ rows) h = rw (h.0, patch_none rows h.1)

  pub breaks_none : (rows : List TaskRun) → All (λ r. p r ≡ false) rows → breaks p f rows ≡ false
  unfolding breaks
  breaks_none [] h = refl
  breaks_none (r ∷ rows) h = rw (h.0, breaks_none rows h.1)

  pub update_none :
      (s : Store) → All (λ r. p r ≡ false) s.task_runs → update_task_runs p f s ≡ ok (tt, s)
  unfolding update_task_runs
  update_none s h = rw (breaks_none s.task_runs h, patch_none s.task_runs h)

pub select_none :
    (p : TaskRun → Bool) (rows : List TaskRun) → All (λ r. p r ≡ false) rows → select p rows ≡ []
select_none p [] h = refl
select_none p (r ∷ rows) h = rw (h.0, select_none p rows h.1)

count_none :
    (p : TaskRun → Bool) (rows : List TaskRun) → All (λ r. p r ≡ false) rows → count p rows ≡ 0
count_none p [] h = refl
count_none p (r ∷ rows) h = rw (h.0, count_none p rows h.1)

not_owned :
    (id worker : ℕ) (rows : List TaskRun)
    → NotHeld id worker rows
    → All (λ r. owned id worker r ≡ false) rows
unfolding owned
not_owned id worker [] h = tt
not_owned id worker (r ∷ rows) h = (ground (arith, h.0), not_owned id worker rows h.1)

found-NotHeld :
    (id worker : ℕ) (rows : List TaskRun) {r : TaskRun}
    → NotHeld id worker rows
    → find_run id rows ≡ some r
    → holds r.worker_id worker ≡ false
found-NotHeld id worker [] h e = cc
found-NotHeld id worker (x ∷ rows) h e = elim (Bool-cases (x.id == id)) [
  | inl here ↦ ground (arith, h.0)
  | inr there ↦ found-NotHeld id worker rows h.1 (rw there at e)
]

failure_refused :
    (clock : Clock) (draw id worker : ℕ) (error : Text) (s : Store) (o : Option TaskRun)
    → NotHeld id worker s.task_runs
    → find_run id s.task_runs ≡ o
    → record_failure clock draw id worker error s ≡ ok (none, s)
unfolding record_failure
failure_refused clock draw id worker error s none h e = rw (e, record_failure)
failure_refused clock draw id worker error s (some r) h e =
    rw (e, record_failure, found-NotHeld id worker s.task_runs h e)

-- A worker that no row of the task names is told so by all three calls, renewing, reporting a
-- success and reporting a failure, and none of them changes anything.
pub stale_worker_refused :
    (clock : Clock) (lease draw id worker : ℕ) (output : Option Json) (error : Text) (s : Store)
    → NotHeld id worker s.task_runs
    → (renew_lease clock lease id worker s ≡ ok (false, s))
      × (record_success clock id worker output s ≡ ok (false, s))
      × (record_failure clock draw id worker error s ≡ ok (none, s))
unfolding renew_lease record_success
stale_worker_refused clock lease draw id worker output error s h =
    let free = not_owned id worker s.task_runs h in
    (
      rw (update_none (owned id worker) _ s free, count_none (owned id worker) s.task_runs free),
      rw (
        update_none (owned id worker) (succeeded_row clock output) s free,
        select_none (owned id worker) s.task_runs free,
      ),
      failure_refused clock draw id worker error s (find_run id s.task_runs) h refl,
    )
