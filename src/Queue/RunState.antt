-- ===== src/Queue/RunState.antt =====
-- Cancelling a run, and the cached state of a run.
use distributed_job_orchestr.Common.{
  ℕ, ◌≡◌, refl, true, List, [], ◌∷◌, All, arith, ◌==◌, if◌then◌else◌,
}
use distributed_job_orchestr.State.{RunState, is_terminal, derive_run_state, is_terminal_run}
use distributed_job_orchestr.Queue.Rows.{TaskRun, WorkflowRun, Store, Clock, is_some}
use distributed_job_orchestr.Queue.Monad.{ok, patch, count}
use distributed_job_orchestr.Queue.Runs.{
  states_of, refreshed, refresh_run_state, cancellable, cancelled_row, cancel,
}
use distributed_job_orchestr.Queue.Moves.{IsTable}
use distributed_job_orchestr.Queue.Fits.{update-Fits, cancelled-Fits}

cancelled-ends :
    (clock : Clock) (run : ℕ) (r : TaskRun)
    → let x = if cancellable run r then cancelled_row clock r else r in
      x.run_id ≡ run → is_terminal x.state ≡ true
unfolding cancellable cancelled_row is_terminal
cancelled-ends clock run r h = ground arith

All-end :
    (clock : Clock) (run : ℕ) (rows : List TaskRun)
    → All
        (λ r. r.run_id ≡ run → is_terminal r.state ≡ true)
        (patch (cancellable run) (cancelled_row clock) rows)
All-end clock run [] = tt
All-end clock run (r ∷ rows) = (cancelled-ends clock run r, All-end clock run rows)

-- On a sound table cancelling always returns, with the number of rows that it cancelled; then
-- every row of the run is terminal. It does not touch the attempts.
pub cancel_returns :
    (clock : Clock) (run : ℕ) (s : Store)
    → IsTable s.task_runs
    → (s' : Store) × (cancel clock run s ≡ ok (count (cancellable run) s.task_runs, s'))
      × (s'.task_runs ≡ patch (cancellable run) (cancelled_row clock) s.task_runs)
      × All (λ r. r.run_id ≡ run → is_terminal r.state ≡ true) s'.task_runs
      × (s'.attempts ≡ s.attempts)
unfolding cancel
cancel_returns clock run s v =
    let rows = patch (cancellable run) (cancelled_row clock) s.task_runs in
    let derived = derive_run_state (states_of run rows) in
    let t = record s {
      task_runs = rows;
      runs = patch (λ r. r.id == run) (refreshed clock derived) s.runs;
    } in
    let written = update-Fits _ _ (cancelled-Fits clock run) s v.sound in
    (t, rw written, refl, All-end clock run s.task_runs, refl)

-- A run that is finished was started: the CHECK constraint of `workflow_runs`.
abbrev pub IsTimed : WorkflowRun → Type 0
IsTimed w = is_some w.finished_at ≡ true → is_some w.started_at ≡ true

-- The cached state is the derived one.
abbrev pub IsCurrent : ℕ → RunState → WorkflowRun → Type 0
IsCurrent run derived w = w.id ≡ run → w.state ≡ derived

refresh-one :
    (clock : Clock) (run : ℕ) (derived : RunState) (w : WorkflowRun)
    → IsTimed w
    → let x = if w.id == run then refreshed clock derived w else w in
      IsTimed x × IsCurrent run derived x
unfolding refreshed is_terminal_run
refresh-one clock run derived w h = ground arith

refresh-All :
    (clock : Clock) (run : ℕ) (derived : RunState) (runs : List WorkflowRun)
    → All IsTimed runs
    → All
        (λ w. IsTimed w × IsCurrent run derived w)
        (patch (λ w. w.id == run) (refreshed clock derived) runs)
refresh-All clock run derived [] h = tt
refresh-All clock run derived (w ∷ runs) h =
    (refresh-one clock run derived w h.0, refresh-All clock run derived runs h.1)

-- A refresh always returns the state derived from the run's rows, stores exactly it in the row of
-- that run and changes no task; if no run is finished without being started, that holds afterwards
-- too.
pub refresh_run_state_lem :
    (clock : Clock) (run : ℕ) (s : Store)
    → All IsTimed s.runs
    → let derived = derive_run_state (states_of run s.task_runs) in
      (s' : Store) × (refresh_run_state clock run s ≡ ok (derived, s'))
      × All (λ w. IsTimed w × IsCurrent run derived w) s'.runs
      × (s'.task_runs ≡ s.task_runs)
unfolding refresh_run_state
refresh_run_state_lem clock run s h =
    let derived = derive_run_state (states_of run s.task_runs) in
    (
      record s { runs = patch (λ w. w.id == run) (refreshed clock derived) s.runs },
      refl,
      refresh-All clock run derived s.runs h,
      refl,
    )

IsCurrent-All :
    (clock : Clock) (run : ℕ) (derived : RunState) (runs : List WorkflowRun)
    → All (IsCurrent run derived) (patch (λ w. w.id == run) (refreshed clock derived) runs)
unfolding refreshed
IsCurrent-All clock run derived [] = tt
IsCurrent-All clock run derived (w ∷ runs) = (ground arith, IsCurrent-All clock run derived runs)

-- The part of a refresh that needs no condition on the runs.
pub refresh_run_state-IsCurrent :
    (clock : Clock) (run : ℕ) (s : Store)
    → let derived = derive_run_state (states_of run s.task_runs) in
      (s' : Store) × (refresh_run_state clock run s ≡ ok (derived, s'))
      × All (IsCurrent run derived) s'.runs
      × (s'.task_runs ≡ s.task_runs)
unfolding refresh_run_state
refresh_run_state-IsCurrent clock run s =
    let derived = derive_run_state (states_of run s.task_runs) in
    (
      record s { runs = patch (λ w. w.id == run) (refreshed clock derived) s.runs },
      refl,
      IsCurrent-All clock run derived s.runs,
      refl,
    )
