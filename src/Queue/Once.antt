-- ===== src/Queue/Once.antt =====
-- Exactly-once effects: a task's success is accepted once, whoever reports it and whatever happens
-- in between.
use mathlib.Core.List.{Memᴰ}
use distributed_job_orchestr.Common.{
  ℕ, ◌≡◌, refl, sym, ◌∙◌, Bool, true, false, List, [], ◌∷◌, Option, none, All, arith, Bool-cases,
  inl, inr,
}
use distributed_job_orchestr.Common.Text.{Text}
use distributed_job_orchestr.State.{is_terminal}
use distributed_job_orchestr.Queue.Rows.{Json, TaskRun, Store, Clock, holds, owned}
use distributed_job_orchestr.Queue.Monad.{ok, select, patch, update_task_runs}
use distributed_job_orchestr.Queue.Complete.{
  record_success, record_failure, after_success, succeeded_row,
}
use distributed_job_orchestr.Queue.Moves.{
  IsSound, IsTable, Unique, Rows, Rows-IsTable, bind_inv, update-Keeps,
}
use distributed_job_orchestr.Queue.Keeps.{
  after_success-Keeps, succeeded-Writes, record_success-Keeps,
}
use distributed_job_orchestr.Queue.Candidates.{mem-select, same_row, pick}
use distributed_job_orchestr.Queue.Traces.{Call, run, run-Rows}
use distributed_job_orchestr.Queue.Lease.{NotHeld, stale_worker_refused}

-- Every row of that id has come to a terminal state.
abbrev pub Settled : ℕ → List TaskRun → Type 0
Settled id = All (λ r. r.id ≡ id → is_terminal r.state ≡ true)

pub Settled-Rows : (id : ℕ) (a b : List TaskRun) → Rows a b → Settled id a → Settled id b
Settled-Rows id [] [] p h = tt
Settled-Rows id (r ∷ a) (s ∷ b) p h = (
  λ e. let known = h.0 (sym p.0.id_kept ∙ e) in rw (p.0.terminal_kept known) known,
  Settled-Rows id a b p.1 h.1,
)
Settled-Rows id [] (_ ∷ _) p h = absurd p
Settled-Rows id (_ ∷ _) [] p h = absurd p

terminal-free :
    (r : TaskRun) (worker : ℕ)
    → IsSound r
    → is_terminal r.state ≡ true
    → holds r.worker_id worker ≡ false
unfolding is_terminal
terminal-free r worker v h = ground arith

pub Settled-NotHeld :
    (id worker : ℕ) (rows : List TaskRun)
    → All IsSound rows
    → Settled id rows
    → NotHeld id worker rows
Settled-NotHeld id worker [] v h = tt
Settled-NotHeld id worker (r ∷ rows) v h =
    (λ e. terminal-free r worker v.0 (h.0 e), Settled-NotHeld id worker rows v.1 h.1)

true≢false : true ≡ false → ⊥
true≢false e = cc

patched :
    (p : TaskRun → Bool) (f : TaskRun → TaskRun) (id : ℕ) (rows : List TaskRun)
    → All (λ r. r.id ≡ id → (p r ≡ true) × (is_terminal (f r).state ≡ true)) rows
    → ((r : TaskRun) → (f r).id ≡ r.id)
    → Settled id (patch p f rows)
patched p f id [] h k = tt
patched p f id (r ∷ rows) h k = elim (Bool-cases (p r)) [
  | inl hit ↦ rw hit (λ e. (h.0 (sym (k r) ∙ e)).1, patched p f id rows h.1 k)
  | inr miss ↦ rw miss (λ e. absurd (true≢false (sym (h.0 e).0 ∙ miss)), patched p f id rows h.1 k)
]

owned-id : (id worker : ℕ) (r : TaskRun) → owned id worker r ≡ true → r.id ≡ id
unfolding owned
owned-id id worker r h = ground arith

done-terminal :
    (clock : Clock) (output : Option Json) (r : TaskRun)
    → is_terminal (succeeded_row clock output r).state ≡ true
unfolding succeeded_row is_terminal
done-terminal clock output r = refl

done-id :
    (clock : Clock) (output : Option Json) (r : TaskRun) → (succeeded_row clock output r).id ≡ r.id
unfolding succeeded_row
done-id clock output r = refl

-- The row that the UPDATE of record_success matched is the only one of its id.
owner_settles :
    (clock : Clock) (output : Option Json) (id worker : ℕ) (rows : List TaskRun) (r : TaskRun)
    (more : List TaskRun)
    → Unique rows
    → select (owned id worker) rows ≡ r ∷ more
    → Settled id (patch (owned id worker) (succeeded_row clock output) rows)
owner_settles clock output id worker rows r more u e =
    let (inside, mine) = mem-select (owned id worker) rows r (rw e (Memᴰ.head refl)) in
    patched (owned id worker) (succeeded_row clock output) id rows
      (pick
        {P = λ x.
          x.id ≡ id
          → (owned id worker x ≡ true) × (is_terminal (succeeded_row clock output x).state ≡ true)}
        rows
        (λ x m ex.
          let one = same_row rows x r u m inside (ex ∙ sym (owned-id id worker r mine)) in
          (rw one mine, done-terminal clock output x)))
      (done-id clock output)

closed_settles :
    (clock : Clock) (id worker : ℕ) (output : Option Json) (rows : List TaskRun) (t s' : Store)
    (closed : List TaskRun)
    → Unique rows
    → t.task_runs ≡ patch (owned id worker) (succeeded_row clock output) rows
    → select (owned id worker) rows ≡ closed
    → after_success clock id closed t ≡ ok (true, s')
    → Settled id t.task_runs
closed_settles clock id worker output rows t s' [] u p e h = cc
closed_settles clock id worker output rows t s' (r ∷ more) u p e h =
    rw p (owner_settles clock output id worker rows r more u e)

pub update-patch :
    (p : TaskRun → Bool) (f : TaskRun → TaskRun) (s t : Store) (a : Unit {0})
    → update_task_runs p f s ≡ ok (a, t)
    → t.task_runs ≡ patch p f s.task_runs
unfolding update_task_runs
update-patch p f s t a e = ground arith

accepted_settles :
    (clock : Clock) (id worker : ℕ) (output : Option Json) (s s' : Store)
    → IsTable s.task_runs
    → record_success clock id worker output s ≡ ok (true, s')
    → Settled id s'.task_runs
unfolding record_success
accepted_settles clock id worker output s s' v e =
    let p = owned id worker in
    let f = succeeded_row clock output in
    let closed = select p s.task_runs in
    let (a, t, first, second) =
      bind_inv (update_task_runs p f s) (λ _. after_success clock id closed) e in
    let moved = (update-Keeps p f (succeeded-Writes clock output id worker)).rows s a t first v in
    let table = Rows-IsTable s.task_runs t.task_runs moved v in
    Settled-Rows id t.task_runs s'.task_runs
      ((after_success-Keeps clock id closed).rows t true s' second table)
      (closed_settles clock id worker output s.task_runs t s' closed v.unique
        (update-patch p f s t a first) refl second)

-- Once a success of a task in a sound table is accepted, no schedule of transactions leads to a
-- second one: any worker that reports the task again, as a success or as a failure, is refused,
-- and nothing changes.
pub success_once :
    (clock : Clock) (id worker : ℕ) (output : Option Json) (s s' : Store)
    (calls : List (Clock × Call)) (clock' : Clock) (draw worker' : ℕ) (output' : Option Json)
    (error : Text)
    → IsTable s.task_runs
    → record_success clock id worker output s ≡ ok (true, s')
    → (record_success clock' id worker' output' (run calls s') ≡ ok (false, run calls s'))
      × (record_failure clock' draw id worker' error (run calls s') ≡ ok (none, run calls s'))
success_once clock id worker output s s' calls clock' draw worker' output' error v e =
    let first =
      Rows-IsTable s.task_runs s'.task_runs
        ((record_success-Keeps clock id worker output).rows s true s' e v) v in
    let later = run-Rows calls s' first in
    let settled =
      Settled-Rows id s'.task_runs (run calls s').task_runs later
        (accepted_settles clock id worker output s s' v e) in
    let table = Rows-IsTable s'.task_runs (run calls s').task_runs later first in
    let refused =
      stale_worker_refused clock' 0 draw id worker' output' error (run calls s')
        (Settled-NotHeld id worker' (run calls s').task_runs table.sound settled) in
    (refused.1, refused.2)
