-- ===== src/Worker/Batch.antt =====
-- What a batch of a worker does to the tables and to its counters.
use distributed_job_orchestr.Common.{
  ℕ, ◌+◌, ◌≡◌, refl, sym, subst, ◌∙◌, ◌⊎◌, Bool, List, [], ◌∷◌, Option, some, All, arith, length,
  Bool-cases, inl, inr,
}
use distributed_job_orchestr.State.{derive_run_state}
use distributed_job_orchestr.Queue.Rows.{Store, Clock}
use distributed_job_orchestr.Queue.Monad.{Error, Result, ok, err}
use distributed_job_orchestr.Queue.Claim.{ClaimedTask, claim_batch}
use distributed_job_orchestr.Queue.Complete.{record_success, record_failure}
use distributed_job_orchestr.Queue.Runs.{refresh_run_state, states_of}
use distributed_job_orchestr.Queue.Moves.{
  IsTable, Rows, Rows-refl, Rows-trans, Rows-IsTable, Keeps, bind-Keeps, pure-Keeps, bind_inv,
}
use distributed_job_orchestr.Queue.Keeps.{
  record_success-Keeps, record_failure-Keeps, refresh_run_state-Keeps,
}
use distributed_job_orchestr.Queue.Candidates.{claim_batch-Keeps}
use distributed_job_orchestr.Queue.RunState.{IsCurrent, refresh_run_state-IsCurrent}
use distributed_job_orchestr.Worker.{
  WorkerStats, Execution, returned, raised, Effect, record_outcome, rejected, report, execute,
  execute_all, batch_limit, run_once,
}

record_outcome-Keeps :
    (worker : ℕ) (task : ClaimedTask) (e : Effect) (stats : WorkerStats) (x : Execution)
    → Keeps (record_outcome worker task e stats x)
unfolding record_outcome
record_outcome-Keeps worker task e stats (returned output) =
    bind-Keeps _ _ (record_success-Keeps e.clock task.task_run_id worker (some output))
      λ a. pure-Keeps _
record_outcome-Keeps worker task e stats (raised error) =
    bind-Keeps _ _ (record_failure-Keeps e.clock e.draw task.task_run_id worker error)
      λ a. pure-Keeps _

execute-Keeps :
    (worker : ℕ) (task : ClaimedTask) (e : Effect) (stats : WorkerStats)
    → Keeps (execute worker task e stats)
unfolding execute
execute-Keeps worker task e stats = elim (Bool-cases e.lost) [
  | inl lost ↦ rw lost (pure-Keeps _)
  | inr held ↦ rw held (
      bind-Keeps _ _ (record_outcome-Keeps worker task e stats e.execution) λ outcome.
        bind-Keeps _ _ (refresh_run_state-Keeps e.clock task.run_id) λ derived. pure-Keeps _)
]

-- The tasks that a worker has finished with.
abbrev pub finished : WorkerStats → ℕ
finished stats = stats.succeeded + stats.failed + stats.lost_leases

record_outcome-counts :
    (worker : ℕ) (task : ClaimedTask) (e : Effect) (stats : WorkerStats) (x : Execution)
    (s s' : Store) (o : Bool × WorkerStats)
    → record_outcome worker task e stats x s ≡ ok (o, s')
    → (finished (rejected o) ≡ finished stats + 1) × (o.1.claimed ≡ stats.claimed)
unfolding record_outcome
record_outcome-counts worker task e stats (returned output) s s' o h =
    let (accepted, t, first, rest) =
      bind_inv (record_success e.clock task.task_run_id worker (some output) s) _ h in
    ground (arith, rest)
record_outcome-counts worker task e stats (raised error) s s' o h =
    let (state, t, first, rest) =
      bind_inv (record_failure e.clock e.draw task.task_run_id worker error s) _ h in
    ground (arith, rest)

-- A report that is committed counts its task once, and leaves the run with the state that is
-- derived from its rows.
pub report_lem :
    (worker : ℕ) (task : ClaimedTask) (e : Effect) (stats stats' : WorkerStats) (s s' : Store)
    → report worker task e stats s ≡ ok (stats', s')
    → (finished stats' ≡ finished stats + 1)
      × (stats'.claimed ≡ stats.claimed)
      × All (IsCurrent task.run_id (derive_run_state (states_of task.run_id s'.task_runs))) s'.runs
report_lem worker task e stats stats' s s' h =
    let (o, t, first, second) = bind_inv (record_outcome worker task e stats e.execution s) _ h in
    let (derived, u, refresh, last) = bind_inv (refresh_run_state e.clock task.run_id t) _ second in
    let (one, same) = record_outcome-counts worker task e stats e.execution s t o first in
    let (w, done, current, kept) = refresh_run_state-IsCurrent e.clock task.run_id t in
    let whole : ok (derived, u) ≡ ok (derive_run_state (states_of task.run_id t.task_runs), w) =
      sym refresh ∙ done in
    let there : w ≡ s' = ground (arith, whole, last) in
    let stats_there : rejected o ≡ stats' = ground (arith, last) in
    (
      subst (λ x. finished x ≡ finished stats + 1) stats_there one,
      subst (λ x. x.claimed ≡ stats.claimed) stats_there same,
      subst
          (λ x.
            All (IsCurrent task.run_id (derive_run_state (states_of task.run_id x.task_runs)))
              x.runs)
          there (rw kept current),
    )

execute-counts :
    (worker : ℕ) (task : ClaimedTask) (e : Effect) (stats stats' : WorkerStats) (s s' : Store)
    → execute worker task e stats s ≡ ok (stats', s')
    → (finished stats' ≡ finished stats + 1) × (stats'.claimed ≡ stats.claimed)
unfolding execute
execute-counts worker task e stats stats' s s' h = elim (Bool-cases e.lost) [
  | inl lost ↦
      let counted = record stats { lost_leases = stats.lost_leases + 1 } in
      let step : execute worker task e stats s ≡ ok (counted, s) = rw (lost, execute) refl in
      let whole : ok (counted, s) ≡ ok (stats', s') = sym step ∙ h in
      let same : counted ≡ stats' = ground (arith, whole) in
      subst (λ x. (finished x ≡ finished stats + 1) × (x.claimed ≡ stats.claimed)) same
        (omega arith, refl)
  | inr held ↦
      let step : execute worker task e stats s ≡ report worker task e stats s =
        rw (held, execute) refl in
      let (one, same, _) = report_lem worker task e stats stats' s s' (sym step ∙ h) in (one, same)
]

Result-cases : {A : Type 0} (r : Result A) → ((a : A) × (r ≡ ok a)) ⊎ ((e : Error) × (r ≡ err e))
Result-cases (ok a) = inl (a, refl)
Result-cases (err e) = inr (e, refl)

-- A batch that comes to its end counts every task once.
execute_all-counts :
    (worker : ℕ) (effect : ClaimedTask → Effect) (n m : ℕ) (batch : List ClaimedTask)
    (stats : WorkerStats) (s : Store)
    → (execute_all worker effect n batch stats s).answer ≡ ok m
    → let stats' = (execute_all worker effect n batch stats s).stats in
      (m ≡ n) × (finished stats' ≡ finished stats + length batch) × (stats'.claimed ≡ stats.claimed)
unfolding execute_all
execute_all-counts worker effect n m [] stats s h = ground (arith, h)
execute_all-counts worker effect n m (task ∷ batch) stats s h =
    elim (Result-cases (execute worker task (effect task) stats s)) [
      | inr (e, f) ↦ absurd (ground (arith, f, h))
      | inl ((stats', s'), f) ↦
          let step : execute_all worker effect n (task ∷ batch) stats s
              ≡ execute_all worker effect n batch stats' s' =
            rw (f, execute_all) refl in
          let (one, same) = execute-counts worker task (effect task) stats stats' s s' f in
          let (a, b, c) = execute_all-counts worker effect n m batch stats' s' (rw (← step) h) in
          rw step (a, omega (arith, b, one), c ∙ same)
    ]

execute_all-Rows :
    (worker : ℕ) (effect : ClaimedTask → Effect) (n : ℕ) (batch : List ClaimedTask)
    (stats : WorkerStats) (s : Store)
    → IsTable s.task_runs
    → Rows s.task_runs (execute_all worker effect n batch stats s).store.task_runs
unfolding execute_all
execute_all-Rows worker effect n [] stats s v = Rows-refl s.task_runs v.sound
execute_all-Rows worker effect n (task ∷ batch) stats s v =
    elim (Result-cases (execute worker task (effect task) stats s)) [
      | inr (e, f) ↦
          let step : execute_all worker effect n (task ∷ batch) stats s
              ≡ record { answer = err e; stats = stats; store = s } =
            rw (f, execute_all) refl in
          rw step (Rows-refl s.task_runs v.sound)
      | inl ((stats', s'), f) ↦
          let step : execute_all worker effect n (task ∷ batch) stats s
              ≡ execute_all worker effect n batch stats' s' =
            rw (f, execute_all) refl in
          let first = (execute-Keeps worker task (effect task) stats).rows s stats' s' f v in
          rw step (
            Rows-trans s.task_runs s'.task_runs
              (execute_all worker effect n batch stats' s').store.task_runs first
              (execute_all-Rows worker effect n batch stats' s'
                (Rows-IsTable s.task_runs s'.task_runs first v)))
    ]

-- A batch, whether it ends or a transaction of it raises, moves the rows of a sound table only as
-- the queue's transactions may. One that ends has claimed as many tasks as it answers, and has
-- counted each of them once, as succeeded, failed or lost.
pub run_once-Rows :
    (clock : Clock) (lease : ℕ) (locked : ℕ → Bool) (worker size : ℕ) (limit : Option ℕ)
    (effect : ClaimedTask → Effect) (stats : WorkerStats) (s : Store)
    → IsTable s.task_runs
    → let ended = run_once clock lease locked worker size limit effect stats s in
      Rows s.task_runs ended.store.task_runs
      × ((n : ℕ)
          → ended.answer ≡ ok n
          → (ended.stats.claimed ≡ stats.claimed + n) × (finished ended.stats ≡ finished stats + n))
unfolding run_once
run_once-Rows clock lease locked worker size limit effect stats s v =
    let run = run_once clock lease locked worker size limit effect stats s in
    elim (Result-cases (claim_batch clock lease locked worker (batch_limit limit size) s)) [
      | inr (e, f) ↦
          let step : run ≡ record { answer = err e; stats = stats; store = s } =
            rw (f, run_once) refl in
          rw step (Rows-refl s.task_runs v.sound, λ n h. absurd (ground (arith, h)))
      | inl ((batch, t), f) ↦
          let counted = record stats { claimed = stats.claimed + length batch } in
          let rest = execute_all worker effect (length batch) batch counted t in
          let step : run ≡ rest = rw (f, run_once) refl in
          let first =
            (claim_batch-Keeps clock lease locked worker (batch_limit limit size)).rows s batch t f
              v in
          rw step (
            Rows-trans s.task_runs t.task_runs rest.store.task_runs first (
                execute_all-Rows worker effect (length batch) batch counted t
                  (Rows-IsTable s.task_runs t.task_runs first v)),
            λ n h.
                let (a, b, c) =
                  execute_all-counts worker effect (length batch) n batch counted t h in
                (rw (c, a) refl, omega (arith, a, b)),
          )
    ]
