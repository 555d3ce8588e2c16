-- ===== src/Queue/Reaped.antt =====
-- Lease expiry: the tasks of dead workers come back, and one that has used its budget then blocks
-- every claim that selects it.
use mathlib.Core.List.{Memᴰ}
use distributed_job_orchestr.Common.{
  ℕ, ◌+◌, ◌≤◌, ◌≡◌, refl, sym, subst, Bool, true, false, List, [], ◌∷◌, arith, length,
}
use distributed_job_orchestr.Queue.Rows.{TaskRun, Store, Clock, checks, elem}
use distributed_job_orchestr.Queue.Monad.{
  integrity_error, ok, err, select, patch, breaks, update_task_runs,
}
use distributed_job_orchestr.Queue.Claim.{claimed_row, claimable, candidates, claim_batch}
use distributed_job_orchestr.Queue.Complete.{expired, requeued_row, close_all, reap_expired_leases}
use distributed_job_orchestr.Queue.Moves.{IsTable}
use distributed_job_orchestr.Queue.Fits.{update-Fits, requeued-Fits}
use distributed_job_orchestr.Queue.Handout.{mem-patch}
use distributed_job_orchestr.Queue.Order.{candidates-all}

breaks_hit :
    (p : TaskRun → Bool) (f : TaskRun → TaskRun) (rows : List TaskRun) (r : TaskRun)
    → Memᴰ r rows
    → p r ≡ true
    → checks (f r) ≡ false
    → breaks p f rows ≡ true
unfolding breaks
breaks_hit p f [] r m h c = elim m [ ]
breaks_hit p f (x ∷ rows) r (Memᴰ.head e) h c =
    let hit : p x ≡ true = rw (← e) h in
    let bad : checks (f x) ≡ false = rw (← e) c in rw (hit, bad)
breaks_hit p f (x ∷ rows) r (Memᴰ.tail m) h c = ground (arith, breaks_hit p f rows r m h c)

over_budget :
    (clock : Clock) (lease worker : ℕ) (r : TaskRun)
    → r.max_attempts ≤ r.attempt
    → checks (claimed_row clock lease worker r) ≡ false
unfolding claimed_row checks
over_budget clock lease worker r h = ground arith

-- A claim that selects a row whose budget is used up raises the IntegrityError of the CHECK
-- constraint, so it claims nothing at all.
pub claim_batch-over_budget :
    (clock : Clock) (lease : ℕ) (locked : ℕ → Bool) (worker limit : ℕ) (s : Store) (r : TaskRun)
    → Memᴰ r s.task_runs
    → elem r.id (candidates clock.process locked limit s.task_runs) ≡ true
    → r.max_attempts ≤ r.attempt
    → claim_batch clock lease locked worker limit s ≡ err integrity_error
unfolding claim_batch update_task_runs
claim_batch-over_budget clock lease locked worker limit s r m e h =
    let ids = candidates clock.process locked limit s.task_runs in
    let f = claimed_row clock (clock.process + lease) worker in
    rw (
      breaks_hit (λ x. elem x.id ids) f s.task_runs r m e
        (over_budget clock (clock.process + lease) worker r h))

close_all-rows :
    (clock : Clock) (rows : List TaskRun) (s : Store)
    → (s' : Store) × (close_all clock rows s ≡ ok (tt, s')) × (s'.task_runs ≡ s.task_runs)
unfolding close_all
close_all-rows clock [] s = (s, refl, refl)
close_all-rows clock (r ∷ rows) s = close_all-rows clock rows _

-- On a sound table the reaper always returns: it requeues every RUNNING row whose lease has run
-- out, leaves every other row as it was, and answers how many it requeued.
pub reap_returns :
    (clock : Clock) (s : Store)
    → IsTable s.task_runs
    → (s' : Store) × (reap_expired_leases clock s
        ≡ ok (length (select (expired clock.process) s.task_runs), s'))
      × (s'.task_runs ≡ patch (expired clock.process) requeued_row s.task_runs)
unfolding reap_expired_leases
reap_returns clock s v =
    let t = record s { task_runs = patch (expired clock.process) requeued_row s.task_runs } in
    let written = update-Fits _ _ (requeued-Fits clock.process) s v.sound in
    let (s', closed, same) = close_all-rows clock (select (expired clock.process) s.task_runs) t in
    (s', rw (written, closed), same)

requeued-claimable :
    (now now' : ℕ) (locked : ℕ → Bool) (r : TaskRun)
    → r.scheduled_at ≤ now'
    → locked r.id ≡ false
    → claimable now' locked (requeued_row r) ≡ true
unfolding claimable requeued_row
requeued-claimable now now' locked r h k = ground arith

requeued-id :
    (r : TaskRun)
    → ((requeued_row r).id ≡ r.id)
      × ((requeued_row r).attempt ≡ r.attempt)
      × ((requeued_row r).max_attempts ≡ r.max_attempts)
unfolding requeued_row
requeued-id r = (refl, refl, refl)

-- In a sound table, a task whose lease runs out in its last attempt is requeued with its budget
-- used up; a claim that finds it due and unlocked, and whose limit covers the claimable rows, then
-- raises IntegrityError and claims nothing.
pub reaped_last_attempt_blocks_claims :
    (clock clock' : Clock) (lease : ℕ) (locked : ℕ → Bool) (worker limit : ℕ) (s : Store)
    (r : TaskRun)
    → IsTable s.task_runs
    → Memᴰ r s.task_runs
    → expired clock.process r ≡ true
    → r.attempt ≡ r.max_attempts
    → r.scheduled_at ≤ clock'.process
    → locked r.id ≡ false
    → length (
        select
          (claimable clock'.process locked)
          (patch (expired clock.process) requeued_row s.task_runs))
      ≤ limit
    → (n : ℕ) × (s' : Store) × (reap_expired_leases clock s ≡ ok (n, s'))
      × (claim_batch clock' lease locked worker limit s' ≡ err integrity_error)
reaped_last_attempt_blocks_claims clock clock' lease locked worker limit s r v m gone last due free
      fits =
    let (s', reaped, rows) = reap_returns clock s v in
    let (ids, attempts, budget) = requeued-id r in
    let back : Memᴰ (requeued_row r) s'.task_runs =
      subst (λ x. Memᴰ (requeued_row r) x) (sym rows)
        (mem-patch (expired clock.process) requeued_row s.task_runs r m gone) in
    let few =
      subst (λ x. length (select (claimable clock'.process locked) x) ≤ limit) (sym rows) fits in
    let chosen =
      (candidates-all clock'.process locked limit s'.task_runs).1 few (requeued_row r) back
        (requeued-claimable clock.process clock'.process locked r due free) in
    (
      _,
      s',
      reaped,
      claim_batch-over_budget clock' lease locked worker limit s' (requeued_row r) back chosen
          (omega (arith, attempts, budget)),
    )
