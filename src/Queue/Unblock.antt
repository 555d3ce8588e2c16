-- ===== src/Queue/Unblock.antt =====
-- The two UPDATEs of `_unblock_children` together take one dependency off each waiting child.
use distributed_job_orchestr.Common.{
  ℕ, zero, suc, ◌+◌, ◌≡◌, refl, ◌&&◌, List, [], ◌∷◌, map, arith, ltb, ◌==◌, if◌then◌else◌,
}
use distributed_job_orchestr.State.{ready}
use distributed_job_orchestr.Queue.Rows.{TaskRun, Store}
use distributed_job_orchestr.Queue.Monad.{ok, patch}
use distributed_job_orchestr.Queue.Complete.{sibling, decremented, released, unblock_rows}
use distributed_job_orchestr.Queue.Moves.{IsTable, Rows-AllSound, update-Keeps}
use distributed_job_orchestr.Queue.Keeps.{decremented-Writes}
use distributed_job_orchestr.Queue.Fits.{update-Fits, decremented-Fits, released-Fits}

-- One parent is done: the child waits for one fewer, and is READY when it waits for none.
abbrev after_parent : ℕ → TaskRun → TaskRun
after_parent zero r = record r { state = ready; version = r.version + 1 }
after_parent (suc zero) r = record r { state = ready; pending_deps = 0; version = r.version + 2 }
after_parent (suc (suc n)) r = record r { pending_deps = suc n; version = r.version + 1 }

abbrev pub release : ℕ → List ℕ → TaskRun → TaskRun
release run children r = if sibling run children r then after_parent r.pending_deps r else r

sibling-decremented :
    (run : ℕ) (children : List ℕ) (r : TaskRun)
    → sibling run children (decremented r) ≡ sibling run children r
unfolding sibling decremented
sibling-decremented run children r = refl

two_steps :
    (run : ℕ) (children : List ℕ) (r : TaskRun)
    → let x = if sibling run children r && ltb 0 r.pending_deps then decremented r else r in
      (if sibling run children x && x.pending_deps == 0 then released x else x)
      ≡ release run children r
unfolding decremented released
two_steps run children r = ground (arith, sibling-decremented run children r)

two_patches :
    (run : ℕ) (children : List ℕ) (rows : List TaskRun)
    → patch
        (λ r. sibling run children r && r.pending_deps == 0)
        released
        (patch (λ r. sibling run children r && ltb 0 r.pending_deps) decremented rows)
      ≡ map (release run children) rows
two_patches run children [] = refl
two_patches run children (r ∷ rows) = rw (two_steps run children r, two_patches run children rows)

-- On sound rows the two statements never break a constraint, and do at once what the single pass
-- `release` describes: a PENDING child of the run that waits for n + 1 parents waits for n, and is
-- READY if that is 0; one that waits for none is READY; only the versions of these rows grow with
-- that, and every other row is as it was.
pub unblock_rows-release :
    (run : ℕ) (children : List ℕ) (s : Store)
    → IsTable s.task_runs
    → unblock_rows run children s
      ≡ ok (tt, record s { task_runs = map (release run children) s.task_runs })
unfolding unblock_rows
unblock_rows-release run children s v =
    let first = update-Fits _ _ (decremented-Fits run children) s v.sound in
    let t = record s {
      task_runs =
          patch (λ r. sibling run children r && ltb 0 r.pending_deps) decremented s.task_runs;
    } in
    let moved = (update-Keeps _ _ (decremented-Writes run children)).rows s tt t first v in
    let second =
      update-Fits _ _ (released-Fits run children) t
        (Rows-AllSound s.task_runs t.task_runs moved) in
    rw (first, second, two_patches run children s.task_runs)
