-- ===== src/Queue/Descend.antt =====
-- The loop of `_block_descendants` ends, and reaches every child of the failed task.
use native.Mathlib.Numerals.{add-one}
use distributed_job_orchestr.Common.{
  ℕ, zero, suc, ◌+◌, ◌≤◌, ◌<◌, ◌≡◌, refl, Bool, true, false, List, [], ◌∷◌, some, All, arith,
  length, ◌==◌, Bool-cases, Option-cases, inl, inr, if◌then◌else◌,
}
use distributed_job_orchestr.State.{TaskState, ready, member}
use distributed_job_orchestr.Queue.Rows.{TaskRun, Store, Clock, elem}
use distributed_job_orchestr.Queue.Monad.{ok, count, patch, update_task_runs}
use distributed_job_orchestr.Queue.Complete.{
  blockable, blocked_row, block_loop, block_descendants, child_ids, is_empty, find_run,
}
use distributed_job_orchestr.Queue.Moves.{IsTable, AllSound, Rows-IsTable, update-Keeps}
use distributed_job_orchestr.Queue.Keeps.{blocked-Writes}
use distributed_job_orchestr.Queue.Fits.{update-Fits, blocked-Fits}

-- PENDING or READY: what the loop may still block.
abbrev is_waiting : TaskRun → Bool
is_waiting r = member r.state (TaskState.pending ∷ ready ∷ [])

waiting : List TaskRun → ℕ
waiting rows = count is_waiting rows

waiting-le-length : (rows : List TaskRun) → waiting rows ≤ length rows
unfolding waiting
waiting-le-length [] = omega arith
waiting-le-length (r ∷ rows) = ground (arith, waiting-le-length rows)

one_less :
    (clock : Clock) (run : ℕ) (ids : List ℕ) (r : TaskRun)
    → blockable run ids r ≡ true
    → (is_waiting r ≡ true) × (is_waiting (blocked_row clock r) ≡ false)
unfolding blockable blocked_row
one_less clock run ids r h = ground arith

-- Each row that a round blocks is one that waits no longer.
waiting-patch :
    (clock : Clock) (run : ℕ) (ids : List ℕ) (rows : List TaskRun)
    → waiting (patch (blockable run ids) (blocked_row clock) rows) + count (blockable run ids) rows
      ≡ waiting rows
unfolding waiting
waiting-patch clock run ids [] = omega arith
waiting-patch clock run ids (r ∷ rows) = elim (Bool-cases (blockable run ids r)) [
  | inl hit ↦
      let (before, after) = one_less clock run ids r hit in
      rw (hit, before, after) (omega (arith, waiting-patch clock run ids rows))
  | inr miss ↦ rw miss (ground (arith, waiting-patch clock run ids rows))
]

blocked-update :
    (clock : Clock) (run : ℕ) (ids : List ℕ) (s : Store)
    → AllSound s.task_runs
    → update_task_runs (blockable run ids) (blocked_row clock) s
      ≡ ok (tt, record s { task_runs = patch (blockable run ids) (blocked_row clock) s.task_runs })
blocked-update clock run ids s v = update-Fits _ _ (blocked-Fits clock run ids) s v

blocked-IsTable :
    (clock : Clock) (run : ℕ) (ids : List ℕ) (s : Store)
    → IsTable s.task_runs
    → IsTable (patch (blockable run ids) (blocked_row clock) s.task_runs)
blocked-IsTable clock run ids s v =
    let t = record s { task_runs = patch (blockable run ids) (blocked_row clock) s.task_runs } in
    let moved =
      (update-Keeps (blockable run ids) (blocked_row clock) (blocked-Writes clock run ids)).rows s
        tt t (blocked-update clock run ids s v.sound) v in
    Rows-IsTable s.task_runs t.task_runs moved v

-- With more fuel than rows that wait the loop returns.
block_loop_returns :
    (fuel : ℕ) (clock : Clock) (run : ℕ) (frontier : List ℕ) (s : Store)
    → IsTable s.task_runs
    → waiting s.task_runs < fuel
    → (s' : Store) × (block_loop fuel clock run frontier s ≡ ok (tt, s'))
unfolding block_loop
block_loop_returns zero clock run frontier s v h = absurd (omega arith)
block_loop_returns (suc fuel) clock run frontier s v h =
    let children = child_ids frontier s.dependencies in
    let p = blockable run children in
    let t = record s { task_runs = patch p (blocked_row clock) s.task_runs } in
    let written = blocked-update clock run children s v.sound in
    elim (Bool-cases (is_empty children)) [
      | inl leaf ↦ (s, rw (leaf, block_loop))
      | inr more ↦ elim (Bool-cases (count p s.task_runs == 0)) [
        | inl idle ↦ (t, rw (more, written, idle))
        | inr busy ↦
            let (s', done) =
              block_loop_returns fuel clock run children t (blocked-IsTable clock run children s v)
                (ground (arith, waiting-patch clock run children s.task_runs)) in
            (s', rw (more, written, busy) done)
      ]
    ]

-- In a sound table, blocking the descendants of a task always returns: the fuel, one round more
-- than there are rows, suffices on any graph of dependencies, and no CHECK constraint is broken.
pub block_descendants_returns :
    (clock : Clock) (id : ℕ) (s : Store)
    → IsTable s.task_runs
    → (s' : Store) × (block_descendants clock id s ≡ ok (tt, s'))
unfolding block_descendants
block_descendants_returns clock id s v = elim (Option-cases (find_run id s.task_runs)) [
  | inl gone ↦ (s, rw (gone, block_descendants))
  | inr (r, found) ↦
      let (s', e) =
        block_loop_returns (length s.task_runs + 1) clock r.run_id (r.task_id ∷ []) s v
          (omega (arith, waiting-le-length s.task_runs)) in
      (s', rw (found, block_descendants) e)
]

-- No row of the run for one of those tasks waits.
abbrev pub Stopped : ℕ → List ℕ → List TaskRun → Type 0
Stopped run ids = All (λ r.
    r.run_id ≡ run
    → elem r.task_id ids ≡ true
    → member r.state (TaskState.pending ∷ ready ∷ []) ≡ false)

stopped_row :
    (clock : Clock) (run : ℕ) (ids : List ℕ) (r : TaskRun)
    → let x = if blockable run ids r then blocked_row clock r else r in
      x.run_id ≡ run → elem x.task_id ids ≡ true → is_waiting x ≡ false
unfolding blockable blocked_row
stopped_row clock run ids r e h = ground arith

patch-Stopped :
    (clock : Clock) (run : ℕ) (ids : List ℕ) (rows : List TaskRun)
    → Stopped run ids (patch (blockable run ids) (blocked_row clock) rows)
patch-Stopped clock run ids [] = tt
patch-Stopped clock run ids (r ∷ rows) =
    (stopped_row clock run ids r, patch-Stopped clock run ids rows)

keep_row :
    (clock : Clock) (run : ℕ) (ids others : List ℕ) (r : TaskRun)
    → (r.run_id ≡ run → elem r.task_id ids ≡ true → is_waiting r ≡ false)
    → let x = if blockable run others r then blocked_row clock r else r in
      x.run_id ≡ run → elem x.task_id ids ≡ true → is_waiting x ≡ false
unfolding blockable blocked_row
keep_row clock run ids others r h e m = elim (Bool-cases (blockable run others r)) [
  | inl hit ↦ rw hit refl
  | inr miss ↦ rw miss (h (rw miss at e) (rw miss at m))
]

keep-Stopped :
    (clock : Clock) (run : ℕ) (ids others : List ℕ) (rows : List TaskRun)
    → Stopped run ids rows
    → Stopped run ids (patch (blockable run others) (blocked_row clock) rows)
keep-Stopped clock run ids others [] h = tt
keep-Stopped clock run ids others (r ∷ rows) h =
    (keep_row clock run ids others r h.0, keep-Stopped clock run ids others rows h.1)

block_loop-Stopped :
    (fuel : ℕ) (clock : Clock) (run : ℕ) (ids frontier : List ℕ) (s s' : Store)
    → IsTable s.task_runs
    → Stopped run ids s.task_runs
    → block_loop fuel clock run frontier s ≡ ok (tt, s')
    → Stopped run ids s'.task_runs
unfolding block_loop
block_loop-Stopped zero clock run ids frontier s s' v h e = cc
block_loop-Stopped (suc fuel) clock run ids frontier s s' v h e =
    let children = child_ids frontier s.dependencies in
    let p = blockable run children in
    let t = record s { task_runs = patch p (blocked_row clock) s.task_runs } in
    let written = blocked-update clock run children s v.sound in
    let kept = keep-Stopped clock run ids children s.task_runs h in
    elim (Bool-cases (is_empty children)) [
      | inl leaf ↦
          let same : s.task_runs ≡ s'.task_runs = cc (rw (leaf, block_loop) at e) in rw same at h
      | inr more ↦ elim (Bool-cases (count p s.task_runs == 0)) [
        | inl idle ↦
            let same : t.task_runs ≡ s'.task_runs = cc (rw (more, written, idle) at e) in
            rw same at kept
        | inr busy ↦
            block_loop-Stopped fuel clock run ids children t s'
              (blocked-IsTable clock run children s v) kept (rw (more, written, busy) at e)
      ]
    ]

no_children : (ids : List ℕ) → is_empty ids ≡ true → ids ≡ []
no_children [] h = refl
no_children (_ ∷ _) h = cc

none-Stopped : (run : ℕ) (rows : List TaskRun) → Stopped run [] rows
none-Stopped run [] = tt
none-Stopped run (r ∷ rows) = (λ e h. cc, none-Stopped run rows)

block_loop-children :
    (fuel : ℕ) (clock : Clock) (run : ℕ) (frontier : List ℕ) (s s' : Store)
    → IsTable s.task_runs
    → block_loop (suc fuel) clock run frontier s ≡ ok (tt, s')
    → Stopped run (child_ids frontier s.dependencies) s'.task_runs
unfolding block_loop
block_loop-children fuel clock run frontier s s' v e =
    let children = child_ids frontier s.dependencies in
    let p = blockable run children in
    let t = record s { task_runs = patch p (blocked_row clock) s.task_runs } in
    let written = blocked-update clock run children s v.sound in
    let stopped = patch-Stopped clock run children s.task_runs in
    elim (Bool-cases (is_empty children)) [
      | inl leaf ↦ rw (no_children children leaf) (none-Stopped run s'.task_runs)
      | inr more ↦ elim (Bool-cases (count p s.task_runs == 0)) [
        | inl idle ↦
            let same : t.task_runs ≡ s'.task_runs = cc (rw (more, written, idle) at e) in
            rw same at stopped
        | inr busy ↦
            block_loop-Stopped fuel clock run children children t s'
              (blocked-IsTable clock run children s v) stopped (rw (more, written, busy) at e)
      ]
    ]

-- In a sound table, after the descendants of a task are blocked none of its children in that run
-- is PENDING or READY.
pub block_descendants-children :
    (clock : Clock) (id : ℕ) (s s' : Store) {r : TaskRun}
    → IsTable s.task_runs
    → find_run id s.task_runs ≡ some r
    → block_descendants clock id s ≡ ok (tt, s')
    → Stopped r.run_id (child_ids (r.task_id ∷ []) s.dependencies) s'.task_runs
unfolding block_descendants
block_descendants-children clock id s s' {r} v found e =
    let once = rw (found, block_descendants, add-one) at e in
    block_loop-children (length s.task_runs) clock r.run_id (r.task_id ∷ []) s s' v once
