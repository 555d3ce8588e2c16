-- ===== src/Queue/Outcome.antt =====
-- What record_failure does for the worker that holds the task: another attempt while the policy
-- has one, and otherwise the end of the task and of all that waits for it.
use mathlib.Core.List.{Memᴰ}
use distributed_job_orchestr.Common.{
  ℕ, ◌^◌, ◌≤◌, ◌<◌, ◌≡◌, refl, ◌∙◌, ◌≢◌, ◌⊎◌, Bool, true, false, List, [], ◌∷◌, Option, none, some,
  arith, take, leb, ◌+◌, ◌&&◌, ◌==◌, Bool-cases, inl, inr, if◌then◌else◌,
}
use distributed_job_orchestr.Common.Text.{Text}
use distributed_job_orchestr.State.{TaskState, ready, retrying, dead_letter, is_terminal}
use distributed_job_orchestr.Retry
use distributed_job_orchestr.Retry.{RetryPolicy, max_attempts, next_delay}
use distributed_job_orchestr.Retry.Build.{build_policy}
use distributed_job_orchestr.Retry.Delay.{next_delay-Delayed, Delayed, Overflows, IsWait}
use distributed_job_orchestr.Queue.Rows.{Task, TaskRun, Store, Clock, holds}
use distributed_job_orchestr.Queue.Monad.{Result, ok, err, policy_error, lift, ◌>>=◌, patch}
use distributed_job_orchestr.Queue.Complete.{
  record_failure, find_run, task_of, finish_failure, fail_for_good, fail_and_retry, assigned,
  failed_row, retried_row, is_open, closed_attempt, child_ids, apply_delay,
}
use distributed_job_orchestr.Queue.Moves.{IsTable, Rows-IsTable, update-Keeps}
use distributed_job_orchestr.Queue.Candidates.{IsSound-at}
use distributed_job_orchestr.Queue.Fits.{update-Fits, failed-Fits, retried-Fits}
use distributed_job_orchestr.Queue.Keeps.{failed-Writes}
use distributed_job_orchestr.Queue.Descend.{
  Stopped, block_descendants_returns, block_descendants-children,
}

-- The terminal state that the code picks.
abbrev pub final_state : TaskRun → TaskState
final_state r = if leb r.max_attempts r.attempt then dead_letter else TaskState.failed

-- What _close_attempt leaves.
abbrev closed_store : Clock → ℕ → ℕ → TaskState → Option Text → Store → Store
closed_store clock id attempt t error s = record s {
  attempts = patch (is_open id attempt) (closed_attempt clock t error) s.attempts;
}

retry_returns :
    (clock : Clock) (id worker : ℕ) (error : Text) (seen : TaskRun) (delay : ℕ) (s : Store)
    → IsTable s.task_runs
    → (s' : Store) × (fail_and_retry clock id worker error seen delay s ≡ ok (some retrying, s'))
      × (s'.task_runs ≡ patch (assigned id worker) (retried_row clock delay error) s.task_runs)
unfolding fail_and_retry
retry_returns clock id worker error seen delay s v =
    let rows = patch (assigned id worker) (retried_row clock delay error) s.task_runs in
    let t = record s { task_runs = rows } in
    let written = update-Fits _ _ (retried-Fits clock delay error id worker) s v.sound in
    (closed_store clock id seen.attempt retrying (some error) t, rw written, refl)

final-not_running : (r : TaskRun) → final_state r ≢ TaskState.running
final-not_running r = ground arith

final-is_terminal : (r : TaskRun) → is_terminal (final_state r) ≡ true
unfolding is_terminal
final-is_terminal r = ground arith

find-patch :
    (p : TaskRun → Bool) (f : TaskRun → TaskRun) (id : ℕ) (rows : List TaskRun) {r : TaskRun}
    → ((x : TaskRun) → ((f x).id ≡ x.id) × ((f x).run_id ≡ x.run_id) × ((f x).task_id ≡ x.task_id))
    → find_run id rows ≡ some r
    → (r' : TaskRun) × (find_run id (patch p f rows) ≡ some r')
      × (r'.run_id ≡ r.run_id)
      × (r'.task_id ≡ r.task_id)
find-patch p f id [] k e = absurd (ground arith)
find-patch p f id (x ∷ rows) {r} k e = elim (Bool-cases (x.id == id)) [
  | inl here ↦ elim (Bool-cases (p x)) [
    | inl hit ↦
        let same : x ≡ r = ground arith in
        (f x, rw (hit, (k x).0, here), rw ((k x).1, same), rw ((k x).2, same))
    | inr miss ↦ let same : x ≡ r = ground arith in (x, rw (miss, here), rw same, rw same)
  ]
  | inr there ↦
      let (r', found, run, task) = find-patch p f id rows k (rw there at e) in
      let still : ((if p x then f x else x).id == id) ≡ false = ground (arith, k x) in
      (r', rw still found, run, task)
]

failed-kept :
    (clock : Clock) (t : TaskState) (error : Text) (x : TaskRun)
    → let y = failed_row clock t error x in
      (y.id ≡ x.id) × (y.run_id ≡ x.run_id) × (y.task_id ≡ x.task_id)
unfolding failed_row
failed-kept clock t error x = (refl, refl, refl)

final_returns :
    (clock : Clock) (id worker : ℕ) (error : Text) (r : TaskRun) (s : Store)
    → IsTable s.task_runs
    → find_run id s.task_runs ≡ some r
    → (s' : Store) × (fail_for_good clock id worker error r s ≡ ok (some (final_state r), s'))
      × Stopped r.run_id (child_ids (r.task_id ∷ []) s.dependencies) s'.task_runs
unfolding fail_for_good
final_returns clock id worker error r s v found =
    let f = failed_row clock (final_state r) error in
    let t = record s { task_runs = patch (assigned id worker) f s.task_runs } in
    let written =
      update-Fits _ _ (failed-Fits clock (final_state r) error id worker (final-not_running r)) s
        v.sound in
    let moved =
      (update-Keeps _ _
          (failed-Writes clock (final_state r) error id worker (final-is_terminal r))).rows
        s tt t written v in
    let table = Rows-IsTable s.task_runs t.task_runs moved v in
    let u = closed_store clock id r.attempt (final_state r) (some error) t in
    let (r', again, run, task) =
      find-patch (assigned id worker) f id s.task_runs (failed-kept clock (final_state r) error)
        found in
    let (s', blocked) = block_descendants_returns clock id u table in
    let stopped = block_descendants-children clock id u s' table again blocked in
    (s', rw (written, blocked), rw (run, task) at stopped)

find-mem : (id : ℕ) (rows : List TaskRun) {r : TaskRun} → find_run id rows ≡ some r → Memᴰ r rows
find-mem id [] e = absurd (ground arith)
find-mem id (x ∷ rows) {r} e = elim (Bool-cases (x.id == id)) [
  | inl here ↦ Memᴰ.head (ground arith)
  | inr there ↦ Memᴰ.tail (find-mem id rows (rw there at e))
]

-- The row of a failed attempt that is waiting for the next one.
abbrev pub put_back : Clock → ℕ → Text → TaskRun → TaskRun
put_back clock delay error r = record r {
  state = ready;
  scheduled_at = clock.process + delay;
  last_error = some (take 4000 error);
  lease_expires_at = none;
  worker_id = none;
  version = r.version + 1;
}

-- What the answer says of the rows.
abbrev pub Outcome :
    Clock → ℕ → ℕ → ℕ → Text → RetryPolicy → TaskRun → Store → TaskState → Store → Type 0
Outcome clock draw id worker error policy r s t s' =
    (r.attempt < max_attempts policy)
      × (t ≡ retrying)
      × ((delay : ℕ) × IsWait policy r.attempt draw delay
          × (s'.task_runs
              ≡ patch (λ x. x.id == id && holds x.worker_id worker) (put_back clock delay error)
                  s.task_runs))
    ⊎ (max_attempts policy ≤ r.attempt)
      × (t ≡ final_state r)
      × Stopped r.run_id (child_ids (r.task_id ∷ []) s.dependencies) s'.task_runs

-- The call raises the policy's OverflowError, or it answers.
abbrev pub Reported :
    Clock
    → ℕ
    → ℕ
    → ℕ
    → Text
    → RetryPolicy
    → TaskRun
    → Store
    → Result (Option TaskState × Store)
    → Type 0
Reported clock draw id worker error policy r s m =
    (r.attempt < max_attempts policy)
      × Overflows policy r.attempt
      × (m ≡ err (policy_error Retry.overflow_error))
    ⊎ (t : TaskState) × (s' : Store) × (m ≡ ok (some t, s'))
      × Outcome clock draw id worker error policy r s t s'

retried-rows :
    (clock : Clock) (id worker delay : ℕ) (error : Text) (rows : List TaskRun)
    → patch (assigned id worker) (retried_row clock delay error) rows
      ≡ patch (λ x. x.id == id && holds x.worker_id worker) (put_back clock delay error) rows
unfolding assigned retried_row
retried-rows clock id worker delay error rows = refl

-- The continuation of record_failure, once the policy has answered.
abbrev after_policy :
    Clock
    → ℕ
    → ℕ
    → Text
    → TaskRun
    → Retry.Result (Option ℕ)
    → Store
    → Result (Option TaskState × Store)
after_policy clock id worker error r d s =
    (lift d >>= λ delay. apply_delay clock id worker error r delay) s

failure-after_policy :
    (clock : Clock) (draw id worker : ℕ) (error : Text) (s : Store) (r : TaskRun) (task : Task)
    (policy : RetryPolicy)
    → find_run id s.task_runs ≡ some r
    → holds r.worker_id worker ≡ true
    → task_of s.tasks r ≡ some task
    → build_policy (some task.retry_policy) ≡ Retry.ok policy
    → record_failure clock draw id worker error s
      ≡ after_policy clock id worker error r (next_delay policy r.attempt draw) s
unfolding record_failure
failure-after_policy clock draw id worker error s r task policy found mine has built =
    rw (found, record_failure, mine) (rw (has, finish_failure) (rw built refl))

after_policy-Reported :
    (clock : Clock) (draw id worker : ℕ) (error : Text) (s : Store) (r : TaskRun)
    (policy : RetryPolicy) (d : Retry.Result (Option ℕ))
    → IsTable s.task_runs
    → find_run id s.task_runs ≡ some r
    → Delayed policy r.attempt draw d
    → Reported clock draw id worker error policy r s (after_policy clock id worker error r d s)
after_policy-Reported clock draw id worker error s r policy d v found (inl (le, spent)) =
    let (s', e, stopped) = final_returns clock id worker error r s v found in
    inr (final_state r, s', rw spent e, inr (le, refl, stopped))
after_policy-Reported clock draw id worker error s r policy d v found
      (inr (lt, inl (big, raised))) =
    inl (lt, big, rw raised refl)
after_policy-Reported clock draw id worker error s r policy d v found
      (inr (lt, inr (fits, (delay, waits, w)))) =
    let (s', e, rows) = retry_returns clock id worker error r delay s v in
    inr (
      retrying,
      s',
      rw waits e,
      inl (lt, refl, (delay, w, rows ∙ retried-rows clock id worker delay error s.task_runs)),
    )

pub record_failure-Outcome :
    (clock : Clock) (draw id worker : ℕ) (error : Text) (s : Store) (r : TaskRun) (task : Task)
    (policy : RetryPolicy)
    → IsTable s.task_runs
    → find_run id s.task_runs ≡ some r
    → holds r.worker_id worker ≡ true
    → r.state ≡ TaskState.running
    → task_of s.tasks r ≡ some task
    → build_policy (some task.retry_policy) ≡ Retry.ok policy
    → draw < 2 ^ 53
    → Reported clock draw id worker error policy r s (record_failure clock draw id worker error s)
record_failure-Outcome clock draw id worker error s r task policy v found mine runs has built
      small =
    let counted = (IsSound-at s.task_runs r v.sound (find-mem id s.task_runs found)).counted runs in
    rw (failure-after_policy clock draw id worker error s r task policy found mine has built) (
      after_policy-Reported clock draw id worker error s r policy (next_delay policy r.attempt draw)
        v found (next_delay-Delayed policy r.attempt draw counted small))

budget_spent : (r : TaskRun) → r.max_attempts ≤ r.attempt → final_state r ≡ dead_letter
budget_spent r h = ground arith

-- For the worker that holds a RUNNING task of a sound table, when the row's budget is that of its
-- stored policy, an answer is RETRYING or DEAD_LETTER, never FAILED.
pub record_failure-never_failed :
    (clock : Clock) (draw id worker : ℕ) (error : Text) (s s' : Store) (r : TaskRun) (task : Task)
    (policy : RetryPolicy) (t : TaskState)
    → IsTable s.task_runs
    → find_run id s.task_runs ≡ some r
    → holds r.worker_id worker ≡ true
    → r.state ≡ TaskState.running
    → task_of s.tasks r ≡ some task
    → build_policy (some task.retry_policy) ≡ Retry.ok policy
    → draw < 2 ^ 53
    → r.max_attempts ≡ max_attempts policy
    → record_failure clock draw id worker error s ≡ ok (some t, s')
    → (t ≡ retrying) ⊎ (t ≡ dead_letter)
record_failure-never_failed clock draw id worker error s s' r task policy t v found mine runs has
      built small copied e =
    elim (record_failure-Outcome clock draw id worker error s r task policy v found mine runs has
      built small) [
        | inl (lt, big, raised) ↦ absurd (ground (arith, e, raised))
        | inr (u, s1, e1, how) ↦
            let same : u ≡ t = cc in
            let answer : (u ≡ retrying) ⊎ (u ≡ dead_letter) = elim how [
              | inl (lt, is, _) ↦ inl is
              | inr (le, is, _) ↦ inr (is ∙ budget_spent r (rw copied le))
            ] in
            rw same at answer
      ]
