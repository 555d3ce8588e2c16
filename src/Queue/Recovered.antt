-- ===== src/Queue/Recovered.antt =====
-- What the reaper does for the tasks of dead workers, in words of its own.
use mathlib.Core.List.Memᴰ
use mathlib.Core.List.{Memᴰ}
use distributed_job_orchestr.Common.{
  ℕ, suc, ◌<◌, ◌≡◌, refl, sym, subst, ◌≢◌, ◌⊎◌, Bool, true, false, List, [], ◌∷◌, Option, none,
  some, All, arith, length, Bool-cases, inl, inr, ltb,
}
use distributed_job_orchestr.State.{TaskState, ready}
use distributed_job_orchestr.Queue.Rows.{TaskRun, TaskAttempt, Store, Clock}
use distributed_job_orchestr.Queue.Monad.{ok, select, patch}
use distributed_job_orchestr.Queue.Complete.{
  expired, before, requeued_row, is_open, closed_attempt, close_all, expiry_error,
  reap_expired_leases,
}
use distributed_job_orchestr.Queue.Moves.{IsTable}
use distributed_job_orchestr.Queue.Fits.{update-Fits, requeued-Fits}

-- A worker that has let its lease run out holds the task.
abbrev pub Dead : ℕ → TaskRun → Type 0
Dead now r = (r.state ≡ TaskState.running) × ((t : ℕ) × (r.lease_expires_at ≡ some t) × (t < now))

-- The row may be claimed again: its attempts, its budget and its time are as they were.
pub record Freed (r r' : TaskRun) : Type 0 where
  pub ready_again : r'.state ≡ ready
  pub no_worker : r'.worker_id ≡ none
  pub no_lease : r'.lease_expires_at ≡ none
  pub id_kept : (r'.id ≡ r.id) × (r'.run_id ≡ r.run_id) × (r'.task_id ≡ r.task_id)
  pub attempts_kept : (r'.attempt ≡ r.attempt) × (r'.max_attempts ≡ r.max_attempts)
  pub time_kept : (r'.priority ≡ r.priority) × (r'.scheduled_at ≡ r.scheduled_at)

-- Row by row, `n` dead ones are freed and the others stay as they are.
abbrev pub Recovered : ℕ → ℕ → List TaskRun → List TaskRun → Type 0
Recovered now n [] [] = n ≡ 0
Recovered now n (r ∷ rows) (r' ∷ rows') =
    Dead now r × Freed r r' × ((m : ℕ) × (n ≡ suc m) × Recovered now m rows rows')
    ⊎ ¬ Dead now r × (r' ≡ r) × Recovered now n rows rows'
Recovered now n _ _ = ⊥

requeued-Freed : (r : TaskRun) → Freed r (requeued_row r)
unfolding requeued_row
requeued-Freed r = record {
  ready_again = refl;
  no_worker = refl;
  no_lease = refl;
  id_kept = (refl, refl, refl);
  attempts_kept = (refl, refl);
  time_kept = (refl, refl);
}

before-some : (o : Option ℕ) (now : ℕ) → before o now ≡ true → (t : ℕ) × (o ≡ some t) × (t < now)
before-some none now h = absurd (ground (arith, h))
before-some (some t) now h = (t, refl, ground (arith, h))

expired-Dead : (now : ℕ) (r : TaskRun) → expired now r ≡ true → Dead now r
unfolding expired
expired-Dead now r h = (ground (arith, h), before-some r.lease_expires_at now (ground (arith, h)))

Dead-expired : (now : ℕ) (r : TaskRun) → Dead now r → expired now r ≡ true
unfolding expired
Dead-expired now r (runs, (t, lease, late)) =
    let soon : ltb t now ≡ true = ground (arith, late) in rw (runs, lease, soon) refl

patch-Recovered :
    (now : ℕ) (rows : List TaskRun)
    → Recovered now
        (length (select (expired now) rows))
        rows
        (patch (expired now) requeued_row rows)
patch-Recovered now [] = refl
patch-Recovered now (r ∷ rows) = elim (Bool-cases (expired now r)) [
  | inl hit ↦ rw hit (
      inl (
        expired-Dead now r hit,
        requeued-Freed r,
        (length (select (expired now) rows), refl, patch-Recovered now rows),
      ))
  | inr miss ↦
      let alive : ¬ Dead now r = λ d. absurd (ground (arith, miss, Dead-expired now r d)) in
      rw miss (inr (alive, refl, patch-Recovered now rows))
]

-- The attempt of a dead row is closed, and stays so.
abbrev Closed : ℕ → ℕ → List TaskAttempt → Type 0
Closed id n ts = All (λ a. is_open id n a ≡ false) ts

closed-not_open :
    (clock : Clock) (state : TaskState) (error : Option _) (id n : ℕ) (a : TaskAttempt)
    → is_open id n (closed_attempt clock state error a) ≡ false
unfolding closed_attempt
closed-not_open clock state error id n a = ground arith

patch-Closed :
    (clock : Clock) (state : TaskState) (error : Option _) (p : TaskAttempt → Bool) (id n : ℕ)
    (ts : List TaskAttempt)
    → All (λ a. p a ≡ false → is_open id n a ≡ false) ts
    → Closed id n (patch p (closed_attempt clock state error) ts)
patch-Closed clock state error p id n [] h = tt
patch-Closed clock state error p id n (a ∷ ts) h = elim (Bool-cases (p a)) [
  | inl hit ↦
      rw hit
        (closed-not_open clock state error id n a, patch-Closed clock state error p id n ts h.1)
  | inr miss ↦ rw miss (h.0 miss, patch-Closed clock state error p id n ts h.1)
]

weaken :
    (p : TaskAttempt → Bool) (id n : ℕ) (ts : List TaskAttempt)
    → Closed id n ts
    → All (λ a. p a ≡ false → is_open id n a ≡ false) ts
weaken p id n [] h = tt
weaken p id n (a ∷ ts) h = (λ _. h.0, weaken p id n ts h.1)

itself :
    (id n : ℕ) (ts : List TaskAttempt)
    → All (λ a. is_open id n a ≡ false → is_open id n a ≡ false) ts
itself id n [] = tt
itself id n (a ∷ ts) = (λ e. e, itself id n ts)

close_all-Closed :
    (clock : Clock) (rows : List TaskRun) (s : Store)
    → (s' : Store) × (close_all clock rows s ≡ ok (tt, s'))
      × (s'.task_runs ≡ s.task_runs)
      × ((id n : ℕ) → Closed id n s.attempts → Closed id n s'.attempts)
      × ((r : TaskRun) → Memᴰ r rows → Closed r.id r.attempt s'.attempts)
unfolding close_all
close_all-Closed clock [] s = (s, refl, refl, (λ id n h. h), λ r m. elim m [ ])
close_all-Closed clock (x ∷ rows) s =
    let e = some expiry_error in
    let p = is_open x.id x.attempt in
    let t = record s { attempts = patch p (closed_attempt clock TaskState.failed e) s.attempts } in
    let (s', steps, same, keep, closes) = close_all-Closed clock rows t in
    (
      s',
      steps,
      same,
      (λ id n h.
          keep id n
            (patch-Closed clock TaskState.failed e p id n s.attempts (weaken p id n s.attempts h))),
      λ r m. elim (Memᴰ.cases_cons m) [
        | inl is ↦
            subst (λ (y : TaskRun). Closed y.id y.attempt s'.attempts) (sym is)
              (keep x.id x.attempt (
                patch-Closed clock TaskState.failed e p x.id x.attempt s.attempts
                  (itself x.id x.attempt s.attempts)))
        | inr k ↦ closes r k
      ],
    )

-- No attempt with that number is open for the task.
abbrev pub Finished : ℕ → ℕ → List TaskAttempt → Type 0
Finished id n ts = All (λ a. a.task_run_id ≡ id → a.attempt ≡ n → a.finished_at ≢ none) ts

Closed-Finished : (id n : ℕ) (ts : List TaskAttempt) → Closed id n ts → Finished id n ts
Closed-Finished id n [] h = tt
Closed-Finished id n (a ∷ ts) h =
    (λ i k e. absurd (ground (arith, h.0, i, k, e)), Closed-Finished id n ts h.1)

into-select :
    (now : ℕ) (rows : List TaskRun) (r : TaskRun)
    → Memᴰ r rows
    → expired now r ≡ true
    → Memᴰ r (select (expired now) rows)
into-select now [] r m h = m
into-select now (x ∷ rows) r m h = elim (Memᴰ.cases_cons m) [
  | inl e ↦ let hit : expired now x ≡ true = rw (← e) h in rw hit (Memᴰ.head e)
  | inr k ↦ elim (Bool-cases (expired now x)) [
    | inl hit ↦ rw hit (Memᴰ.tail (into-select now rows r k h))
    | inr miss ↦ rw miss (into-select now rows r k h)
  ]
]

-- On a sound table the reaper always returns, with the number of the RUNNING rows whose lease has
-- run out. It makes each of these READY, with no worker and no lease, and keeps its attempts, its
-- budget, its priority and its time; it closes the attempt that the dead worker had open; and it
-- leaves every other row as it was.
pub reap-Recovered :
    (clock : Clock) (s : Store)
    → IsTable s.task_runs
    → (n : ℕ) × (s' : Store) × (reap_expired_leases clock s ≡ ok (n, s'))
      × Recovered clock.process n s.task_runs s'.task_runs
      × ((r : TaskRun)
          → Memᴰ r s.task_runs
          → Dead clock.process r
          → Finished r.id r.attempt s'.attempts)
unfolding reap_expired_leases
reap-Recovered clock s v =
    let now = clock.process in
    let t = record s { task_runs = patch (expired now) requeued_row s.task_runs } in
    let written = update-Fits _ _ (requeued-Fits now) s v.sound in
    let (s', steps, same, keep, closes) =
      close_all-Closed clock (select (expired now) s.task_runs) t in
    let n = length (select (expired now) s.task_runs) in
    (
      n,
      s',
      rw (written, steps) refl,
      subst (Recovered now n s.task_runs) (sym same) (patch-Recovered now s.task_runs),
      λ r m dead.
          Closed-Finished r.id r.attempt s'.attempts
            (closes r (into-select now s.task_runs r m (Dead-expired now r dead))),
    )
