-- ===== src/Queue/Handout.antt =====
-- No attempt of a task is handed to two workers.
use mathlib.Core.List.Memᴰ
use mathlib.Core.List.{Memᴰ}
use distributed_job_orchestr.Common.{
  ℕ, ◌+◌, ◌<◌, ◌≡◌, refl, sym, ap, subst, ◌∙◌, Bool, true, List, [], ◌∷◌, map, arith, Option-cases,
  inl, inr,
}
use distributed_job_orchestr.Queue.Rows.{Task, TaskRun, TaskAttempt, Store, Clock, elem}
use distributed_job_orchestr.Queue.Monad.{Result, ok, err, select, patch, update_task_runs}
use distributed_job_orchestr.Queue.Claim.{
  ClaimedTask, new_attempt, claimed_task, add_claim, claimed_row, describe_claims, definition_of,
  insert_attempts, store_attempts, store_claims, finish_claim, candidates, claim_batch,
}
use distributed_job_orchestr.Queue.Moves.{IsTable, Rows, Rows-IsTable, Moves, bind_inv}
use distributed_job_orchestr.Queue.Candidates.{mem-select, same_row, claim_batch-Keeps}
use distributed_job_orchestr.Queue.Once.{update-patch}
use distributed_job_orchestr.Queue.Traces.{Call, run, run-Rows}

add_claim_inv :
    (a : TaskAttempt) (c : ClaimedTask) (rest : Result (List TaskAttempt × List ClaimedTask))
    (added : List TaskAttempt) (results : List ClaimedTask)
    → add_claim a c rest ≡ ok (added, results)
    → (more : List TaskAttempt) × (tail : List ClaimedTask) × (rest ≡ ok (more, tail))
      × (results ≡ c ∷ tail)
      × (added ≡ a ∷ more)
add_claim_inv a c (ok (more, tail)) added results e = (more, tail, refl, cc, cc)
add_claim_inv a c (err x) added results e = absurd (ground arith)

describe_inv :
    (clock : Clock) (worker : ℕ) (tasks : List Task) (r : TaskRun) (rows : List TaskRun)
    (added : List TaskAttempt) (results : List ClaimedTask)
    → describe_claims clock worker tasks (r ∷ rows) ≡ ok (added, results)
    → (d : Task) × (more : List TaskAttempt) × (tail : List ClaimedTask) × (describe_claims clock
          worker tasks rows
        ≡ ok (more, tail))
      × (results ≡ claimed_task d r ∷ tail)
      × (added ≡ new_attempt clock worker r ∷ more)
unfolding describe_claims
describe_inv clock worker tasks r rows added results e =
    elim (Option-cases (definition_of tasks r.task_id)) [
      | inl gone ↦ absurd (ground arith)
      | inr (d, found) ↦
          let (more, tail, p, q, w) =
            add_claim_inv (new_attempt clock worker r) (claimed_task d r)
              (describe_claims clock worker tasks rows) added results
              (rw (found, describe_claims) at e) in
          (d, more, tail, p, q, w)
    ]

describe-mem :
    (clock : Clock) (worker : ℕ) (tasks : List Task) (rows : List TaskRun)
    (added : List TaskAttempt) (results : List ClaimedTask) (x : ClaimedTask)
    → describe_claims clock worker tasks rows ≡ ok (added, results)
    → Memᴰ x results
    → (r : TaskRun) × Memᴰ r rows × (x.task_run_id ≡ r.id) × (x.attempt ≡ r.attempt)
unfolding describe_claims claimed_task
describe-mem clock worker tasks [] added results x e m =
    let none-Left : results ≡ [] = cc in absurd (Memᴰ.not-nil (rw none-Left at m))
describe-mem clock worker tasks (r ∷ rows) added results x e m =
    let (d, more, tail, p, q, _) = describe_inv clock worker tasks r rows added results e in
    elim (Memᴰ.cases_cons (rw q at m)) [
      | inl here ↦ (r, Memᴰ.head refl, rw here refl, rw here refl)
      | inr there ↦
          let (y, n, a, b) = describe-mem clock worker tasks rows more tail x p there in
          (y, Memᴰ.tail n, a, b)
    ]

mem-map-select :
    (p : TaskRun → Bool) (f : TaskRun → TaskRun) (rows : List TaskRun) (y : TaskRun)
    → Memᴰ y (map f (select p rows))
    → (r : TaskRun) × Memᴰ r rows × (p r ≡ true) × (y ≡ f r)
mem-map-select p f rows y m =
    let (r, n, e) = Memᴰ.of_map f (select p rows) m in
    let (inside, hit) = mem-select p rows r n in (r, inside, hit, sym e)

pub mem-patch :
    (p : TaskRun → Bool) (f : TaskRun → TaskRun) (rows : List TaskRun) (r : TaskRun)
    → Memᴰ r rows
    → p r ≡ true
    → Memᴰ (f r) (patch p f rows)
mem-patch p f [] r m h = elim m [ ]
mem-patch p f (x ∷ rows) r (Memᴰ.head e) h =
    let hit : p x ≡ true = rw (← e) h in rw hit (Memᴰ.head (ap f e))
mem-patch p f (x ∷ rows) r (Memᴰ.tail m) h = Memᴰ.tail (mem-patch p f rows r m h)

store_attempts-rows :
    (kept : List ClaimedTask) (table : Result (List TaskAttempt)) (t s' : Store)
    (results : List ClaimedTask)
    → store_attempts kept table t ≡ ok (results, s')
    → (kept ≡ results) × (s'.task_runs ≡ t.task_runs)
store_attempts-rows kept (err x) t s' results e = absurd (ground arith)
store_attempts-rows kept (ok table) t s' results e = ground arith

store_claims-rows :
    (described : Result (List TaskAttempt × List ClaimedTask)) (t s' : Store)
    (results : List ClaimedTask)
    → store_claims described t ≡ ok (results, s')
    → (added : List TaskAttempt) × (described ≡ ok (added, results)) × (s'.task_runs ≡ t.task_runs)
store_claims-rows (err x) t s' results e = absurd (ground arith)
store_claims-rows (ok (added, kept)) t s' results e =
    let (same, rows) = store_attempts-rows kept (insert_attempts t.attempts added) t s' results e in
    (added, rw same, rows)

finish-results :
    (clock : Clock) (worker : ℕ) (claimed : List TaskRun) (t s' : Store)
    (results : List ClaimedTask)
    → finish_claim clock worker claimed t ≡ ok (results, s')
    → (added : List TaskAttempt) × (describe_claims clock worker t.tasks claimed
        ≡ ok (added, results))
      × (s'.task_runs ≡ t.task_runs)
finish-results clock worker claimed t s' results e =
    store_claims-rows (describe_claims clock worker t.tasks claimed) t s' results e

-- What the results of a claim say of the rows before and after it.
pub claim-result :
    (clock : Clock) (lease : ℕ) (locked : ℕ → Bool) (worker limit : ℕ) (s s' : Store)
    (results : List ClaimedTask) (x : ClaimedTask)
    → claim_batch clock lease locked worker limit s ≡ ok (results, s')
    → Memᴰ x results
    → (r : TaskRun) × (r' : TaskRun) × Memᴰ r s.task_runs
      × Memᴰ r' s'.task_runs
      × (r.id ≡ x.task_run_id)
      × (r'.id ≡ x.task_run_id)
      × (r'.attempt ≡ x.attempt)
      × (x.attempt ≡ r.attempt + 1)
unfolding claim_batch claimed_row
claim-result clock lease locked worker limit s s' results x e m =
    let ids = candidates clock.process locked limit s.task_runs in
    let p = λ (r : TaskRun). elem r.id ids in
    let f = claimed_row clock (clock.process + lease) worker in
    let (b, t, first, second) =
      bind_inv (update_task_runs p f s)
        (λ _. finish_claim clock worker (map f (select p s.task_runs))) e in
    let (added, described, same) =
      finish-results clock worker (map f (select p s.task_runs)) t s' results second in
    let (y, n, i, a) =
      describe-mem clock worker t.tasks (map f (select p s.task_runs)) added results x described
        m in
    let (r, inside, hit, is) = mem-map-select p f s.task_runs y n in
    (
      r,
      f r,
      inside,
      subst (λ rows. Memᴰ (f r) rows) (sym (same ∙ update-patch p f s t b first))
          (mem-patch p f s.task_runs r inside hit),
      sym (i ∙ ap (λ (z : TaskRun). z.id) is),
      sym (i ∙ ap (λ (z : TaskRun). z.id) is),
      sym (a ∙ ap (λ (z : TaskRun). z.attempt) is),
      a ∙ ap (λ (z : TaskRun). z.attempt) is,
    )

back-Rows :
    (a b : List TaskRun) (q : TaskRun) → Rows a b → Memᴰ q b → (r : TaskRun) × Memᴰ r a × Moves r q
back-Rows [] [] q p m = elim m [ ]
back-Rows (r ∷ a) (s ∷ b) q p (Memᴰ.head e) = (r, Memᴰ.head refl, rw e p.0)
back-Rows (r ∷ a) (s ∷ b) q p (Memᴰ.tail m) =
    let (x, n, k) = back-Rows a b q p.1 m in (x, Memᴰ.tail n, k)
back-Rows [] (_ ∷ _) q p m = absurd p
back-Rows (_ ∷ _) [] q p m = absurd p

-- From a sound table, two claims by any workers, with any schedule of transactions in between: if
-- both return the same task, the later one returns a later attempt.
pub claim_attempts_grow :
    (clock clock' : Clock) (lease lease' : ℕ) (locked locked' : ℕ → Bool)
    (worker worker' limit limit' : ℕ) (s s' s'' : Store) (calls : List (Clock × Call))
    (results results' : List ClaimedTask) (x y : ClaimedTask)
    → IsTable s.task_runs
    → claim_batch clock lease locked worker limit s ≡ ok (results, s')
    → claim_batch clock' lease' locked' worker' limit' (run calls s') ≡ ok (results', s'')
    → Memᴰ x results
    → Memᴰ y results'
    → x.task_run_id ≡ y.task_run_id
    → x.attempt < y.attempt
claim_attempts_grow clock clock' lease lease' locked locked' worker worker' limit limit' s s' s''
      calls results results' x y v e e' mx my same =
    let (_, r, _, mr, _, ri, ra, _) =
      claim-result clock lease locked worker limit s s' results x e mx in
    let (q, _, mq, _, qi, _, _, qa) =
      claim-result clock' lease' locked' worker' limit' (run calls s') s'' results' y e' my in
    let table =
      Rows-IsTable s.task_runs s'.task_runs
        ((claim_batch-Keeps clock lease locked worker limit).rows s results s' e v) v in
    let (r0, m0, moved) =
      back-Rows s'.task_runs (run calls s').task_runs q (run-Rows calls s' table) mq in
    let one =
      same_row s'.task_runs r0 r table.unique m0 mr (sym moved.id_kept ∙ qi ∙ sym same ∙ sym ri) in
    let before : r0.attempt ≡ x.attempt = rw one ra in omega (arith, moved.attempt_grows)
