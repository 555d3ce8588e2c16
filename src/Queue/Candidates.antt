-- ===== src/Queue/Candidates.antt =====
-- What the subquery of `claim_batch` selects, and that the claim moves the rows as `Moves` allows.
use mathlib.Core.List.Memᴰ
use mathlib.Core.List.{Memᴰ}
use distributed_job_orchestr.Common.{
  ℕ, zero, suc, ◌+◌, ◌≡◌, refl, sym, ap, ◌∙◌, ◌≢◌, Bool, true, List, [], ◌∷◌, map, All, arith, ◌==◌,
  take, Bool-cases, inl, inr,
}
use distributed_job_orchestr.State.{is_terminal}
use distributed_job_orchestr.Queue.Rows.{TaskRun, Clock, checks, elem}
use distributed_job_orchestr.Queue.Monad.{select, update_task_runs}
use distributed_job_orchestr.Queue.Claim.{
  precedes, insert_row, order_rows, claimable, candidates, claimed_row, claim_batch, finish_claim,
}
use distributed_job_orchestr.Queue.Moves.{
  IsSound, Unique, Rows-trans, Rows-IsTable, Moves, Keeps, update-Rows, bind_inv, still-Keeps,
}

pub mem-select :
    (p : TaskRun → Bool) (rows : List TaskRun) (r : TaskRun)
    → Memᴰ r (select p rows)
    → Memᴰ r rows × (p r ≡ true)
mem-select p [] r m = elim m [ ]
mem-select p (x ∷ rows) r m = elim (Bool-cases (p x)) [
  | inl hit ↦ elim (Memᴰ.cases_cons (rw hit at m)) [
    | inl e ↦ (Memᴰ.head e, rw e hit)
    | inr k ↦ let (a, b) = mem-select p rows r k in (Memᴰ.tail a, b)
  ]
  | inr miss ↦ let (a, b) = mem-select p rows r (rw miss at m) in (Memᴰ.tail a, b)
]

pub mem-take : (n : ℕ) (rows : List TaskRun) (r : TaskRun) → Memᴰ r (take n rows) → Memᴰ r rows
mem-take zero rows r m = elim m [ ]
mem-take (suc n) [] r m = m
mem-take (suc n) (x ∷ rows) r (Memᴰ.head e) = Memᴰ.head e
mem-take (suc n) (x ∷ rows) r (Memᴰ.tail m) = Memᴰ.tail (mem-take n rows r m)

pub mem-insert_row :
    (x : TaskRun) (rows : List TaskRun) (r : TaskRun)
    → Memᴰ r (insert_row x rows)
    → Memᴰ r (x ∷ rows)
unfolding insert_row
mem-insert_row x [] r m = m
mem-insert_row x (y ∷ rows) r m = elim (Bool-cases (precedes x y)) [
  | inl first ↦ rw first at m
  | inr later ↦ elim (Memᴰ.cases_cons (rw later at m)) [
    | inl e ↦ Memᴰ.tail (Memᴰ.head e)
    | inr k ↦ elim (Memᴰ.cases_cons (mem-insert_row x rows r k)) [
      | inl e ↦ Memᴰ.head e
      | inr h ↦ Memᴰ.tail (Memᴰ.tail h)
    ]
  ]
]

pub mem-order_rows : (rows : List TaskRun) (r : TaskRun) → Memᴰ r (order_rows rows) → Memᴰ r rows
unfolding order_rows
mem-order_rows [] r m = m
mem-order_rows (x ∷ rows) r m = elim (Memᴰ.cases_cons (mem-insert_row x (order_rows rows) r m)) [
  | inl e ↦ Memᴰ.head e
  | inr k ↦ Memᴰ.tail (mem-order_rows rows r k)
]

pub elem-map :
    (i : ℕ) (rows : List TaskRun)
    → elem i (map (λ r. r.id) rows) ≡ true
    → (r : TaskRun) × Memᴰ r rows × (r.id ≡ i)
elem-map i [] e = absurd (ground arith)
elem-map i (x ∷ rows) e = elim (Bool-cases (i == x.id)) [
  | inl here ↦ (x, Memᴰ.head refl, ground arith)
  | inr there ↦ let (r, m, k) = elem-map i rows (rw there at e) in (r, Memᴰ.tail m, k)
]

unlike :
    (i : ℕ) (rows : List TaskRun) (r : TaskRun) → All (λ x. x.id ≢ i) rows → Memᴰ r rows → r.id ≢ i
unlike i [] r h m = elim m [ ]
unlike i (x ∷ rows) r h (Memᴰ.head e) = rw e h.0
unlike i (x ∷ rows) r h (Memᴰ.tail m) = unlike i rows r h.1 m

-- In a table an id belongs to one row.
pub same_row :
    (rows : List TaskRun) (r x : TaskRun)
    → Unique rows
    → Memᴰ r rows
    → Memᴰ x rows
    → r.id ≡ x.id
    → r ≡ x
same_row [] r x u m n k = elim m [ ]
same_row (y ∷ rows) r x u (Memᴰ.head e) (Memᴰ.head f) k = e ∙ sym f
same_row (y ∷ rows) r x u (Memᴰ.head e) (Memᴰ.tail n) k =
    absurd (unlike y.id rows x u.0 n (sym k ∙ ap (λ (z : TaskRun). z.id) e))
same_row (y ∷ rows) r x u (Memᴰ.tail m) (Memᴰ.head f) k =
    absurd (unlike y.id rows r u.0 m (k ∙ ap (λ (z : TaskRun). z.id) f))
same_row (y ∷ rows) r x u (Memᴰ.tail m) (Memᴰ.tail n) k = same_row rows r x u.1 m n k

-- A row that the claim's UPDATE matches is one that the subquery selected.
pub candidate-claimable :
    (now : ℕ) (locked : ℕ → Bool) (limit : ℕ) (rows : List TaskRun) (r : TaskRun)
    → Unique rows
    → Memᴰ r rows
    → elem r.id (candidates now locked limit rows) ≡ true
    → claimable now locked r ≡ true
unfolding candidates
candidate-claimable now locked limit rows r u m e =
    let chosen = take limit (order_rows (select (claimable now locked) rows)) in
    let (x, n, k) = elem-map r.id chosen e in
    let (inside, free) =
      mem-select (claimable now locked) rows x (mem-order_rows _ x (mem-take limit _ x n)) in
    rw (same_row rows r x u m inside (sym k)) free

claim-Moves :
    (clock : Clock) (lease worker : ℕ) (locked : ℕ → Bool) (r : TaskRun)
    → IsSound r
    → claimable clock.process locked r ≡ true
    → checks (claimed_row clock lease worker r) ≡ true
    → Moves r (claimed_row clock lease worker r)
unfolding claimable claimed_row checks is_terminal
claim-Moves clock lease worker locked r v h c = ground arith

pub pick :
    {P : TaskRun → Type 0} (rows : List TaskRun) → ((r : TaskRun) → Memᴰ r rows → P r) → All P rows
pick [] h = tt
pick (x ∷ rows) h = (h x (Memᴰ.head refl), pick rows (λ r m. h r (Memᴰ.tail m)))

pub IsSound-at : (rows : List TaskRun) (r : TaskRun) → All IsSound rows → Memᴰ r rows → IsSound r
IsSound-at [] r h m = elim m [ ]
IsSound-at (x ∷ rows) r h (Memᴰ.head e) = rw e h.0
IsSound-at (x ∷ rows) r h (Memᴰ.tail m) = IsSound-at rows r h.1 m

finish_claim-Keeps :
    (clock : Clock) (worker : ℕ) (claimed : List TaskRun)
    → Keeps (finish_claim clock worker claimed)
finish_claim-Keeps clock worker claimed =
    still-Keeps (finish_claim clock worker claimed) (λ s a s' e. ground arith)

pub claim_batch-Keeps :
    (clock : Clock) (lease : ℕ) (locked : ℕ → Bool) (worker limit : ℕ)
    → Keeps (claim_batch clock lease locked worker limit)
unfolding claim_batch
claim_batch-Keeps clock lease locked worker limit = record {
  rows = λ s a s' e v.
      let ids = candidates clock.process locked limit s.task_runs in
      let f = claimed_row clock (clock.process + lease) worker in
      let (b, t, first, second) =
        bind_inv (update_task_runs (λ r. elem r.id ids) f s)
          (λ _. finish_claim clock worker (map f (select (λ r. elem r.id ids) s.task_runs))) e in
      let written =
        pick {P = λ r. elem r.id ids ≡ true → checks (f r) ≡ true → Moves r (f r)} s.task_runs
          (λ r m hit fine.
            claim-Moves clock (clock.process + lease) worker locked r
              (IsSound-at s.task_runs r v.sound m)
              (candidate-claimable clock.process locked limit s.task_runs r v.unique m hit) fine) in
      let p = update-Rows (λ r. elem r.id ids) f s t b written first v.sound in
      Rows-trans s.task_runs t.task_runs s'.task_runs p (
        (finish_claim-Keeps clock worker (map f (select (λ r. elem r.id ids) s.task_runs))).rows t a
          s' second (Rows-IsTable s.task_runs t.task_runs p v));
}
