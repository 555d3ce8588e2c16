-- ===== src/Queue/Moves.antt =====
-- What any operation of the queue may do to one row of `task_runs`, and the rules by which the
-- operations are shown to do no more.
use distributed_job_orchestr.Common.{
  ℕ, ◌≤◌, ◌≡◌, refl, sym, ◌∙◌, ◌≢◌, inl, inr, Bool, true, false, List, [], ◌∷◌, none, All, arith,
  Bool-cases,
}
use distributed_job_orchestr.State.{TaskState, is_terminal}
use distributed_job_orchestr.Retry
use distributed_job_orchestr.Queue.Rows.{TaskRun, Store, is_some, checks}
use distributed_job_orchestr.Queue.Monad.{
  Result, ok, err, M, pure, lift, ◌>>=◌, bind_result, gets, patch, breaks, update_task_runs,
}

-- A row has a lease and a worker exactly while it is RUNNING, is within its budget, and has made an
-- attempt if it is RUNNING.
pub record IsSound (r : TaskRun) : Type 0 where
  pub within : r.attempt ≤ r.max_attempts
  pub counted : r.state ≡ TaskState.running → 1 ≤ r.attempt
  pub leased :
      r.state ≡ TaskState.running
      → (is_some r.lease_expires_at ≡ true) × (is_some r.worker_id ≡ true)
  pub free : r.state ≢ TaskState.running → (r.lease_expires_at ≡ none) × (r.worker_id ≡ none)

-- From `r` to `r'`: the identity and the budget stay, the attempts never fall, a terminal row does
-- not change at all, and the row stays sound.
pub record Moves (r r' : TaskRun) : Type 0 where
  pub id_kept : r'.id ≡ r.id
  pub run_kept : r'.run_id ≡ r.run_id
  pub task_kept : r'.task_id ≡ r.task_id
  pub budget_kept : r'.max_attempts ≡ r.max_attempts
  pub attempt_grows : r.attempt ≤ r'.attempt
  pub terminal_kept : is_terminal r.state ≡ true → r' ≡ r
  pub sound : IsSound r'

pub Moves-refl : (r : TaskRun) → IsSound r → Moves r r
Moves-refl r v = record {
  id_kept = refl;
  run_kept = refl;
  task_kept = refl;
  budget_kept = refl;
  attempt_grows = omega arith;
  terminal_kept = λ _. refl;
  sound = v;
}

pub Moves-trans : (r s t : TaskRun) → Moves r s → Moves s t → Moves r t
Moves-trans r s t m n = record {
  id_kept = n.id_kept ∙ m.id_kept;
  run_kept = n.run_kept ∙ m.run_kept;
  task_kept = n.task_kept ∙ m.task_kept;
  budget_kept = n.budget_kept ∙ m.budget_kept;
  attempt_grows = omega arith;
  terminal_kept = λ h. let same = m.terminal_kept h in n.terminal_kept (rw same h) ∙ same;
  sound = n.sound;
}

-- The rows of a table move one by one, in place; none is added, dropped or reordered.
abbrev pub Rows : List TaskRun → List TaskRun → Type 0
Rows [] [] = Unit
Rows (r ∷ rows) (r' ∷ rows') = Moves r r' × Rows rows rows'
Rows _ _ = ⊥

abbrev pub AllSound : List TaskRun → Type 0
AllSound = All IsSound

pub Rows-refl : (rows : List TaskRun) → AllSound rows → Rows rows rows
Rows-refl [] v = tt
Rows-refl (r ∷ rows) v = (Moves-refl r v.0, Rows-refl rows v.1)

pub Rows-trans : (a b c : List TaskRun) → Rows a b → Rows b c → Rows a c
Rows-trans [] [] [] p q = tt
Rows-trans (r ∷ a) (s ∷ b) (t ∷ c) p q = (Moves-trans r s t p.0 q.0, Rows-trans a b c p.1 q.1)
Rows-trans [] [] (_ ∷ _) p q = absurd q
Rows-trans [] (_ ∷ _) _ p q = absurd p
Rows-trans (_ ∷ _) [] _ p q = absurd p
Rows-trans (_ ∷ _) (_ ∷ _) [] p q = absurd q

-- No two rows of a table share an id, by recursion.
abbrev pub Unique : List TaskRun → Type 0
Unique [] = Unit
Unique (r ∷ rows) = All (λ x. x.id ≢ r.id) rows × Unique rows

-- What a transaction finds: sound rows under distinct ids.
pub record IsTable (rows : List TaskRun) : Type 0 where
  pub sound : AllSound rows
  pub unique : Unique rows

pub Rows-AllSound : (a b : List TaskRun) → Rows a b → AllSound b
Rows-AllSound [] [] p = tt
Rows-AllSound (r ∷ a) (s ∷ b) p = (p.0.sound, Rows-AllSound a b p.1)
Rows-AllSound [] (_ ∷ _) p = absurd p
Rows-AllSound (_ ∷ _) [] p = absurd p

differs-Rows :
    (i : ℕ) (a b : List TaskRun) → Rows a b → All (λ x. x.id ≢ i) a → All (λ x. x.id ≢ i) b
differs-Rows i [] [] p h = tt
differs-Rows i (r ∷ a) (s ∷ b) p h = ((λ e. h.0 (sym p.0.id_kept ∙ e)), differs-Rows i a b p.1 h.1)
differs-Rows i [] (_ ∷ _) p h = absurd p
differs-Rows i (_ ∷ _) [] p h = absurd p

Rows-Unique : (a b : List TaskRun) → Rows a b → Unique a → Unique b
Rows-Unique [] [] p u = tt
Rows-Unique (r ∷ a) (s ∷ b) p u =
    (rw p.0.id_kept (differs-Rows r.id a b p.1 u.0), Rows-Unique a b p.1 u.1)
Rows-Unique [] (_ ∷ _) p u = absurd p
Rows-Unique (_ ∷ _) [] p u = absurd p

pub Rows-IsTable : (a b : List TaskRun) → Rows a b → IsTable a → IsTable b
Rows-IsTable a b p v = record { sound = Rows-AllSound a b p; unique = Rows-Unique a b p v.unique }

-- The operation moves the rows, whenever it returns.
pub record Keeps {A : Type 0} (m : M A) : Type 0 where
  pub rows :
      (s : Store) (a : A) (s' : Store)
      → m s ≡ ok (a, s')
      → IsTable s.task_runs
      → Rows s.task_runs s'.task_runs

-- What an UPDATE must show of the rows that it matches.
abbrev pub Writes : (TaskRun → Bool) → (TaskRun → TaskRun) → Type 0
Writes p f = (r : TaskRun) → IsSound r → p r ≡ true → checks (f r) ≡ true → Moves r (f r)

-- The same of the rows of one table.
abbrev pub WritesIn : (TaskRun → Bool) → (TaskRun → TaskRun) → List TaskRun → Type 0
WritesIn p f = All (λ r. p r ≡ true → checks (f r) ≡ true → Moves r (f r))

patch-Rows :
    (p : TaskRun → Bool) (f : TaskRun → TaskRun) (rows : List TaskRun)
    → WritesIn p f rows
    → breaks p f rows ≡ false
    → AllSound rows
    → Rows rows (patch p f rows)
unfolding breaks
patch-Rows p f [] w e v = tt
patch-Rows p f (r ∷ rows) w e v = elim (Bool-cases (p r)) [
  | inl hit ↦ elim (Bool-cases (checks (f r))) [
    | inl fine ↦ rw hit (w.0 hit fine, patch-Rows p f rows w.1 (rw (hit, fine) at e) v.1)
    | inr broken ↦ absurd (ground arith)
  ]
  | inr miss ↦ rw miss (Moves-refl r v.0, patch-Rows p f rows w.1 (rw miss at e) v.1)
]

Writes-WritesIn :
    (p : TaskRun → Bool) (f : TaskRun → TaskRun) (rows : List TaskRun)
    → Writes p f
    → AllSound rows
    → WritesIn p f rows
Writes-WritesIn p f [] w v = tt
Writes-WritesIn p f (r ∷ rows) w v = (w r v.0, Writes-WritesIn p f rows w v.1)

pub update-Rows :
    (p : TaskRun → Bool) (f : TaskRun → TaskRun) (s s' : Store) (a : Unit {0})
    → WritesIn p f s.task_runs
    → update_task_runs p f s ≡ ok (a, s')
    → AllSound s.task_runs
    → Rows s.task_runs s'.task_runs
unfolding update_task_runs
update-Rows p f s s' a w e v = elim (Bool-cases (breaks p f s.task_runs)) [
  | inl bad ↦ absurd (ground arith)
  | inr fine ↦
      let at_store : s'.task_runs ≡ patch p f s.task_runs = ground arith in
      rw at_store (patch-Rows p f s.task_runs w fine v)
]

pub update-Keeps :
    (p : TaskRun → Bool) (f : TaskRun → TaskRun) → Writes p f → Keeps (update_task_runs p f)
update-Keeps p f w = record {
  rows = λ s a s' e v. update-Rows p f s s' a (Writes-WritesIn p f s.task_runs w v.sound) e v.sound;
}

module _ {A B : Type 0} where
  pub bind_inv :
      (m : Result (A × Store)) (k : A → M B) {b : B} {s' : Store}
      → bind_result m k ≡ ok (b, s')
      → (a : A) × (t : Store) × (m ≡ ok (a, t)) × (k a t ≡ ok (b, s'))
  bind_inv (ok (a, t)) k e = (a, t, refl, e)
  bind_inv (err x) k e = cc

  pub bind-Keeps : (m : M A) (k : A → M B) → Keeps m → ((a : A) → Keeps (k a)) → Keeps (m >>= k)
  bind-Keeps m k hm hk = record {
    rows = λ s b s' e v.
        let (a, t, first, second) = bind_inv (m s) k e in
        let p = hm.rows s a t first v in
        Rows-trans s.task_runs t.task_runs s'.task_runs p
          ((hk a).rows t b s' second (Rows-IsTable s.task_runs t.task_runs p v));
  }

module _ {A : Type 0} where
  -- An operation that leaves `task_runs` alone.
  pub still-Keeps :
      (m : M A)
      → ((s : Store) (a : A) (s' : Store) → m s ≡ ok (a, s') → s'.task_runs ≡ s.task_runs)
      → Keeps m
  still-Keeps m h = record { rows = λ s a s' e v. rw (h s a s' e) (Rows-refl s.task_runs v.sound) }

  pub pure-Keeps : (a : A) → Keeps (pure a)
  pure-Keeps a = still-Keeps (pure a) (λ s b s' e. ground arith)

  pub gets-Keeps : (f : Store → A) → Keeps (gets f)
  gets-Keeps f = still-Keeps (gets f) (λ s b s' e. ground arith)

  pub lift-Keeps : (r : Retry.Result A) → Keeps (lift r)
  lift-Keeps (Retry.ok a) = still-Keeps (lift (Retry.ok a)) (λ s b s' e. ground arith)
  lift-Keeps (Retry.err x) = still-Keeps (lift (Retry.err x)) (λ s b s' e. ground arith)
