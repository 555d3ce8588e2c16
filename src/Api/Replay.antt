-- ===== src/Api/Replay.antt =====
-- A request that is sent again with its key gets the run that the first one started.
use distributed_job_orchestr.Common.{
  ℕ, ◌≡◌, ◌⊎◌, refl, sym, ap, subst, ◌∙◌, true, false, List, [], ◌∷◌, ◌++◌, Option, none, some,
  arith, any, ◌==◌, Bool-cases, Option-cases, inl, inr,
}
use distributed_job_orchestr.Common.Text.{Text, text_eq}
use distributed_job_orchestr.Queue.Rows.{Json, WorkflowRun, Store, Clock, Task}
use distributed_job_orchestr.Queue.Monad
use distributed_job_orchestr.Queue.Monad.{select}
use distributed_job_orchestr.Queue.Runs.{create_run, new_run, new_task_runs, is_empty}
use distributed_job_orchestr.Workflows.{RowOrder, dependencies}
use distributed_job_orchestr.Workflows.Publish.{text_eq_refl}
use distributed_job_orchestr.Api.{
  RunCreate, IdempotencyKey, Service, Problem, not_found, conflict, integrity_error,
  repository_error, Answer, answer, problem, Response, find_key, find_run, earlier_run, resolve,
  keep_key, with_key, start_run, key_of, submit_run,
}

Monad_Result-cases :
    {A : Type 0} (r : Monad.Result A)
    → ((e : Monad.Error) × (r ≡ Monad.err e)) ⊎ ((a : A) × (r ≡ Monad.ok a))
Monad_Result-cases (Monad.err e) = inl (e, refl)
Monad_Result-cases (Monad.ok a) = inr (a, refl)

Answer-cases :
    {A : Type 0} (r : Answer A) → ((e : Problem) × (r ≡ problem e)) ⊎ ((a : A) × (r ≡ answer a))
Answer-cases (problem e) = inl (e, refl)
Answer-cases (answer a) = inr (a, refl)

answer_pairs :
    {A B : Type 0} (p q : A × B)
    → ◌≡◌ {A = Answer (A × B)} (answer p) (answer q)
    → (p.0 ≡ q.0) × (p.1 ≡ q.1)
answer_pairs p q h = let both : p ≡ q = cc in (ap (λ r. r.0) both, ap (λ r. r.1) both)

result_pairs :
    {A B : Type 0} (p q : A × B)
    → ◌≡◌ {A = Monad.Result (A × B)} (Monad.ok p) (Monad.ok q)
    → (p.0 ≡ q.0) × (p.1 ≡ q.1)
result_pairs p q h = let both : p ≡ q = cc in (ap (λ r. r.0) both, ap (λ r. r.1) both)

find_key-snoc :
    (key : Text) (k : IdempotencyKey) (ks : List IdempotencyKey)
    → text_eq k.key key ≡ true
    → any (λ j. text_eq j.key key) ks ≡ false
    → find_key key (ks ++ k ∷ []) ≡ some k
find_key-snoc key k [] e h = ground (arith, e)
find_key-snoc key k (j ∷ ks) e h = ground (arith, h, find_key-snoc key k ks e)

find_run-snoc :
    (id : ℕ) (r : WorkflowRun) (rs : List WorkflowRun)
    → r.id ≡ id
    → find_run id rs ≡ none
    → find_run id (rs ++ r ∷ []) ≡ some r
find_run-snoc id r [] e h = ground (arith, e)
find_run-snoc id r (s ∷ rs) e h = ground (arith, h, find_run-snoc id r rs e)

-- The repository adds the row of the new run, whatever the tasks are.
create_run_lem :
    (clock : Clock) (run_id : ℕ) (fresh : ℕ → ℕ) (workflow_id : ℕ) (deps : List (Text × List Text))
    (payload : Option Json) (s : Store) (run : WorkflowRun) (s' : Store)
    → create_run clock run_id fresh workflow_id deps payload s ≡ Monad.ok (run, s')
    → (run.id ≡ run_id) × (s'.runs ≡ s.runs ++ run ∷ [])
unfolding create_run new_run
create_run_lem clock run_id fresh workflow_id deps payload s run s' h =
    let tasks = select (λ (t : Task). t.workflow_id == workflow_id) s.tasks in
    elim (Monad_Result-cases (new_task_runs clock.process fresh run_id deps tasks)) [
      | inl (e, f) ↦
          let at : create_run clock run_id fresh workflow_id deps payload s ≡ Monad.err e =
            rw (create_run, f) refl in
          absurd (ground (arith, at, h))
      | inr (rows, f) ↦ elim (Bool-cases (is_empty tasks)) [
        | inl no_tasks ↦
            let at : create_run clock run_id fresh workflow_id deps payload s
                ≡ Monad.err Monad.value_error =
              rw (create_run, f, no_tasks) refl in
            absurd (ground (arith, at, h))
        | inr has_tasks ↦
            let row = new_run run_id workflow_id payload in
            let tables = record s { runs = s.runs ++ row ∷ []; task_runs = s.task_runs ++ rows } in
            let at : create_run clock run_id fresh workflow_id deps payload s
                ≡ Monad.ok (row, tables) =
              rw (create_run, f, has_tasks) refl in
            let (same_row, same_tables) = result_pairs (row, tables) (run, s') (sym at ∙ h) in
            (
              ap (λ r. r.id) (sym same_row),
              ap (λ t. t.runs) (sym same_tables) ∙ ap (λ r. s.runs ++ r ∷ []) same_row,
            )
      ]
    ]

abbrev key_row : (RunCreate → ℕ) → Text → RunCreate → ℕ → IdempotencyKey
key_row fingerprint key body run_id = record {
  key = key;
  request_hash = fingerprint body;
  run_id = run_id;
}

keep_key_lem :
    (fingerprint : RunCreate → ℕ) (key : Text) (body : RunCreate) (run_id : ℕ)
    (ks ks' : List IdempotencyKey)
    → keep_key fingerprint (some key) body run_id ks ≡ answer ks'
    → (any (λ k. text_eq k.key key) ks ≡ false)
      × (ks' ≡ ks ++ key_row fingerprint key body run_id ∷ [])
unfolding keep_key
keep_key_lem fingerprint key body run_id ks ks' h =
    let new = ks ++ key_row fingerprint key body run_id ∷ [] in
    elim (Bool-cases (any (λ k. text_eq k.key key) ks)) [
      | inl taken ↦
          let at : keep_key fingerprint (some key) body run_id ks ≡ problem integrity_error =
            rw (keep_key, taken) refl in
          absurd (ground (arith, at, h))
      | inr free ↦
          let at : keep_key fingerprint (some key) body run_id ks ≡ answer new =
            rw (keep_key, free) refl in
          let both : ◌≡◌ {A = Answer (List IdempotencyKey)} (answer ks') (answer new) =
            sym h ∙ at in
          (free, cc)
    ]

-- What is known of a run that was started with a key.
record Started (fingerprint : RunCreate → ℕ) (key : Text) (body : RunCreate) (r : Response)
    (s' : Service) : Type 0 where
  kept :
      find_key key s'.idempotency_keys
      ≡ some (record { key = key; request_hash = fingerprint body; run_id = r.run.id })
  there : find_run r.run.id s'.catalog.tables.runs ≡ some r.run

start_run-Started :
    (order : RowOrder) (fingerprint : RunCreate → ℕ) (clock : Clock) (run_id : ℕ) (fresh : ℕ → ℕ)
    (key : Text) (body : RunCreate) (s : Service) (r : Response) (s' : Service)
    → find_run run_id s.catalog.tables.runs ≡ none
    → start_run order fingerprint clock run_id fresh (some key) body s ≡ answer (r, s')
    → Started fingerprint key body r s'
unfolding start_run keep_key
start_run-Started order fingerprint clock run_id fresh key body s r s' new h =
    elim (Option-cases (resolve body s.catalog.workflows)) [
      | inl missing ↦
          let at : start_run order fingerprint clock run_id fresh (some key) body s
              ≡ problem not_found =
            rw (start_run, missing) refl in
          absurd (ground (arith, at, h))
      | inr (w, resolved) ↦
          let made =
            create_run clock run_id fresh w.id (dependencies order w.id s.catalog.tables)
              (some body.payload) s.catalog.tables in
          elim (Monad_Result-cases made) [
            | inl (e, f) ↦
                let at : start_run order fingerprint clock run_id fresh (some key) body s
                    ≡ problem (repository_error e) =
                  rw (start_run, resolved, f) refl in
                absurd (ground (arith, at, h))
            | inr ((run, tables), f) ↦
                elim (Answer-cases
                  (keep_key fingerprint (some key) body run.id s.idempotency_keys)) [
                    | inl (e, g) ↦
                        let at : start_run order fingerprint clock run_id fresh (some key) body s
                            ≡ problem e =
                          rw (start_run, resolved, f, g, with_key) refl in
                        absurd (ground (arith, at, h))
                    | inr (ks, g) ↦
                        let reply : Response = record { status = 201; run = run } in
                        let after : Service = record {
                          catalog = record s.catalog { tables = tables };
                          idempotency_keys = ks;
                        } in
                        let at : start_run order fingerprint clock run_id fresh (some key) body s
                            ≡ answer (reply, after) =
                          rw (start_run, resolved, f, g, with_key) refl in
                        let (same_reply, same_after) =
                          answer_pairs (reply, after) (r, s') (sym at ∙ h) in
                        let (free, keys) =
                          keep_key_lem fingerprint key body run.id s.idempotency_keys ks g in
                        let (id, runs) =
                          create_run_lem clock run_id fresh w.id
                            (dependencies order w.id s.catalog.tables) (some body.payload)
                            s.catalog.tables run tables f in
                        let row = key_row fingerprint key body run.id in
                        let started : Started fingerprint key body reply after = record {
                          kept =
                              ap (find_key key) keys
                              ∙ find_key-snoc key row s.idempotency_keys (text_eq_refl key) free;
                          there =
                              ap (find_run run.id) runs
                              ∙ find_run-snoc run.id run s.catalog.tables.runs refl (rw id new);
                        } in
                        subst (λ x. Started fingerprint key body x s') same_reply
                          (subst (Started fingerprint key body reply) same_after started)
                  ]
          ]
    ]

-- A submission that answers 201 has started a run.
submitted-Started :
    (order : RowOrder) (fingerprint : RunCreate → ℕ) (clock : Clock) (run_id : ℕ) (fresh : ℕ → ℕ)
    (key : Text) (body : RunCreate) (s : Service) (r : Response) (s' : Service)
    → find_run run_id s.catalog.tables.runs ≡ none
    → submit_run order fingerprint clock run_id fresh (some key) body s ≡ answer (r, s')
    → r.status ≡ 201
    → Started fingerprint key body r s'
unfolding submit_run
submitted-Started order fingerprint clock run_id fresh key body s r s' new h created =
    let before = earlier_run fingerprint (find_key key s.idempotency_keys) body s in
    elim (Answer-cases before) [
      | inl (e, f) ↦
          let at : submit_run order fingerprint clock run_id fresh (some key) body s ≡ problem e =
            rw (submit_run, key_of, f) refl in
          absurd (ground (arith, at, h))
      | inr (o, f) ↦ elim (Option-cases o) [
        | inl nothing ↦
            let first : before ≡ answer none = f ∙ ap answer nothing in
            let at : submit_run order fingerprint clock run_id fresh (some key) body s
                ≡ start_run order fingerprint clock run_id fresh (some key) body s =
              rw (submit_run, key_of, first) refl in
            start_run-Started order fingerprint clock run_id fresh key body s r s' new (sym at ∙ h)
        | inr (run, there) ↦
            let first : before ≡ answer (some run) = f ∙ ap answer there in
            let reply : Response = record { status = 200; run = run } in
            let at : submit_run order fingerprint clock run_id fresh (some key) body s
                ≡ answer (reply, s) =
              rw (submit_run, key_of, first) refl in
            let (same, kept) = answer_pairs (reply, s) (r, s') (sym at ∙ h) in
            let status : 200 ≡ r.status = ap (λ x. x.status) same in
            absurd (omega (arith, status, created))
      ]
    ]

-- When a request with a key has started a run (status 201, with a new UUID), the same body sent
-- again with that key, at any time and with any new UUIDs, gets the same run with status 200 and
-- changes nothing; a body with another fingerprint gets status 409.
pub submit_run-again :
    (order : RowOrder) (fingerprint : RunCreate → ℕ) (clock : Clock) (run_id : ℕ) (fresh : ℕ → ℕ)
    (key : Text) (body : RunCreate) (s : Service) (r : Response) (s' : Service)
    → find_run run_id s.catalog.tables.runs ≡ none
    → submit_run order fingerprint clock run_id fresh (some key) body s ≡ answer (r, s')
    → r.status ≡ 201
    → ((clock' : Clock) (run_id' : ℕ) (fresh' : ℕ → ℕ)
        → submit_run order fingerprint clock' run_id' fresh' (some key) body s'
          ≡ answer (record { status = 200; run = r.run }, s'))
      × ((clock' : Clock) (run_id' : ℕ) (fresh' : ℕ → ℕ) (other : RunCreate)
          → (fingerprint body == fingerprint other) ≡ false
          → submit_run order fingerprint clock' run_id' fresh' (some key) other s'
            ≡ problem conflict)
unfolding submit_run earlier_run
submit_run-again order fingerprint clock run_id fresh key body s r s' new h created =
    let v = submitted-Started order fingerprint clock run_id fresh key body s r s' new h created in
    (
      λ clock' run_id' fresh'.
          let same : (fingerprint body == fingerprint body) ≡ true = ground arith in
          rw (submit_run, key_of, v.kept, earlier_run, same, v.there) refl,
      λ clock' run_id' fresh' other apart. rw (submit_run, key_of, v.kept, earlier_run, apart) refl,
    )
