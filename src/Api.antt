-- ===== src/Api.antt =====
-- The run endpoints of api/routes/runs.py that change state. A response is the row of the run with
-- the status of the answer; the fingerprint of a body, a hash of its JSON text, is an argument, and
-- so are the new UUIDs and the clock.
pub mod Replay
pub mod Schemas
pub mod Policies
mod Examples
use distributed_job_orchestr.Common.{
  ℕ, Bool, true, false, not, List, [], ◌∷◌, ◌++◌, Option, none, some, any, ◌==◌, if◌then◌else◌,
}
use distributed_job_orchestr.Common.Text.{Text, text_eq}
use distributed_job_orchestr.State.{is_terminal_run}
use distributed_job_orchestr.Retry
use distributed_job_orchestr.Queue.Rows.{Json, WorkflowRun, Store, Clock}
use distributed_job_orchestr.Queue.Monad
use distributed_job_orchestr.Queue.Runs.{create_run, cancel}
use distributed_job_orchestr.Workflows.{
  Workflow, Catalog, get_latest, get_version, RowOrder, dependencies,
}

-- RunCreate
pub record RunCreate : Type 0 where
  pub workflow_name : Text
  pub workflow_version : Option ℕ
  pub payload : Json

-- IdempotencyKey
pub record IdempotencyKey : Type 0 where
  pub key : Text
  pub request_hash : ℕ
  pub run_id : ℕ

-- The tables that the endpoints see.
pub record Service : Type 0 where
  pub catalog : Catalog
  pub idempotency_keys : List IdempotencyKey

-- What an endpoint raises: NotFoundError, a problem with status 409, the IntegrityError of a
-- primary key, or what the repository raises.
pub data Problem : Type 0 where
  not_found conflict integrity_error : Problem
  repository_error : Monad.Error → Problem

pub data Answer (A : Type 0) : Type 0 where
  answer : A → Answer A
  problem : Problem → Answer A

-- The response of a run endpoint.
pub record Response : Type 0 where
  pub status : ℕ
  pub run : WorkflowRun

-- session.get(IdempotencyKey, key)
abbrev pub find_key : Text → List IdempotencyKey → Option IdempotencyKey
find_key key [] = none
find_key key (k ∷ ks) = let rest = find_key key ks in if text_eq k.key key then some k else rest

-- RunRepository.get_with_tasks, without the task rows that the response shows
abbrev pub find_run : ℕ → List WorkflowRun → Option WorkflowRun
find_run id [] = none
find_run id (r ∷ rs) = let rest = find_run id rs in if r.id == id then some r else rest

-- the run of a key that was used before, and whether the body is the same
unfoldable pub earlier_run :
    (RunCreate → ℕ) → Option IdempotencyKey → RunCreate → Service → Answer (Option WorkflowRun)
earlier_run fingerprint none body s = answer none
earlier_run fingerprint (some existing) body s =
    if not (existing.request_hash == fingerprint body)
    then problem conflict
    else answer (find_run existing.run_id s.catalog.tables.runs)

-- the version that the body names, or the latest one
unfoldable pub resolve : RunCreate → List Workflow → Option Workflow
resolve body ws = elim body.workflow_version [
  | some version ↦ get_version body.workflow_name version ws
  | none ↦ get_latest body.workflow_name ws
]

-- the row of the key, if there is one; its primary key refuses another row with the same key
unfoldable pub keep_key :
    (RunCreate → ℕ)
    → Option Text
    → RunCreate
    → ℕ
    → List IdempotencyKey
    → Answer (List IdempotencyKey)
keep_key fingerprint none body run_id ks = answer ks
keep_key fingerprint (some key) body run_id ks =
    if any (λ k. text_eq k.key key) ks
    then problem integrity_error
    else answer (ks ++ record { key = key; request_hash = fingerprint body; run_id = run_id } ∷ [])

abbrev pub with_key :
    Response → Store → Service → Answer (List IdempotencyKey) → Answer (Response × Service)
with_key r tables s (problem e) = problem e
with_key r tables s (answer ks) =
    answer (r, record { catalog = record s.catalog { tables = tables }; idempotency_keys = ks })

-- a new run of the workflow, with status 201
unfoldable pub start_run :
    RowOrder
    → (RunCreate → ℕ)
    → Clock
    → ℕ
    → (ℕ → ℕ)
    → Option Text
    → RunCreate
    → Service
    → Answer (Response × Service)
unfolding resolve keep_key
start_run order fingerprint clock run_id fresh key body s =
    elim (resolve body s.catalog.workflows) [
      | none ↦ problem not_found
      | some w ↦
          elim (create_run clock run_id fresh w.id (dependencies order w.id s.catalog.tables)
            (some body.payload) s.catalog.tables) [
              | Monad.err e ↦ problem (repository_error e)
              | Monad.ok (run, tables) ↦
                  with_key (record { status = 201; run = run }) tables s
                    (keep_key fingerprint key body run.id s.idempotency_keys)
            ]
    ]

abbrev pub key_of : Option Text → List IdempotencyKey → Option IdempotencyKey
key_of none ks = none
key_of (some key) ks = find_key key ks

-- create_run; the earlier run is answered with status 200.
unfoldable pub submit_run :
    RowOrder
    → (RunCreate → ℕ)
    → Clock
    → ℕ
    → (ℕ → ℕ)
    → Option Text
    → RunCreate
    → Service
    → Answer (Response × Service)
unfolding earlier_run start_run
submit_run order fingerprint clock run_id fresh key body s =
    elim (earlier_run fingerprint (key_of key s.idempotency_keys) body s) [
      | problem e ↦ problem e
      | answer (some run) ↦ answer (record { status = 200; run = run }, s)
      | answer none ↦ start_run order fingerprint clock run_id fresh key body s
    ]

-- cancel_run; the answer is the run as it is read after the cancellation.
unfoldable pub cancel_run : Clock → ℕ → Service → Answer (Option WorkflowRun × Service)
unfolding is_terminal_run
cancel_run clock run_id s = elim (find_run run_id s.catalog.tables.runs) [
  | none ↦ problem not_found
  | some run ↦
      if is_terminal_run run.state
      then problem conflict
      else elim (cancel clock run_id s.catalog.tables) [
        | Monad.err e ↦ problem (repository_error e)
        | Monad.ok (matched, tables) ↦ answer (
          find_run run_id tables.runs,
          record s { catalog = record s.catalog { tables = tables } },
        )
      ]
]

-- errors.py: the status of each problem that has a handler; any other exception is a 500.
unfoldable pub status_of : Problem → ℕ
status_of not_found = 404
status_of conflict = 409
status_of integrity_error = 500
status_of (repository_error Monad.conflict_error) = 409
status_of (repository_error Monad.value_error) = 422
status_of (repository_error (Monad.policy_error Retry.value_error)) = 422
status_of (repository_error _) = 500
