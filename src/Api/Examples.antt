-- ===== src/Api/Examples.antt =====
-- A workflow with one task, and a request that is sent twice.
use distributed_job_orchestr.Common.{
  ℕ, ◌*◌, ◌≤◌, ◌<◌, ◌⊎◌, false, arith, ◌==◌, ◌≡◌, refl, true, false, [], ◌∷◌, none, some,
}
use distributed_job_orchestr.Common.Int.{pos}
use distributed_job_orchestr.Common.Text.{codes}
use distributed_job_orchestr.Retry
use distributed_job_orchestr.Retry.Build.{build_policy, none_kind, exponential_kind}
use distributed_job_orchestr.Retry.{ok, one, exponential_backoff, max_attempts, next_delay}
use distributed_job_orchestr.Retry.Delay.{IsWait}
use distributed_job_orchestr.Api.Policies.{accepted-waits}
use distributed_job_orchestr.Api.Schemas.{RetryPolicySpec, accepts, to_spec, none_policy_refused}
use distributed_job_orchestr.Queue.Rows.{WorkflowRun, Clock}
use distributed_job_orchestr.Queue.Runs.{create_run}
use distributed_job_orchestr.Workflows.{RowOrder, get_version}
use distributed_job_orchestr.State.{RunState}
use distributed_job_orchestr.Api.{
  RunCreate, Service, Answer, answer, problem, conflict, not_found, Response, submit_run,
  cancel_run,
}
use distributed_job_orchestr.Api.Replay.{submit_run-again}

abbrev start : Service
start = record {
  catalog = record {
    workflows =
        record { id = 1; name = codes "ci"; version = 1; description = none; created_at = 5 } ∷ [];
    tables = record {
      tasks =
          record {
            id = 10;
            workflow_id = 1;
            key = codes "build";
            executor = codes "http";
            params = [];
            retry_policy = [];
            priority = pos 0;
            timeout_seconds = 300;
          }
          ∷ [];
      dependencies = [];
      runs = [];
      task_runs = [];
      attempts = [];
    };
  };
  idempotency_keys = [];
}

abbrev body : ℕ → RunCreate
body n = record { workflow_name = codes "ci"; workflow_version = some n; payload = [] }

-- The bodies of the tests differ in the version alone.
abbrev fingerprint : RunCreate → ℕ
fingerprint b = elim b.workflow_version [ none ↦ 0 | some n ↦ n ]

abbrev order : RowOrder
order = record { keys = λ ks. ks; pairs = λ ps. ps }

abbrev clock : Clock
clock = record { process = 100; database = 101 }

abbrev served : Answer (Response × Service) → Service
served (answer (r, s)) = s
served (problem e) = start

abbrev run : WorkflowRun
run = record {
  id = 7;
  workflow_id = 1;
  state = RunState.pending;
  trigger_payload = [];
  started_at = none;
  finished_at = none;
  version = 0;
}

abbrev once : Service
unfolding submit_run
once = served (submit_run order fingerprint clock 7 (λ i. i) (some (codes "k")) (body 1) start)

submit_run-again_example :
    ((clock' : Clock) (run_id' : ℕ) (fresh' : ℕ → ℕ)
      → submit_run order fingerprint clock' run_id' fresh' (some (codes "k")) (body 1) once
        ≡ answer (record { status = 200; run = run }, once))
    × ((clock' : Clock) (run_id' : ℕ) (fresh' : ℕ → ℕ) (other : RunCreate)
        → (1 == fingerprint other) ≡ false
        → submit_run order fingerprint clock' run_id' fresh' (some (codes "k")) other once
          ≡ problem conflict)
unfolding submit_run once build_policy get_version create_run
submit_run-again_example =
    submit_run-again order fingerprint clock 7 (λ i. i) (codes "k") (body 1) start
      (record { status = 201; run = run }) once refl refl refl

-- A version that is not there is a 404.
no_version : submit_run order fingerprint clock 7 (λ i. i) none (body 2) start ≡ problem not_found
unfolding submit_run get_version
no_version = refl

no_run : cancel_run clock 9 start ≡ problem not_found
unfolding cancel_run
no_run = refl

-- A request for no retries, with the other fields at their defaults.
abbrev no_retries : RetryPolicySpec
no_retries = record {
  type = none_kind;
  max_attempts = 5;
  delay = none;
  base = none;
  factor = none;
  max_delay = none;
  jitter = none;
}

none_policy_refused_example : build_policy (some (to_spec no_retries)) ≡ Retry.err Retry.value_error
none_policy_refused_example = none_policy_refused no_retries refl

-- A request for the steepest backoff.
abbrev steep : RetryPolicySpec
steep = record {
  type = exponential_kind;
  max_attempts = 100;
  delay = none;
  base = none;
  factor = some (10 * one);
  max_delay = none;
  jitter = some false;
}

accepted-waits_example :
    let p = exponential_backoff one (10 * one) 100 (300 * one) false in
    (max_attempts p ≤ 70) × (next_delay p 70 0 ≡ ok none)
    ⊎ (70 < max_attempts p) × ((d : ℕ) × (next_delay p 70 0 ≡ ok (some d)) × IsWait p 70 0 d)
unfolding build_policy to_spec accepts
accepted-waits_example =
    accepted-waits steep (exponential_backoff one (10 * one) 100 (300 * one) false) 70 0 refl refl
      (omega arith) (omega arith)

no_retries_accepted : accepts no_retries ≡ true
unfolding accepts
no_retries_accepted = refl
