-- ===== src/Pages/Runs.antt =====
-- RunRepository.list_page: the pages of the runs, of one state or one workflow if that is asked.
-- The column `created_at` is an argument.
use distributed_job_orchestr.Common.{ℕ, Bool, true, ◌&&◌, List, Option, none, some, ◌==◌, ◌≡◌, refl}
use distributed_job_orchestr.State.{RunState, same_run}
use distributed_job_orchestr.Queue.Rows.{WorkflowRun}
use distributed_job_orchestr.Queue.Monad.{select}
use distributed_job_orchestr.Pages.{Token, Page, list_page}

-- WHERE state = :state, and WHERE workflow_id = :workflow_id, if they are given
abbrev pub of_state : Option RunState → WorkflowRun → Bool
of_state none r = true
of_state (some s) r = same_run r.state s

abbrev pub of_workflow : Option ℕ → WorkflowRun → Bool
of_workflow none r = true
of_workflow (some w) r = r.workflow_id == w

-- list_page
unfoldable list_runs :
    (WorkflowRun → ℕ)
    → ℕ
    → Option Token
    → Option RunState
    → Option ℕ
    → List WorkflowRun
    → Option (Page WorkflowRun)
unfolding list_page
list_runs created_at limit token state workflow_id runs =
    list_page (λ r. record { created_at = created_at r; id = r.id }) limit token
      (select (λ r. of_state state r && of_workflow workflow_id r) runs)

-- A refused cursor is an error whatever the filters are.
refused_cursor :
    (created_at : WorkflowRun → ℕ) (limit : ℕ) (state : Option RunState) (workflow_id : Option ℕ)
    (runs : List WorkflowRun)
    → list_runs created_at limit (some Token.malformed) state workflow_id runs ≡ none
unfolding list_runs
refused_cursor created_at limit state workflow_id runs = refl
