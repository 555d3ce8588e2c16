-- ===== src/State.antt =====
-- The lifecycle state machines of core/state.py: the states, the two transition tables and the
-- state of a run derived from the states of its tasks.
pub mod Table
pub mod Quantify
pub mod Derive
pub mod Shuffle
pub mod Progress
mod Examples
use distributed_job_orchestr.Common.{
  ◌≡◌, Bool, true, false, not, ◌&&◌, List, [], ◌∷◌, Option, none, some, all, any, if◌then◌else◌,
}

-- TaskState
pub data TaskState : Type 0 where
  pending ready running succeeded retrying failed dead_letter blocked cancelled : TaskState

-- RunState
pub data RunState : Type 0 where
  pending running succeeded failed cancelled : RunState

pub TaskState-discrete : Discrete TaskState
TaskState-discrete = hlevel

-- `is` and `==` on the members of the enumeration.
abbrev pub same : TaskState → TaskState → Bool
same TaskState.pending TaskState.pending = true
same ready ready = true
same TaskState.running TaskState.running = true
same TaskState.succeeded TaskState.succeeded = true
same retrying retrying = true
same TaskState.failed TaskState.failed = true
same dead_letter dead_letter = true
same blocked blocked = true
same TaskState.cancelled TaskState.cancelled = true
same _ _ = false

abbrev pub same_run : RunState → RunState → Bool
same_run RunState.pending RunState.pending = true
same_run RunState.running RunState.running = true
same_run RunState.succeeded RunState.succeeded = true
same_run RunState.failed RunState.failed = true
same_run RunState.cancelled RunState.cancelled = true
same_run _ _ = false

-- `state in states`
abbrev pub member : TaskState → List TaskState → Bool
member s states = any (same s) states

abbrev pub member_run : RunState → List RunState → Bool
member_run s states = any (same_run s) states

-- _TERMINAL_TASK_STATES
abbrev pub terminal_task_states : List TaskState
terminal_task_states =
    TaskState.succeeded ∷ TaskState.failed ∷ dead_letter ∷ blocked ∷ TaskState.cancelled ∷ []

-- _NOT_YET_STARTED
abbrev pub not_yet_started : List TaskState
not_yet_started = TaskState.pending ∷ ready ∷ []

-- _TERMINAL_RUN_STATES
abbrev pub terminal_run_states : List RunState
terminal_run_states = RunState.succeeded ∷ RunState.failed ∷ RunState.cancelled ∷ []

-- TaskState.is_terminal
unfoldable pub is_terminal : TaskState → Bool
is_terminal s = member s terminal_task_states

-- TaskState.is_active
unfoldable pub is_active : TaskState → Bool
is_active s = member s (TaskState.pending ∷ ready ∷ TaskState.running ∷ retrying ∷ [])

-- RunState.is_terminal
unfoldable pub is_terminal_run : RunState → Bool
is_terminal_run s = member_run s terminal_run_states

-- TASK_TRANSITIONS
unfoldable pub task_transitions : TaskState → List TaskState
task_transitions TaskState.pending = ready ∷ blocked ∷ TaskState.cancelled ∷ []
task_transitions ready = TaskState.running ∷ TaskState.cancelled ∷ []
task_transitions TaskState.running =
    TaskState.succeeded ∷ retrying ∷ TaskState.failed ∷ dead_letter ∷ TaskState.cancelled ∷ []
task_transitions retrying = ready ∷ TaskState.failed ∷ dead_letter ∷ TaskState.cancelled ∷ []
task_transitions TaskState.succeeded = []
task_transitions TaskState.failed = []
task_transitions dead_letter = []
task_transitions blocked = []
task_transitions TaskState.cancelled = []

-- RUN_TRANSITIONS
unfoldable pub run_transitions : RunState → List RunState
run_transitions RunState.pending = RunState.running ∷ RunState.cancelled ∷ []
run_transitions RunState.running = RunState.succeeded ∷ RunState.failed ∷ RunState.cancelled ∷ []
run_transitions RunState.succeeded = []
run_transitions RunState.failed = []
run_transitions RunState.cancelled = []

-- IllegalTransitionError, with its fields; the target is returned otherwise.
pub data Checked (S : Type 0) : Type 0 where
  target_state : S → Checked S
  illegal_transition : S → S → List S → Checked S

-- can_transition
unfoldable pub can_transition : TaskState → TaskState → Bool
unfolding task_transitions
can_transition current target = member target (task_transitions current)

-- assert_task_transition
unfoldable pub assert_task_transition : TaskState → TaskState → Checked TaskState
unfolding task_transitions
assert_task_transition current target =
    if not (member target (task_transitions current))
    then illegal_transition current target (task_transitions current)
    else target_state target

-- assert_run_transition
unfoldable pub assert_run_transition : RunState → RunState → Checked RunState
unfolding run_transitions
assert_run_transition current target =
    if not (member_run target (run_transitions current))
    then illegal_transition current target (run_transitions current)
    else target_state target

abbrev pub is_empty : List TaskState → Bool
is_empty [] = true
is_empty (_ ∷ _) = false

-- derive_run_state
unfoldable pub derive_run_state : List TaskState → RunState
unfolding is_active
derive_run_state task_states =
    let active = any is_active task_states in
    if is_empty task_states
    then RunState.pending
    else if all (same TaskState.succeeded) task_states
    then RunState.succeeded
    else if all (λ s. member s not_yet_started) task_states
    then RunState.pending
    else if not active && any (same TaskState.cancelled) task_states
    then RunState.cancelled
    else if active
    then RunState.running
    else RunState.failed
