-- ===== src/State/Table.antt =====
-- What the transition tables of core/state.py allow.
use distributed_job_orchestr.Common.{◌≡◌, refl, ◌↔◌, true, false, [], arith}
use distributed_job_orchestr.State.{
  TaskState, is_terminal, is_active, task_transitions, can_transition,
}

-- A task state is terminal exactly when it is not active, and exactly when its row of the
-- table is empty.
pub terminal-stuck :
    (s : TaskState)
    → ((is_terminal s ≡ true) ↔ (is_active s ≡ false))
      × ((is_terminal s ≡ true) ↔ (task_transitions s ≡ []))
unfolding is_terminal is_active task_transitions
terminal-stuck s = ground arith

-- A lifecycle: each state is followed by one that the table allows.
pub data Lifecycle : TaskState → TaskState → Type 0 where
  here : {s : TaskState} → Lifecycle s s
  then : {s t u : TaskState} → can_transition s t ≡ true → Lifecycle t u → Lifecycle s u

terminal-no_exit : (s t : TaskState) → is_terminal s ≡ true → can_transition s t ≡ true → ⊥
unfolding is_terminal can_transition
terminal-no_exit s t h k = ground arith

-- No lifecycle leaves a terminal state.
pub terminal_absorbs : {s t : TaskState} → Lifecycle s t → is_terminal s ≡ true → s ≡ t
terminal_absorbs here h = refl
terminal_absorbs (then {s} {t} {u} e l) h = absurd (terminal-no_exit s t h e)
