-- ===== src/State/Examples.antt =====
-- The theorems of this part at concrete task states.
use distributed_job_orchestr.Common.{◌≡◌, refl, ◌↔◌, inl, inr, false, List, [], ◌∷◌}
use distributed_job_orchestr.State.{
  TaskState, RunState, ready, retrying, blocked, dead_letter, run_transitions, can_transition,
  member_run, derive_run_state,
}
use distributed_job_orchestr.State.Derive.{Describes, derive_run_state_iff}
use distributed_job_orchestr.State.Progress.{
  RunMoves, derive_run_state-moves, derive_run_state-regresses,
}

abbrev mixed : List TaskState
mixed = TaskState.succeeded ∷ dead_letter ∷ blocked ∷ []

derive_run_state_iff_example :
    (derive_run_state mixed ≡ RunState.failed) ↔ Describes RunState.failed mixed
derive_run_state_iff_example = derive_run_state_iff RunState.failed mixed (λ e. cc)

derive_run_state-moves_example :
    RunMoves
      (derive_run_state (retrying ∷ blocked ∷ []))
      (derive_run_state (TaskState.cancelled ∷ blocked ∷ []))
unfolding can_transition
derive_run_state-moves_example =
    derive_run_state-moves retrying TaskState.cancelled (blocked ∷ []) refl (λ e. cc)
      (inl (λ e. cc))

derive_run_state-regresses_example :
    (derive_run_state (retrying ∷ TaskState.pending ∷ []) ≡ RunState.running)
    × (derive_run_state (ready ∷ TaskState.pending ∷ []) ≡ RunState.pending)
    × (member_run RunState.pending (run_transitions RunState.running) ≡ false)
derive_run_state-regresses_example =
    derive_run_state-regresses retrying (TaskState.pending ∷ []) (inr refl) refl

empty_run_waits : derive_run_state [] ≡ RunState.pending
unfolding derive_run_state
empty_run_waits = refl
