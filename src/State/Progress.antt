-- ===== src/State/Progress.antt =====
-- How the derived run state moves when one task of the run moves.
use distributed_job_orchestr.Common.{
  ◌≡◌, refl, ◌⊎◌, inl, inr, ◌≢◌, true, false, List, [], ◌∷◌, arith, all, any,
}
use distributed_job_orchestr.State.{
  TaskState, RunState, ready, retrying, can_transition, run_transitions, member_run, member,
  not_yet_started, same, is_active, derive_run_state,
}

-- The run stays where it is or follows an edge of RUN_TRANSITIONS.
abbrev pub RunMoves : RunState → RunState → Type 0
RunMoves a b = (a ≡ b) ⊎ (member_run b (run_transitions a) ≡ true)

waiting_live :
    (xs : List TaskState)
    → xs ≢ []
    → all (λ s. member s not_yet_started) xs ≡ true
    → any is_active xs ≡ true
unfolding is_active
waiting_live [] h e = absurd (h refl)
waiting_live (x ∷ xs) h e = ground arith

done_unlike :
    (xs : List TaskState)
    → xs ≢ []
    → all (same TaskState.succeeded) xs ≡ true
    → all (λ s. member s not_yet_started) xs ≡ false
done_unlike [] h e = absurd (h refl)
done_unlike (x ∷ xs) h e = ground arith

done_quiet :
    (xs : List TaskState) → all (same TaskState.succeeded) xs ≡ true → any is_active xs ≡ false
unfolding is_active
done_quiet [] e = refl
done_quiet (x ∷ xs) e = ground (arith, done_quiet xs)

-- When one task takes a step that the task table allows, other than RETRYING to READY, the state
-- derived for its run stays or takes a step that the run table allows, provided that the run
-- has another task or the task had left PENDING.
pub derive_run_state-moves :
    (s t : TaskState) (others : List TaskState)
    → can_transition s t ≡ true
    → ¬ ((s ≡ retrying) × (t ≡ ready))
    → (s ≢ TaskState.pending) ⊎ (others ≢ [])
    → RunMoves (derive_run_state (s ∷ others)) (derive_run_state (t ∷ others))
unfolding can_transition derive_run_state run_transitions is_active
derive_run_state-moves s t [] e h (inl k) = ground arith
derive_run_state-moves s t [] e h (inr k) = absurd (k refl)
derive_run_state-moves s t (x ∷ xs) e h k =
    ground (arith, waiting_live (x ∷ xs) (λ e. cc), done_quiet (x ∷ xs))

-- A run falls back from RUNNING to PENDING when its only started task is put back to READY, as
-- after a failed attempt, whether it stood in RUNNING or in RETRYING: no edge of
-- RUN_TRANSITIONS allows that.
pub derive_run_state-regresses :
    (s : TaskState) (others : List TaskState)
    → (s ≡ TaskState.running) ⊎ (s ≡ retrying)
    → all (λ s. member s not_yet_started) others ≡ true
    → (derive_run_state (s ∷ others) ≡ RunState.running)
      × (derive_run_state (ready ∷ others) ≡ RunState.pending)
      × (member_run RunState.pending (run_transitions RunState.running) ≡ false)
unfolding derive_run_state run_transitions is_active
derive_run_state-regresses s others h e = ground arith
