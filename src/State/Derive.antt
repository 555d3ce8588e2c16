-- ===== src/State/Derive.antt =====
-- `derive_run_state` against a description of each run state.
use distributed_job_orchestr.Common.{
  ◌≡◌, refl, ◌∙◌, ◌↔◌, ◌⊎◌, ◌≢◌, Bool, true, false, not, ◌&&◌, List, [], ◌∷◌, All, Some, arith, all,
  any, if◌then◌else◌,
}
use distributed_job_orchestr.State.{
  TaskState, RunState, ready, is_terminal_run, is_active, member, not_yet_started, same,
  derive_run_state,
}
use distributed_job_orchestr.State.Quantify.{
  all→All, any→Some, not-any→All, not-all→Some, All→all, Some→any, All→not-any, Some→not-all,
}

-- The words of the specification: what one task contributes.
abbrev pub IsActive : TaskState → Type 0
IsActive s = is_active s ≡ true

abbrev pub IsNotStarted : TaskState → Type 0
IsNotStarted s = (s ≡ TaskState.pending) ⊎ (s ≡ ready)

abbrev pub IsStarted : TaskState → Type 0
IsStarted s = (s ≢ TaskState.pending) × (s ≢ ready)

-- What each run state promises of the tasks.
abbrev pub Describes : RunState → List TaskState → Type 0
Describes RunState.pending xs = All IsNotStarted xs
Describes RunState.running xs = Some IsActive xs × Some IsStarted xs
Describes RunState.succeeded xs = (xs ≢ []) × All (λ s. s ≡ TaskState.succeeded) xs
Describes RunState.failed xs =
    All (λ s. is_active s ≡ false) xs
    × All (λ s. s ≢ TaskState.cancelled) xs
    × Some (λ s. s ≢ TaskState.succeeded) xs
Describes RunState.cancelled xs =
    All (λ s. is_active s ≡ false) xs × Some (λ s. s ≡ TaskState.cancelled) xs

abbrev IsIdle : TaskState → Type 0
IsIdle s = is_active s ≡ false

abbrev IsDone : TaskState → Type 0
IsDone s = s ≡ TaskState.succeeded

abbrev IsCancelled : TaskState → Type 0
IsCancelled s = s ≡ TaskState.cancelled

abbrev pub is_done : TaskState → Bool
is_done = same TaskState.succeeded

abbrev pub is_waiting : TaskState → Bool
is_waiting s = member s not_yet_started

abbrev pub is_cancelled : TaskState → Bool
is_cancelled = same TaskState.cancelled

active_undone : (s : TaskState) → IsActive s → same TaskState.succeeded s ≡ false
unfolding is_active
active_undone s h = ground arith

differs : (s t : TaskState) → ¬ (t ≡ s) → same s t ≡ false
differs s t h = ground arith

-- The decision, over what the four quantifiers say of a list that is not empty.
abbrev pub verdict : Bool → Bool → Bool → Bool → RunState
verdict all_succeeded all_waiting active any_cancelled =
    if all_succeeded
    then RunState.succeeded
    else if all_waiting
    then RunState.pending
    else if not active && any_cancelled
    then RunState.cancelled
    else if active
    then RunState.running
    else RunState.failed

abbrev pub all_succeeded : List TaskState → Bool
all_succeeded = all (same TaskState.succeeded)

abbrev pub all_waiting : List TaskState → Bool
all_waiting = all (λ s. member s not_yet_started)

abbrev pub any_active : List TaskState → Bool
any_active = any is_active

abbrev pub any_cancelled : List TaskState → Bool
any_cancelled = any (same TaskState.cancelled)

derive-verdict :
    (x : TaskState) (xs : List TaskState)
    → derive_run_state (x ∷ xs)
      ≡ verdict
          (all_succeeded (x ∷ xs))
          (all_waiting (x ∷ xs))
          (any_active (x ∷ xs))
          (any_cancelled (x ∷ xs))
unfolding derive_run_state
derive-verdict x xs = refl

same_iff : (s t : TaskState) → (same s t ≡ true) ↔ (s ≡ t)
same_iff s t = ground arith

verdict-Describes :
    (x : TaskState) (xs : List TaskState) (a w v c : Bool)
    → all_succeeded (x ∷ xs) ≡ a
    → all_waiting (x ∷ xs) ≡ w
    → any_active (x ∷ xs) ≡ v
    → any_cancelled (x ∷ xs) ≡ c
    → Describes (verdict a w v c) (x ∷ xs)
verdict-Describes x xs true _ _ _ ea ew ev ec =
    (λ e. cc, all→All is_done IsDone (λ s h. ground arith) (x ∷ xs) ea)
verdict-Describes x xs false true _ _ ea ew ev ec =
    all→All is_waiting IsNotStarted (λ s h. ground arith) (x ∷ xs) ew
verdict-Describes x xs false false true _ ea ew ev ec = (
  any→Some is_active IsActive (λ s h. h) (x ∷ xs) ev,
  not-all→Some is_waiting IsStarted (λ s h. ground arith) (x ∷ xs) ew,
)
verdict-Describes x xs false false false true ea ew ev ec = (
  not-any→All is_active IsIdle (λ s h. h) (x ∷ xs) ev,
  any→Some is_cancelled IsCancelled (λ s h. ground arith) (x ∷ xs) ec,
)
verdict-Describes x xs false false false false ea ew ev ec = (
  not-any→All is_active IsIdle (λ s h. h) (x ∷ xs) ev,
  not-any→All is_cancelled (λ s. ¬ IsCancelled s) (λ s h e. ground arith) (x ∷ xs) ec,
  not-all→Some is_done (λ s. ¬ IsDone s) (λ s h e. ground arith) (x ∷ xs) ea,
)

-- Every list of task states satisfies the description of the run state derived from it.
pub derive_run_state-Describes : (xs : List TaskState) → Describes (derive_run_state xs) xs
unfolding derive_run_state
derive_run_state-Describes [] = tt
derive_run_state-Describes (x ∷ xs) =
    verdict-Describes x xs (all_succeeded (x ∷ xs)) (all_waiting (x ∷ xs)) (any_active (x ∷ xs))
      (any_cancelled (x ∷ xs)) refl refl refl refl

head_inactive :
    (x : TaskState) (xs : List TaskState) → is_active x ≡ false → all_waiting (x ∷ xs) ≡ false
unfolding is_active
head_inactive x xs h = ground arith

not_waiting : (s : TaskState) → IsNotStarted s → same TaskState.succeeded s ≡ false
not_waiting s h = ground arith

Describes-decides :
    (r : RunState) (x : TaskState) (xs : List TaskState)
    → Describes r (x ∷ xs)
    → verdict
        (all_succeeded (x ∷ xs))
        (all_waiting (x ∷ xs))
        (any_active (x ∷ xs))
        (any_cancelled (x ∷ xs))
      ≡ r
Describes-decides RunState.pending x xs d =
    let waiting = All→all is_waiting IsNotStarted (λ s h. ground arith) (x ∷ xs) d in
    let undone : all_succeeded (x ∷ xs) ≡ false = rw (not_waiting x d.0) in rw (undone, waiting)
Describes-decides RunState.running x xs (active, started) =
    let undone : all_succeeded (x ∷ xs) ≡ false =
      Some→not-all is_done IsActive active_undone (x ∷ xs) active in
    let moved : all_waiting (x ∷ xs) ≡ false =
      Some→not-all is_waiting IsStarted (λ s h. ground arith) (x ∷ xs) started in
    let live = Some→any is_active IsActive (λ s h. h) (x ∷ xs) active in rw (undone, moved, live)
Describes-decides RunState.succeeded x xs (full, done) =
    rw (All→all is_done IsDone (λ s h. ground arith) (x ∷ xs) done)
Describes-decides RunState.failed x xs (idle, kept, undone) =
    let e1 : all_succeeded (x ∷ xs) ≡ false =
      Some→not-all is_done (λ s. ¬ IsDone s) (λ s h. differs TaskState.succeeded s h) (x ∷ xs)
        undone in
    let e2 = All→not-any is_active IsIdle (λ s h. h) (x ∷ xs) idle in
    let e3 =
      All→not-any is_cancelled (λ s. ¬ IsCancelled s) (λ s h. differs TaskState.cancelled s h)
        (x ∷ xs) kept in
    rw (e1, head_inactive x xs idle.0, e2, e3)
Describes-decides RunState.cancelled x xs (idle, gone) =
    let e1 : all_succeeded (x ∷ xs) ≡ false =
      Some→not-all is_done IsCancelled (λ s h. ground arith) (x ∷ xs) gone in
    let e2 = All→not-any is_active IsIdle (λ s h. h) (x ∷ xs) idle in
    let e3 = Some→any is_cancelled IsCancelled (λ s h. ground arith) (x ∷ xs) gone in
    rw (e1, head_inactive x xs idle.0, e2, e3)

-- The derived state is `r` exactly when the tasks are as `r` promises, for each of the five
-- run states; a run with no tasks is the exception, PENDING whatever else it satisfies.
pub derive_run_state_iff :
    (r : RunState) (xs : List TaskState) → xs ≢ [] → (derive_run_state xs ≡ r) ↔ Describes r xs
derive_run_state_iff r [] h = absurd (h refl)
derive_run_state_iff r (x ∷ xs) h = (
  λ e. rw e at (derive_run_state-Describes (x ∷ xs)),
  λ d. derive-verdict x xs ∙ Describes-decides r x xs d,
)

done_idle : (xs : List TaskState) → all_succeeded xs ≡ true → any_active xs ≡ false
unfolding is_active
done_idle [] e = refl
done_idle (x ∷ xs) e = ground (arith, done_idle xs)

verdict-terminal :
    (a w v c : Bool)
    → (a ≡ true → v ≡ false)
    → (w ≡ true → v ≡ true)
    → (is_terminal_run (verdict a w v c) ≡ true) ↔ (v ≡ false)
unfolding is_terminal_run
verdict-terminal a w v c h k = ground arith

waiting_active :
    (x : TaskState) (xs : List TaskState) → all_waiting (x ∷ xs) ≡ true → any_active (x ∷ xs) ≡ true
unfolding is_active
waiting_active x xs e = ground arith

-- A derived state is terminal exactly when there are tasks and none of them is active.
pub derive_run_state-terminal_iff :
    (xs : List TaskState)
    → (is_terminal_run (derive_run_state xs) ≡ true) ↔ ((xs ≢ []) × (any is_active xs ≡ false))
unfolding is_terminal_run derive_run_state
derive_run_state-terminal_iff [] = (λ e. ground arith, λ (h, _). absurd (h refl))
derive_run_state-terminal_iff (x ∷ xs) =
    let both =
      verdict-terminal (all_succeeded (x ∷ xs)) (all_waiting (x ∷ xs)) (any_active (x ∷ xs))
        (any_cancelled (x ∷ xs)) (done_idle (x ∷ xs)) (waiting_active x xs) in
    (λ e. (λ n. cc, both.0 e), λ (_, idle). both.1 idle)
