-- ===== src/State/Shuffle.antt =====
-- `derive_run_state` does not depend on the order in which the task rows arrive.
use mathlib.Core.List.{Permᴰ}
use mathlib.Core.Logic.{∥∥₁_elim}
use distributed_job_orchestr.Common.{
  ◌≡◌, refl, ◌∙◌, Bool, List, Perm, arith, all, any, if◌then◌else◌,
}
use distributed_job_orchestr.State.{TaskState, RunState, is_active, derive_run_state, is_empty}
use distributed_job_orchestr.State.Derive.{
  is_done, is_waiting, is_cancelled, verdict, all_succeeded, all_waiting, any_active, any_cancelled,
}

RunState-set : IsSet RunState
RunState-set = hlevel

all-perm : (p : TaskState → Bool) {xs ys : List TaskState} → Permᴰ xs ys → all p xs ≡ all p ys
all-perm p Permᴰ.nil = refl
all-perm p (Permᴰ.cons e r) = rw (e, all-perm p r)
all-perm p (Permᴰ.swap e f) = rw (e, f) (ground arith)
all-perm p (Permᴰ.trans q r) = all-perm p q ∙ all-perm p r

any-perm : (p : TaskState → Bool) {xs ys : List TaskState} → Permᴰ xs ys → any p xs ≡ any p ys
any-perm p Permᴰ.nil = refl
any-perm p (Permᴰ.cons e r) = rw (e, any-perm p r)
any-perm p (Permᴰ.swap e f) = rw (e, f) (ground arith)
any-perm p (Permᴰ.trans q r) = any-perm p q ∙ any-perm p r

is_empty-perm : {xs ys : List TaskState} → Permᴰ xs ys → is_empty xs ≡ is_empty ys
is_empty-perm Permᴰ.nil = refl
is_empty-perm (Permᴰ.cons e r) = refl
is_empty-perm (Permᴰ.swap e f) = refl
is_empty-perm (Permᴰ.trans q r) = is_empty-perm q ∙ is_empty-perm r

derive-cases :
    (xs : List TaskState)
    → derive_run_state xs ≡ (
        if is_empty xs
        then RunState.pending
        else verdict (all_succeeded xs) (all_waiting xs) (any_active xs) (any_cancelled xs))
unfolding derive_run_state
derive-cases xs = refl

-- The derived state does not depend on the order in which the database returns the rows.
pub derive_run_state-perm :
    (xs ys : List TaskState) → Perm xs ys → derive_run_state xs ≡ derive_run_state ys
derive_run_state-perm xs ys p = ∥∥₁_elim p (RunState-set _ _) λ q. rw (
  derive-cases xs,
  derive-cases ys,
  is_empty-perm q,
  all-perm is_done q,
  all-perm is_waiting q,
  any-perm is_active q,
  any-perm is_cancelled q,
)
