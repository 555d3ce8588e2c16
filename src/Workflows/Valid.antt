-- ===== src/Workflows/Valid.antt =====
-- What the checks of `create` establish of the tasks.
use distributed_job_orchestr.Common.{
  ℕ, ◌≡◌, refl, sym, ap, subst, ◌∙◌, Bool, true, false, not, List, [], ◌∷◌, All, arith, any, inl,
  inr,
}
use distributed_job_orchestr.Common.Text.{Text}
use distributed_job_orchestr.Retry
use distributed_job_orchestr.Retry.Build.{build_policy}
use distributed_job_orchestr.Dag
use distributed_job_orchestr.Dag.{Dag, from_dependencies}
use distributed_job_orchestr.Dag.Build.{from_dependencies-IsDag}
use distributed_job_orchestr.Dag.Cycle.{topological_order}
use distributed_job_orchestr.Dag.Total.{IsOrder, topological_order_lem}
use distributed_job_orchestr.Workflows.{
  TaskSpec, Error, value_error, Result, ok, err, ◌>>=◌, ◌>>◌, raise_if, is_in, is_none,
  has_duplicates, keys_of, or_none, from_policy, from_graph, check_tasks, graph_of, validate,
}

-- A calculation that succeeds has succeeded at each step.
pub bind_ok :
    {A B : Type 0} (r : Result A) (next : A → Result B) (b : B)
    → (r >>= next) ≡ ok b
    → (a : A) × (r ≡ ok a) × (next a ≡ ok b)
bind_ok (ok a) next b h = (a, refl, h)
bind_ok (err e) next b h = absurd (ground (arith, h))

pub raise_if_ok :
    {B : Type 0} (x : Bool) (e : Error) (r : Result B) (b : B)
    → (raise_if x e >> r) ≡ ok b
    → (x ≡ false) × (r ≡ ok b)
raise_if_ok true e r b h = absurd (ground (arith, h))
raise_if_ok false e r b h = (refl, h)

from_graph_ok : {A : Type 0} (r : Dag.Result A) (a : A) → from_graph r ≡ ok a → r ≡ Dag.ok a
from_graph_ok (Dag.ok a) b h = let same : a ≡ b = cc in ap Dag.ok same
from_graph_ok (Dag.err e) b h = absurd (ground (arith, h))

-- The tasks depend only on tasks of the list, and their policies can be built.
abbrev pub Checked : List Text → TaskSpec → Type 0
Checked known t =
    All (λ d. is_in d known ≡ true) t.depends_on
    × ((p : Retry.RetryPolicy) × (build_policy (or_none t.retry_policy) ≡ Retry.ok p))

-- What `create` checks of the tasks.
pub record IsValid (tasks : List TaskSpec) (order : List ℕ) : Type 0 where
  pub filled : is_none tasks ≡ false
  pub distinct : has_duplicates (keys_of tasks) ≡ false
  pub checked : All (Checked (keys_of tasks)) tasks
  pub graph : Dag
  pub built : from_dependencies (graph_of (keys_of tasks) tasks) ≡ Dag.ok graph
  pub ordered : IsOrder graph order

all_known :
    (known ds : List Text)
    → any (λ d. not (is_in d known)) ds ≡ false
    → All (λ d. is_in d known ≡ true) ds
all_known known [] h = tt
all_known known (d ∷ ds) h = (ground (arith, h), all_known known ds (ground (arith, h)))

from_policy_ok :
    {A : Type 0} (r : Retry.Result A) → from_policy r ≡ ok tt → (p : A) × (r ≡ Retry.ok p)
from_policy_ok (Retry.ok p) h = (p, refl)
from_policy_ok (Retry.err e) h = absurd (ground (arith, h))

check_tasks-Checked :
    (known : List Text) (tasks : List TaskSpec)
    → check_tasks known tasks ≡ ok tt
    → All (Checked known) tasks
unfolding check_tasks
check_tasks-Checked known [] h = tt
check_tasks-Checked known (t ∷ tasks) h =
    let (fine, rest) =
      raise_if_ok (any (λ d. not (is_in d known)) t.depends_on) value_error
        (from_policy (build_policy (or_none t.retry_policy)) >> check_tasks known tasks) tt h in
    let (u, policy, later) =
      bind_ok (from_policy (build_policy (or_none t.retry_policy))) (λ _. check_tasks known tasks)
        tt rest in
    (
      (
        all_known known t.depends_on fine,
        from_policy_ok (build_policy (or_none t.retry_policy)) policy,
      ),
      check_tasks-Checked known tasks later,
    )

pub validate-IsValid :
    (tasks : List TaskSpec) (order : List ℕ) → validate tasks ≡ ok order → IsValid tasks order
unfolding validate
validate-IsValid tasks order h =
    let (filled, h1) = raise_if_ok (is_none tasks) value_error _ order h in
    let (distinct, h2) = raise_if_ok (has_duplicates (keys_of tasks)) value_error _ order h1 in
    let (u, checked, h3) = bind_ok (check_tasks (keys_of tasks) tasks) _ order h2 in
    let (graph, built, h4) =
      bind_ok (from_graph (from_dependencies (graph_of (keys_of tasks) tasks))) _ order h3 in
    let at = from_graph_ok (from_dependencies (graph_of (keys_of tasks) tasks)) graph built in
    let sorted = from_graph_ok (topological_order graph) order h4 in
    let v = (from_dependencies-IsDag (graph_of (keys_of tasks) tasks) graph at).0 in
    record {
      filled = filled;
      distinct = distinct;
      checked = check_tasks-Checked (keys_of tasks) tasks checked;
      graph = graph;
      built = at;
      ordered = elim (topological_order_lem graph v) [
        | inl (o, e, is_order) ↦
            let both : ◌≡◌ {A = Dag.Result (List ℕ)} (Dag.ok o) (Dag.ok order) = sym e ∙ sorted in
            let same : o ≡ order = cc in subst (IsOrder graph) same is_order
        | inr (c, e, cycle) ↦ absurd (ground (arith, e, sorted))
      ];
    }
