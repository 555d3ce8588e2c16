-- ===== src/Dag/Cursor.antt =====
-- DagCursor: the progress of one run through a graph. The sets are lists that are read by
-- membership alone.
use distributed_job_orchestr.Common.{
  ℕ, ◌-◌, ◌≡◌, sym, subst, ◌∙◌, Bool, true, false, not, ◌&&◌, List, [], ◌∷◌, ◌++◌, arith, length,
  ◌==◌, Bool-cases, inl, inr, if◌then◌else◌,
}
use distributed_job_orchestr.Common.Dict.{put}
use distributed_job_orchestr.Dag.{
  Dag, unknown_node, value_error, Result, ok, err, has, has_key, items, degree, in_degrees, visit,
}
use distributed_job_orchestr.Dag.Cycle.{as_error, find_cycle, is_acyclic}
use distributed_job_orchestr.Dag.Kahn.{has-queued, degree-put, same_degree}

-- DagCursor
pub record DagCursor : Type 0 where
  pub dag : Dag
  pub pending : List (ℕ × ℕ)
  pub succeeded : List ℕ
  pub failed : List ℕ

-- DagCursor.__init__
abbrev pub start_on : Dag → Result Bool → Result DagCursor
start_on g (err e) = err e
start_on g (ok false) = err (as_error (find_cycle g))
start_on g (ok true) = ok (record { dag = g; pending = in_degrees g; succeeded = []; failed = [] })

unfoldable pub make_cursor : Dag → Result DagCursor
unfolding is_acyclic in_degrees
make_cursor g = start_on g (is_acyclic g)

-- DagCursor.ready
unfoldable pub ready_of : List ℕ → List ℕ → List (ℕ × ℕ) → List ℕ
ready_of succeeded failed [] = []
ready_of succeeded failed ((n, unmet) ∷ d) =
    let rest = ready_of succeeded failed d in
    if unmet == 0 && not (has n succeeded) && not (has n failed) then n ∷ rest else rest

unfoldable pub ready : DagCursor → List ℕ
unfolding ready_of
ready c = ready_of c.succeeded c.failed c.pending

-- set.discard
abbrev pub discard : ℕ → List ℕ → List ℕ
discard n [] = []
discard n (x ∷ xs) = let rest = discard n xs in if x == n then rest else x ∷ rest

-- DagCursor.mark_succeeded; its loop over the children is that of Kahn's algorithm.
unfoldable pub mark_succeeded : ℕ → DagCursor → Result (List ℕ × DagCursor)
unfolding visit
mark_succeeded n c =
    let (pending, unblocked) = visit (items n c.dag.children) c.pending [] in
    if not (has_key n c.dag.children)
    then err (unknown_node n)
    else if has n c.succeeded
    then ok ([], c)
    else if not (degree n c.pending == 0)
    then err value_error
    else ok (
      unblocked,
      record c { pending = pending; succeeded = n ∷ c.succeeded; failed = discard n c.failed },
    )

-- DagCursor.mark_failed
unfoldable pub mark_failed : ℕ → DagCursor → Result DagCursor
mark_failed n c =
    if not (has_key n c.dag.children)
    then err (unknown_node n)
    else ok (record c { failed = n ∷ c.failed })

-- DagCursor.is_complete and is_successful; no node is in `succeeded` twice.
unfoldable pub is_complete : DagCursor → Bool
unfolding ready
is_complete c = length (ready c) == 0

unfoldable pub is_successful : DagCursor → Bool
is_successful c = length c.succeeded == length c.dag.children

visit-zero :
    (cs : List ℕ) (d : List (ℕ × ℕ)) (queue : List ℕ)
    → ((x : ℕ) → has x queue ≡ true → degree x d ≡ 0)
    → let (d', queue') = visit cs d queue in (x : ℕ) → has x queue' ≡ true → degree x d' ≡ 0
unfolding visit
visit-zero [] d queue h x e = h x e
visit-zero (c ∷ cs) d queue h x e =
    let n = degree c d in
    visit-zero cs (put c (n - 1) d) (if n == 1 then queue ++ c ∷ [] else queue)
      (λ k i.
        ground (arith, i, has-queued k n c queue, h k, degree-put k c (n - 1) d, same_degree k c d))
      x e

-- The cursor after a success, and the tasks that it frees.
abbrev freed : ℕ → DagCursor → List ℕ × DagCursor
freed n c =
    let (pending, unblocked) = visit (items n c.dag.children) c.pending [] in
    (
      unblocked,
      record c { pending = pending; succeeded = n ∷ c.succeeded; failed = discard n c.failed },
    )

abbrev Recorded : ℕ → List ℕ × DagCursor → Type 0
Recorded n (unblocked, c) =
    ((x : ℕ) → has x unblocked ≡ true → degree x c.pending ≡ 0)
    × (has n c.succeeded ≡ true)
    × (mark_succeeded n c ≡ ok ([], c))

freed-Recorded : (n : ℕ) (c : DagCursor) → has_key n c.dag.children ≡ true → Recorded n (freed n c)
unfolding mark_succeeded
freed-Recorded n c known = (
  visit-zero (items n c.dag.children) c.pending [] (λ x h. absurd (ground (arith, h))),
  ground arith,
  ground (arith, known),
)

-- What a first success of a node answers: the tasks that it returns wait for nothing any more, the
-- node is recorded, and to report it again answers nothing and changes nothing.
pub mark_succeeded-once :
    (n : ℕ) (c c' : DagCursor) (unblocked : List ℕ)
    → mark_succeeded n c ≡ ok (unblocked, c')
    → has n c.succeeded ≡ false
    → ((x : ℕ) → has x unblocked ≡ true → degree x c'.pending ≡ 0)
      × (has n c'.succeeded ≡ true)
      × (mark_succeeded n c' ≡ ok ([], c'))
unfolding mark_succeeded
mark_succeeded-once n c c' unblocked e new = elim (Bool-cases (has_key n c.dag.children)) [
  | inr unknown ↦ absurd (ground (arith, e, unknown))
  | inl known ↦ elim (Bool-cases (degree n c.pending == 0)) [
    | inr early ↦ absurd (ground (arith, e, known, new, early))
    | inl due ↦
        let step : mark_succeeded n c ≡ ok (freed n c) = ground (arith, known, new, due) in
        let whole : ok (freed n c) ≡ ok (unblocked, c') = sym step ∙ e in
        let same : freed n c ≡ (unblocked, c') = ground (arith, whole) in
        subst (Recorded n) same (freed-Recorded n c known)
  ]
]
