-- ===== src/Heap/Take.antt =====
-- pop and cancel: what they take out, and that the rest is a queue.
use distributed_job_orchestr.Common.{
  ℕ, zero, suc, ◌+◌, ◌-◌, ◌≤◌, ◌<◌, ◌≡◌, ◌⊎◌, refl, sym, ap, subst, ◌∙◌, Option, none, some, arith,
  length, ◌==◌, ltb, Bool-cases, Option-cases, inl, inr, if◌then◌else◌,
}
use distributed_job_orchestr.Common.Dict.{lookup}
use distributed_job_orchestr.Heap.{
  Entry, DelayQueue, entry_at, drop_last, time_of, due, settle, fill_hole, remove_at, pop, cancel,
}
use distributed_job_orchestr.Heap.Array.{
  entry_at-inside, inside-entry_at, length-set_at, length-drop_last, entry_at-drop_last,
}
use distributed_job_orchestr.Heap.Index.{
  entry_of, entry_of_position, entry_of-placed, entry_of-cases,
}
use distributed_job_orchestr.Heap.Order.{parent, Ordered, written-Loose}
use distributed_job_orchestr.Heap.Sifts.{settle-Restored}
use distributed_job_orchestr.Heap.Push.{IsQueue, Restored-IsQueue}
use distributed_job_orchestr.Heap.Remove.{
  Without, cut, filled, cut-Indexed, cut-Without, filled-Indexed, filled-Without, entry_at-filled,
}

-- _remove_at at a position of the array takes that entry out and nothing else.
pub remove_at_lem :
    (i : ℕ) (e : Entry) (q : DelayQueue)
    → IsQueue q
    → entry_at i q.heap ≡ some e
    → (q' : DelayQueue) × (remove_at i q ≡ some (e, q'))
      × IsQueue q'
      × Without e q q'
      × (length q'.heap + 1 ≡ length q.heap)
unfolding remove_at
remove_at_lem i e q v ex =
    let inside = entry_at-inside i q.heap e ex in
    let last = length q.heap - 1 in
    let (l, el) = inside-entry_at last q.heap (omega (arith, inside)) in
    let shorter = length-drop_last q.heap in
    elim (Bool-cases (ltb i (length (drop_last q.heap)))) [
      | inl hole ↦
          let before : i + 1 < length q.heap = ground (arith, hole, shorter) in
          let q1 = filled i e l q in
          let size : length q1.heap ≡ length (drop_last q.heap) =
            length-set_at i l (drop_last q.heap) in
          let loose =
            written-Loose q q1 i v.ordered (omega (arith, size, shorter))
              (ground (arith, size, hole))
              (λ n r t.
                ap time_of (entry_at-filled i n e l q before)
                ∙ ground (arith, t, r, size, shorter)) in
          let done =
            settle-Restored i q1 (ground (arith, size, hole))
              (filled-Indexed i e l q v.indexed ex el before) loose in
          let at : remove_at i q ≡ some (e, settle i q1) =
            rw (remove_at, ex, el, fill_hole, hole) refl in
          let keeps = filled-Without i e l q v.indexed ex el before in
          (
            settle i q1,
            at,
            Restored-IsQueue q1 _ done,
            λ k. done.0.entries k ∙ keeps k,
            omega (arith, done.0.sizes, size, shorter, inside),
          )
      | inr end ↦
          let at_end : i + 1 ≡ length q.heap = ground (arith, end, shorter, inside) in
          let q1 = cut e q in
          let at : remove_at i q ≡ some (e, q1) = rw (remove_at, ex, el, fill_hole, end) refl in
          let ordered : Ordered q1 = λ c p r. ground (
            arith,
            v.ordered c p,
            r,
            shorter,
            ap time_of (entry_at-drop_last c q.heap),
            ap time_of (entry_at-drop_last (parent c) q.heap),
          ) in
          (
            q1,
            at,
            record { indexed = cut-Indexed i e q v.indexed ex at_end; ordered = ordered },
            cut-Without i e q v.indexed ex at_end,
            omega (arith, shorter, inside),
          )
    ]

root_least :
    (fuel n : ℕ) (q : DelayQueue) → n ≤ fuel → Ordered q → n < length q.heap → due 0 q ≤ due n q
root_least zero n q enough o inside = ground (arith, enough, ap (λ i. due i q))
root_least (suc fuel) n q enough o inside = elim (Bool-cases (n == 0)) [
  | inl hit ↦ ground (arith, hit, ap (λ i. due i q))
  | inr miss ↦
      let pos : 0 < n = ground (arith, miss) in
      let above =
        root_least fuel (parent n) q (omega (arith, enough, pos)) o (omega (arith, inside)) in
      let edge = o n pos inside in omega (arith, above, edge)
]

-- The entry at the root is due no later than any entry of the queue.
pub head_least :
    (q : DelayQueue) (head : Entry)
    → IsQueue q
    → entry_at 0 q.heap ≡ some head
    → (k : ℕ) (e : Entry) → entry_of k q ≡ some e
    → head.due_at ≤ e.due_at
head_least q head v at k e there = elim (entry_of-cases q k v.indexed) [
  | inl away ↦ absurd (ground (arith, away, there))
  | inr (n, x, at_n, key, here) ↦
      let inside = entry_at-inside n q.heap x at_n in
      let least = root_least n n q (omega arith) v.ordered inside in
      let same : ◌≡◌ {A = Option Entry} (some x) (some e) = sym here ∙ there in
      let time : x.due_at ≡ e.due_at = ap time_of same in
      ground (arith, least, ap time_of at, ap time_of at_n, time)
]

-- On a queue that is not empty, pop raises nothing: it returns an entry of the queue that is due
-- no later than any other, and leaves a queue of all the other entries.
pub pop_lem :
    (q : DelayQueue)
    → IsQueue q
    → 0 < length q.heap
    → (e : Entry) × (q' : DelayQueue) × (pop q ≡ some (e, q'))
      × (entry_of e.key q ≡ some e)
      × ((k : ℕ) (x : Entry) → entry_of k q ≡ some x → e.due_at ≤ x.due_at)
      × IsQueue q'
      × Without e q q'
      × (length q'.heap + 1 ≡ length q.heap)
unfolding pop
pop_lem q v pos =
    let (e, at) = inside-entry_at 0 q.heap pos in
    let (q', call, queue, keeps, size) = remove_at_lem 0 e q v at in
    (e, q', call, entry_of-placed q 0 e v.indexed at, head_least q e v at, queue, keeps, size)

-- cancel returns nothing exactly when the queue has no entry with the key; else it returns that
-- entry, and leaves a queue of all the others.
pub cancel_lem :
    (key : ℕ) (q : DelayQueue)
    → IsQueue q
    → ((entry_of key q ≡ none) × (cancel key q ≡ none))
      ⊎ ((e : Entry) × (q' : DelayQueue) × (entry_of key q ≡ some e)
          × (cancel key q ≡ some (e, q'))
          × IsQueue q'
          × ((k : ℕ) → entry_of k q' ≡ (if key == k then none else entry_of k q)))
unfolding cancel
cancel_lem key q v = elim (Option-cases (lookup key q.index)) [
  | inl away ↦
      let call : cancel key q ≡ none = rw (cancel, away) refl in
      inl (ap (λ o. entry_of_position o q) away, call)
  | inr (n, there) ↦
      let (e, at, same) = v.indexed.present key n there in
      let (q', removed, queue, keeps, size) = remove_at_lem n e q v at in
      let call : cancel key q ≡ some (e, q') = rw (cancel, there, removed) refl in
      inr (
        e,
        q',
        ap (λ o. entry_of_position o q) there ∙ at,
        call,
        queue,
        subst (λ j. (k : ℕ) → entry_of k q' ≡ (if j == k then none else entry_of k q)) same keeps,
      )
]
