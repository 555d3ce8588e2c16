-- ===== src/Heap/Examples.antt =====
-- Three timers, pushed out of order, one of them moved.
use distributed_job_orchestr.Common.{
  ℕ, ◌+◌, ◌≤◌, ◌<◌, ◌≡◌, refl, List, [], ◌∷◌, map, none, some, arith, length,
}
use distributed_job_orchestr.Heap.{Entry, DelayQueue, push, pop, pop_due}
use distributed_job_orchestr.Heap.Index.{entry_of}
use distributed_job_orchestr.Heap.Push.{IsQueue, push_lem}
use distributed_job_orchestr.Heap.Remove.{Without}
use distributed_job_orchestr.Heap.Take.{pop_lem}
use distributed_job_orchestr.Heap.Drain.{Drained, pop_due-Drained}

abbrev empty_queue : DelayQueue
empty_queue = record { heap = []; index = [] }

abbrev timers : DelayQueue
unfolding push
timers = push 2 5 0 (push 3 10 0 (push 2 20 0 (push 1 30 0 empty_queue)))

timers_order : map (λ e. e.key) timers.heap ≡ 2 ∷ 1 ∷ 3 ∷ []
unfolding push
timers_order = refl

timers_index : timers.index ≡ (1, 1) ∷ (2, 0) ∷ (3, 2) ∷ []
unfolding push
timers_index = refl

empty_queue-IsQueue : IsQueue empty_queue
empty_queue-IsQueue = record {
  indexed = record {
    placed = λ n e at. absurd (ground (arith, at));
    present = λ k n h. absurd (ground (arith, h));
  };
  ordered = λ c pos inside. absurd (omega (arith, inside));
}

timers-IsQueue : IsQueue timers
unfolding push timers
timers-IsQueue =
    (push_lem 2 5 0 (push 3 10 0 (push 2 20 0 (push 1 30 0 empty_queue)))
      (push_lem 3 10 0 (push 2 20 0 (push 1 30 0 empty_queue))
        (push_lem 2 20 0 (push 1 30 0 empty_queue)
          (push_lem 1 30 0 empty_queue empty_queue-IsQueue).0).0).0).0

timers_filled : 0 < length timers.heap
unfolding push timers
timers_filled = ground arith

pop_lem_example :
    (e : Entry) × (q' : DelayQueue) × (pop timers ≡ some (e, q'))
    × (entry_of e.key timers ≡ some e)
    × ((k : ℕ) (x : Entry) → entry_of k timers ≡ some x → e.due_at ≤ x.due_at)
    × IsQueue q'
    × Without e timers q'
    × (length q'.heap + 1 ≡ length timers.heap)
pop_lem_example = pop_lem timers timers-IsQueue timers_filled

pop_due-Drained_example :
    (taken : List Entry) × (q' : DelayQueue) × (pop_due 12 none timers ≡ some (taken, q'))
    × Drained 12 none 0 timers taken q'
pop_due-Drained_example = pop_due-Drained 12 none timers timers-IsQueue

two_due :
    pop_due 12 none timers
    ≡ some (
      record { key = 2; due_at = 5; payload = 0 }
          ∷ record { key = 3; due_at = 10; payload = 0 }
          ∷ [],
      record { heap = record { key = 1; due_at = 30; payload = 0 } ∷ []; index = (1, 0) ∷ [] },
    )
unfolding push pop_due
two_due = refl
