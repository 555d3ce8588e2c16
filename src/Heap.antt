-- ===== src/Heap.antt =====
-- The delay queue of core/heap.py: a binary heap by due time and the position of each key. A time
-- is a number of ticks. A position out of range reads as no entry; the code reads none.
pub mod Array
pub mod Index
pub mod Order
pub mod Sifts
pub mod Push
pub mod Remove
pub mod Take
pub mod Drain
mod Examples
use distributed_job_orchestr.Common.{
  ℕ, zero, suc, ◌+◌, ◌-◌, ◌*◌, ◌/◌, Bool, true, false, not, ◌&&◌, List, [], ◌∷◌, ◌++◌, Option, none,
  some, length, ltb, leb, ◌==◌, if◌then◌else◌,
}
use distributed_job_orchestr.Common.Dict.{lookup, put, del}

-- Entry
pub record Entry : Type 0 where
  pub key : ℕ
  pub due_at : ℕ
  pub payload : ℕ

-- DelayQueue
pub record DelayQueue : Type 0 where
  pub heap : List Entry
  pub index : List (ℕ × ℕ)

abbrev pub entry_at : ℕ → List Entry → Option Entry
entry_at n [] = none
entry_at zero (e ∷ es) = some e
entry_at (suc n) (e ∷ es) = entry_at n es

-- heap[n] = x
abbrev pub set_at : ℕ → Entry → List Entry → List Entry
set_at n x [] = []
set_at zero x (e ∷ es) = x ∷ es
set_at (suc n) x (e ∷ es) = e ∷ set_at n x es

abbrev pub drop_last : List Entry → List Entry
drop_last [] = []
drop_last (e ∷ []) = []
drop_last (e ∷ f ∷ es) = e ∷ drop_last (f ∷ es)

abbrev pub time_of : Option Entry → ℕ
time_of none = 0
time_of (some e) = e.due_at

-- self._heap[n].due_at
abbrev pub due : ℕ → DelayQueue → ℕ
due n q = time_of (entry_at n q.heap)

-- the writes of _swap, from the two entries that it reads
abbrev pub exchange : ℕ → ℕ → Option Entry → Option Entry → DelayQueue → DelayQueue
exchange a b (some x) (some y) q = record {
  heap = set_at b x (set_at a y q.heap);
  index = put x.key b (put y.key a q.index);
}
exchange a b _ _ q = q

-- DelayQueue._swap
unfoldable pub swap : ℕ → ℕ → DelayQueue → DelayQueue
swap a b q = exchange a b (entry_at a q.heap) (entry_at b q.heap) q

-- DelayQueue._sift_up; the position is the fuel, since the parent's is smaller
unfoldable pub sift_up : ℕ → ℕ → DelayQueue → DelayQueue
unfolding swap
sift_up zero position q = q
sift_up (suc fuel) position q =
    let parent = (position - 1) / 2 in
    let higher = sift_up fuel parent (swap position parent q) in
    if leb position 0 then q else if leb (due parent q) (due position q) then q else higher

-- the choice of the smallest of a node and its children
unfoldable pub smallest_of : ℕ → DelayQueue → ℕ
smallest_of position q =
    let size = length q.heap in
    let left = 2 * position + 1 in
    let right = left + 1 in
    let first = if ltb left size && ltb (due left q) (due position q) then left else position in
    if ltb right size && ltb (due right q) (due first q) then right else first

-- DelayQueue._sift_down; the size is the fuel, since each position is larger than the last
unfoldable pub sift_down : ℕ → ℕ → DelayQueue → DelayQueue
unfolding smallest_of swap
sift_down zero position q = q
sift_down (suc fuel) position q =
    let smallest = smallest_of position q in
    let lower = sift_down fuel smallest (swap position smallest q) in
    if smallest == position then q else lower

abbrev pub settle : ℕ → DelayQueue → DelayQueue
settle position q = let up = sift_up position position q in sift_down (length up.heap) position up

-- DelayQueue._replace
unfoldable pub replace : ℕ → Entry → DelayQueue → DelayQueue
unfolding sift_up sift_down
replace position e q = settle position (record q { heap = set_at position e q.heap })

-- DelayQueue.push
unfoldable pub push : ℕ → ℕ → ℕ → DelayQueue → DelayQueue
unfolding replace sift_up
push key due_at payload q =
    let e : Entry = record { key = key; due_at = due_at; payload = payload } in
    let last = length q.heap in
    elim (lookup key q.index) [
      | some position ↦ replace position e q
      | none ↦ sift_up last last (record { heap = q.heap ++ e ∷ []; index = put key last q.index })
    ]

-- DelayQueue.peek
abbrev pub peek : DelayQueue → Option Entry
peek q = entry_at 0 q.heap

-- the hole that _remove_at fills with the former last entry
abbrev pub fill_hole : ℕ → Option Entry → DelayQueue → DelayQueue
fill_hole position none q = q
fill_hole position (some last) q =
    if ltb position (length q.heap)
    then settle position
        (record { heap = set_at position last q.heap; index = put last.key position q.index })
    else q

-- DelayQueue._remove_at
unfoldable pub remove_at : ℕ → DelayQueue → Option (Entry × DelayQueue)
unfolding sift_up sift_down
remove_at position q = elim (entry_at position q.heap) [
  | none ↦ none
  | some e ↦
      let last = entry_at (length q.heap - 1) q.heap in
      some
        (e, fill_hole position last (record { heap = drop_last q.heap; index = del e.key q.index }))
]

-- DelayQueue.pop; `none` is the IndexError of an empty queue.
unfoldable pub pop : DelayQueue → Option (Entry × DelayQueue)
unfolding remove_at
pop q = remove_at 0 q

-- DelayQueue.cancel, with the queue that it leaves
unfoldable pub cancel : ℕ → DelayQueue → Option (Entry × DelayQueue)
unfolding remove_at
cancel key q = elim (lookup key q.index) [ none ↦ none | some position ↦ remove_at position q ]

-- `limit is not None and len(due) >= limit`
abbrev pub reached : Option ℕ → ℕ → Bool
reached none n = false
reached (some limit) n = leb limit n

-- the loop of pop_due; `none` when the rounds run out or pop raises
unfoldable pub drain : ℕ → ℕ → Option ℕ → List Entry → DelayQueue → Option (List Entry × DelayQueue)
unfolding pop
drain zero now limit taken q = none
drain (suc fuel) now limit taken q = elim (peek q) [
  | none ↦ some (taken, q)
  | some head ↦
      if ltb now head.due_at
      then some (taken, q)
      else if reached limit (length taken)
      then some (taken, q)
      else elim (pop q) [ none ↦ none | some (e, q') ↦ drain fuel now limit (taken ++ e ∷ []) q' ]
]

-- DelayQueue.pop_due, with a round for each entry and one more
unfoldable pub pop_due : ℕ → Option ℕ → DelayQueue → Option (List Entry × DelayQueue)
unfolding drain
pop_due now limit q = drain (length q.heap + 1) now limit [] q

-- DelayQueue.seconds_until_next
unfoldable pub seconds_until_next : ℕ → DelayQueue → Option ℕ
seconds_until_next now q = elim (peek q) [ none ↦ none | some e ↦ some (e.due_at - now) ]
