-- ===== src/Heap/Drain.antt =====
-- pop_due: it takes the due entries in the order of their times.
use distributed_job_orchestr.Common.{
  append-nil, append_assoc, ℕ, zero, suc, ◌+◌, ◌≤◌, ◌<◌, ◌≡◌, ◌⊎◌, refl, sym, ap, subst, ◌∙◌, true,
  List, [], ◌∷◌, ◌++◌, Option, none, some, All, arith, length, length-append, ◌==◌, ltb, Bool-cases,
  Option-cases, inl, inr, if◌then◌else◌,
}
use distributed_job_orchestr.Heap.{Entry, DelayQueue, peek, reached, drain, pop_due}
use distributed_job_orchestr.Heap.Array.{entry_at-inside, inside-entry_at}
use distributed_job_orchestr.Heap.Index.{entry_of, entry_of-placed, entry_of-cases}
use distributed_job_orchestr.Heap.Push.{IsQueue}
use distributed_job_orchestr.Heap.Remove.{Without}
use distributed_job_orchestr.Heap.Take.{head_least, pop_lem}

-- The entry of a list with a key.
abbrev pub find_key : ℕ → List Entry → Option Entry
find_key k [] = none
find_key k (e ∷ es) = let rest = find_key k es in if e.key == k then some e else rest

abbrev pub or_else : Option Entry → Option Entry → Option Entry
or_else none o = o
or_else (some e) o = some e

-- Every entry is due no later than those behind it.
abbrev pub Rising : List Entry → Type 0
Rising [] = Unit
Rising (e ∷ es) = All (λ x. e.due_at ≤ x.due_at) es × Rising es

-- What a call has taken out of a queue, and what it has left.
pub record Drained (now : ℕ) (limit : Option ℕ) (before : ℕ) (q : DelayQueue) (taken : List Entry)
    (q' : DelayQueue) : Type 0 where
  pub queue : IsQueue q'
  pub early : All (λ e. e.due_at ≤ now) taken
  pub rising : Rising taken
  pub from : All (λ e. entry_of e.key q ≡ some e) taken
  pub split : (k : ℕ) → entry_of k q ≡ or_else (find_key k taken) (entry_of k q')
  pub gone : (k : ℕ) (e : Entry) → find_key k taken ≡ some e → entry_of k q' ≡ none
  pub later : (k : ℕ) (x : Entry) → entry_of k q' ≡ some x → All (λ e. e.due_at ≤ x.due_at) taken
  pub stop :
      (reached limit (before + length taken) ≡ true)
      ⊎ ((k : ℕ) (x : Entry) → entry_of k q' ≡ some x → now < x.due_at)

stopped :
    (now : ℕ) (limit : Option ℕ) (before : ℕ) (q : DelayQueue)
    → IsQueue q
    → (reached limit before ≡ true) ⊎ ((k : ℕ) (x : Entry) → entry_of k q ≡ some x → now < x.due_at)
    → Drained now limit before q [] q
stopped now limit before q v s =
    let zero_more : before + 0 ≡ before = omega arith in
    record {
      queue = v;
      early = tt;
      rising = tt;
      from = tt;
      split = λ k. refl;
      gone = λ k e h. absurd (ground (arith, h));
      later = λ k x h. tt;
      stop = elim s [
        | inl full ↦ inl (subst (λ n. reached limit n ≡ true) (sym zero_more) full)
        | inr none_due ↦ inr none_due
      ];
    }

from_rest :
    (e : Entry) (q q' : DelayQueue) (taken : List Entry)
    → Without e q q'
    → All (λ x. entry_of x.key q' ≡ some x) taken
    → All (λ x. entry_of x.key q ≡ some x) taken
from_rest e q q' [] w h = tt
from_rest e q q' (x ∷ xs) w h = (ground (arith, sym (w x.key) ∙ h.0), from_rest e q q' xs w h.1)

least_first :
    (e : Entry) (q : DelayQueue) (taken : List Entry)
    → ((k : ℕ) (x : Entry) → entry_of k q ≡ some x → e.due_at ≤ x.due_at)
    → All (λ x. entry_of x.key q ≡ some x) taken
    → All (λ x. e.due_at ≤ x.due_at) taken
least_first e q [] least h = tt
least_first e q (x ∷ xs) least h = (least x.key x h.0, least_first e q xs least h.1)

-- The rest of the loop comes after the first entry.
one_more :
    (now : ℕ) (limit : Option ℕ) (before : ℕ) (e : Entry) (q q1 q' : DelayQueue)
    (taken : List Entry)
    → e.due_at ≤ now
    → entry_of e.key q ≡ some e
    → ((k : ℕ) (x : Entry) → entry_of k q ≡ some x → e.due_at ≤ x.due_at)
    → Without e q q1
    → Drained now limit (before + 1) q1 taken q'
    → Drained now limit before q (e ∷ taken) q'
one_more now limit before e q q1 q' taken early there least w d =
    let older = from_rest e q q1 taken w d.from in
    let left : (k : ℕ) (x : Entry) → entry_of k q' ≡ some x → entry_of k q ≡ some x = λ k x h.
      elim (Option-cases (find_key k taken)) [
        | inl away ↦ ground (arith, d.split k, w k, away, h)
        | inr (y, held) ↦ absurd (ground (arith, d.gone k y held, h))
      ] in
    let one_step : before + 1 + length taken ≡ before + length (e ∷ taken) = omega arith in
    let here : (k : ℕ) → (e.key == k) ≡ true → entry_of k q ≡ some e = λ k hit.
      let same : e.key ≡ k = ground (arith, hit) in subst (λ j. entry_of j q ≡ some e) same there in
    record {
      queue = d.queue;
      early = (early, d.early);
      rising = (least_first e q taken least older, d.rising);
      from = (there, older);
      split = λ k. ground (arith, here k, d.split k, w k);
      gone = λ k x h. elim (Option-cases (find_key k taken)) [
        | inr (y, held) ↦ d.gone k y held
        | inl away ↦
            let hit : (e.key == k) ≡ true = ground (arith, h, away) in
            ground (arith, hit, away, d.split k, w k)
      ];
      later = λ k x h. (least k x (left k x h), d.later k x h);
      stop = elim d.stop [
        | inl full ↦ inl (subst (λ n. reached limit n ≡ true) one_step full)
        | inr none_due ↦ inr none_due
      ];
    }

nothing_left :
    (q : DelayQueue) (k : ℕ) (x : Entry) → IsQueue q → peek q ≡ none → entry_of k q ≡ some x → ⊥
nothing_left q k x v empty there = elim (entry_of-cases q k v.indexed) [
  | inl away ↦ absurd (ground (arith, away, there))
  | inr (n, e, at, key, here) ↦
      let inside = entry_at-inside n q.heap e at in
      let (head, first) = inside-entry_at 0 q.heap (omega (arith, inside)) in
      absurd (ground (arith, first, empty))
]

drain-Drained :
    (fuel now : ℕ) (limit : Option ℕ) (acc : List Entry) (q : DelayQueue)
    → IsQueue q
    → length q.heap < fuel
    → (taken : List Entry) × (q' : DelayQueue) × (drain fuel now limit acc q
        ≡ some (acc ++ taken, q'))
      × Drained now limit (length acc) q taken q'
unfolding drain
drain-Drained zero now limit acc q v h = absurd (omega (arith, h))
drain-Drained (suc fuel) now limit acc q v h = elim (Option-cases (peek q)) [
  | inl empty ↦
      let call : drain (suc fuel) now limit acc q ≡ some (acc, q) = rw (drain, empty) refl in
      (
        [],
        q,
        call ∙ ap (λ l. some (l, q)) (sym (append-nil acc)),
        stopped now limit (length acc) q v
            (inr (λ k x there. absurd (nothing_left q k x v empty there))),
      )
  | inr (head, at) ↦ elim (Bool-cases (ltb now head.due_at)) [
    | inl future ↦
        let call : drain (suc fuel) now limit acc q ≡ some (acc, q) = rw (drain, at, future) refl in
        (
          [],
          q,
          call ∙ ap (λ l. some (l, q)) (sym (append-nil acc)),
          stopped now limit (length acc) q v
              (inr (λ k x there. ground (arith, future, head_least q head v at k x there))),
        )
    | inr due_now ↦ elim (Bool-cases (reached limit (length acc))) [
      | inl full ↦
          let call : drain (suc fuel) now limit acc q ≡ some (acc, q) =
            rw (drain, at, due_now, full) refl in
          (
            [],
            q,
            call ∙ ap (λ l. some (l, q)) (sym (append-nil acc)),
            stopped now limit (length acc) q v (inl full),
          )
      | inr room ↦
          let (e, q1, popped, there, least, v1, w, size) =
            pop_lem q v (omega (arith, entry_at-inside 0 q.heap head at)) in
          let (taken, q', rest, d) =
            drain-Drained fuel now limit (acc ++ e ∷ []) q1 v1 (omega (arith, size, h)) in
          let call : drain (suc fuel) now limit acc q ≡ drain fuel now limit (acc ++ e ∷ []) q1 =
            rw (drain, at, due_now, room, popped) refl in
          let early : e.due_at ≤ now =
            ground (arith, due_now, least head.key head (entry_of-placed q 0 head v.indexed at)) in
          let length_acc : length (acc ++ e ∷ []) ≡ length acc + 1 = length-append acc (e ∷ []) in
          (
            e ∷ taken,
            q',
            call ∙ rest ∙ ap (λ l. some (l, q')) (append_assoc acc (e ∷ []) taken),
            one_more now limit (length acc) e q q1 q' taken early there least w
                (subst (λ n. Drained now limit n q1 taken q') length_acc d),
          )
    ]
  ]
]

-- On a queue, with or without a limit, pop_due raises nothing. What it returns was in the queue, is
-- due by now and stands in the order of the due times; what it leaves is a queue of all the other
-- entries, none of them due before a returned one; and it stops only when the limit is reached or
-- when every entry that is left is due later than now.
pub pop_due-Drained :
    (now : ℕ) (limit : Option ℕ) (q : DelayQueue)
    → IsQueue q
    → (taken : List Entry) × (q' : DelayQueue) × (pop_due now limit q ≡ some (taken, q'))
      × Drained now limit 0 q taken q'
unfolding pop_due
pop_due-Drained now limit q v = drain-Drained (length q.heap + 1) now limit [] q v (omega arith)
