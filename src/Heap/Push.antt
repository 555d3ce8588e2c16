-- ===== src/Heap/Push.antt =====
-- push: the new entry takes the place of the one with its key, if there is one.
use distributed_job_orchestr.Common.{
  ℕ, ◌<◌, ◌≡◌, refl, sym, ap, subst, ◌∙◌, true, false, List, [], ◌∷◌, ◌++◌, Option, none, some,
  arith, length, length-append, ◌==◌, Bool-cases, Option-cases, inl, inr, if◌then◌else◌,
}
use distributed_job_orchestr.Common.Dict.{lookup, put, lookup-put}
use distributed_job_orchestr.Heap.{
  Entry, DelayQueue, entry_at, set_at, time_of, due, sift_up, settle, replace, push,
}
use distributed_job_orchestr.Heap.Array.{
  entry_at-inside, length-set_at, entry_at-set_at, entry_at-snoc,
}
use distributed_job_orchestr.Heap.Index.{
  Indexed, entry_of, entry_of_position, keys_apart, keys_same,
}
use distributed_job_orchestr.Heap.Order.{parent, Ordered, UpInv, written-Loose}
use distributed_job_orchestr.Heap.Sifts.{Restored, sift_up-Restored, settle-Restored}

-- The heap order, and an index that knows the position of each key.
pub record IsQueue (q : DelayQueue) : Type 0 where
  pub indexed : Indexed q
  pub ordered : Ordered q

pub Restored-IsQueue : (q q' : DelayQueue) → Restored q q' → IsQueue q'
Restored-IsQueue q q' (kept, ordered) = record { indexed = kept.indexed; ordered = ordered }

abbrev pub appended : Entry → DelayQueue → DelayQueue
appended e q = record { heap = q.heap ++ e ∷ []; index = put e.key (length q.heap) q.index }

pub absent_apart :
    (j k n : ℕ) (d : List (ℕ × ℕ)) → lookup j d ≡ none → lookup k d ≡ some n → (j == k) ≡ false
absent_apart j k n d h e = elim (Bool-cases (j == k)) [
  | inl hit ↦
      let same : j ≡ k = ground (arith, hit) in
      let gone : lookup k d ≡ none = subst (λ i. lookup i d ≡ none) same h in
      absurd (ground (arith, gone, e))
  | inr miss ↦ miss
]

pub same_key : (x y : Entry) → ◌≡◌ {A = Option Entry} (some x) (some y) → x.key ≡ y.key
same_key x y h = let same : x ≡ y = cc in ap (λ e. e.key) same

appended-Indexed :
    (e : Entry) (q : DelayQueue) → Indexed q → lookup e.key q.index ≡ none → Indexed (appended e q)
appended-Indexed e q v away = record {
  placed = λ n x at.
      let there = sym (entry_at-snoc n e q.heap) ∙ at in
      let known = lookup-put x.key e.key (length q.heap) q.index in
      elim (Bool-cases (n == length q.heap)) [
        | inl hit ↦
            let new : ◌≡◌ {A = Option Entry} (some e) (some x) = ground (arith, there, hit) in
            known ∙ ground (arith, same_key e x new, hit)
        | inr miss ↦
            let old : entry_at n q.heap ≡ some x = ground (arith, there, miss) in
            let at_n = v.placed n x old in
            known ∙ ground (arith, at_n, absent_apart e.key x.key n q.index away at_n)
      ];
  present = λ k n h.
      let known = sym (lookup-put k e.key (length q.heap) q.index) ∙ h in
      elim (Bool-cases (e.key == k)) [
        | inl hit ↦
            let at : length q.heap ≡ n = ground (arith, known, hit) in
            (e, entry_at-snoc n e q.heap ∙ ground (arith, at), ground (arith, hit))
        | inr miss ↦
            let old : lookup k q.index ≡ some n = ground (arith, known, miss) in
            let (x, at, key) = v.present k n old in
            let inside = entry_at-inside n q.heap x at in
            (x, entry_at-snoc n e q.heap ∙ ground (arith, at, inside), key)
      ];
}

appended-UpInv : (e : Entry) (q : DelayQueue) → Ordered q → UpInv (appended e q) (length q.heap)
appended-UpInv e q o =
    let size = length-append q.heap (e ∷ []) in
    let at : (n : ℕ) → due n (appended e q) ≡ (if n == length q.heap then e.due_at else due n q) =
      λ n. ground (arith, ap time_of (entry_at-snoc n e q.heap)) in
    record {
      up_edges = λ c p r t. ground (arith, at c, at (parent c), o c p, size);
      up_bridge = λ c p r t u. absurd (ground (arith, size));
    }

appended-entry_of :
    (e : Entry) (q : DelayQueue) (k : ℕ)
    → Indexed q
    → entry_of k (appended e q) ≡ (if e.key == k then some e else entry_of k q)
appended-entry_of e q k v =
    let known = lookup-put k e.key (length q.heap) q.index in
    elim (Bool-cases (e.key == k)) [
      | inl hit ↦
          let at : lookup k (appended e q).index ≡ some (length q.heap) =
            known ∙ ground (arith, hit) in
          let here : entry_of k (appended e q) ≡ some e =
            ap (λ o. entry_of_position o (appended e q)) at
            ∙ entry_at-snoc (length q.heap) e q.heap
            ∙ ground arith in
          here ∙ ground (arith, hit)
      | inr miss ↦
          let at : lookup k (appended e q).index ≡ lookup k q.index =
            known ∙ ground (arith, miss) in
          let here : entry_of k (appended e q)
              ≡ entry_of_position (lookup k q.index) (appended e q) =
            ap (λ o. entry_of_position o (appended e q)) at in
          let same : entry_of_position (lookup k q.index) (appended e q) ≡ entry_of k q =
            elim (Option-cases (lookup k q.index)) [
              | inl gone ↦ rw gone refl
              | inr (n, there) ↦
                  let (x, at_n, key) = v.present k n there in
                  let inside = entry_at-inside n q.heap x at_n in
                  rw there (entry_at-snoc n e q.heap ∙ ground (arith, inside))
            ] in
          here ∙ same ∙ ground (arith, miss)
    ]

-- The new entry replaces the one at a position, which has the same key.
abbrev pub written : ℕ → Entry → DelayQueue → DelayQueue
written i e q = record q { heap = set_at i e q.heap }

written-Indexed :
    (i : ℕ) (e x : Entry) (q : DelayQueue)
    → Indexed q
    → entry_at i q.heap ≡ some x
    → x.key ≡ e.key
    → Indexed (written i e q)
written-Indexed i e x q v ex key =
    let moved : (n : ℕ)
        → entry_at n (set_at i e q.heap) ≡ (if i == n then some e else entry_at n q.heap) =
      λ n. entry_at-set_at n i e q.heap (entry_at-inside i q.heap x ex) in
    record {
      placed = λ n y at. elim (Bool-cases (i == n)) [
        | inl hit ↦
            let new : ◌≡◌ {A = Option Entry} (some e) (some y) = ground (arith, moved n, at, hit) in
            let here : lookup y.key q.index ≡ some i =
              ap (λ k. lookup k q.index) (sym (key ∙ same_key e y new)) ∙ v.placed i x ex in
            here ∙ ground (arith, hit)
        | inr miss ↦ v.placed n y (ground (arith, moved n, at, miss))
      ];
      present = λ k n h.
          let (y, at, its_key) = v.present k n h in
          elim (Bool-cases (i == n)) [
            | inl hit ↦ (
              e,
              moved n ∙ ground (arith, hit),
              sym key ∙ keys_same q i n x y ex at hit ∙ its_key,
            )
            | inr miss ↦ (y, moved n ∙ ground (arith, miss, at), its_key)
          ];
    }

written-entry_of :
    (i : ℕ) (e x : Entry) (q : DelayQueue) (k : ℕ)
    → Indexed q
    → entry_at i q.heap ≡ some x
    → x.key ≡ e.key
    → entry_of k (written i e q) ≡ (if e.key == k then some e else entry_of k q)
written-entry_of i e x q k v ex key =
    let moved : (n : ℕ)
        → entry_at n (set_at i e q.heap) ≡ (if i == n then some e else entry_at n q.heap) =
      λ n. entry_at-set_at n i e q.heap (entry_at-inside i q.heap x ex) in
    elim (Option-cases (lookup k q.index)) [
      | inl gone ↦
          let apart : (k == x.key) ≡ false =
            absent_apart k x.key i q.index gone (v.placed i x ex) in
          let other : (e.key == k) ≡ false = ground (arith, apart, key) in
          rw (gone) (ground (arith, other))
      | inr (n, there) ↦
          let (y, at, its_key) = v.present k n there in
          let same_place : (i == n) ≡ true → x.key ≡ y.key = keys_same q i n x y ex at in
          let other_place : (i == n) ≡ false → (x.key == y.key) ≡ false =
            keys_apart q i n x y v ex at in
          rw (there) (moved n ∙ ground (arith, same_place, other_place, its_key, key))
    ]

-- push keeps the heap order and the index, and changes the entry of its key alone.
pub push_lem :
    (key due_at payload : ℕ) (q : DelayQueue)
    → IsQueue q
    → IsQueue (push key due_at payload q)
      × ((k : ℕ)
          → entry_of k (push key due_at payload q) ≡ (
              if key == k
              then some (record { key = key; due_at = due_at; payload = payload })
              else entry_of k q))
unfolding push replace
push_lem key due_at payload q v =
    let e : Entry = record { key = key; due_at = due_at; payload = payload } in
    elim (Option-cases (lookup key q.index)) [
      | inl away ↦
          let q1 = appended e q in
          let inside : length q.heap < length q1.heap =
            omega (arith, length-append q.heap (e ∷ [])) in
          let up =
            sift_up-Restored (length q.heap) (length q.heap) q1 (omega arith) inside
              (appended-Indexed e q v.indexed away) (appended-UpInv e q v.ordered) in
          let at : push key due_at payload q ≡ sift_up (length q.heap) (length q.heap) q1 =
            rw (push, away) refl in
          rw at (Restored-IsQueue q1 _ up, λ k. up.0.entries k ∙ appended-entry_of e q k v.indexed)
      | inr (i, there) ↦
          let (x, ex, same) = v.indexed.present key i there in
          let q1 = written i e q in
          let inside = entry_at-inside i q.heap x ex in
          let size = length-set_at i e q.heap in
          let loose =
            written-Loose q q1 i v.ordered (omega (arith, size)) (omega (arith, size, inside))
              (λ n r t. ap time_of (entry_at-set_at n i e q.heap inside) ∙ ground (arith, t)) in
          let done =
            settle-Restored i q1 (omega (arith, size, inside))
              (written-Indexed i e x q v.indexed ex same) loose in
          let at : push key due_at payload q ≡ settle i q1 = rw (push, there, replace) refl in
          rw at (
            Restored-IsQueue q1 _ done,
            λ k. done.0.entries k ∙ written-entry_of i e x q k v.indexed ex same,
          )
    ]
