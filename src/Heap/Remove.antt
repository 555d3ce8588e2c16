-- ===== src/Heap/Remove.antt =====
-- _remove_at: the last entry fills the hole that the removed one leaves.
use distributed_job_orchestr.Common.{
  ℕ, ◌+◌, ◌-◌, ◌<◌, ◌≡◌, sym, ap, subst, ◌∙◌, true, false, Option, none, some, arith, length, ◌==◌,
  ltb, Bool-cases, Option-cases, inl, inr, if◌then◌else◌,
}
use distributed_job_orchestr.Common.Dict.{lookup, put, del, lookup-put, lookup-del}
use distributed_job_orchestr.Heap.{Entry, DelayQueue, entry_at, set_at, drop_last}
use distributed_job_orchestr.Heap.Array.{
  entry_at-inside, entry_at-set_at, length-drop_last, entry_at-drop_last,
}
use distributed_job_orchestr.Heap.Index.{
  Indexed, entry_of, entry_of_position, entry_of-placed, keys_apart, keys_same,
}
use distributed_job_orchestr.Heap.Push.{same_key}

-- The queue without its last entry, and with that entry in the hole.
abbrev pub cut : Entry → DelayQueue → DelayQueue
cut e q = record { heap = drop_last q.heap; index = del e.key q.index }

abbrev pub filled : ℕ → Entry → Entry → DelayQueue → DelayQueue
filled i e l q = record {
  heap = set_at i l (drop_last q.heap);
  index = put l.key i (del e.key q.index);
}

-- What is left of a position's key when an entry is gone.
abbrev pub Without : Entry → DelayQueue → DelayQueue → Type 0
Without e q q' = (k : ℕ) → entry_of k q' ≡ (if e.key == k then none else entry_of k q)

other_place :
    (q : DelayQueue) (i n : ℕ) (e y : Entry)
    → entry_at i q.heap ≡ some e
    → entry_at n q.heap ≡ some y
    → (e.key == y.key) ≡ false
    → (i == n) ≡ false
other_place q i n e y ex ey apart = elim (Bool-cases (i == n)) [
  | inl hit ↦ let same = keys_same q i n e y ex ey hit in absurd (ground (arith, same, apart))
  | inr miss ↦ miss
]

pub cut-Indexed :
    (i : ℕ) (e : Entry) (q : DelayQueue)
    → Indexed q
    → entry_at i q.heap ≡ some e
    → i + 1 ≡ length q.heap
    → Indexed (cut e q)
cut-Indexed i e q v ex last = record {
  placed = λ n y at.
      let there = sym (entry_at-drop_last n q.heap) ∙ at in
      let old : entry_at n q.heap ≡ some y = ground (arith, there) in
      let apart = keys_apart q i n e y v ex old (ground (arith, there, last)) in
      lookup-del y.key e.key q.index ∙ ground (arith, apart, v.placed n y old);
  present = λ k n h.
      let known = sym (lookup-del k e.key q.index) ∙ h in
      let old : lookup k q.index ≡ some n = ground (arith, known) in
      let (y, at, key) = v.present k n old in
      let apart : (e.key == y.key) ≡ false = ground (arith, known, key) in
      let place = other_place q i n e y ex at apart in
      let inside = entry_at-inside n q.heap y at in
      (y, entry_at-drop_last n q.heap ∙ ground (arith, inside, last, place, at), key);
}

pub cut-Without :
    (i : ℕ) (e : Entry) (q : DelayQueue)
    → Indexed q
    → entry_at i q.heap ≡ some e
    → i + 1 ≡ length q.heap
    → Without e q (cut e q)
cut-Without i e q v ex last k =
    let known = lookup-del k e.key q.index in
    elim (Bool-cases (e.key == k)) [
      | inl hit ↦
          let gone : lookup k (cut e q).index ≡ none = known ∙ ground (arith, hit) in
          ap (λ o. entry_of_position o (cut e q)) gone ∙ ground (arith, hit)
      | inr miss ↦ elim (Option-cases (lookup k q.index)) [
        | inl away ↦
            let gone : lookup k (cut e q).index ≡ none = known ∙ ground (arith, miss, away) in
            ap (λ o. entry_of_position o (cut e q)) gone ∙ ground (arith, miss, away)
        | inr (n, there) ↦
            let (y, at, key) = v.present k n there in
            let place = other_place q i n e y ex at (ground (arith, miss, key)) in
            let inside = entry_at-inside n q.heap y at in
            let here : lookup k (cut e q).index ≡ some n = known ∙ ground (arith, miss, there) in
            ap (λ o. entry_of_position o (cut e q)) here
            ∙ entry_at-drop_last n q.heap
            ∙ ground (arith, inside, last, place, miss, there)
      ]
    ]

pub entry_at-filled :
    (i n : ℕ) (e l : Entry) (q : DelayQueue)
    → i + 1 < length q.heap
    → entry_at n (filled i e l q).heap
      ≡ (if i == n then some l else if ltb (n + 1) (length q.heap) then entry_at n q.heap else none)
entry_at-filled i n e l q h =
    let size = length-drop_last q.heap in
    ground (
      arith,
      entry_at-set_at n i l (drop_last q.heap) (omega (arith, size, h)),
      entry_at-drop_last n q.heap,
    )

lookup-filled :
    (i k : ℕ) (e l : Entry) (q : DelayQueue)
    → lookup k (filled i e l q).index
      ≡ (if l.key == k then some i else if e.key == k then none else lookup k q.index)
lookup-filled i k e l q =
    ground (arith, lookup-put k l.key i (del e.key q.index), lookup-del k e.key q.index)

pub filled-Indexed :
    (i : ℕ) (e l : Entry) (q : DelayQueue)
    → Indexed q
    → entry_at i q.heap ≡ some e
    → entry_at (length q.heap - 1) q.heap ≡ some l
    → i + 1 < length q.heap
    → Indexed (filled i e l q)
filled-Indexed i e l q v ex el h = record {
  placed = λ n y at.
      let there = sym (entry_at-filled i n e l q h) ∙ at in
      elim (Bool-cases (i == n)) [
        | inl hit ↦
            let new : ◌≡◌ {A = Option Entry} (some l) (some y) = ground (arith, there, hit) in
            lookup-filled i y.key e l q ∙ ground (arith, same_key l y new, hit)
        | inr miss ↦
            let old : entry_at n q.heap ≡ some y = ground (arith, there, miss) in
            let before : n + 1 < length q.heap = ground (arith, there, miss) in
            let apart_l =
              keys_apart q (length q.heap - 1) n l y v el old (ground (arith, before)) in
            let apart_e = keys_apart q i n e y v ex old miss in
            lookup-filled i y.key e l q ∙ ground (arith, apart_l, apart_e, v.placed n y old)
      ];
  present = λ k n there.
      let known = sym (lookup-filled i k e l q) ∙ there in
      elim (Bool-cases (l.key == k)) [
        | inl hit ↦
            let at : i ≡ n = ground (arith, known, hit) in
            (l, entry_at-filled i n e l q h ∙ ground (arith, at), ground (arith, hit))
        | inr miss ↦
            let old : lookup k q.index ≡ some n = ground (arith, known, miss) in
            let (y, at, key) = v.present k n old in
            let place_e = other_place q i n e y ex at (ground (arith, known, miss, key)) in
            let place_l =
              other_place q (length q.heap - 1) n l y el at (ground (arith, miss, key)) in
            let inside = entry_at-inside n q.heap y at in
            let before : ltb (n + 1) (length q.heap) ≡ true = ground (arith, inside, place_l) in
            (y, entry_at-filled i n e l q h ∙ ground (arith, place_e, before, at), key)
      ];
}

pub filled-Without :
    (i : ℕ) (e l : Entry) (q : DelayQueue)
    → Indexed q
    → entry_at i q.heap ≡ some e
    → entry_at (length q.heap - 1) q.heap ≡ some l
    → i + 1 < length q.heap
    → Without e q (filled i e l q)
filled-Without i e l q v ex el h k =
    let known = lookup-filled i k e l q in
    let q' = filled i e l q in
    elim (Bool-cases (l.key == k)) [
      | inl hit ↦
          let apart = keys_apart q i (length q.heap - 1) e l v ex el (ground (arith, h)) in
          let at : l.key ≡ k = ground (arith, hit) in
          let other : (e.key == k) ≡ false = ground (arith, apart, at) in
          let here : lookup k q'.index ≡ some i = known ∙ ground (arith, hit) in
          let old : entry_of k q ≡ some l =
            subst (λ j. entry_of j q ≡ some l) at (entry_of-placed q (length q.heap - 1) l v el) in
          ap (λ o. entry_of_position o q') here
          ∙ entry_at-filled i i e l q h
          ∙ ground (arith, other, old)
      | inr miss ↦ elim (Bool-cases (e.key == k)) [
        | inl hit ↦
            let gone : lookup k q'.index ≡ none = known ∙ ground (arith, hit, miss) in
            ap (λ o. entry_of_position o q') gone ∙ ground (arith, hit)
        | inr miss2 ↦ elim (Option-cases (lookup k q.index)) [
          | inl away ↦
              let gone : lookup k q'.index ≡ none = known ∙ ground (arith, miss, miss2, away) in
              ap (λ o. entry_of_position o q') gone ∙ ground (arith, miss2, away)
          | inr (n, there) ↦
              let (y, at, key) = v.present k n there in
              let place_e = other_place q i n e y ex at (ground (arith, miss2, key)) in
              let place_l =
                other_place q (length q.heap - 1) n l y el at (ground (arith, miss, key)) in
              let inside = entry_at-inside n q.heap y at in
              let before : ltb (n + 1) (length q.heap) ≡ true = ground (arith, inside, place_l) in
              let here : lookup k q'.index ≡ some n = known ∙ ground (arith, miss, miss2, there) in
              ap (λ o. entry_of_position o q') here
              ∙ entry_at-filled i n e l q h
              ∙ ground (arith, place_e, before, miss2, there)
        ]
      ]
    ]
