-- ===== src/Heap/Sifts.antt =====
-- The sifts restore the heap order and keep the entries.
use distributed_job_orchestr.Common.{
  ℕ, zero, suc, ◌+◌, ◌-◌, ◌*◌, ◌≤◌, ◌<◌, ◌≡◌, ◌⊎◌, refl, sym, ap, subst, true, false, ◌&&◌, arith,
  length, ◌==◌, ltb, leb, Bool-cases, inl, inr,
}
use distributed_job_orchestr.Heap.{DelayQueue, due, swap, sift_up, smallest_of, sift_down, settle}
use distributed_job_orchestr.Heap.Array.{length-swap}
use distributed_job_orchestr.Heap.Index.{Indexed, Kept, Kept-refl, Kept-trans, swap-Kept}
use distributed_job_orchestr.Heap.Order.{
  parent, Ordered, UpInv, DownInv, Loose, swap-UpInv, swap-DownInv, settled-UpInv, Ordered-DownInv,
  Loose-UpInv, Loose-DownInv,
}

-- The same entries, in the heap order.
abbrev pub Restored : DelayQueue → DelayQueue → Type 0
Restored q q' = Kept q q' × Ordered q'

after_swap :
    (a b : ℕ) (q q' : DelayQueue)
    → a < length q.heap
    → b < length q.heap
    → Indexed q
    → Restored (swap a b q) q'
    → Restored q q'
after_swap a b q q' ha hb v (kept, ordered) =
    (Kept-trans q (swap a b q) q' (swap-Kept a b q ha hb v) kept, ordered)

pub sift_up-Restored :
    (fuel i : ℕ) (q : DelayQueue)
    → i ≤ fuel
    → i < length q.heap
    → Indexed q
    → UpInv q i
    → Restored q (sift_up fuel i q)
unfolding sift_up
sift_up-Restored zero i q enough inside v u =
    (Kept-refl q v, settled-UpInv q i u (λ pos. absurd (omega (arith, pos, enough))))
sift_up-Restored (suc fuel) i q enough inside v u = elim (Bool-cases (leb i 0)) [
  | inl root ↦
      rw root (Kept-refl q v, settled-UpInv q i u (λ pos. absurd (ground (arith, pos, root))))
  | inr deep ↦ elim (Bool-cases (leb (due (parent i) q) (due i q))) [
    | inl fine ↦ rw (deep, fine) (Kept-refl q v, settled-UpInv q i u (λ pos. ground (arith, fine)))
    | inr low ↦
        let pos : 0 < i = ground (arith, deep) in
        let above : parent i < length q.heap = omega (arith, inside) in
        let next = swap-Kept i (parent i) q inside above v in
        let size = length-swap i (parent i) q inside above in
        let rest =
          sift_up-Restored fuel (parent i) (swap i (parent i) q) (omega (arith, enough, pos))
            (omega (arith, size, above)) next.indexed
            (swap-UpInv q i u pos inside (ground (arith, low))) in
        rw (deep, low) (after_swap i (parent i) q _ inside above v rest)
  ]
]

-- The choice is the position itself when neither child is earlier, and the earlier child
-- otherwise.
Choice : DelayQueue → ℕ → ℕ → Type 0
Choice q i m =
    ((m ≡ i) × ((c : ℕ) → 0 < c → c < length q.heap → parent c ≡ i → due i q ≤ due c q))
    ⊎ ((i < m)
        × (m < length q.heap)
        × (parent m ≡ i)
        × (due m q < due i q)
        × ((c : ℕ) → 0 < c → c < length q.heap → parent c ≡ i → due m q ≤ due c q))

children_of : (i c : ℕ) → 0 < c → parent c ≡ i → (c ≡ 2 * i + 1) ⊎ (c ≡ 2 * i + 1 + 1)
children_of i c pos up = ground (arith, pos, up)

least_of :
    (q : DelayQueue) (i x : ℕ)
    → (2 * i + 1 < length q.heap → x ≤ due (2 * i + 1) q)
    → (2 * i + 1 + 1 < length q.heap → x ≤ due (2 * i + 1 + 1) q)
    → (c : ℕ) → 0 < c
    → c < length q.heap
    → parent c ≡ i
    → x ≤ due c q
least_of q i x l r c pos inside up = elim (children_of i c pos up) [
  | inl at ↦ rw at (l (rw (← at) inside))
  | inr at ↦ rw at (r (rw (← at) inside))
]

smallest_of-Choice : (q : DelayQueue) (i : ℕ) → Choice q i (smallest_of i q)
unfolding smallest_of Choice
smallest_of-Choice q i =
    let left = 2 * i + 1 in
    let right = left + 1 in
    let size = length q.heap in
    elim (Bool-cases (ltb left size && ltb (due left q) (due i q))) [
      | inl first ↦ elim (Bool-cases (ltb right size && ltb (due right q) (due left q))) [
        | inl second ↦
            let at : smallest_of i q ≡ right = rw (smallest_of, first, second) refl in
            subst (Choice q i) (sym at) (
              inr (
                omega arith,
                ground (arith, second),
                omega arith,
                ground (arith, first, second),
                least_of q i (due right q) (λ h. ground (arith, second)) (λ h. ground arith),
              ))
        | inr stop ↦
            let at : smallest_of i q ≡ left = rw (smallest_of, first, stop) refl in
            subst (Choice q i) (sym at) (
              inr (
                omega arith,
                ground (arith, first),
                omega arith,
                ground (arith, first),
                least_of q i (due left q) (λ h. ground arith) (λ h. ground (arith, stop, h)),
              ))
      ]
      | inr stay ↦ elim (Bool-cases (ltb right size && ltb (due right q) (due i q))) [
        | inl second ↦
            let at : smallest_of i q ≡ right = rw (smallest_of, stay, second) refl in
            subst (Choice q i) (sym at) (
              inr (
                omega arith,
                ground (arith, second),
                omega arith,
                ground (arith, second),
                least_of q i (due right q) (λ h. ground (arith, stay, second, h))
                    (λ h. ground arith),
              ))
        | inr stop ↦
            let at : smallest_of i q ≡ i = rw (smallest_of, stay, stop) refl in
            subst (Choice q i) (sym at) (
              inl (
                refl,
                least_of q i (due i q) (λ h. ground (arith, stay, h))
                    (λ h. ground (arith, stop, h)),
              ))
      ]
    ]

pub sift_down-Restored :
    (fuel i : ℕ) (q : DelayQueue)
    → length q.heap - i ≤ fuel
    → i < length q.heap
    → Indexed q
    → DownInv q i
    → Restored q (sift_down fuel i q)
unfolding sift_down Choice
sift_down-Restored zero i q enough inside v d = absurd (omega (arith, enough, inside))
sift_down-Restored (suc fuel) i q enough inside v d = elim (smallest_of-Choice q i) [
  | inl (same, least) ↦
      let hit : (smallest_of i q == i) ≡ true = ground (arith, same) in
      rw hit
        (Kept-refl q v, λ c p r. ground (arith, d.down_edges c p r, least c p r, ap (λ n. due n q)))
  | inr (more, hm, up, below, least) ↦
      let m = smallest_of i q in
      let miss : (m == i) ≡ false = ground (arith, more) in
      let next = swap-Kept i m q inside hm v in
      let size = length-swap i m q inside hm in
      let rest =
        sift_down-Restored fuel m (swap i m q) (omega (arith, size, enough, more))
          (omega (arith, size, hm)) next.indexed
          (swap-DownInv q i m d inside hm (omega (arith, more)) up least below) in
      rw miss (after_swap i m q _ inside hm v rest)
]

sift_up-stays : (i : ℕ) (q : DelayQueue) → (0 < i → due (parent i) q ≤ due i q) → sift_up i i q ≡ q
unfolding sift_up
sift_up-stays zero q h = refl
sift_up-stays (suc i) q h =
    let fine : leb (due (parent (suc i)) q) (due (suc i) q) ≡ true =
      ground (arith, h (omega arith)) in
    let deep : leb (suc i) 0 ≡ false = ground arith in rw (deep, fine) refl

-- Where all the edges of one position may be out of order, both sifts in turn restore the order.
pub settle-Restored :
    (i : ℕ) (q : DelayQueue) → i < length q.heap → Indexed q → Loose q i → Restored q (settle i q)
settle-Restored i q inside v l = elim (Bool-cases (ltb 0 i && ltb (due i q) (due (parent i) q))) [
  | inl low ↦
      let pos : 0 < i = ground (arith, low) in
      let (kept, ordered) =
        sift_up-Restored i i q (omega arith) inside v
          (Loose-UpInv q i l pos (ground (arith, low))) in
      let still : i < length (sift_up i i q).heap = omega (arith, kept.sizes, inside) in
      let (kept_down, ordered_down) =
        sift_down-Restored (length (sift_up i i q).heap) i (sift_up i i q) (omega arith) still
          kept.indexed (Ordered-DownInv (sift_up i i q) i still ordered) in
      (Kept-trans q (sift_up i i q) (settle i q) kept kept_down, ordered_down)
  | inr fine ↦
      let in_order : 0 < i → due (parent i) q ≤ due i q = λ pos. ground (arith, fine, pos) in
      let stays = sift_up-stays i q in_order in
      let down =
        sift_down-Restored (length q.heap) i q (omega arith) inside v
          (Loose-DownInv q i l in_order) in
      subst (λ r. Restored q (sift_down (length r.heap) i r)) (sym stays) down
]
