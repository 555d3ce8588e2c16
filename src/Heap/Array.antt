-- ===== src/Heap/Array.antt =====
-- The array of the delay queue: what its writes change.
use distributed_job_orchestr.Common.{
  ℕ, zero, suc, ◌+◌, ◌-◌, ◌<◌, ◌≡◌, refl, ap, ◌∙◌, List, [], ◌∷◌, ◌++◌, none, some, arith, length,
  ◌==◌, ltb, if◌then◌else◌,
}
use distributed_job_orchestr.Common.Dict.{put}
use distributed_job_orchestr.Heap.{
  Entry, DelayQueue, entry_at, set_at, drop_last, time_of, due, exchange, swap,
}

pub entry_at-inside : (n : ℕ) (es : List Entry) (e : Entry) → entry_at n es ≡ some e → n < length es
entry_at-inside n [] e h = absurd (ground (arith, h))
entry_at-inside zero (x ∷ es) e h = ground arith
entry_at-inside (suc n) (x ∷ es) e h = ground (arith, entry_at-inside n es e h)

pub inside-entry_at :
    (n : ℕ) (es : List Entry) → n < length es → (e : Entry) × (entry_at n es ≡ some e)
inside-entry_at n [] h = absurd (omega (arith, h))
inside-entry_at zero (x ∷ es) h = (x, refl)
inside-entry_at (suc n) (x ∷ es) h = inside-entry_at n es (omega (arith, h))

pub length-set_at : (n : ℕ) (x : Entry) (es : List Entry) → length (set_at n x es) ≡ length es
length-set_at n x [] = refl
length-set_at zero x (e ∷ es) = refl
length-set_at (suc n) x (e ∷ es) = ap suc (length-set_at n x es)

pub entry_at-set_at :
    (n m : ℕ) (x : Entry) (es : List Entry)
    → m < length es
    → entry_at n (set_at m x es) ≡ (if m == n then some x else entry_at n es)
entry_at-set_at n m x [] h = absurd (omega (arith, h))
entry_at-set_at zero zero x (e ∷ es) h = ground arith
entry_at-set_at (suc n) zero x (e ∷ es) h = ground arith
entry_at-set_at zero (suc m) x (e ∷ es) h = ground arith
entry_at-set_at (suc n) (suc m) x (e ∷ es) h =
    ground (arith, entry_at-set_at n m x es (omega (arith, h)))

pub length-drop_last : (es : List Entry) → length (drop_last es) ≡ length es - 1
length-drop_last [] = ground arith
length-drop_last (e ∷ []) = ground arith
length-drop_last (e ∷ f ∷ es) = omega (arith, length-drop_last (f ∷ es))

pub entry_at-drop_last :
    (n : ℕ) (es : List Entry)
    → entry_at n (drop_last es) ≡ (if ltb (n + 1) (length es) then entry_at n es else none)
entry_at-drop_last n [] = ground arith
entry_at-drop_last zero (e ∷ []) = ground arith
entry_at-drop_last (suc n) (e ∷ []) = ground arith
entry_at-drop_last zero (e ∷ f ∷ es) = ground arith
entry_at-drop_last (suc n) (e ∷ f ∷ es) = ground (arith, entry_at-drop_last n (f ∷ es))

pub entry_at-snoc :
    (n : ℕ) (x : Entry) (es : List Entry)
    → entry_at n (es ++ x ∷ []) ≡ (if n == length es then some x else entry_at n es)
entry_at-snoc zero x [] = ground arith
entry_at-snoc (suc n) x [] = ground arith
entry_at-snoc zero x (e ∷ es) = ground arith
entry_at-snoc (suc n) x (e ∷ es) = ground (arith, entry_at-snoc n x es)

-- _swap
pub swap-entries :
    (a b : ℕ) (q : DelayQueue) (x y : Entry)
    → entry_at a q.heap ≡ some x
    → entry_at b q.heap ≡ some y
    → swap a b q
      ≡ record { heap = set_at b x (set_at a y q.heap); index = put x.key b (put y.key a q.index) }
unfolding swap
swap-entries a b q x y ea eb = rw (ea, eb, exchange) refl

pub length-swap :
    (a b : ℕ) (q : DelayQueue)
    → a < length q.heap
    → b < length q.heap
    → length (swap a b q).heap ≡ length q.heap
length-swap a b q ha hb =
    let (x, ea) = inside-entry_at a q.heap ha in
    let (y, eb) = inside-entry_at b q.heap hb in
    ap (λ r. length r.heap) (swap-entries a b q x y ea eb)
    ∙ length-set_at b x (set_at a y q.heap)
    ∙ length-set_at a y q.heap

pub entry_at-swap :
    (a b n : ℕ) (q : DelayQueue)
    → a < length q.heap
    → b < length q.heap
    → entry_at n (swap a b q).heap ≡ (
        if b == n
        then entry_at a q.heap
        else if a == n
        then entry_at b q.heap
        else entry_at n q.heap)
entry_at-swap a b n q ha hb =
    let (x, ea) = inside-entry_at a q.heap ha in
    let (y, eb) = inside-entry_at b q.heap hb in
    let step = ap (λ r. entry_at n r.heap) (swap-entries a b q x y ea eb) in
    step
    ∙ ground (
      arith,
      ea,
      eb,
      entry_at-set_at n b x (set_at a y q.heap),
      entry_at-set_at n a y q.heap,
      length-set_at a y q.heap,
      ha,
      hb,
    )

pub due-swap :
    (a b n : ℕ) (q : DelayQueue)
    → a < length q.heap
    → b < length q.heap
    → due n (swap a b q) ≡ (if b == n then due a q else if a == n then due b q else due n q)
due-swap a b n q ha hb = ground (arith, ap time_of (entry_at-swap a b n q ha hb))
