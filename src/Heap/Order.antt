-- ===== src/Heap/Order.antt =====
-- The heap order, and how a sift restores it where one entry is out of place.
use distributed_job_orchestr.Common.{
  ℕ, ◌-◌, ◌/◌, ◌≤◌, ◌<◌, ◌≡◌, ◌≢◌, ap, arith, length, ◌==◌, if◌then◌else◌,
}
use distributed_job_orchestr.Heap.{DelayQueue, due, swap}
use distributed_job_orchestr.Heap.Array.{due-swap, length-swap}

abbrev pub parent : ℕ → ℕ
parent c = (c - 1) / 2

-- No entry is due before its parent.
abbrev pub Ordered : DelayQueue → Type 0
Ordered q = (c : ℕ) → 0 < c → c < length q.heap → due (parent c) q ≤ due c q

-- The parent of a position is due no later than the position's children.
abbrev pub Bridged : DelayQueue → ℕ → Type 0
Bridged q i =
    (c : ℕ) → 0 < c → c < length q.heap → parent c ≡ i → 0 < i → due (parent i) q ≤ due c q

-- Only the edge above a position may be out of order.
pub record UpInv (q : DelayQueue) (i : ℕ) : Type 0 where
  pub up_edges : (c : ℕ) → 0 < c → c < length q.heap → c ≢ i → due (parent c) q ≤ due c q
  pub up_bridge : Bridged q i

-- Only the edges below a position may be out of order.
pub record DownInv (q : DelayQueue) (i : ℕ) : Type 0 where
  pub down_edges : (c : ℕ) → 0 < c → c < length q.heap → parent c ≢ i → due (parent c) q ≤ due c q
  pub down_bridge : Bridged q i

-- All edges of a position may be out of order.
pub record Loose (q : DelayQueue) (i : ℕ) : Type 0 where
  pub edges :
      (c : ℕ) → 0 < c → c < length q.heap → c ≢ i → parent c ≢ i → due (parent c) q ≤ due c q
  pub bridge : Bridged q i

pub swap-UpInv :
    (q : DelayQueue) (i : ℕ)
    → UpInv q i
    → 0 < i
    → i < length q.heap
    → due i q < due (parent i) q
    → UpInv (swap i (parent i) q) (parent i)
swap-UpInv q i v pos inside below =
    let above : parent i < length q.heap = omega (arith, inside) in
    let size = length-swap i (parent i) q inside above in
    let at : (n : ℕ)
        → due n (swap i (parent i) q)
          ≡ (if parent i == n then due i q else if i == n then due (parent i) q else due n q) =
      λ n. due-swap i (parent i) n q inside above in
    record {
      up_edges = λ c p r t. ground (arith, size, at c, at (parent c), v.up_edges c, v.up_bridge c);
      up_bridge = λ c p r t u.
          ground (arith, size, at c, at (parent (parent i)), v.up_edges c, v.up_edges (parent i));
    }

pub swap-DownInv :
    (q : DelayQueue) (i m : ℕ)
    → DownInv q i
    → i < length q.heap
    → m < length q.heap
    → 0 < m
    → parent m ≡ i
    → ((c : ℕ) → 0 < c → c < length q.heap → parent c ≡ i → due m q ≤ due c q)
    → due m q < due i q
    → DownInv (swap i m q) m
swap-DownInv q i m v hi hm pos up least below =
    let size = length-swap i m q hi hm in
    let at : (n : ℕ)
        → due n (swap i m q) ≡ (if m == n then due i q else if i == n then due m q else due n q) =
      λ n. due-swap i m n q hi hm in
    record {
      down_edges = λ c p r t.
          ground (arith, size, at c, at (parent c), v.down_edges c, v.down_bridge m, least c);
      down_bridge = λ c p r t u. ground (arith, size, at c, at (parent m), v.down_edges c);
    }

pub settled-UpInv :
    (q : DelayQueue) (i : ℕ) → UpInv q i → (0 < i → due (parent i) q ≤ due i q) → Ordered q
settled-UpInv q i v h c p r = ground (arith, v.up_edges c p r, h, ap (λ n. due n q))

pub Ordered-DownInv : (q : DelayQueue) (i : ℕ) → i < length q.heap → Ordered q → DownInv q i
Ordered-DownInv q i inside o = record {
  down_edges = λ c p r t. o c p r;
  down_bridge = λ c p r t u. ground (arith, o c p r, o i u inside);
}

pub Loose-UpInv :
    (q : DelayQueue) (i : ℕ) → Loose q i → (0 < i) → due i q < due (parent i) q → UpInv q i
Loose-UpInv q i v pos below = record {
  up_edges = λ c p r t. ground (arith, v.edges c p r t, v.bridge c p r);
  up_bridge = v.bridge;
}

pub Loose-DownInv :
    (q : DelayQueue) (i : ℕ) → Loose q i → (0 < i → due (parent i) q ≤ due i q) → DownInv q i
Loose-DownInv q i v h = record {
  down_edges = λ c p r t. ground (arith, v.edges c p r, h);
  down_bridge = v.bridge;
}

-- A write at one position of an ordered array leaves only that position's edges to restore.
pub written-Loose :
    (q q' : DelayQueue) (i : ℕ)
    → Ordered q
    → length q'.heap ≤ length q.heap
    → i < length q'.heap
    → ((n : ℕ) → n < length q'.heap → n ≢ i → due n q' ≡ due n q)
    → Loose q' i
written-Loose q q' i o fits inside same = record {
  edges = λ c p r t u. ground (arith, same c r t, same (parent c), u, o c p, fits);
  bridge = λ c p r t u. ground (arith, same c r, same (parent i), o c p, o i u, fits, inside, t, u);
}
