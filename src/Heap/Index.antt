-- ===== src/Heap/Index.antt =====
-- The index knows the position of each key, and an exchange of two entries keeps what is queued.
use distributed_job_orchestr.Common.{
  ℕ, ◌<◌, ◌≡◌, ◌⊎◌, refl, sym, ap, subst, ◌∙◌, true, false, Option, none, some, arith, length, ◌==◌,
  Bool-cases, Option-cases, inl, inr, if◌then◌else◌,
}
use distributed_job_orchestr.Common.Dict.{lookup, put, lookup-put}
use distributed_job_orchestr.Heap.{Entry, DelayQueue, entry_at, swap}
use distributed_job_orchestr.Heap.Array.{
  entry_at-inside, inside-entry_at, swap-entries, length-swap, entry_at-swap,
}

-- Every entry stands where the index says, and the index knows nothing else.
pub record Indexed (q : DelayQueue) : Type 0 where
  pub placed : (n : ℕ) (e : Entry) → entry_at n q.heap ≡ some e → lookup e.key q.index ≡ some n
  pub present :
      (k n : ℕ)
      → lookup k q.index ≡ some n
      → (e : Entry) × (entry_at n q.heap ≡ some e) × (e.key ≡ k)

abbrev pub entry_of_position : Option ℕ → DelayQueue → Option Entry
entry_of_position none q = none
entry_of_position (some n) q = entry_at n q.heap

-- The queue as a dictionary: the entry with a key.
abbrev pub entry_of : ℕ → DelayQueue → Option Entry
entry_of k q = entry_of_position (lookup k q.index) q

-- Another arrangement of the same entries.
pub record Kept (q q' : DelayQueue) : Type 0 where
  pub indexed : Indexed q'
  pub sizes : length q'.heap ≡ length q.heap
  pub entries : (k : ℕ) → entry_of k q' ≡ entry_of k q

pub Kept-refl : (q : DelayQueue) → Indexed q → Kept q q
Kept-refl q v = record { indexed = v; sizes = refl; entries = λ k. refl }

pub Kept-trans : (q q' q'' : DelayQueue) → Kept q q' → Kept q' q'' → Kept q q''
Kept-trans q q' q'' v w = record {
  indexed = w.indexed;
  sizes = w.sizes ∙ v.sizes;
  entries = λ k. w.entries k ∙ v.entries k;
}

-- The entry with a key is the one that stands at the key's position.
pub entry_of-placed :
    (q : DelayQueue) (n : ℕ) (e : Entry)
    → Indexed q
    → entry_at n q.heap ≡ some e
    → entry_of e.key q ≡ some e
entry_of-placed q n e v at = ap (λ o. entry_of_position o q) (v.placed n e at) ∙ at

pub entry_of-cases :
    (q : DelayQueue) (k : ℕ)
    → Indexed q
    → (entry_of k q ≡ none)
      ⊎ ((n : ℕ) × (e : Entry) × (entry_at n q.heap ≡ some e)
          × (e.key ≡ k)
          × (entry_of k q ≡ some e))
entry_of-cases q k v = elim (Option-cases (lookup k q.index)) [
  | inl away ↦ inl (ap (λ o. entry_of_position o q) away)
  | inr (n, there) ↦
      let (e, at, key) = v.present k n there in
      inr (n, e, at, key, ap (λ o. entry_of_position o q) there ∙ at)
]

-- Two positions with the same key are the same.
pub same_position :
    (q : DelayQueue) (n m : ℕ) (x y : Entry)
    → Indexed q
    → entry_at n q.heap ≡ some x
    → entry_at m q.heap ≡ some y
    → x.key ≡ y.key
    → n ≡ m
same_position q n m x y v ex ey same =
    let px = v.placed n x ex in
    let py = v.placed m y ey in
    let at : lookup x.key q.index ≡ some m = ap (λ k. lookup k q.index) same ∙ py in
    let both : ◌≡◌ {A = Option ℕ} (some n) (some m) = sym px ∙ at in cc

pub keys_apart :
    (q : DelayQueue) (n m : ℕ) (x y : Entry)
    → Indexed q
    → entry_at n q.heap ≡ some x
    → entry_at m q.heap ≡ some y
    → (n == m) ≡ false
    → (x.key == y.key) ≡ false
keys_apart q n m x y v ex ey apart = elim (Bool-cases (x.key == y.key)) [
  | inl hit ↦
      let at = same_position q n m x y v ex ey (ground (arith, hit)) in
      absurd (ground (arith, at, apart))
  | inr miss ↦ miss
]

pub keys_same :
    (q : DelayQueue) (n m : ℕ) (x y : Entry)
    → entry_at n q.heap ≡ some x
    → entry_at m q.heap ≡ some y
    → (n == m) ≡ true
    → x.key ≡ y.key
keys_same q n m x y ex ey hit =
    let at : n ≡ m = ground (arith, hit) in
    let both : ◌≡◌ {A = Option Entry} (some x) (some y) =
      sym ex ∙ ap (λ i. entry_at i q.heap) at ∙ ey in
    let same : x ≡ y = cc in ap (λ e. e.key) same

lookup-swap :
    (a b k : ℕ) (q : DelayQueue) (x y : Entry)
    → entry_at a q.heap ≡ some x
    → entry_at b q.heap ≡ some y
    → lookup k (swap a b q).index
      ≡ (if x.key == k then some b else if y.key == k then some a else lookup k q.index)
lookup-swap a b k q x y ea eb =
    ap (λ r. lookup k r.index) (swap-entries a b q x y ea eb)
    ∙ ground (arith, lookup-put k x.key b (put y.key a q.index), lookup-put k y.key a q.index)

swap-placed :
    (a b : ℕ) (q : DelayQueue) (x y : Entry)
    → Indexed q
    → entry_at a q.heap ≡ some x
    → entry_at b q.heap ≡ some y
    → (n : ℕ) (e : Entry) → entry_at n (swap a b q).heap ≡ some e
    → lookup e.key (swap a b q).index ≡ some n
swap-placed a b q x y v ea eb n e at =
    let moved =
      entry_at-swap a b n q (entry_at-inside a q.heap x ea) (entry_at-inside b q.heap y eb) in
    let known = lookup-swap a b e.key q x y ea eb in
    elim (Bool-cases (b == n)) [
      | inl hit ↦
          let old : entry_at a q.heap ≡ some e = ground (arith, moved, at, hit) in
          let same = keys_same q a a x e ea old (ground arith) in ground (arith, known, same, hit)
      | inr miss ↦ elim (Bool-cases (a == n)) [
        | inl hit ↦
            let old : entry_at b q.heap ≡ some e = ground (arith, moved, at, hit, miss) in
            let same = keys_same q b b y e eb old (ground arith) in
            let apart = keys_apart q a b x e v ea old (ground (arith, hit, miss)) in
            ground (arith, known, same, apart, hit)
        | inr miss2 ↦
            let old : entry_at n q.heap ≡ some e = ground (arith, moved, at, miss2, miss) in
            let apart_x = keys_apart q a n x e v ea old miss2 in
            let apart_y = keys_apart q b n y e v eb old miss in
            known ∙ ground (arith, apart_x, apart_y, v.placed n e old)
      ]
    ]

swap-present :
    (a b : ℕ) (q : DelayQueue) (x y : Entry)
    → Indexed q
    → entry_at a q.heap ≡ some x
    → entry_at b q.heap ≡ some y
    → (k n : ℕ) → lookup k (swap a b q).index ≡ some n
    → (e : Entry) × (entry_at n (swap a b q).heap ≡ some e) × (e.key ≡ k) × (entry_of k q ≡ some e)
swap-present a b q x y v ea eb k n h =
    let moved =
      entry_at-swap a b n q (entry_at-inside a q.heap x ea) (entry_at-inside b q.heap y eb) in
    let known = sym (lookup-swap a b k q x y ea eb) ∙ h in
    elim (Bool-cases (x.key == k)) [
      | inl hit ↦
          let same : x.key ≡ k = ground (arith, hit) in
          let at : b ≡ n = ground (arith, known, hit) in
          (
            x,
            moved ∙ ground (arith, at, ea),
            same,
            subst (λ i. entry_of i q ≡ some x) same (entry_of-placed q a x v ea),
          )
      | inr miss ↦ elim (Bool-cases (y.key == k)) [
        | inl hit ↦
            let same : y.key ≡ k = ground (arith, hit) in
            let at : a ≡ n = ground (arith, known, hit, miss) in
            let equal : (a == b) ≡ true → x.key ≡ y.key = keys_same q a b x y ea eb in
            let apart : (b == n) ≡ false = ground (arith, at, equal, miss, same) in
            (
              y,
              moved ∙ ground (arith, at, apart, eb),
              same,
              subst (λ i. entry_of i q ≡ some y) same (entry_of-placed q b y v eb),
            )
        | inr miss2 ↦
            let there : lookup k q.index ≡ some n = ground (arith, known, miss, miss2) in
            let (e, at, key) = v.present k n there in
            let same_x : (a == n) ≡ true → x.key ≡ e.key = keys_same q a n x e ea at in
            let same_y : (b == n) ≡ true → y.key ≡ e.key = keys_same q b n y e eb at in
            let apart_x : (a == n) ≡ false = ground (arith, same_x, key, miss) in
            let apart_y : (b == n) ≡ false = ground (arith, same_y, key, miss2) in
            (
              e,
              moved ∙ ground (arith, at, apart_x, apart_y),
              key,
              ap (λ o. entry_of_position o q) there ∙ at,
            )
      ]
    ]

-- An exchange keeps the entries.
pub swap-Kept :
    (a b : ℕ) (q : DelayQueue)
    → a < length q.heap
    → b < length q.heap
    → Indexed q
    → Kept q (swap a b q)
swap-Kept a b q ha hb v =
    let (x, ea) = inside-entry_at a q.heap ha in
    let (y, eb) = inside-entry_at b q.heap hb in
    let ix : Indexed (swap a b q) = record {
      placed = swap-placed a b q x y v ea eb;
      present =
          λ k n h. let (e, at, key, old) = swap-present a b q x y v ea eb k n h in (e, at, key);
    } in
    record {
      indexed = ix;
      sizes = length-swap a b q ha hb;
      entries = λ k. elim (Option-cases (lookup k (swap a b q).index)) [
        | inl away ↦
            let known = sym (lookup-swap a b k q x y ea eb) ∙ away in
            let old : lookup k q.index ≡ none = ground (arith, known) in
            ap (λ o. entry_of_position o (swap a b q)) away
            ∙ sym (ap (λ o. entry_of_position o q) old)
        | inr (n, there) ↦
            let (e, at, key, old) = swap-present a b q x y v ea eb k n there in
            ap (λ o. entry_of_position o (swap a b q)) there ∙ at ∙ sym old
      ];
    }
