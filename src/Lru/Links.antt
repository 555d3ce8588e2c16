-- ===== src/Lru/Links.antt =====
-- _push_front, _unlink and _move_to_front on the list between the sentinels.
use distributed_job_orchestr.Common.{
  ℕ, ◌≡◌, refl, sym, ap, subst, ◌∙◌, true, false, List, [], ◌∷◌, Option, none, some, arith, ◌==◌,
  Bool-cases, inl, inr,
}
use distributed_job_orchestr.Lru.{
  Store, head_node, tail_node, set_prev, set_next, push_front, unlink, move_to_front, and_then,
  is_node,
}
use distributed_job_orchestr.Lru.Chain.{
  has, without, NoDup, Chain, Chain-ext, Chain-cut, linked, without-away, cut_next, cut_prev,
  differ, has-without, without-NoDup,
}

-- The list's nodes and both sentinels are different.
abbrev pub Apart : List ℕ → Type 0
Apart xs = NoDup (head_node ∷ tail_node ∷ xs)

pub front-Apart : (a : ℕ) (xs : List ℕ) → Apart xs → has a xs ≡ true → Apart (a ∷ without a xs)
front-Apart a xs u h =
    let not_head = differ head_node a xs (ground (arith, u)) h in
    let not_tail = differ tail_node a xs (ground (arith, u)) h in
    (
      ground (arith, not_head, has-without head_node a xs, u),
      (
        ground (arith, not_tail, has-without tail_node a xs, u),
        (ground (arith, has-without a a xs), without-NoDup a xs (ground (arith, u))),
      ),
    )

before_differs :
    (nx pv : ℕ → Option ℕ) (from : ℕ) (xs : List ℕ) (to a p : ℕ)
    → Chain nx pv from xs to
    → NoDup (from ∷ xs)
    → has a xs ≡ true
    → pv a ≡ some p
    → (p == a) ≡ false
before_differs nx pv from [] to a p c u h e = absurd (ground (arith, h))
before_differs nx pv from (b ∷ xs) to a p c u h e = elim (Bool-cases (b == a)) [
  | inl hit ↦
      let same : b ≡ a = ground (arith, hit) in
      let first : pv a ≡ some from = rw (← same) c.1 in
      let at : from ≡ p = cc in subst (λ q. (q == a) ≡ false) at (differ from a (b ∷ xs) u.0 h)
  | inr miss ↦ before_differs nx pv b xs to a p c.2 u.1 (ground (arith, h, miss)) e
]

module _ {V : Type 0} where
  -- The list between the sentinels.
  abbrev pub Between : Store V → List ℕ → Type 0
  Between s xs = Chain s.next s.prev head_node xs tail_node

  -- Another store with the same keys and values.
  abbrev pub Relinked : Store V → List ℕ → Store V → Type 0
  Relinked s xs s' = (s'.key ≡ s.key) × (s'.value ≡ s.value) × Between s' xs

  pub push_front-Relinked :
      (a : ℕ) (s : Store V) (xs : List ℕ)
      → Between s xs
      → Apart (a ∷ xs)
      → (s' : Store V) × (push_front a s ≡ some s') × Relinked s (a ∷ xs) s'
  unfolding push_front
  push_front-Relinked a s [] c u =
      let s' = set_prev tail_node (some a) (
        set_next head_node (some a)
          (set_next a (some tail_node) (set_prev a (some head_node) s))) in
      let at : push_front a s ≡ some s' = rw (c.0, and_then) refl in
      (
        s',
        at,
        (
          refl,
          refl,
          ((ground (arith, u), ground (arith, u), (ground (arith, u), ground (arith, u)))),
        ),
      )
  push_front-Relinked a s (x ∷ xs) c u =
      let s' =
        set_prev x (some a)
          (set_next head_node (some a) (set_next a (some x) (set_prev a (some head_node) s))) in
      let at : push_front a s ≡ some s' = rw (c.0, and_then) refl in
      (
        s',
        at,
        (
          refl,
          refl,
          (
            ground (arith, u),
            ground (arith, u),
            (
              ground (arith, u),
              ground (arith, u),
              Chain-ext s.next s.prev s'.next s'.prev x xs tail_node
                  (λ y h. ground (
                    arith,
                    differ head_node y (x ∷ xs) (ground (arith, u)) h,
                    differ a y (x ∷ xs) (ground (arith, u)) h,
                  ))
                  (λ y h. ground (
                    arith,
                    h,
                    u,
                    differ a y (x ∷ xs) (ground (arith, u)),
                    differ x y xs (ground (arith, u)),
                  ))
                  c.2,
            ),
          ),
        ),
      )

  pub unlink-Relinked :
      (a : ℕ) (s : Store V) (xs : List ℕ)
      → Between s xs
      → Apart xs
      → has a xs ≡ true
      → (s' : Store V) × (unlink a s ≡ some s') × Relinked s (without a xs) s'
  unfolding unlink cut_next cut_prev
  unlink-Relinked a s xs c u h =
      let ((p, ep), (n, en)) = linked s.next s.prev head_node xs tail_node a c h in
      let once : NoDup (head_node ∷ xs) = ground (arith, u) in
      let apart = before_differs s.next s.prev head_node xs tail_node a p c once h ep in
      let s' = set_next a none (set_prev a none (set_prev n (some p) (set_next p (some n) s))) in
      let at : unlink a s ≡ some s' = rw (ep, en, and_then, apart) refl in
      (
        s',
        at,
        (
          refl,
          refl,
          Chain-cut s.next s.prev head_node xs tail_node a p n c once (ground (arith, u)) h ep en,
        ),
      )

  pub move_to_front-Relinked :
      (a : ℕ) (s : Store V) (xs : List ℕ)
      → Between s xs
      → Apart xs
      → has a xs ≡ true
      → (s' : Store V) × (move_to_front a s ≡ some s') × Relinked s (a ∷ without a xs) s'
  unfolding move_to_front
  move_to_front-Relinked a s [] c u h = absurd (ground (arith, h))
  move_to_front-Relinked a s (x ∷ xs) c u h = elim (Bool-cases (x == a)) [
    | inl hit ↦
        let same : x ≡ a = ground (arith, hit) in
        let at : move_to_front a s ≡ some s = rw (c.0, is_node, hit) refl in
        let new : has a xs ≡ false = subst (λ i. has i xs ≡ false) same (ground (arith, u)) in
        let rest : without a (x ∷ xs) ≡ xs = ground (arith, hit, without-away a xs new) in
        let step : x ∷ xs ≡ a ∷ without a (x ∷ xs) =
          ap (λ i. i ∷ xs) same ∙ ap (λ l. a ∷ l) (sym rest) in
        (s, at, (refl, refl, subst (Between s) step c))
    | inr miss ↦
        let (s1, e1, (keys1, values1, chain1)) = unlink-Relinked a s (x ∷ xs) c u h in
        let (s2, e2, (keys2, values2, chain2)) =
          push_front-Relinked a s1 (without a (x ∷ xs)) chain1 (front-Apart a (x ∷ xs) u h) in
        let at : move_to_front a s ≡ some s2 = rw (c.0, is_node, miss, e1, and_then) e2 in
        (s2, at, (keys2 ∙ keys1, values2 ∙ values1, chain2))
  ]
