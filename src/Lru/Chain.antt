-- ===== src/Lru/Chain.antt =====
-- The linked list: a stretch of nodes that point at each other, and what the writes of
-- `_push_front` and `_unlink` make of it.
use distributed_job_orchestr.Common.{
  ℕ, ◌≡◌, refl, sym, subst, ◌∙◌, Bool, true, false, not, ◌&&◌, ◌||◌, List, [], ◌∷◌, Option, none,
  some, arith, any, ◌==◌, Bool-cases, inl, inr, if◌then◌else◌,
}
use distributed_job_orchestr.Lru.{set_at}

abbrev pub has : ℕ → List ℕ → Bool
has n xs = any (λ x. x == n) xs

abbrev pub without : ℕ → List ℕ → List ℕ
without x [] = []
without x (y ∷ ys) = let rest = without x ys in if y == x then rest else y ∷ rest

-- No node stands twice.
abbrev pub NoDup : List ℕ → Type 0
NoDup [] = Unit
NoDup (x ∷ xs) = (has x xs ≡ false) × NoDup xs

-- The nodes from one to another: each points at the one behind it and at the one before it.
abbrev pub Chain : (ℕ → Option ℕ) → (ℕ → Option ℕ) → ℕ → List ℕ → ℕ → Type 0
Chain nx pv from [] to = (nx from ≡ some to) × (pv to ≡ some from)
Chain nx pv from (a ∷ xs) to = (nx from ≡ some a) × (pv a ≡ some from) × Chain nx pv a xs to

-- Only the links of the nodes themselves matter.
pub Chain-ext :
    (nx pv nx' pv' : ℕ → Option ℕ) (from : ℕ) (xs : List ℕ) (to : ℕ)
    → ((x : ℕ) → (from == x || has x xs) ≡ true → nx' x ≡ nx x)
    → ((x : ℕ) → (to == x || has x xs) ≡ true → pv' x ≡ pv x)
    → Chain nx pv from xs to
    → Chain nx' pv' from xs to
Chain-ext nx pv nx' pv' from [] to n p c = (n from (ground arith) ∙ c.0, p to (ground arith) ∙ c.1)
Chain-ext nx pv nx' pv' from (a ∷ xs) to n p c = (
  n from (ground arith) ∙ c.0,
  p a (ground arith) ∙ c.1,
  Chain-ext nx pv nx' pv' a xs to (λ x h. n x (ground (arith, h))) (λ x h. p x (ground (arith, h)))
      c.2,
)

-- The node before a node of the chain, and the one behind it.
pub before_has :
    (nx pv : ℕ → Option ℕ) (from : ℕ) (xs : List ℕ) (to a p : ℕ)
    → Chain nx pv from xs to
    → has a xs ≡ true
    → pv a ≡ some p
    → (from == p || has p xs) ≡ true
before_has nx pv from [] to a p c h e = absurd (ground (arith, h))
before_has nx pv from (b ∷ xs) to a p c h e = elim (Bool-cases (b == a)) [
  | inl hit ↦
      let same : b ≡ a = ground (arith, hit) in
      let first : pv a ≡ some from = rw (← same) c.1 in let at : from ≡ p = cc in ground (arith, at)
  | inr miss ↦ ground (arith, before_has nx pv b xs to a p c.2 (ground (arith, h, miss)) e)
]

pub behind_has :
    (nx pv : ℕ → Option ℕ) (from : ℕ) (xs : List ℕ) (to a n : ℕ)
    → Chain nx pv from xs to
    → (from == a || has a xs) ≡ true
    → nx a ≡ some n
    → (to == n || has n xs) ≡ true
behind_has nx pv from [] to a n c h e =
    let same : from ≡ a = ground (arith, h) in
    let last : nx a ≡ some to = rw (← same) c.0 in let at : to ≡ n = cc in ground (arith, at)
behind_has nx pv from (b ∷ xs) to a n c h e = elim (Bool-cases (from == a)) [
  | inl hit ↦
      let same : from ≡ a = ground (arith, hit) in
      let next : nx a ≡ some b = rw (← same) c.0 in let at : b ≡ n = cc in ground (arith, at)
  | inr miss ↦ ground (arith, behind_has nx pv b xs to a n c.2 (ground (arith, h, miss)) e)
]

pub linked :
    (nx pv : ℕ → Option ℕ) (from : ℕ) (xs : List ℕ) (to a : ℕ)
    → Chain nx pv from xs to
    → has a xs ≡ true
    → ((p : ℕ) × (pv a ≡ some p)) × ((n : ℕ) × (nx a ≡ some n))
linked nx pv from [] to a c h = absurd (ground (arith, h))
linked nx pv from (b ∷ []) to a c h =
    let same : b ≡ a = ground (arith, h) in ((from, rw (← same) c.1), (to, rw (← same) c.2.0))
linked nx pv from (b ∷ d ∷ xs) to a c h = elim (Bool-cases (b == a)) [
  | inl hit ↦
      let same : b ≡ a = ground (arith, hit) in ((from, rw (← same) c.1), (d, rw (← same) c.2.0))
  | inr miss ↦ linked nx pv b (d ∷ xs) to a c.2 (ground (arith, h, miss))
]

-- The first node points at its successor by the head's `next`.
abbrev pub first_of : List ℕ → ℕ → ℕ
first_of [] to = to
first_of (a ∷ xs) to = a

pub Chain-first :
    (nx pv : ℕ → Option ℕ) (from : ℕ) (xs : List ℕ) (to : ℕ)
    → Chain nx pv from xs to
    → nx from ≡ some (first_of xs to)
Chain-first nx pv from [] to c = c.0
Chain-first nx pv from (a ∷ xs) to c = c.0

abbrev pub last_of : ℕ → List ℕ → ℕ
last_of from [] = from
last_of from (a ∷ xs) = last_of a xs

pub Chain-last :
    (nx pv : ℕ → Option ℕ) (from : ℕ) (xs : List ℕ) (to : ℕ)
    → Chain nx pv from xs to
    → pv to ≡ some (last_of from xs)
Chain-last nx pv from [] to c = c.1
Chain-last nx pv from (a ∷ xs) to c = Chain-last nx pv a xs to c.2

pub without-away : (a : ℕ) (xs : List ℕ) → has a xs ≡ false → without a xs ≡ xs
without-away a [] h = refl
without-away a (b ∷ xs) h = ground (arith, h, without-away a xs)

pub has-without : (z a : ℕ) (xs : List ℕ) → has z (without a xs) ≡ (not (a == z) && has z xs)
has-without z a [] = ground arith
has-without z a (b ∷ xs) = elim (Bool-cases (b == a)) [
  | inl hit ↦
      let same : b ≡ a = ground (arith, hit) in ground (arith, hit, same, has-without z a xs)
  | inr miss ↦ ground (arith, miss, has-without z a xs)
]

pub without-NoDup : (a : ℕ) (xs : List ℕ) → NoDup xs → NoDup (without a xs)
without-NoDup a [] u = tt
without-NoDup a (b ∷ xs) u = ground (arith, has-without b a xs, u.0, without-NoDup a xs u.1)

-- Both neighbours of a node are pointed at each other, and the node's own links are cleared.
unfoldable pub cut_next : ℕ → ℕ → ℕ → (ℕ → Option ℕ) → ℕ → Option ℕ
cut_next a p n nx = set_at a none (set_at p (some n) nx)

unfoldable pub cut_prev : ℕ → ℕ → ℕ → (ℕ → Option ℕ) → ℕ → Option ℕ
cut_prev a p n pv = set_at a none (set_at n (some p) pv)

-- One node in front of the list and one further node are not in a list of the others.
pub differ : (x y : ℕ) (xs : List ℕ) → has x xs ≡ false → has y xs ≡ true → (x == y) ≡ false
differ x y xs h e = elim (Bool-cases (x == y)) [
  | inl hit ↦
      let same : x ≡ y = ground (arith, hit) in
      let there : has x xs ≡ true = rw same e in absurd (ground (arith, h, there))
  | inr miss ↦ miss
]

cut_first :
    (nx pv : ℕ → Option ℕ) (from : ℕ) (xs : List ℕ) (to a n : ℕ)
    → Chain nx pv from (a ∷ xs) to
    → NoDup (from ∷ a ∷ xs)
    → has to (from ∷ a ∷ xs) ≡ false
    → nx a ≡ some n
    → Chain (cut_next a from n nx) (cut_prev a from n pv) from xs to
unfolding cut_next cut_prev
cut_first nx pv from [] to a n c u t e =
    let at : to ≡ n = cc in (ground (arith, u, t, at), ground (arith, u, t, at))
cut_first nx pv from (y ∷ ys) to a n c u t e =
    let at : y ≡ n = cc in
    (
      ground (arith, u, t, at),
      ground (arith, u, t, at),
      Chain-ext nx pv (cut_next a from n nx) (cut_prev a from n pv) y ys to
          (λ x h.
            ground
              (arith, differ from x (y ∷ ys) (ground (arith, u)) h, differ a x (y ∷ ys) u.1.0 h))
          (λ x h. ground (arith, h, at, u, t, differ a x (y ∷ ys) u.1.0, differ y x ys u.1.1.0))
          c.2.2,
    )

cut_later :
    (nx pv : ℕ → Option ℕ) (from b : ℕ) (xs : List ℕ) (to a p n : ℕ)
    → Chain nx pv from (b ∷ xs) to
    → NoDup (from ∷ b ∷ xs)
    → has to (from ∷ b ∷ xs) ≡ false
    → has a xs ≡ true
    → pv a ≡ some p
    → nx a ≡ some n
    → (cut_next a p n nx from ≡ some b) × (cut_prev a p n pv b ≡ some from)
unfolding cut_next cut_prev
cut_later nx pv from b xs to a p n c u t h ep en =
    let p_in : has p (b ∷ xs) ≡ true = before_has nx pv b xs to a p c.2 h ep in
    let n_in = behind_has nx pv b xs to a n c.2 (ground (arith, h)) en in
    let from_p = differ from p (b ∷ xs) u.0 p_in in
    let from_a = differ from a (b ∷ xs) u.0 (ground (arith, h)) in
    let b_a = differ b a xs u.1.0 h in
    (ground (arith, from_p, from_a, c.0), ground (arith, b_a, c.1, n_in, t, differ b n xs u.1.0))

-- Then the rest of the list is a chain.
pub Chain-cut :
    (nx pv : ℕ → Option ℕ) (from : ℕ) (xs : List ℕ) (to a p n : ℕ)
    → Chain nx pv from xs to
    → NoDup (from ∷ xs)
    → has to (from ∷ xs) ≡ false
    → has a xs ≡ true
    → pv a ≡ some p
    → nx a ≡ some n
    → Chain (cut_next a p n nx) (cut_prev a p n pv) from (without a xs) to
unfolding cut_next cut_prev
Chain-cut nx pv from [] to a p n c u t h ep en = absurd (ground (arith, h))
Chain-cut nx pv from (b ∷ xs) to a p n c u t h ep en = elim (Bool-cases (b == a)) [
  | inl hit ↦
      let same : b ≡ a = ground (arith, hit) in
      let first : pv a ≡ some from = rw (← same) c.1 in
      let at : from ≡ p = cc in
      let step : without a (b ∷ xs) ≡ xs =
        ground (arith, hit, without-away a xs (subst (λ x. has x xs ≡ false) same u.1.0)) in
      subst (λ l. Chain (cut_next a p n nx) (cut_prev a p n pv) from l to) (sym step)
        (subst (λ q. Chain (cut_next a q n nx) (cut_prev a q n pv) from xs to) at
          (cut_first nx pv from xs to a n (subst (λ x. Chain nx pv from (x ∷ xs) to) same c)
            (subst (λ x. NoDup (from ∷ x ∷ xs)) same u)
            (subst (λ x. has to (from ∷ x ∷ xs) ≡ false) same t) en))
  | inr miss ↦
      let rest =
        Chain-cut nx pv b xs to a p n c.2 u.1 (ground (arith, t)) (ground (arith, h, miss)) ep en in
      let (forth, back) =
        cut_later nx pv from b xs to a p n c u t (ground (arith, h, miss)) ep en in
      let step : without a (b ∷ xs) ≡ b ∷ without a xs = ground (arith, miss) in
      subst (λ l. Chain (cut_next a p n nx) (cut_prev a p n pv) from l to) (sym step)
        (forth, back, rest)
]
