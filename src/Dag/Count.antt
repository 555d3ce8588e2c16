-- ===== src/Dag/Count.antt =====
-- Kahn's order holds only nodes, and it is complete exactly when it is long enough.
use distributed_job_orchestr.Common.{
  ℕ, zero, suc, ◌+◌, ◌-◌, ◌≤◌, ◌<◌, ◌≡◌, refl, sym, ap, subst, ◌∙◌, true, false, ◌||◌, List, [],
  ◌∷◌, ◌++◌, some, arith, length, ◌==◌, Bool-cases, inl, inr, if◌then◌else◌,
}
use distributed_job_orchestr.Common.Dict.{put}
use distributed_job_orchestr.Dag.{
  Dag, has, has_key, items, degree, roots_of, in_degrees, visit, kahn, kahn_order, nodes,
}
use distributed_job_orchestr.Dag.Mirror.{keys, IsDag, NoDup, has-append, has_key-keys}
use distributed_job_orchestr.Dag.Kahn.{has-queued, keys-NoDup, has-roots}

-- The list without an element.
abbrev without : ℕ → List ℕ → List ℕ
without x [] = []
without x (y ∷ ys) = let rest = without x ys in if y == x then rest else y ∷ rest

has-without : (z x : ℕ) (ys : List ℕ) → (x == z) ≡ false → has z (without x ys) ≡ has z ys
has-without z x [] h = refl
has-without z x (y ∷ ys) h = ground (arith, h, has-without z x ys)

length-without_le : (x : ℕ) (ys : List ℕ) → length (without x ys) ≤ length ys
length-without_le x [] = ground arith
length-without_le x (y ∷ ys) = ground (arith, length-without_le x ys)

length-without : (x : ℕ) (ys : List ℕ) → has x ys ≡ true → length (without x ys) < length ys
length-without x [] h = absurd (ground (arith, h))
length-without x (y ∷ ys) h = ground (arith, h, length-without_le x ys, length-without x ys)

-- A list without repetition is no longer than a list that holds all its elements.
pigeonhole :
    (xs ys : List ℕ)
    → NoDup xs
    → ((x : ℕ) → has x xs ≡ true → has x ys ≡ true)
    → length xs ≤ length ys
pigeonhole [] ys v h = ground arith
pigeonhole (x ∷ xs) ys v h =
    let inside : (z : ℕ) → has z xs ≡ true → has z (without x ys) ≡ true = λ z e.
      elim (Bool-cases (x == z)) [
        | inl hit ↦
            let same : x ≡ z = ground (arith, hit) in
            let gone : has z xs ≡ false = rw (← same) v.0 in absurd (ground (arith, gone, e))
        | inr miss ↦ ground (arith, miss, e, has-without z x ys, h z)
      ] in
    let shorter = pigeonhole xs (without x ys) v.1 inside in
    let less = length-without x ys (h x (ground arith)) in omega (arith, shorter, less)

-- The nodes that are queued or in the order are nodes of the graph.
abbrev Named : Dag → List ℕ → List ℕ → Type 0
Named g queue order = (c : ℕ) → (has c queue || has c order) ≡ true → has_key c g.children ≡ true

visit-Named :
    (g : Dag) (cs : List ℕ) (d : List (ℕ × ℕ)) (queue order : List ℕ)
    → ((c : ℕ) → has c cs ≡ true → has_key c g.children ≡ true)
    → Named g queue order
    → let (d', queue') = visit cs d queue in Named g queue' order
unfolding visit
visit-Named g [] d queue order k v = v
visit-Named g (c ∷ cs) d queue order k v =
    let n = degree c d in
    visit-Named g cs (put c (n - 1) d) (if n == 1 then queue ++ c ∷ [] else queue) order
      (λ x h. k x (ground (arith, h))) (λ x h. ground (arith, h, v x, k x, has-queued x n c queue))

kahn-Named :
    (fuel : ℕ) (g : Dag) (d : List (ℕ × ℕ)) (queue order o : List ℕ)
    → IsDag g
    → Named g queue order
    → kahn fuel g d queue order ≡ some o
    → (c : ℕ) → has c o ≡ true
    → has_key c g.children ≡ true
unfolding kahn
kahn-Named zero g d queue order o v k e = absurd (ground (arith, e))
kahn-Named (suc fuel) g d [] order o v k e =
    let same : order ≡ o = cc in
    subst (λ l. (c : ℕ) → has c l ≡ true → has_key c g.children ≡ true) same (λ c h. k c h)
kahn-Named (suc fuel) g d (n ∷ queue) order o v k e =
    let (d', queue') = visit (items n g.children) d queue in
    kahn-Named fuel g d' queue' (order ++ n ∷ []) o v
      (visit-Named g (items n g.children) d queue (order ++ n ∷ []) (λ c h. (v.known n c h).1)
        (λ c h. k c (ground (arith, h, has-append c order (n ∷ [])))))
      e

pub kahn_order-Named :
    (g : Dag) (o : List ℕ)
    → IsDag g
    → kahn_order g ≡ some o
    → (c : ℕ) → has c o ≡ true
    → has_key c g.children ≡ true
unfolding kahn_order
kahn_order-Named g o v e =
    kahn-Named (length g.children + 1) g (in_degrees g) (roots_of (in_degrees g) (nodes g)) [] o v
      (λ c h.
        has_key-keys c g.children ∙ (has-roots c (in_degrees g) (nodes g) (ground (arith, h))).1)
      e

length-keys : (d : List (ℕ × List ℕ)) → length (keys d) ≡ length d
length-keys [] = refl
length-keys ((n, cs) ∷ d) = ap suc (length-keys d)

pub complete_length :
    (g : Dag) (o : List ℕ)
    → IsDag g
    → NoDup o
    → ((c : ℕ) → has c o ≡ true → has_key c g.children ≡ true)
    → ((c : ℕ) → has_key c g.children ≡ true → has c o ≡ true)
    → length o ≡ length g.children
complete_length g o v u named all =
    let fits = pigeonhole o (nodes g) u (λ x h. sym (has_key-keys x g.children) ∙ named x h) in
    let holds =
      pigeonhole (nodes g) o (keys-NoDup g.children v.distinct_children)
        (λ x h. all x (has_key-keys x g.children ∙ h)) in
    omega (arith, fits, holds, length-keys g.children)

pub length_complete :
    (g : Dag) (o : List ℕ)
    → NoDup o
    → ((c : ℕ) → has c o ≡ true → has_key c g.children ≡ true)
    → length o ≡ length g.children
    → (c : ℕ) → has c o ≡ has_key c g.children
length_complete g o u named same c = elim (Bool-cases (has c o)) [
  | inl there ↦ there ∙ sym (named c there)
  | inr away ↦ elim (Bool-cases (has_key c g.children)) [
    | inr unknown ↦ away ∙ sym unknown
    | inl node ↦
        let inside : (x : ℕ) → has x (c ∷ o) ≡ true → has x (nodes g) ≡ true = λ x h.
          sym (has_key-keys x g.children) ∙ elim (Bool-cases (c == x)) [
            | inl hit ↦ let same : c ≡ x = ground (arith, hit) in rw (← same) node
            | inr miss ↦ named x (ground (arith, h, miss))
          ] in
        let fits = pigeonhole (c ∷ o) (nodes g) (away, u) inside in
        absurd (omega (arith, fits, length-keys g.children, same))
  ]
]
