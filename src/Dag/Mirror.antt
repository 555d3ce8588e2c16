-- ===== src/Dag/Mirror.antt =====
-- What a graph that is built by `add_node` and `add_edge` keeps.
use distributed_job_orchestr.Common.{
  ℕ, ◌≡◌, ◌≢◌, refl, sym, ap, ◌∙◌, true, false, ◌&&◌, ◌||◌, List, [], ◌∷◌, ◌++◌, map, none, arith,
  ◌==◌, Bool-cases, inl, inr, if◌then◌else◌,
}
use distributed_job_orchestr.Common.Dict.{lookup, put, Distinct, lookup-put, Distinct-put}
use distributed_job_orchestr.Dag.{Dag, has, has_key, items, set_default, add_node}

abbrev pub keys {ℓ} : {A : Type ℓ} → List (ℕ × A) → List ℕ
keys d = map (λ (n, a). n) d

-- No entry of a list stands twice.
abbrev pub NoDup : List ℕ → Type 0
NoDup [] = Unit
NoDup (x ∷ xs) = (has x xs ≡ false) × NoDup xs

-- Both dictionaries have the same nodes in the same order; `c` is a child of `p` exactly when `p`
-- is a parent of `c`, once, and both are nodes; no node is its own child.
pub record IsDag (g : Dag) : Type 0 where
  pub same_keys : keys g.children ≡ keys g.parents
  pub distinct_children : Distinct g.children
  pub distinct_parents : Distinct g.parents
  pub mirror : (p c : ℕ) → has c (items p g.children) ≡ has p (items c g.parents)
  pub known :
      (p c : ℕ)
      → has c (items p g.children) ≡ true
      → (has_key p g.children ≡ true) × (has_key c g.children ≡ true)
  pub loop_free : (n : ℕ) → has n (items n g.children) ≡ false
  pub children_once : (n : ℕ) → NoDup (items n g.children)
  pub parents_once : (n : ℕ) → NoDup (items n g.parents)

pub has-append : (x : ℕ) (xs ys : List ℕ) → has x (xs ++ ys) ≡ (has x xs || has x ys)
has-append x [] ys = refl
has-append x (y ∷ xs) ys = ground (arith, has-append x xs ys)

pub NoDup-snoc : (x : ℕ) (xs : List ℕ) → NoDup xs → has x xs ≡ false → NoDup (xs ++ x ∷ [])
NoDup-snoc x [] v h = (refl, tt)
NoDup-snoc x (y ∷ xs) v h = ground (arith, has-append y xs (x ∷ []), NoDup-snoc x xs v.1)

keys-put :
    {A : Type 0} (k : ℕ) (a : A) (d : List (ℕ × A))
    → keys (put k a d) ≡ (if has k (keys d) then keys d else keys d ++ k ∷ [])
keys-put k a [] = refl
keys-put k a ((i, x) ∷ d) = elim (Bool-cases (i == k)) [
  | inl hit ↦ ground (arith, hit)
  | inr miss ↦ elim (Bool-cases (has k (keys d))) [
    | inl old ↦ ground (arith, miss, old, keys-put k a d)
    | inr new ↦ ground (arith, miss, new, keys-put k a d)
  ]
]

pub has_key-keys : {A : Type 0} (k : ℕ) (d : List (ℕ × A)) → has_key k d ≡ has k (keys d)
has_key-keys k [] = refl
has_key-keys k ((i, x) ∷ d) = ground (arith, has_key-keys k d)

has_key-lookup : {A : Type 0} (k : ℕ) (d : List (ℕ × A)) → has_key k d ≡ false → lookup k d ≡ none
has_key-lookup k [] h = refl
has_key-lookup k ((i, x) ∷ d) h = ground (arith, has_key-lookup k d)

pub has_key-put :
    {A : Type 0} (k i : ℕ) (a : A) (d : List (ℕ × A))
    → has_key k (put i a d) ≡ (i == k || has_key k d)
has_key-put k i a [] = ground arith
has_key-put k i a ((j, x) ∷ d) = ground (arith, has_key-put k i a d)

pub items-put :
    (k i : ℕ) (xs : List ℕ) (d : List (ℕ × List ℕ))
    → items k (put i xs d) ≡ (if i == k then xs else items k d)
items-put k i xs d = ground (arith, lookup-put k i xs d)

pub items-set_default : (k i : ℕ) (d : List (ℕ × List ℕ)) → items k (set_default i d) ≡ items k d
items-set_default k i d = ground (arith, items-put k i [] d, has_key-lookup i d)

keys-set_default :
    (n : ℕ) (d : List (ℕ × List ℕ))
    → keys (set_default n d) ≡ (if has n (keys d) then keys d else keys d ++ n ∷ [])
keys-set_default n d = ground (arith, keys-put n [] d, has_key-keys n d)

has_key-set_default :
    (p n : ℕ) (d : List (ℕ × List ℕ)) → has_key p d ≡ true → has_key p (set_default n d) ≡ true
has_key-set_default p n d h = ground (arith, h, has_key-put p n [] d)

set_default-Distinct : (n : ℕ) (d : List (ℕ × List ℕ)) → Distinct d → Distinct (set_default n d)
set_default-Distinct n d v = ground (arith, v, Distinct-put n [] d v)

pub add_node-IsDag : (n : ℕ) (g : Dag) → IsDag g → IsDag (add_node n g)
unfolding add_node
add_node-IsDag n g v = record {
  same_keys = keys-set_default n g.children ∙ rw v.same_keys (sym (keys-set_default n g.parents));
  distinct_children = set_default-Distinct n g.children v.distinct_children;
  distinct_parents = set_default-Distinct n g.parents v.distinct_parents;
  mirror = λ p c.
      ap (has c) (items-set_default p n g.children)
      ∙ v.mirror p c
      ∙ sym (ap (has p) (items-set_default c n g.parents));
  known = λ p c h.
      let (a, b) = v.known p c (sym (ap (has c) (items-set_default p n g.children)) ∙ h) in
      (has_key-set_default p n g.children a, has_key-set_default c n g.children b);
  loop_free = λ i. ap (has i) (items-set_default i n g.children) ∙ v.loop_free i;
  children_once = λ i. rw (items-set_default i n g.children) (v.children_once i);
  parents_once = λ i. rw (items-set_default i n g.parents) (v.parents_once i);
}

-- The dictionaries after an edge is added.
abbrev pub linked : ℕ → ℕ → Dag → Dag
linked p c g = record {
  children = put p (items p g.children ++ c ∷ []) g.children;
  parents = put c (items c g.parents ++ p ∷ []) g.parents;
}

pub has-linked :
    (x y p c : ℕ) (d : List (ℕ × List ℕ))
    → has y (items x (put p (items p d ++ c ∷ []) d)) ≡ ((p == x && c == y) || has y (items x d))
has-linked x y p c d =
    let stored = items-put x p (items p d ++ c ∷ []) d in
    elim (Bool-cases (p == x)) [
      | inl hit ↦
          let same : p ≡ x = ground (arith, hit) in
          ground (
            arith,
            hit,
            ap (has y) stored,
            has-append y (items p d) (c ∷ []),
            ap (λ n. has y (items n d)) same,
          )
      | inr miss ↦ ground (arith, miss, ap (has y) stored)
    ]

NoDup-linked :
    (x p c : ℕ) (d : List (ℕ × List ℕ))
    → ((n : ℕ) → NoDup (items n d))
    → has c (items p d) ≡ false
    → NoDup (items x (put p (items p d ++ c ∷ []) d))
NoDup-linked x p c d v h =
    let stored = items-put x p (items p d ++ c ∷ []) d in
    elim (Bool-cases (p == x)) [
      | inl hit ↦
          let at : items x (put p (items p d ++ c ∷ []) d) ≡ items p d ++ c ∷ [] =
            stored ∙ rw hit refl in
          rw at (NoDup-snoc c (items p d) (v p) h)
      | inr miss ↦
          let at : items x (put p (items p d ++ c ∷ []) d) ≡ items x d = stored ∙ rw miss refl in
          rw at (v x)
    ]

-- A key that is there is written in place.
keys-kept :
    (k : ℕ) (xs : List ℕ) (d : List (ℕ × List ℕ)) → has_key k d ≡ true → keys (put k xs d) ≡ keys d
keys-kept k xs d h =
    let old : has k (keys d) ≡ true = sym (has_key-keys k d) ∙ h in keys-put k xs d ∙ rw old refl

pub linked-IsDag :
    (p c : ℕ) (g : Dag)
    → IsDag g
    → has_key p g.children ≡ true
    → has_key c g.children ≡ true
    → p ≢ c
    → has c (items p g.children) ≡ false
    → IsDag (linked p c g)
linked-IsDag p c g v hp hc apart new = record {
  same_keys =
      let at : has_key c g.parents ≡ true =
        has_key-keys c g.parents ∙ rw (← v.same_keys) (sym (has_key-keys c g.children) ∙ hc) in
      keys-kept p _ g.children hp ∙ v.same_keys ∙ sym (keys-kept c _ g.parents at);
  distinct_children = Distinct-put p _ g.children v.distinct_children;
  distinct_parents = Distinct-put c _ g.parents v.distinct_parents;
  mirror = λ x y.
      ground (arith, has-linked x y p c g.children, has-linked y x c p g.parents, v.mirror x y);
  known = λ x y h. ground (
    arith,
    h,
    hp,
    hc,
    has-linked x y p c g.children,
    v.known x y,
    has_key-put x p (items p g.children ++ c ∷ []) g.children,
    has_key-put y p (items p g.children ++ c ∷ []) g.children,
  );
  loop_free = λ n. ground (arith, apart, has-linked n n p c g.children, v.loop_free n);
  children_once = λ n. NoDup-linked n p c g.children v.children_once new;
  parents_once = λ n. NoDup-linked n c p g.parents v.parents_once (sym (v.mirror p c) ∙ new);
}
