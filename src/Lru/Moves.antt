-- ===== src/Lru/Moves.antt =====
-- What a cache stands for after its list has changed.
use distributed_job_orchestr.Common.{
  ℕ, ◌+◌, ◌<◌, ◌≡◌, refl, sym, ap, subst, ◌∙◌, true, false, List, ◌∷◌, none, some, arith, length,
  ◌==◌, Bool-cases, inl, inr, if◌then◌else◌,
}
use distributed_job_orchestr.Common.Dict.{
  lookup, put as set_key, del, Distinct, lookup-put, lookup-del, Distinct-put, Distinct-del,
}
use distributed_job_orchestr.Lru.{LruCache, head_node, tail_node}
use distributed_job_orchestr.Lru.Chain.{has, without, has-without}
use distributed_job_orchestr.Lru.Links.{Apart, Between, front-Apart}
use distributed_job_orchestr.Lru.Entries.{
  addresses, address_of, Stored, Represents, lookup-has, lookup-Stored, addresses-del, Stored-del,
  Stored-ext, length-del, length-set_key,
}

moved_old :
    (x a : ℕ) (xs ys : List ℕ)
    → ys ≡ without a xs
    → has a xs ≡ true
    → has x (head_node ∷ tail_node ∷ a ∷ ys) ≡ true
    → has x (head_node ∷ tail_node ∷ xs) ≡ true
moved_old x a xs ys e there h = elim (Bool-cases (a == x)) [
  | inl hit ↦
      let same : a ≡ x = ground (arith, hit) in
      let here : has x xs ≡ true = rw (← same) there in ground (arith, here)
  | inr miss ↦ ground (arith, miss, h, ap (λ l. has x l) e, has-without x a xs)
]

length-front :
    {A : Type 0} (k : ℕ) (x y : A) (d : List (ℕ × A))
    → Distinct d
    → lookup k d ≡ some x
    → length ((k, y) ∷ del k d) ≡ length d
length-front k x y d u h = omega (arith, length-del k x d u h)

pub fresh_differs :
    (a x : ℕ) (xs : List ℕ)
    → ((y : ℕ) → has y (head_node ∷ tail_node ∷ xs) ≡ true → y < a)
    → has x xs ≡ true
    → (a == x) ≡ false
fresh_differs a x xs old h = ground (arith, old x (ground (arith, h)))

pub fresh-Apart :
    (a : ℕ) (xs : List ℕ)
    → Apart xs
    → ((y : ℕ) → has y (head_node ∷ tail_node ∷ xs) ≡ true → y < a)
    → Apart (a ∷ xs)
fresh-Apart a xs u old = ground (arith, u, old head_node, old tail_node, old a)

module _ {V : Type 0} where
  del_others :
      (c c' : LruCache V) (es : List (ℕ × (ℕ × V))) (k a : ℕ) (v : V)
      → Represents c es
      → lookup k es ≡ some (a, v)
      → ((x : ℕ) → c'.store.key x ≡ c.store.key x)
      → ((x : ℕ) → (a == x) ≡ false → c'.store.value x ≡ c.store.value x)
      → Stored c'.store (del k es)
  del_others c c' es k a v r at keys values =
      let others = addresses-del k a v es r.distinct (ground (arith, r.apart)) at in
      Stored-ext c.store c'.store (del k es)
        (λ x h. (
          keys x,
          values x (ground (arith, h, has-without x a (addresses es), ap (λ l. has x l) others)),
        ))
        (Stored-del k c.store es r.stored)

  front_index :
      (j k a : ℕ) (v w : V) (es : List (ℕ × (ℕ × V)))
      → lookup k es ≡ some (a, v)
      → address_of (lookup j ((k, (a, w)) ∷ del k es)) ≡ address_of (lookup j es)
  front_index j k a v w es at = elim (Bool-cases (k == j)) [
    | inl hit ↦
        let same : k ≡ j = ground (arith, hit) in
        let here : address_of (lookup k es) ≡ some a = rw at refl in
        let there : address_of (lookup j es) ≡ some a =
          subst (λ i. address_of (lookup i es) ≡ some a) same here in
        ground (arith, hit, there)
    | inr miss ↦ ground (arith, miss, lookup-del j k es)
  ]

  -- An entry goes to the front, with a new value if one is written.
  pub front-Represents :
      (c c' : LruCache V) (es : List (ℕ × (ℕ × V))) (k a : ℕ) (v w : V)
      → Represents c es
      → lookup k es ≡ some (a, v)
      → c'.nodes ≡ c.nodes
      → c'.fresh ≡ c.fresh
      → Between c'.store (a ∷ without a (addresses es))
      → ((x : ℕ) → c'.store.key x ≡ c.store.key x)
      → ((x : ℕ) → (a == x) ≡ false → c'.store.value x ≡ c.store.value x)
      → c'.store.value a ≡ some w
      → Represents c' ((k, (a, w)) ∷ del k es)
  front-Represents c c' es k a v w r at nodes fresh chain keys values value =
      let others = addresses-del k a v es r.distinct (ground (arith, r.apart)) at in
      let there = lookup-has k a v es at in
      record {
        chain = subst (λ l. Between c'.store (a ∷ l)) (sym others) chain;
        apart =
            subst (λ l. Apart (a ∷ l)) (sym others) (front-Apart a (addresses es) r.apart there);
        old = λ x h.
            rw fresh (r.old x (moved_old x a (addresses es) (addresses (del k es)) others there h));
        stored = (
          keys a ∙ (lookup-Stored k a v c.store es r.stored at).0,
          value,
          del_others c c' es k a v r at keys values,
        );
        distinct = (ground (arith, lookup-del k k es), Distinct-del k es r.distinct);
        index = λ j. ap (lookup j) nodes ∙ r.index j ∙ sym (front_index j k a v w es at);
        keys = subst Distinct (sym nodes) r.keys;
        sizes = ap length nodes ∙ r.sizes ∙ sym (length-front k (a, v) (a, w) es r.distinct at);
      }

  dropped_index :
      (j k : ℕ) (nodes : List (ℕ × ℕ)) (es : List (ℕ × (ℕ × V)))
      → lookup j nodes ≡ address_of (lookup j es)
      → lookup j (del k nodes) ≡ address_of (lookup j (del k es))
  dropped_index j k nodes es h = ground (arith, h, lookup-del j k nodes, lookup-del j k es)

  pushed_index :
      (j k a : ℕ) (w : V) (nodes : List (ℕ × ℕ)) (es : List (ℕ × (ℕ × V)))
      → lookup j nodes ≡ address_of (lookup j es)
      → (if k == j then some a else lookup j nodes) ≡ address_of (lookup j ((k, (a, w)) ∷ es))
  pushed_index j k a w nodes es h = ground (arith, h)

  -- An entry is dropped.
  pub drop-Represents :
      (c c' : LruCache V) (es : List (ℕ × (ℕ × V))) (k a : ℕ) (v : V)
      → Represents c es
      → lookup k es ≡ some (a, v)
      → c'.nodes ≡ del k c.nodes
      → c'.fresh ≡ c.fresh
      → Between c'.store (without a (addresses es))
      → ((x : ℕ) → c'.store.key x ≡ c.store.key x)
      → ((x : ℕ) → c'.store.value x ≡ c.store.value x)
      → Represents c' (del k es)
  drop-Represents c c' es k a v r at nodes fresh chain keys values =
      let others = addresses-del k a v es r.distinct (ground (arith, r.apart)) at in
      let there = lookup-has k a v es at in
      let known : lookup k c.nodes ≡ some a = r.index k ∙ ap address_of at in
      let apart = front-Apart a (addresses es) r.apart there in
      record {
        chain = subst (Between c'.store) (sym others) chain;
        apart = subst Apart (sym others) (ground (arith, apart));
        old = λ x h. rw fresh (
            r.old x (
              moved_old x a (addresses es) (addresses (del k es)) others there
                (ground (arith, h))));
        stored = del_others c c' es k a v r at keys (λ x e. values x);
        distinct = Distinct-del k es r.distinct;
        index = λ j. ap (lookup j) nodes ∙ dropped_index j k c.nodes es (r.index j);
        keys = subst Distinct (sym nodes) (Distinct-del k c.nodes r.keys);
        sizes =
            let here = length-del k (a, v) es r.distinct at in
            let index = length-del k a c.nodes r.keys known in
            ap length nodes ∙ omega (arith, here, index, r.sizes);
      }

  -- A new entry is put in front.
  pub push-Represents :
      (c c' : LruCache V) (es : List (ℕ × (ℕ × V))) (k : ℕ) (w : V)
      → Represents c es
      → lookup k es ≡ none
      → c'.nodes ≡ set_key k c.fresh c.nodes
      → c'.fresh ≡ c.fresh + 1
      → Between c'.store (c.fresh ∷ addresses es)
      → c'.store.key c.fresh ≡ some k
      → c'.store.value c.fresh ≡ some w
      → ((x : ℕ)
          → (c.fresh == x) ≡ false
          → (c'.store.key x ≡ c.store.key x) × (c'.store.value x ≡ c.store.value x))
      → Represents c' ((k, (c.fresh, w)) ∷ es)
  push-Represents c c' es k w r away nodes fresh chain key value others =
      let known : lookup k c.nodes ≡ none = r.index k ∙ ap address_of away in
      record {
        chain = chain;
        apart = fresh-Apart c.fresh (addresses es) r.apart r.old;
        old = λ x h. rw fresh (ground (arith, h, r.old x));
        stored = (
          key,
          value,
          Stored-ext c.store c'.store es
              (λ x h. others x (fresh_differs c.fresh x (addresses es) r.old h)) r.stored,
        );
        distinct = (away, r.distinct);
        index = λ j.
            ap (lookup j) nodes
            ∙ lookup-put j k c.fresh c.nodes
            ∙ pushed_index j k c.fresh w c.nodes es (r.index j);
        keys = subst Distinct (sym nodes) (Distinct-put k c.fresh c.nodes r.keys);
        sizes =
            let index = length-set_key k c.fresh c.nodes known in
            ap length nodes ∙ omega (arith, index, r.sizes);
      }
