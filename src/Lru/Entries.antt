-- ===== src/Lru/Entries.antt =====
-- What a cache stands for: its entries, the most recently used first.
use distributed_job_orchestr.Common.{
  ℕ, ◌+◌, ◌<◌, ◌≡◌, refl, sym, ap, subst, ◌∙◌, true, false, List, [], ◌∷◌, map, Option, none, some,
  arith, length, ◌==◌, Bool-cases, inl, inr,
}
use distributed_job_orchestr.Common.Dict.{lookup, put as set_key, del, Distinct}
use distributed_job_orchestr.Lru.{Store, LruCache, head_node, tail_node}
use distributed_job_orchestr.Lru.Chain.{has, without, NoDup, without-away, differ}
use distributed_job_orchestr.Lru.Links.{Apart, Between}

pub del-absent : {A : Type 0} (k : ℕ) (d : List (ℕ × A)) → lookup k d ≡ none → del k d ≡ d
del-absent k [] h = refl
del-absent k ((i, x) ∷ d) h = ground (arith, h, del-absent k d)

pair_ends : {V : Type 0} (p q : ℕ × V) → some p ≡ some q → (p.0 ≡ q.0) × (p.1 ≡ q.1)
pair_ends p q h = let both : p ≡ q = cc in (ap (λ r. r.0) both, ap (λ r. r.1) both)

pub length-del :
    {A : Type 0} (k : ℕ) (x : A) (d : List (ℕ × A))
    → Distinct d
    → lookup k d ≡ some x
    → length (del k d) + 1 ≡ length d
length-del k x [] u h = absurd (ground (arith, h))
length-del k x ((i, y) ∷ d) u h = elim (Bool-cases (i == k)) [
  | inl hit ↦
      let same : i ≡ k = ground (arith, hit) in
      let gone : lookup k d ≡ none = subst (λ j. lookup j d ≡ none) same u.0 in
      let left : del k ((i, y) ∷ d) ≡ d = ground (arith, hit, del-absent k d gone) in
      ap (λ l. length l + 1) left ∙ ground arith
  | inr miss ↦ ground (arith, miss, length-del k x d u.1 (ground (arith, miss, h)))
]

pub length-set_key :
    {A : Type 0} (k : ℕ) (x : A) (d : List (ℕ × A))
    → lookup k d ≡ none
    → length (set_key k x d) ≡ length d + 1
length-set_key k x [] h = refl
length-set_key k x ((i, y) ∷ d) h = ground (arith, h, length-set_key k x d)

module _ {V : Type 0} where
  -- The nodes of a list of entries, each with its key, its address and its value.
  abbrev pub addresses : List (ℕ × (ℕ × V)) → List ℕ
  addresses es = map (λ (k, (a, v)). a) es

  abbrev pub address_of : Option (ℕ × V) → Option ℕ
  address_of none = none
  address_of (some (a, v)) = some a

  -- The store holds the entries.
  abbrev pub Stored : Store V → List (ℕ × (ℕ × V)) → Type 0
  Stored s [] = Unit
  Stored s ((k, (a, v)) ∷ es) = (s.key a ≡ some k) × (s.value a ≡ some v) × Stored s es

  -- The list between the sentinels holds the entries in order, and the dictionary knows the
  -- address of each and of nothing else.
  pub record Represents (c : LruCache V) (es : List (ℕ × (ℕ × V))) : Type 0 where
    pub chain : Between c.store (addresses es)
    pub apart : Apart (addresses es)
    pub old : (a : ℕ) → has a (head_node ∷ tail_node ∷ addresses es) ≡ true → a < c.fresh
    pub stored : Stored c.store es
    pub distinct : Distinct es
    pub index : (k : ℕ) → lookup k c.nodes ≡ address_of (lookup k es)
    pub keys : Distinct c.nodes
    pub sizes : length c.nodes ≡ length es

  pub lookup-has :
      (k a : ℕ) (v : V) (es : List (ℕ × (ℕ × V)))
      → lookup k es ≡ some (a, v)
      → has a (addresses es) ≡ true
  lookup-has k a v [] h = absurd (ground (arith, h))
  lookup-has k a v ((i, (b, w)) ∷ es) h = ground (arith, h, lookup-has k a v es)

  pub lookup-Stored :
      (k a : ℕ) (v : V) (s : Store V) (es : List (ℕ × (ℕ × V)))
      → Stored s es
      → lookup k es ≡ some (a, v)
      → (s.key a ≡ some k) × (s.value a ≡ some v)
  lookup-Stored k a v s [] st h = absurd (ground (arith, h))
  lookup-Stored k a v s ((i, (b, w)) ∷ es) st h = elim (Bool-cases (i == k)) [
    | inl hit ↦
        let same : i ≡ k = ground (arith, hit) in
        let here : ◌≡◌ {A = Option (ℕ × V)} (some (b, w)) (some (a, v)) = ground (arith, hit, h) in
        let (at, same_value) = pair_ends (b, w) (a, v) here in
        (rw (← at, ← same) st.0, rw (← at, ← same_value) st.1)
    | inr miss ↦ lookup-Stored k a v s es st.2 (ground (arith, miss, h))
  ]

  pub addresses-del :
      (k a : ℕ) (v : V) (es : List (ℕ × (ℕ × V)))
      → Distinct es
      → NoDup (addresses es)
      → lookup k es ≡ some (a, v)
      → addresses (del k es) ≡ without a (addresses es)
  addresses-del k a v [] d u h = refl
  addresses-del k a v ((i, (b, w)) ∷ es) d u h = elim (Bool-cases (i == k)) [
    | inl hit ↦
        let here : ◌≡◌ {A = Option (ℕ × V)} (some (b, w)) (some (a, v)) = ground (arith, hit, h) in
        let at : b ≡ a = (pair_ends (b, w) (a, v) here).0 in
        let same : i ≡ k = ground (arith, hit) in
        let gone : lookup k es ≡ none = subst (λ x. lookup x es ≡ none) same d.0 in
        let new : has a (addresses es) ≡ false = subst (λ x. has x (addresses es) ≡ false) at u.0 in
        let left : del k ((i, (b, w)) ∷ es) ≡ es = ground (arith, hit, del-absent k es gone) in
        let right : without a (addresses ((i, (b, w)) ∷ es)) ≡ addresses es =
          ground (arith, at, without-away a (addresses es) new) in
        ap addresses left ∙ sym right
    | inr miss ↦
        let there : lookup k es ≡ some (a, v) = ground (arith, miss, h) in
        let apart = differ b a (addresses es) u.0 (lookup-has k a v es there) in
        let left : del k ((i, (b, w)) ∷ es) ≡ (i, (b, w)) ∷ del k es = ground (arith, miss) in
        let right : without a (addresses ((i, (b, w)) ∷ es)) ≡ b ∷ without a (addresses es) =
          ground (arith, apart) in
        ap addresses left ∙ ap (λ l. b ∷ l) (addresses-del k a v es d.1 u.1 there) ∙ sym right
  ]

  pub Stored-del :
      (k : ℕ) (s : Store V) (es : List (ℕ × (ℕ × V))) → Stored s es → Stored s (del k es)
  Stored-del k s [] st = tt
  Stored-del k s ((i, (b, w)) ∷ es) st = ground (arith, st, Stored-del k s es st.2)

  pub Stored-ext :
      (s s' : Store V) (es : List (ℕ × (ℕ × V)))
      → ((x : ℕ) → has x (addresses es) ≡ true → (s'.key x ≡ s.key x) × (s'.value x ≡ s.value x))
      → Stored s es
      → Stored s' es
  Stored-ext s s' [] h st = tt
  Stored-ext s s' ((i, (b, w)) ∷ es) h st =
      let (same_key, same_value) = h b (ground arith) in
      (same_key ∙ st.0, same_value ∙ st.1, Stored-ext s s' es (λ x e. h x (ground (arith, e))) st.2)
