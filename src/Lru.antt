-- ===== src/Lru.antt =====
-- The cache of core/lru.py: a dictionary over a doubly linked list between two sentinels. A node
-- is an address, and each attribute of the nodes a function of it; `none` stands for Python's
-- None. An exception of the cache's own (a failed assert, a missing key) is the result `none`.
use distributed_job_orchestr.Common.{
  ℕ, zero, suc, ◌+◌, ◌*◌, ◌/◌, Bool, true, false, not, List, [], ◌∷◌, Option, none, some, length,
  ◌==◌, ltb, if◌then◌else◌,
}
use distributed_job_orchestr.Common.Dict.{lookup, put as set_key, del}
pub mod Chain
pub mod Links
pub mod Entries
pub mod Moves
pub mod Recency
pub mod Holds
pub mod Evicts
pub mod Refines
pub mod Traces
pub mod Bounds
mod Examples

-- _Node
pub record Store (V : Type 0) : Type 0 where
  pub key : ℕ → Option ℕ
  pub value : ℕ → Option V
  pub prev : ℕ → Option ℕ
  pub next : ℕ → Option ℕ

-- self._head and self._tail
abbrev pub head_node : ℕ
head_node = 0

abbrev pub tail_node : ℕ
tail_node = 1

-- LruCache; `fresh` is the address of the next new node.
pub record LruCache (V : Type 0) : Type 0 where
  pub capacity : ℕ
  pub nodes : List (ℕ × ℕ)
  pub store : Store V
  pub fresh : ℕ
  pub hits : ℕ
  pub misses : ℕ

-- What the read through a loader gives: a value, or the loader's own exception.
pub data Loaded (V : Type 0) : Type 0 where
  loaded : Option V → Loaded V
  raised : Loaded V

-- stats; the rate is in whole millionths.
pub record Stats : Type 0 where
  pub hits : ℕ
  pub misses : ℕ
  pub size : ℕ
  pub capacity : ℕ
  pub hit_rate : ℕ

abbrev pub and_then : {A B : Type 0} → Option A → (A → Option B) → Option B
and_then none k = none
and_then (some a) k = k a

-- node.attribute = value
abbrev pub set_at : {A : Type 0} → ℕ → A → (ℕ → A) → ℕ → A
set_at a x f b = if a == b then x else f b

-- `node is other`
abbrev pub is_node : Option ℕ → ℕ → Bool
is_node none b = false
is_node (some a) b = a == b

module _ {V : Type 0} where
  abbrev pub set_prev : ℕ → Option ℕ → Store V → Store V
  set_prev a x s = record s { prev = set_at a x s.prev }

  abbrev pub set_next : ℕ → Option ℕ → Store V → Store V
  set_next a x s = record s { next = set_at a x s.next }

  -- _Node.__init__
  abbrev pub new_node : ℕ → Option ℕ → Option V → Store V → Store V
  new_node a k v s = record {
    key = set_at a k s.key;
    value = set_at a v s.value;
    prev = set_at a none s.prev;
    next = set_at a none s.next;
  }

  -- self._head.next = self._tail; self._tail.prev = self._head
  abbrev pub link_sentinels : Store V → Store V
  link_sentinels s = set_prev tail_node (some head_node) (set_next head_node (some tail_node) s)

  abbrev no_nodes : Store V
  no_nodes = record { key = λ a. none; value = λ a. none; prev = λ a. none; next = λ a. none }

  -- LruCache.__init__; a natural number is never negative.
  unfoldable pub init : ℕ → LruCache V
  init capacity = record {
    capacity = capacity;
    nodes = [];
    store = link_sentinels (new_node tail_node none none (new_node head_node none none no_nodes));
    fresh = 2;
    hits = 0;
    misses = 0;
  }

  -- _push_front
  unfoldable pub push_front : ℕ → Store V → Option (Store V)
  push_front node s = and_then (s.next head_node) (λ first. some (
      set_prev first (some node) (
        set_next head_node (some node)
          (set_next node (some first) (set_prev node (some head_node) s)))))

  -- _unlink: each statement reads the attributes that the one before it has left.
  unfoldable pub unlink : ℕ → Store V → Option (Store V)
  unlink node s = and_then (s.prev node) (λ p. and_then (s.next node) (λ n.
      let s1 = set_next p (some n) s in
      and_then (s1.next node) (λ n1.
        let s2 = set_prev n1 (s1.prev node) s1 in
        some (set_next node none (set_prev node none s2)))))

  -- _move_to_front
  unfoldable pub move_to_front : ℕ → Store V → Option (Store V)
  unfolding push_front unlink
  move_to_front node s =
      if is_node (s.next head_node) node then some s else and_then (unlink node s) (push_front node)

  -- del self._nodes[key]
  abbrev pub del_key : Option ℕ → LruCache V → Option (ℕ × LruCache V)
  del_key none c = none
  del_key (some k) c = elim (lookup k c.nodes) [
    | none ↦ none
    | some a ↦ some (k, record c { nodes = del k c.nodes })
  ]

  -- _evict
  unfoldable pub evict : LruCache V → Option (ℕ × LruCache V)
  unfolding unlink
  evict c = and_then (c.store.prev tail_node) (λ victim.
      if victim == head_node
      then none
      else and_then (unlink victim c.store) (λ s. del_key (s.key victim) (record c { store = s })))

  -- get
  unfoldable pub get : ℕ → Option V → LruCache V → Option (Option V × LruCache V)
  unfolding move_to_front
  get key default c = elim (lookup key c.nodes) [
    | none ↦ some (default, record c { misses = c.misses + 1 })
    | some node ↦
        and_then (move_to_front node c.store)
          (λ s. some (s.value node, record c { hits = c.hits + 1; store = s }))
  ]

  abbrev pub with_eviction : ℕ × LruCache V → Option ℕ × LruCache V
  with_eviction (k, c) = (some k, c)

  -- the end of `put`: evict when there are too many entries
  unfoldable pub settle : LruCache V → Option (Option ℕ × LruCache V)
  unfolding evict
  settle c =
      if ltb c.capacity (length c.nodes)
      then and_then (evict c) (λ r. some (with_eviction r))
      else some (none, c)

  -- put
  unfoldable pub put : ℕ → V → LruCache V → Option (Option ℕ × LruCache V)
  unfolding move_to_front push_front settle
  put key value c = if c.capacity == 0 then some (some key, c) else elim (lookup key c.nodes) [
    | some node ↦
        and_then
          (move_to_front node (record c.store { value = set_at node (some value) c.store.value }))
          (λ s. some (none, record c { store = s }))
    | none ↦
        let node = c.fresh in
        and_then (push_front node (new_node node (some key) (some value) c.store)) (λ s.
          settle (record c { nodes = set_key key node c.nodes; store = s; fresh = c.fresh + 1 }))
  ]

  -- get_or_load; the loader is the caller's.
  unfoldable pub get_or_load : ℕ → (ℕ → Option V) → LruCache V → Option (Loaded V × LruCache V)
  unfolding move_to_front put
  get_or_load key loader c = elim (lookup key c.nodes) [
    | some node ↦
        and_then (move_to_front node c.store)
          (λ s. some (loaded (s.value node), record c { hits = c.hits + 1; store = s }))
    | none ↦
        let c' = record c { misses = c.misses + 1 } in
        elim (loader key) [
          | none ↦ some (raised, c')
          | some value ↦ and_then (put key value c') (λ r. some (loaded (some value), r.1))
        ]
  ]

  -- invalidate
  unfoldable pub invalidate : ℕ → LruCache V → Option (Bool × LruCache V)
  unfolding unlink
  invalidate key c = elim (lookup key c.nodes) [
    | none ↦ some (false, c)
    | some node ↦
        and_then (unlink node c.store)
          (λ s. some (true, record c { nodes = del key c.nodes; store = s }))
  ]

  -- clear
  unfoldable pub clear : LruCache V → LruCache V
  clear c = record c { nodes = []; store = link_sentinels c.store }

  -- stats
  abbrev pub stats : LruCache V → Stats
  stats c =
      let total = c.hits + c.misses in
      record {
        hits = c.hits;
        misses = c.misses;
        size = length c.nodes;
        capacity = c.capacity;
        hit_rate = if total == 0 then 0 else c.hits * 1000000 / total;
      }

  -- __iter__ from a node on; `none` when the rounds run out.
  unfoldable pub keys_from : ℕ → Store V → Option ℕ → Option (List (Option ℕ))
  keys_from zero s position = none
  keys_from (suc fuel) s none = some []
  keys_from (suc fuel) s (some here) =
      let rest = keys_from fuel s (s.next here) in
      if here == tail_node then some [] else and_then rest (λ ks. some (s.key here ∷ ks))

  -- __iter__, with a round for each entry and one more
  unfoldable pub iterate : LruCache V → Option (List (Option ℕ))
  unfolding keys_from
  iterate c = keys_from (length c.nodes + 1) c.store (c.store.next head_node)
