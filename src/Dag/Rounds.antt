-- ===== src/Dag/Rounds.antt =====
-- Kahn's loop ends: each round takes a node off the queue, and a node enters it once.
use distributed_job_orchestr.Common.{
  ℕ, zero, suc, ◌+◌, ◌-◌, ◌<◌, ◌≡◌, refl, sym, ap, ◌∙◌, List, [], ◌∷◌, ◌++◌, map, none, some, All,
  arith, length, length-append, ◌==◌, if◌then◌else◌,
}
use distributed_job_orchestr.Common.Dict.{lookup, put, Distinct}
use distributed_job_orchestr.Dag.{
  Dag, items, degree, roots_of, in_degrees, visit, kahn, kahn_order, nodes,
}
use distributed_job_orchestr.Dag.Mirror.{IsDag, keys}

-- How many nodes wait for a parent.
abbrev waiting : List (ℕ × ℕ) → ℕ
waiting [] = 0
waiting ((n, k) ∷ d) = let rest = waiting d in if k == 0 then rest else suc rest

waiting-put :
    (c : ℕ) (d : List (ℕ × ℕ))
    → waiting (put c (degree c d - 1) d) + (if degree c d == 1 then 1 else 0) ≡ waiting d
waiting-put c [] = refl
waiting-put c ((n, k) ∷ d) = ground (arith, waiting-put c d)

length-if :
    (n c : ℕ) (queue : List ℕ)
    → length (if n == 1 then queue ++ c ∷ [] else queue) ≡ length queue + (if n == 1 then 1 else 0)
length-if n c queue = ground (arith, length-append queue (c ∷ []))

visit-waiting :
    (cs : List ℕ) (d : List (ℕ × ℕ)) (queue : List ℕ)
    → let (d', queue') = visit cs d queue in waiting d' + length queue' ≡ waiting d + length queue
unfolding visit
visit-waiting [] d queue = refl
visit-waiting (c ∷ cs) d queue =
    let n = degree c d in
    let d' = put c (n - 1) d in
    let queue' = if n == 1 then queue ++ c ∷ [] else queue in
    omega (arith, visit-waiting cs d' queue', waiting-put c d, length-if n c queue)

kahn-returns :
    (fuel : ℕ) (g : Dag) (d : List (ℕ × ℕ)) (queue order : List ℕ)
    → waiting d + length queue < fuel
    → (o : List ℕ) × (kahn fuel g d queue order ≡ some o)
unfolding kahn
kahn-returns zero g d queue order h = absurd (omega arith)
kahn-returns (suc fuel) g d [] order h = (order, refl)
kahn-returns (suc fuel) g d (n ∷ queue) order h =
    let (d', queue') = visit (items n g.children) d queue in
    kahn-returns fuel g d' queue' (order ++ n ∷ [])
      (omega (arith, visit-waiting (items n g.children) d queue))

-- Every entry of a part of a dictionary is the one that a lookup finds.
abbrev Found : List (ℕ × ℕ) → List (ℕ × ℕ) → Type 0
Found d = All (λ (n, k). lookup n d ≡ some k)

Found-cons :
    (i v : ℕ) (d part : List (ℕ × ℕ)) → lookup i d ≡ none → Found d part → Found ((i, v) ∷ d) part
Found-cons i v d [] h f = tt
Found-cons i v d ((n, k) ∷ part) h f = (ground (arith, h, f.0), Found-cons i v d part h f.1)

Found-all : (d : List (ℕ × ℕ)) → Distinct d → Found d d
Found-all [] v = tt
Found-all ((n, k) ∷ d) v = (ground arith, Found-cons n k d d v.0 (Found-all d v.1))

roots-waiting :
    (d part : List (ℕ × ℕ))
    → Found d part
    → length (roots_of d (keys part)) + waiting part ≡ length part
roots-waiting d [] f = refl
roots-waiting d ((n, k) ∷ part) f = ground (arith, f.0, roots-waiting d part f.1)

degrees_of : List (ℕ × List ℕ) → List (ℕ × ℕ)
degrees_of d = map (λ (n, ps). (n, length ps)) d

lookup-degrees :
    (n : ℕ) (d : List (ℕ × List ℕ)) → lookup n d ≡ none → lookup n (degrees_of d) ≡ none
unfolding degrees_of
lookup-degrees n [] h = refl
lookup-degrees n ((i, ps) ∷ d) h = ground (arith, h, lookup-degrees n d)

degrees-Distinct : (d : List (ℕ × List ℕ)) → Distinct d → Distinct (degrees_of d)
unfolding degrees_of
degrees-Distinct [] v = tt
degrees-Distinct ((n, ps) ∷ d) v = (lookup-degrees n d v.0, degrees-Distinct d v.1)

keys-degrees : (d : List (ℕ × List ℕ)) → keys (degrees_of d) ≡ keys d
unfolding degrees_of
keys-degrees [] = refl
keys-degrees ((n, ps) ∷ d) = ap (λ ns. n ∷ ns) (keys-degrees d)

length-degrees : (d : List (ℕ × List ℕ)) → length (degrees_of d) ≡ length d
unfolding degrees_of
length-degrees [] = refl
length-degrees ((n, ps) ∷ d) = ap suc (length-degrees d)

length-keys : (d : List (ℕ × List ℕ)) → length (keys d) ≡ length d
length-keys [] = refl
length-keys ((n, ps) ∷ d) = ap suc (length-keys d)

-- The rounds given are enough: on a well-formed graph the loop always ends with an order.
pub kahn_order-returns : (g : Dag) → IsDag g → (o : List ℕ) × (kahn_order g ≡ some o)
unfolding kahn_order in_degrees degrees_of
kahn_order-returns g v =
    let d = degrees_of g.parents in
    let same : nodes g ≡ keys d = v.same_keys ∙ sym (keys-degrees g.parents) in
    let start : length (roots_of d (nodes g)) + waiting d ≡ length d =
      rw same (roots-waiting d d (Found-all d (degrees-Distinct g.parents v.distinct_parents))) in
    let sizes : length g.children ≡ length d =
      sym (length-keys g.children)
      ∙ ap length v.same_keys
      ∙ length-keys g.parents
      ∙ sym (length-degrees g.parents) in
    kahn-returns (length g.children + 1) g d (roots_of d (nodes g)) [] (omega (arith, start, sizes))
