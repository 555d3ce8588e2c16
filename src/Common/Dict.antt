-- ===== src/Common/Dict.antt =====
-- Dictionaries whose keys are numbers, as association lists in the order of insertion.
use Prim.Native.Nat.{ℕ}
use mathlib.Core.List.{List, [], ◌∷◌}
use mathlib.Core.Option.{Option, none, some}
use mathlib.Core.Path.{◌≡◌, refl}
use native.Mathlib.Omega.{arith}
use package.distributed_job_orchestr.Common.Bools.{◌==◌, if◌then◌else◌}

module _ {ℓ} {A : Type ℓ} where
  -- d.get(key)
  abbrev pub lookup : ℕ → List (ℕ × A) → Option A
  lookup key [] = none
  lookup key ((k, a) ∷ d) = let rest = lookup key d in if k == key then some a else rest

  -- d[key] = a
  abbrev pub put : ℕ → A → List (ℕ × A) → List (ℕ × A)
  put key a [] = (key, a) ∷ []
  put key a ((k, b) ∷ d) = let rest = put key a d in if k == key then (k, a) ∷ d else (k, b) ∷ rest

  -- del d[key]
  abbrev pub del : ℕ → List (ℕ × A) → List (ℕ × A)
  del key [] = []
  del key ((k, b) ∷ d) = let rest = del key d in if k == key then rest else (k, b) ∷ rest

  -- No key stands twice.
  abbrev pub Distinct : List (ℕ × A) → Type ℓ
  Distinct [] = Unit
  Distinct ((k, a) ∷ d) = (lookup k d ≡ none) × Distinct d

  pub lookup-put :
      (key k : ℕ) (a : A) (d : List (ℕ × A))
      → lookup key (put k a d) ≡ (if k == key then some a else lookup key d)
  lookup-put key k a [] = refl
  lookup-put key k a ((i, b) ∷ d) = ground (arith, lookup-put key k a d)

  pub lookup-del :
      (key k : ℕ) (d : List (ℕ × A))
      → lookup key (del k d) ≡ (if k == key then none else lookup key d)
  lookup-del key k [] = ground arith
  lookup-del key k ((i, b) ∷ d) = ground (arith, lookup-del key k d)

  pub Distinct-put : (k : ℕ) (a : A) (d : List (ℕ × A)) → Distinct d → Distinct (put k a d)
  Distinct-put k a [] v = (refl, tt)
  Distinct-put k a ((i, b) ∷ d) v = ground (arith, lookup-put i k a d, Distinct-put k a d v.1)

  pub Distinct-del : (k : ℕ) (d : List (ℕ × A)) → Distinct d → Distinct (del k d)
  Distinct-del k [] v = tt
  Distinct-del k ((i, b) ∷ d) v = ground (arith, lookup-del i k d, Distinct-del k d v.1)
