-- ===== src/State/Quantify.antt =====
-- The Boolean quantifiers over task states, and the predicates that they decide.
use distributed_job_orchestr.Common.{
  ◌≡◌, refl, inl, inr, Bool, true, false, List, [], ◌∷◌, All, Some, arith, all, any, Bool-cases,
}
use distributed_job_orchestr.State.{TaskState}

module _ (p : TaskState → Bool) (P : TaskState → Type 0) where
  pub all→All :
      ((s : TaskState) → p s ≡ true → P s) → (xs : List TaskState) → all p xs ≡ true → All P xs
  all→All h [] e = tt
  all→All h (x ∷ xs) e = elim (Bool-cases (p x)) [
    | inl q ↦ (h x q, all→All h xs (rw q at e))
    | inr q ↦ absurd (ground arith)
  ]

  pub any→Some :
      ((s : TaskState) → p s ≡ true → P s) → (xs : List TaskState) → any p xs ≡ true → Some P xs
  any→Some h [] e = ground arith
  any→Some h (x ∷ xs) e = elim (Bool-cases (p x)) [
    | inl q ↦ inl (h x q)
    | inr q ↦ inr (any→Some h xs (rw q at e))
  ]

  pub not-any→All :
      ((s : TaskState) → p s ≡ false → P s) → (xs : List TaskState) → any p xs ≡ false → All P xs
  not-any→All h [] e = tt
  not-any→All h (x ∷ xs) e = elim (Bool-cases (p x)) [
    | inl q ↦ absurd (ground arith)
    | inr q ↦ (h x q, not-any→All h xs (rw q at e))
  ]

  pub not-all→Some :
      ((s : TaskState) → p s ≡ false → P s) → (xs : List TaskState) → all p xs ≡ false → Some P xs
  not-all→Some h [] e = ground arith
  not-all→Some h (x ∷ xs) e = elim (Bool-cases (p x)) [
    | inl q ↦ inr (not-all→Some h xs (rw q at e))
    | inr q ↦ inl (h x q)
  ]

  pub All→all :
      ((s : TaskState) → P s → p s ≡ true) → (xs : List TaskState) → All P xs → all p xs ≡ true
  All→all h [] a = refl
  All→all h (x ∷ xs) a = rw (h x a.0) (All→all h xs a.1)

  pub Some→any :
      ((s : TaskState) → P s → p s ≡ true) → (xs : List TaskState) → Some P xs → any p xs ≡ true
  Some→any h [] a = absurd a
  Some→any h (x ∷ xs) (inl a) = rw (h x a)
  Some→any h (x ∷ xs) (inr a) = ground (arith, Some→any h xs a)

  pub All→not-any :
      ((s : TaskState) → P s → p s ≡ false) → (xs : List TaskState) → All P xs → any p xs ≡ false
  All→not-any h [] a = refl
  All→not-any h (x ∷ xs) a = rw (h x a.0) (All→not-any h xs a.1)

  pub Some→not-all :
      ((s : TaskState) → P s → p s ≡ false) → (xs : List TaskState) → Some P xs → all p xs ≡ false
  Some→not-all h [] a = absurd a
  Some→not-all h (x ∷ xs) (inl a) = rw (h x a)
  Some→not-all h (x ∷ xs) (inr a) = ground (arith, Some→not-all h xs a)
