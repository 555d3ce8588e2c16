-- ===== src/Queue/Order.antt =====
-- Which rows a claim takes: the first ones by priority and time, and all of them if the limit
-- allows.
use mathlib.Core.List.Memᴰ
use mathlib.Core.List.{Memᴰ}
use distributed_job_orchestr.Common.{
  ℕ, zero, suc, ◌≤◌, ◌≡◌, refl, sym, ap, ◌∙◌, ◌⊎◌, Bool, true, false, List, [], ◌∷◌, map, All,
  arith, take, leb, length, Bool-cases, inl, inr,
}
use distributed_job_orchestr.Common.Int.{ℤ, pos, negsuc, ltb_ℤ, leb_ℤ}
use distributed_job_orchestr.Queue.Rows.{TaskRun, elem}
use distributed_job_orchestr.Queue.Monad.{select}
use distributed_job_orchestr.Queue.Claim.{precedes, insert_row, order_rows, claimable, candidates}
use distributed_job_orchestr.Queue.Moves.{Unique}
use distributed_job_orchestr.Queue.Candidates.{
  mem-select, mem-order_rows, mem-take, elem-map, same_row,
}

true≢false : true ≡ false → ⊥
true≢false e = cc

precedes-total : (a b : TaskRun) → precedes a b ≡ false → precedes b a ≡ true
unfolding precedes
precedes-total a b h = ground arith

precedes_trans : (a b c : TaskRun) → precedes a b ≡ true → precedes b c ≡ true → precedes a c ≡ true
unfolding precedes
precedes_trans a b c h k = ground arith

-- Each row precedes all that follow it.
abbrev pub Sorted : List TaskRun → Type 0
Sorted [] = Unit
Sorted (r ∷ rows) = All (λ x. precedes r x ≡ true) rows × Sorted rows

weaken :
    (a b : TaskRun) (rows : List TaskRun)
    → precedes a b ≡ true
    → All (λ x. precedes b x ≡ true) rows
    → All (λ x. precedes a x ≡ true) rows
weaken a b [] h k = tt
weaken a b (x ∷ rows) h k = (precedes_trans a b x h k.0, weaken a b rows h k.1)

insert-below :
    (a r : TaskRun) (rows : List TaskRun)
    → precedes a r ≡ true
    → All (λ x. precedes a x ≡ true) rows
    → All (λ x. precedes a x ≡ true) (insert_row r rows)
unfolding insert_row
insert-below a r [] h k = (h, tt)
insert-below a r (x ∷ rows) h k = elim (Bool-cases (precedes r x)) [
  | inl first ↦ rw first (h, k)
  | inr later ↦ rw later (k.0, insert-below a r rows h k.1)
]

insert_row-Sorted : (r : TaskRun) (rows : List TaskRun) → Sorted rows → Sorted (insert_row r rows)
unfolding insert_row
insert_row-Sorted r [] s = (tt, tt)
insert_row-Sorted r (x ∷ rows) s = elim (Bool-cases (precedes r x)) [
  | inl first ↦ rw first ((first, weaken r x rows first s.0), s)
  | inr later ↦
      rw later (insert-below x r rows (precedes-total r x later) s.0, insert_row-Sorted r rows s.1)
]

pub order_rows-Sorted : (rows : List TaskRun) → Sorted (order_rows rows)
unfolding order_rows
order_rows-Sorted [] = tt
order_rows-Sorted (r ∷ rows) = insert_row-Sorted r (order_rows rows) (order_rows-Sorted rows)

into-insert_row :
    (r : TaskRun) (rows : List TaskRun) (x : TaskRun)
    → (x ≡ r) ⊎ Memᴰ x rows
    → Memᴰ x (insert_row r rows)
unfolding insert_row
into-insert_row r [] x (inl e) = Memᴰ.head e
into-insert_row r [] x (inr m) = elim m [ ]
into-insert_row r (y ∷ rows) x (inl e) = elim (Bool-cases (precedes r y)) [
  | inl first ↦ rw first (Memᴰ.head e)
  | inr later ↦ rw later (Memᴰ.tail (into-insert_row r rows x (inl e)))
]
into-insert_row r (y ∷ rows) x (inr m) = elim (Bool-cases (precedes r y)) [
  | inl first ↦ rw first (Memᴰ.tail m)
  | inr later ↦ rw later (elim (Memᴰ.cases_cons m) [
    | inl e ↦ Memᴰ.head e
    | inr k ↦ Memᴰ.tail (into-insert_row r rows x (inr k))
  ])
]

into-order_rows : (rows : List TaskRun) (x : TaskRun) → Memᴰ x rows → Memᴰ x (order_rows rows)
unfolding order_rows
into-order_rows [] x m = m
into-order_rows (r ∷ rows) x (Memᴰ.head e) = into-insert_row r (order_rows rows) x (inl e)
into-order_rows (r ∷ rows) x (Memᴰ.tail m) =
    into-insert_row r (order_rows rows) x (inr (into-order_rows rows x m))

into-select :
    (p : TaskRun → Bool) (rows : List TaskRun) (x : TaskRun)
    → Memᴰ x rows
    → p x ≡ true
    → Memᴰ x (select p rows)
into-select p [] x m h = m
into-select p (r ∷ rows) x m h = elim (Memᴰ.cases_cons m) [
  | inl e ↦ let hit : p r ≡ true = rw (← e) h in rw hit (Memᴰ.head e)
  | inr k ↦ elim (Bool-cases (p r)) [
    | inl hit ↦ rw hit (Memᴰ.tail (into-select p rows x k h))
    | inr miss ↦ rw miss (into-select p rows x k h)
  ]
]

elem-mem :
    (rows : List TaskRun) (x : TaskRun) → Memᴰ x rows → elem x.id (map (λ r. r.id) rows) ≡ true
elem-mem [] x m = elim m [ ]
elem-mem (r ∷ rows) x (Memᴰ.head e) = rw e (ground arith)
elem-mem (r ∷ rows) x (Memᴰ.tail m) = ground (arith, elem-mem rows x m)

member_precedes :
    (r x : TaskRun) (rows : List TaskRun)
    → All (λ y. precedes r y ≡ true) rows
    → Memᴰ x rows
    → precedes r x ≡ true
member_precedes r x [] h m = elim m [ ]
member_precedes r x (y ∷ rows) h (Memᴰ.head e) = rw e h.0
member_precedes r x (y ∷ rows) h (Memᴰ.tail m) = member_precedes r x rows h.1 m

-- In a sorted list what is taken precedes what is left.
taken_first :
    (n : ℕ) (rows : List TaskRun) (r x : TaskRun)
    → Sorted rows
    → Memᴰ r (take n rows)
    → Memᴰ x rows
    → (Memᴰ x (take n rows)) ⊎ (precedes r x ≡ true)
taken_first zero rows r x s m k = elim m [ ]
taken_first (suc n) [] r x s m k = elim m [ ]
taken_first (suc n) (y ∷ rows) r x s (Memᴰ.head e) (Memᴰ.head f) = inl (Memᴰ.head f)
taken_first (suc n) (y ∷ rows) r x s (Memᴰ.head e) (Memᴰ.tail k) =
    inr (rw e (member_precedes y x rows s.0 k))
taken_first (suc n) (y ∷ rows) r x s (Memᴰ.tail m) (Memᴰ.head f) = inl (Memᴰ.head f)
taken_first (suc n) (y ∷ rows) r x s (Memᴰ.tail m) (Memᴰ.tail k) =
    elim (taken_first n rows r x s.1 m k) [ inl i ↦ inl (Memᴰ.tail i) | inr p ↦ inr p ]

-- A signed integer is at most another.
abbrev pub AtMost : ℤ → ℤ → Type 0
AtMost (pos m) (pos n) = m ≤ n
AtMost (pos m) (negsuc n) = ⊥
AtMost (negsuc m) (pos n) = Unit
AtMost (negsuc m) (negsuc n) = n ≤ m

-- The higher priority comes first, and the earlier time if the priorities are the same.
abbrev pub Before : TaskRun → TaskRun → Type 0
Before r x =
    ¬ AtMost r.priority x.priority ⊎ (r.priority ≡ x.priority) × (r.scheduled_at ≤ x.scheduled_at)

higher : (a b : ℤ) → ltb_ℤ b a ≡ true → ¬ AtMost a b
higher (pos m) (pos n) h k = ground (arith, h)
higher (pos m) (negsuc n) h k = k
higher (negsuc m) (pos n) h k = ground (arith, h)
higher (negsuc m) (negsuc n) h k = ground (arith, h)

level : (a b : ℤ) → leb_ℤ b a ≡ true → ltb_ℤ b a ≡ false → a ≡ b
level (pos m) (pos n) h k = let same : m ≡ n = ground (arith, h, k) in ap pos same
level (pos m) (negsuc n) h k = absurd (ground (arith, h, k))
level (negsuc m) (pos n) h k = absurd (ground (arith, h, k))
level (negsuc m) (negsuc n) h k = let same : m ≡ n = ground (arith, h, k) in ap negsuc same

precedes-Before : (r x : TaskRun) → precedes r x ≡ true → Before r x
unfolding precedes
precedes-Before r x h = elim (Bool-cases (ltb_ℤ x.priority r.priority)) [
  | inl more ↦ inl (higher r.priority x.priority more)
  | inr less ↦
      let le : leb_ℤ x.priority r.priority ≡ true = ground (arith, h, less) in
      let soon : leb r.scheduled_at x.scheduled_at ≡ true = ground (arith, h, less) in
      inr (level r.priority x.priority le less, ground (arith, soon))
]

-- In a table with distinct ids, a row that is selected comes before every claimable row that is
-- left out: it has the higher priority, or the same one and a time that is no later.
pub candidates-first :
    (now : ℕ) (locked : ℕ → Bool) (limit : ℕ) (rows : List TaskRun) (r x : TaskRun)
    → Unique rows
    → Memᴰ r rows
    → Memᴰ x rows
    → claimable now locked x ≡ true
    → elem r.id (candidates now locked limit rows) ≡ true
    → elem x.id (candidates now locked limit rows) ≡ false
    → Before r x
unfolding candidates
candidates-first now locked limit rows r x u mr mx free chosen left =
    let waiting = select (claimable now locked) rows in
    let sorted = order_rows waiting in
    let (r0, m0, same) = elem-map r.id (take limit sorted) chosen in
    let (inside, _) =
      mem-select (claimable now locked) rows r0
        (mem-order_rows waiting r0 (mem-take limit sorted r0 m0)) in
    let one = same_row rows r r0 u mr inside (sym same) in
    let taken : Memᴰ r (take limit sorted) = rw one m0 in
    let waits = into-order_rows waiting x (into-select (claimable now locked) rows x mx free) in
    elim (taken_first limit sorted r x (order_rows-Sorted waiting) taken waits) [
      | inl i ↦ absurd (true≢false (sym (elem-mem (take limit sorted) x i) ∙ left))
      | inr p ↦ precedes-Before r x p
    ]

length-insert_row :
    (r : TaskRun) (rows : List TaskRun) → length (insert_row r rows) ≡ suc (length rows)
unfolding insert_row
length-insert_row r [] = refl
length-insert_row r (x ∷ rows) = ground (arith, length-insert_row r rows)

length-order_rows : (rows : List TaskRun) → length (order_rows rows) ≡ length rows
unfolding order_rows
length-order_rows [] = refl
length-order_rows (r ∷ rows) =
    length-insert_row r (order_rows rows) ∙ ap suc (length-order_rows rows)

take_of_length-le : (n : ℕ) (rows : List TaskRun) → length rows ≤ n → take n rows ≡ rows
take_of_length-le zero [] h = refl
take_of_length-le zero (x ∷ rows) h = absurd (omega arith)
take_of_length-le (suc n) [] h = refl
take_of_length-le (suc n) (x ∷ rows) h = ap (◌∷◌ x) (take_of_length-le n rows (omega arith))

length-take-le : (n : ℕ) (rows : List TaskRun) → length (map (λ r. r.id) (take n rows)) ≤ n
length-take-le zero rows = omega arith
length-take-le (suc n) [] = omega arith
length-take-le (suc n) (x ∷ rows) = omega (arith, length-take-le n rows)

-- The selection never exceeds the limit, and where the limit covers all the claimable rows none
-- of them is left out.
pub candidates-all :
    (now : ℕ) (locked : ℕ → Bool) (limit : ℕ) (rows : List TaskRun)
    → (length (candidates now locked limit rows) ≤ limit)
      × (length (select (claimable now locked) rows) ≤ limit
          → (x : TaskRun) → Memᴰ x rows
          → claimable now locked x ≡ true
          → elem x.id (candidates now locked limit rows) ≡ true)
unfolding candidates
candidates-all now locked limit rows =
    let waiting = select (claimable now locked) rows in
    (
      length-take-le limit (order_rows waiting),
      λ h x m free.
          let whole : take limit (order_rows waiting) ≡ order_rows waiting =
            take_of_length-le limit (order_rows waiting) (rw (length-order_rows waiting) h) in
          rw whole (
            elem-mem (order_rows waiting) x
              (into-order_rows waiting x (into-select (claimable now locked) rows x m free))),
    )
