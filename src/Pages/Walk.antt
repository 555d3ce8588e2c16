-- ===== src/Pages/Walk.antt =====
-- A client that follows the cursors reads every row once, in order.
use distributed_job_orchestr.Common.{
  ℕ, zero, suc, ◌≤◌, ◌<◌, ◌≡◌, refl, ap, ◌∙◌, true, false, List, [], ◌∷◌, ◌++◌, some, All, arith,
  length, take, ◌==◌, Bool-cases, inl, inr,
}
use distributed_job_orchestr.Pages.{Cursor, below, insert_row, newest_first, older, row_at}

below_flip : (c d : Cursor) → below c d ≡ true → below d c ≡ false
below_flip c d h = ground (arith, h)

below_total : (c d : Cursor) → (c.id == d.id) ≡ false → below c d ≡ false → below d c ≡ true
below_total c d apart h = ground (arith, apart, h)

below_trans : (c d e : Cursor) → below c d ≡ true → below d e ≡ true → below c e ≡ true
below_trans c d e h k = ground (arith, h, k)

module _ {A : Type 0} (cursor_of : A → Cursor) where
  -- Every row comes strictly before the ones behind it.
  abbrev pub Descending : List A → Type 0
  Descending [] = Unit
  Descending (x ∷ xs) = All (λ y. below (cursor_of y) (cursor_of x) ≡ true) xs × Descending xs

  -- No two rows have the same id.
  abbrev pub DistinctIds : List A → Type 0
  DistinctIds [] = Unit
  DistinctIds (x ∷ xs) =
      All (λ y. ((cursor_of x).id == (cursor_of y).id) ≡ false) xs × DistinctIds xs

  all_insert :
      (P : A → Type 0) (r : A) (rows : List A)
      → P r
      → All P rows
      → All P (insert_row cursor_of r rows)
  all_insert P r [] p h = (p, tt)
  all_insert P r (x ∷ rows) p h = elim (Bool-cases (below (cursor_of x) (cursor_of r))) [
    | inl hit ↦ rw hit (p, h)
    | inr miss ↦ rw miss (h.0, all_insert P r rows p h.1)
  ]

  all_newest : (P : A → Type 0) (rows : List A) → All P rows → All P (newest_first cursor_of rows)
  all_newest P [] h = tt
  all_newest P (r ∷ rows) h =
      all_insert P r (newest_first cursor_of rows) h.0 (all_newest P rows h.1)

  all_below :
      (c d : Cursor) (rows : List A)
      → below c d ≡ true
      → All (λ y. below (cursor_of y) c ≡ true) rows
      → All (λ y. below (cursor_of y) d ≡ true) rows
  all_below c d [] h k = tt
  all_below c d (x ∷ rows) h k = (below_trans (cursor_of x) c d k.0 h, all_below c d rows h k.1)

  insert_row-Descending :
      (r : A) (rows : List A)
      → All (λ y. ((cursor_of r).id == (cursor_of y).id) ≡ false) rows
      → Descending rows
      → Descending (insert_row cursor_of r rows)
  insert_row-Descending r [] a d = (tt, tt)
  insert_row-Descending r (x ∷ rows) a d = elim (Bool-cases (below (cursor_of x) (cursor_of r))) [
    | inl hit ↦ rw hit ((hit, all_below (cursor_of x) (cursor_of r) rows hit d.0), d)
    | inr miss ↦
        let over : below (cursor_of r) (cursor_of x) ≡ true =
          below_total (cursor_of x) (cursor_of r) (ground (arith, a.0)) miss in
        rw miss (
          all_insert (λ y. below (cursor_of y) (cursor_of x) ≡ true) r rows over d.0,
          insert_row-Descending r rows a.1 d.1,
        )
  ]

  pub newest_first-Descending :
      (rows : List A) → DistinctIds rows → Descending (newest_first cursor_of rows)
  newest_first-Descending [] u = tt
  newest_first-Descending (r ∷ rows) u =
      insert_row-Descending r (newest_first cursor_of rows)
        (all_newest (λ y. ((cursor_of r).id == (cursor_of y).id) ≡ false) rows u.0)
        (newest_first-Descending rows u.1)

  length-insert_row :
      (r : A) (rows : List A) → length (insert_row cursor_of r rows) ≡ suc (length rows)
  length-insert_row r [] = refl
  length-insert_row r (x ∷ rows) = elim (Bool-cases (below (cursor_of x) (cursor_of r))) [
    | inl hit ↦ rw hit refl
    | inr miss ↦ rw miss (ap suc (length-insert_row r rows))
  ]

  pub length-newest_first : (rows : List A) → length (newest_first cursor_of rows) ≡ length rows
  length-newest_first [] = refl
  length-newest_first (r ∷ rows) =
      length-insert_row r (newest_first cursor_of rows) ∙ ap suc (length-newest_first rows)

  older-all :
      (c : Cursor) (rows : List A)
      → All (λ y. below (cursor_of y) c ≡ true) rows
      → older cursor_of (some c) rows ≡ rows
  older-all c [] h = refl
  older-all c (x ∷ rows) h = rw h.0 (ap (λ l. x ∷ l) (older-all c rows h.1))

  all_middle : (P : A → Type 0) (xs : List A) (c : A) (ys : List A) → All P (xs ++ c ∷ ys) → P c
  all_middle P [] c ys h = h.0
  all_middle P (x ∷ xs) c ys h = all_middle P xs c ys h.1

  -- In the ordered list the rows below one of its rows are those behind it.
  pub older-split :
      (xs : List A) (c : A) (ys : List A)
      → Descending (xs ++ c ∷ ys)
      → older cursor_of (some (cursor_of c)) (xs ++ c ∷ ys) ≡ ys
  older-split [] c ys d =
      let self : below (cursor_of c) (cursor_of c) ≡ false = ground arith in
      rw self (older-all (cursor_of c) ys d.0)
  older-split (x ∷ xs) c ys d =
      let over : below (cursor_of x) (cursor_of c) ≡ false =
        below_flip (cursor_of c) (cursor_of x)
          (all_middle (λ y. below (cursor_of y) (cursor_of x) ≡ true) xs c ys d.0) in
      rw over (older-split xs c ys d.1)

  -- A list that is longer than a page, cut at the page's last row.
  pub cut_at :
      (n : ℕ) (rows : List A)
      → suc n < length rows
      → (xs : List A) × (c : A) × (y : A) × (ys : List A) × (rows ≡ xs ++ c ∷ y ∷ ys)
        × (length xs ≡ n)
  cut_at n [] h = absurd (omega (arith, h))
  cut_at n (x ∷ []) h = absurd (omega (arith, h))
  cut_at zero (x ∷ y ∷ rows) h = ([], x, y, rows, refl, refl)
  cut_at (suc n) (x ∷ y ∷ rows) h =
      let (xs, c, z, ys, e, size) = cut_at n (y ∷ rows) (omega (arith, h)) in
      (x ∷ xs, c, z, ys, ap (λ l. x ∷ l) e, ap suc size)

  pub take-probe :
      (xs : List A) (c y : A) (ys : List A)
      → take (suc (suc (length xs))) (xs ++ c ∷ y ∷ ys) ≡ xs ++ c ∷ y ∷ []
  take-probe [] c y ys = refl
  take-probe (x ∷ xs) c y ys = ap (λ l. x ∷ l) (take-probe xs c y ys)

  pub take-page : (xs : List A) (c y : A) → take (suc (length xs)) (xs ++ c ∷ y ∷ []) ≡ xs ++ c ∷ []
  take-page [] c y = refl
  take-page (x ∷ xs) c y = ap (λ l. x ∷ l) (take-page xs c y)

  pub row_at-page :
      (xs : List A) (c y : A) → row_at cursor_of (length xs) (xs ++ c ∷ y ∷ []) ≡ some c
  row_at-page [] c y = refl
  row_at-page (x ∷ xs) c y = row_at-page xs c y

  pub take-short : (n : ℕ) (rows : List A) → length rows ≤ n → take n rows ≡ rows
  take-short zero [] h = refl
  take-short zero (x ∷ rows) h = absurd (omega (arith, h))
  take-short (suc n) [] h = refl
  take-short (suc n) (x ∷ rows) h = ap (λ l. x ∷ l) (take-short n rows (omega (arith, h)))
