-- ===== src/Pages/Follow.antt =====
-- Following the cursors: each page continues where the one before it ended.
use distributed_job_orchestr.Common.{
  ℕ, zero, suc, ◌+◌, ◌-◌, ◌≤◌, ◌<◌, ◌≡◌, refl, sym, ap, subst, ◌∙◌, true, false, List, [], ◌∷◌,
  ◌++◌, Option, none, some, arith, length, take, length-append, append_assoc, ltb, Bool-cases, inl,
  inr,
}
use distributed_job_orchestr.Pages.{
  Cursor, Token, encode, newest_first, older, row_at, token_of, make_page, page_after, list_page,
  follow,
}
use distributed_job_orchestr.Pages.Walk.{
  Descending, DistinctIds, newest_first-Descending, length-newest_first, older-split, cut_at,
  take-probe, take-page, row_at-page, take-short,
}

module _ {A : Type 0} (cursor_of : A → Cursor) where
  -- The last page holds the rest of the rows and has no cursor.
  page_after-last :
      (limit : ℕ) (position : Option Cursor) (rows rest : List A)
      → older cursor_of position (newest_first cursor_of rows) ≡ rest
      → length rest ≤ limit
      → page_after cursor_of limit position rows ≡ record { items = rest; next_cursor = none }
  unfolding page_after make_page
  page_after-last limit position rows rest e h =
      let short : take (limit + 1) rest ≡ rest =
        take-short cursor_of (limit + 1) rest (omega (arith, h)) in
      let fits : ltb limit (length rest) ≡ false = ground (arith, h) in rw (e, short, fits) refl

  -- Another page ends at a row, whose cursor it names.
  page_after-more :
      (n : ℕ) (position : Option Cursor) (rows xs : List A) (c y : A) (ys : List A)
      → older cursor_of position (newest_first cursor_of rows) ≡ xs ++ c ∷ y ∷ ys
      → length xs ≡ n
      → page_after cursor_of (suc n) position rows
        ≡ record { items = xs ++ c ∷ []; next_cursor = some (encode (cursor_of c)) }
  unfolding page_after make_page
  page_after-more n position rows xs c y ys e size =
      let one_over : suc (suc (length xs)) ≡ suc n + 1 = omega (arith, size) in
      let at_end : length xs ≡ suc n - 1 = omega (arith, size) in
      let probe : take (suc n + 1) (xs ++ c ∷ y ∷ ys) ≡ xs ++ c ∷ y ∷ [] =
        subst (λ m. take m (xs ++ c ∷ y ∷ ys) ≡ xs ++ c ∷ y ∷ []) one_over
          (take-probe cursor_of xs c y ys) in
      let over : ltb (suc n) (length (xs ++ c ∷ y ∷ [])) ≡ true =
        ground (arith, length-append xs (c ∷ y ∷ []), size) in
      let items : take (suc n) (xs ++ c ∷ y ∷ []) ≡ xs ++ c ∷ [] =
        subst (λ m. take (suc m) (xs ++ c ∷ y ∷ []) ≡ xs ++ c ∷ []) size
          (take-page cursor_of xs c y) in
      let last : row_at cursor_of (suc n - 1) (xs ++ c ∷ y ∷ []) ≡ some c =
        subst (λ m. row_at cursor_of m (xs ++ c ∷ y ∷ []) ≡ some c) at_end
          (row_at-page cursor_of xs c y) in
      rw (e, probe, over, items, last, token_of) refl

  abbrev token_for : Option Cursor → Option Token
  token_for none = none
  token_for (some c) = some (encode c)

  list_page-token :
      (limit : ℕ) (position : Option Cursor) (rows : List A)
      → list_page cursor_of limit (token_for position) rows
        ≡ some (page_after cursor_of limit position rows)
  unfolding list_page
  list_page-token limit none rows = refl
  list_page-token limit (some c) rows = refl

  -- The pages from a position on hold what is left of the ordered list.
  follow-rest :
      (fuel n : ℕ) (position : Option Cursor) (rows pre rest : List A)
      → Descending cursor_of (newest_first cursor_of rows)
      → newest_first cursor_of rows ≡ pre ++ rest
      → older cursor_of position (newest_first cursor_of rows) ≡ rest
      → length rest < fuel
      → follow cursor_of fuel (suc n) (token_for position) rows ≡ some rest
  unfolding follow
  follow-rest zero n position rows pre rest d whole e h = absurd (omega (arith, h))
  follow-rest (suc fuel) n position rows pre rest d whole e h =
      elim (Bool-cases (ltb (suc n) (length rest))) [
        | inr fits ↦
            let last = page_after-last (suc n) position rows rest e (ground (arith, fits)) in
            rw (follow, list_page-token (suc n) position rows, last, last) refl
        | inl over ↦
            let (xs, c, y, ys, split, size) = cut_at cursor_of n rest (ground (arith, over)) in
            let more = page_after-more n position rows xs c y ys (e ∙ split) size in
            let whole' : newest_first cursor_of rows ≡ (pre ++ xs) ++ c ∷ y ∷ ys =
              whole ∙ ap (λ l. pre ++ l) split ∙ sym (append_assoc pre xs (c ∷ y ∷ ys)) in
            let next : older cursor_of (some (cursor_of c)) (newest_first cursor_of rows) ≡ y ∷ ys =
              rw whole' (
                older-split cursor_of (pre ++ xs) c (y ∷ ys)
                  (subst (Descending cursor_of) whole' d)) in
            let whole'' : newest_first cursor_of rows ≡ ((pre ++ xs) ++ c ∷ []) ++ y ∷ ys =
              whole' ∙ sym (append_assoc (pre ++ xs) (c ∷ []) (y ∷ ys)) in
            let sizes = ap length split ∙ length-append xs (c ∷ y ∷ ys) in
            let tail =
              follow-rest fuel n (some (cursor_of c)) rows ((pre ++ xs) ++ c ∷ []) (y ∷ ys) d
                whole'' next (omega (arith, sizes, h)) in
            let pages : (xs ++ c ∷ []) ++ y ∷ ys ≡ rest =
              append_assoc xs (c ∷ []) (y ∷ ys) ∙ sym split in
            rw (follow, list_page-token (suc n) position rows, more, tail, more) (ap some pages)
      ]

  -- When no two rows have the same id and a page holds at least one row, a client that starts
  -- without a cursor and follows the cursor of each page reads all rows, each once, in the order
  -- of creation time and id, the newest first, with at most one page more than there are rows.
  pub follow-all :
      (limit : ℕ) (rows : List A)
      → 0 < limit
      → DistinctIds cursor_of rows
      → follow cursor_of (length rows + 1) limit none rows ≡ some (newest_first cursor_of rows)
  follow-all zero rows pos u = absurd (omega (arith, pos))
  follow-all (suc n) rows pos u =
      let sizes = length-newest_first cursor_of rows in
      follow-rest (length rows + 1) n none rows [] (newest_first cursor_of rows)
        (newest_first-Descending cursor_of rows u) refl refl (omega (arith, sizes))
