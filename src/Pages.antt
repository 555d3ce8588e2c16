-- ===== src/Pages.antt =====
-- Keyset pagination: the cursor and the page of db/repositories/base.py, and the two methods
-- `list_page`. A UUID and an instant are numbers; the token of a cursor is what `encode` gives for
-- it, or a text that `decode` refuses.
pub mod Walk
pub mod Follow
pub mod Runs
mod Examples
use distributed_job_orchestr.Common.{
  ℕ, zero, suc, ◌+◌, ◌-◌, Bool, true, false, ◌&&◌, ◌||◌, List, [], ◌∷◌, ◌++◌, Option, none, some,
  length, take, ltb, ◌==◌, if◌then◌else◌,
}

-- Cursor
pub record Cursor : Type 0 where
  pub created_at : ℕ
  pub id : ℕ

-- The texts that a client can send: those of `Cursor.encode`, and malformed ones.
pub data Token : Type 0 where
  encoded : Cursor → Token
  malformed : Token

-- Cursor.encode
abbrev pub encode : Cursor → Token
encode c = encoded c

-- Cursor.decode; `none` is the ValueError of a malformed cursor.
abbrev pub decode : Token → Option Cursor
decode (encoded c) = some c
decode malformed = none

-- Page
pub record Page (A : Type 0) : Type 0 where
  pub items : List A
  pub next_cursor : Option Token

-- Page.has_more
unfoldable pub has_more : {A : Type 0} → Page A → Bool
has_more p = elim p.next_cursor [ none ↦ false | some t ↦ true ]

-- The row value comparison `(created_at, id) < (position.created_at, position.id)`
abbrev pub below : Cursor → Cursor → Bool
below c d = ltb c.created_at d.created_at || c.created_at == d.created_at && ltb c.id d.id

module _ {A : Type 0} (cursor_of : A → Cursor) where
  -- ORDER BY created_at DESC, id DESC
  abbrev pub insert_row : A → List A → List A
  insert_row r [] = r ∷ []
  insert_row r (x ∷ rows) =
      let later = x ∷ insert_row r rows in
      if below (cursor_of x) (cursor_of r) then r ∷ x ∷ rows else later

  abbrev pub newest_first : List A → List A
  newest_first [] = []
  newest_first (r ∷ rows) = insert_row r (newest_first rows)

  -- WHERE (created_at, id) < position, if there is one
  abbrev pub older : Option Cursor → List A → List A
  older none rows = rows
  older (some position) [] = []
  older (some position) (r ∷ rows) =
      let rest = older (some position) rows in
      if below (cursor_of r) position then r ∷ rest else rest

  -- `rows[limit - 1]`
  abbrev pub row_at : ℕ → List A → Option A
  row_at n [] = none
  row_at zero (r ∷ rows) = some r
  row_at (suc n) (r ∷ rows) = row_at n rows

  abbrev pub token_of : Option A → Option Token
  token_of none = none
  token_of (some r) = some (encode (cursor_of r))

  -- the page of the rows that the query with `LIMIT limit + 1` returns
  unfoldable pub make_page : ℕ → List A → Page A
  make_page limit rows =
      if ltb limit (length rows)
      then record { items = take limit rows; next_cursor = token_of (row_at (limit - 1) rows) }
      else record { items = rows; next_cursor = none }

  -- list_page, from the decoded cursor on
  unfoldable pub page_after : ℕ → Option Cursor → List A → Page A
  unfolding make_page
  page_after limit position rows =
      make_page limit (take (limit + 1) (older position (newest_first rows)))

  -- list_page; `none` is the exception of a malformed cursor.
  unfoldable pub list_page : ℕ → Option Token → List A → Option (Page A)
  unfolding page_after
  list_page limit none rows = some (page_after limit none rows)
  list_page limit (some token) rows = elim (decode token) [
    | none ↦ none
    | some position ↦ some (page_after limit (some position) rows)
  ]

  -- A client that follows the cursors; `none` when the rounds run out or a token is refused.
  unfoldable pub follow : ℕ → ℕ → Option Token → List A → Option (List A)
  unfolding list_page
  follow zero limit token rows = none
  follow (suc fuel) limit token rows = elim (list_page limit token rows) [
    | none ↦ none
    | some p ↦ elim p.next_cursor [
      | none ↦ some p.items
      | some next ↦ elim (follow fuel limit (some next) rows) [
        | none ↦ none
        | some rest ↦ some (p.items ++ rest)
      ]
    ]
  ]
