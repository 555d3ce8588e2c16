-- ===== src/Pages/Examples.antt =====
-- Three rows, two of the same instant, read in pages of two.
use distributed_job_orchestr.Common.{ℕ, ◌+◌, ◌≡◌, refl, List, [], ◌∷◌, none, some, length, arith}
use distributed_job_orchestr.Pages.{Cursor, encoded, newest_first, list_page, follow}
use distributed_job_orchestr.Pages.Follow.{follow-all}

abbrev row : ℕ → ℕ → Cursor
row t i = record { created_at = t; id = i }

abbrev rows : List Cursor
rows = row 10 1 ∷ row 20 3 ∷ row 20 2 ∷ []

abbrev itself : Cursor → Cursor
itself r = r

follow-all_example : follow itself (length rows + 1) 2 none rows ≡ some (newest_first itself rows)
follow-all_example = follow-all itself 2 rows (ground arith) (ground arith)

first_page :
    list_page itself 2 none rows
    ≡ some (record { items = row 20 3 ∷ row 20 2 ∷ []; next_cursor = some (encoded (row 20 2)) })
unfolding list_page
first_page = refl

second_page :
    list_page itself 2 (some (encoded (row 20 2))) rows
    ≡ some (record { items = row 10 1 ∷ []; next_cursor = none })
unfolding list_page
second_page = refl
