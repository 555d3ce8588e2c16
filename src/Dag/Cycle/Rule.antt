-- ===== src/Dag/Cycle/Rule.antt =====
-- The rule by which the depth-first search is shown to keep an invariant.
use distributed_job_orchestr.Common.{
  ℕ, zero, suc, ◌+◌, ◌≡◌, ◌≢◌, ◌⊎◌, refl, sym, subst, List, [], ◌∷◌, ◌++◌, none, some, arith, ◌==◌,
  Option-cases, inl, inr, if◌then◌else◌,
}
use distributed_job_orchestr.Common.Dict.{put, lookup-put}
use distributed_job_orchestr.Dag.{Dag, items}
use distributed_job_orchestr.Dag.Cycle.{
  Colour, white, grey, black, colour, nth, from_node, drop_last, Outcome, found, explored,
  unfinished, search_from, start_search,
}

pub colour-put :
    (x n : ℕ) (c : Colour) (d : List (ℕ × Colour))
    → colour x (put n c d) ≡ (if n == x then c else colour x d)
colour-put x n c d = ground (arith, lookup-put x n c d)

pub Colour-cases : (c : Colour) → (c ≡ grey) ⊎ ((c ≡ white) ⊎ (c ≡ black))
Colour-cases c = ground arith

-- An invariant of the loop, by its rounds, and what it gives of the outcome.
pub record SearchRule (g : Dag) (I : ℕ → List (ℕ × Colour) → List (ℕ × ℕ) → List ℕ → Type 0)
    (Q : Outcome → Type 0) : Type 0 where
  pub starved :
      (colours : List (ℕ × Colour)) (stack : List (ℕ × ℕ)) (path : List ℕ)
      → I 0 colours stack path
      → Q unfinished
  pub finish :
      (fuel : ℕ) (colours : List (ℕ × Colour)) (path : List ℕ)
      → I (suc fuel) colours [] path
      → Q (explored colours)
  pub leave :
      (fuel n i : ℕ) (colours : List (ℕ × Colour)) (stack : List (ℕ × ℕ)) (path : List ℕ)
      → I (suc fuel) colours ((n, i) ∷ stack) path
      → nth i (items n g.children) ≡ none
      → I fuel (put n black colours) stack (drop_last path)
  pub back :
      (fuel n i child : ℕ) (colours : List (ℕ × Colour)) (stack : List (ℕ × ℕ)) (path : List ℕ)
      → I (suc fuel) colours ((n, i) ∷ stack) path
      → nth i (items n g.children) ≡ some child
      → colour child colours ≡ grey
      → Q (found (from_node child path ++ child ∷ []))
  pub enter :
      (fuel n i child : ℕ) (colours : List (ℕ × Colour)) (stack : List (ℕ × ℕ)) (path : List ℕ)
      → I (suc fuel) colours ((n, i) ∷ stack) path
      → nth i (items n g.children) ≡ some child
      → colour child colours ≡ white
      → I fuel (put child grey colours) ((child, 0) ∷ (n, i + 1) ∷ stack) (path ++ child ∷ [])
  pub skip :
      (fuel n i child : ℕ) (colours : List (ℕ × Colour)) (stack : List (ℕ × ℕ)) (path : List ℕ)
      → I (suc fuel) colours ((n, i) ∷ stack) path
      → nth i (items n g.children) ≡ some child
      → colour child colours ≡ black
      → I fuel colours ((n, i + 1) ∷ stack) path

module _ {g : Dag} {I : ℕ → List (ℕ × Colour) → List (ℕ × ℕ) → List ℕ → Type 0}
    {Q : Outcome → Type 0} where
  pub search_rule :
      SearchRule g I Q
      → (fuel : ℕ) (colours : List (ℕ × Colour)) (stack : List (ℕ × ℕ)) (path : List ℕ)
      → I fuel colours stack path
      → Q (search_from fuel g colours stack path)
  unfolding search_from
  search_rule r zero colours stack path v = r.starved colours stack path v
  search_rule r (suc fuel) colours [] path v = r.finish fuel colours path v
  search_rule r (suc fuel) colours ((n, i) ∷ stack) path v =
      elim (Option-cases (nth i (items n g.children))) [
        | inl done ↦
            let step : search_from (suc fuel) g colours ((n, i) ∷ stack) path
                ≡ search_from fuel g (put n black colours) stack (drop_last path) =
              rw (done, search_from) refl in
            subst Q (sym step) (
              search_rule r fuel (put n black colours) stack (drop_last path)
                (r.leave fuel n i colours stack path v done))
        | inr (child, at) ↦ elim (Colour-cases (colour child colours)) [
          | inl is_grey ↦
              let step : search_from (suc fuel) g colours ((n, i) ∷ stack) path
                  ≡ found (from_node child path ++ child ∷ []) =
                rw (at, is_grey, search_from) refl in
              subst Q (sym step) (r.back fuel n i child colours stack path v at is_grey)
          | inr (inl is_white) ↦
              let step : search_from (suc fuel) g colours ((n, i) ∷ stack) path
                  ≡ search_from fuel g (put child grey colours) ((child, 0) ∷ (n, i + 1) ∷ stack)
                      (path ++ child ∷ []) =
                rw (at, is_white, search_from) refl in
              subst Q (sym step) (
                search_rule r fuel (put child grey colours) ((child, 0) ∷ (n, i + 1) ∷ stack)
                  (path ++ child ∷ []) (r.enter fuel n i child colours stack path v at is_white))
          | inr (inr is_black) ↦
              let step : search_from (suc fuel) g colours ((n, i) ∷ stack) path
                  ≡ search_from fuel g colours ((n, i + 1) ∷ stack) path =
                rw (at, is_black, search_from) refl in
              subst Q (sym step) (
                search_rule r fuel colours ((n, i + 1) ∷ stack) path
                  (r.skip fuel n i child colours stack path v at is_black))
        ]
      ]

  -- The search from one start, if it is white.
  pub start_rule :
      SearchRule g I Q
      → (fuel : ℕ) (colours : List (ℕ × Colour)) (start : ℕ)
      → (colour start colours ≢ white → Q (explored colours))
      → (colour start colours ≡ white
          → I fuel (put start grey colours) ((start, 0) ∷ []) (start ∷ []))
      → Q (start_search fuel g colours start)
  unfolding start_search
  start_rule r fuel colours start known new = elim (Colour-cases (colour start colours)) [
    | inl is_grey ↦
        let step : start_search fuel g colours start ≡ explored colours =
          rw (is_grey, start_search) refl in
        subst Q (sym step) (known (ground (arith, is_grey)))
    | inr (inl is_white) ↦
        let step : start_search fuel g colours start
            ≡ search_from fuel g (put start grey colours) ((start, 0) ∷ []) (start ∷ []) =
          rw (is_white, start_search) refl in
        subst Q (sym step) (
          search_rule r fuel (put start grey colours) ((start, 0) ∷ []) (start ∷ []) (new is_white))
    | inr (inr is_black) ↦
        let step : start_search fuel g colours start ≡ explored colours =
          rw (is_black, start_search) refl in
        subst Q (sym step) (known (ground (arith, is_black)))
  ]
