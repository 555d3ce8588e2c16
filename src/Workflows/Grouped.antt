-- ===== src/Workflows/Grouped.antt =====
-- The lists of the parents, put together from the pairs of keys in any order.
use distributed_job_orchestr.Common.{
  ℕ, ◌≡◌, refl, sym, ap, subst, ◌∙◌, true, false, List, [], ◌∷◌, ◌++◌, map, All, arith,
  if◌then◌else◌, append_assoc, append-nil, ◌==◌, Bool-cases, inl, inr,
}
use distributed_job_orchestr.Common.Text.{Text, text_eq}
use distributed_job_orchestr.Queue.Rows.{Task}
use distributed_job_orchestr.Workflows.{
  TaskSpec, is_in, has_duplicates, keys_of, keys_in, task_rows, append_parent, append_parents,
}
use distributed_job_orchestr.Workflows.Publish.{text_eq_refl}
use distributed_job_orchestr.Workflows.Edges.{text_eq_same}

-- The tasks of the workflow, and no others, are its rows.
pub keys_in-task_rows :
    (id : ℕ) (fresh : Text → ℕ) (tasks : List TaskSpec)
    → keys_in id (task_rows id fresh tasks) ≡ keys_of tasks
keys_in-task_rows id fresh [] = refl
keys_in-task_rows id fresh (t ∷ tasks) =
    let same : (id == id) ≡ true = ground arith in rw (same, keys_in-task_rows id fresh tasks) refl

pub keys_in-append :
    (id : ℕ) (old rows : List Task)
    → All (λ (t : Task). (t.workflow_id == id) ≡ false) old
    → keys_in id (old ++ rows) ≡ keys_in id rows
keys_in-append id [] rows h = refl
keys_in-append id (t ∷ old) rows (other, h) = rw other (keys_in-append id old rows h)

pub text_eq_other : (s t : Text) → text_eq s t ≡ false → text_eq t s ≡ false
text_eq_other s t h = elim (Bool-cases (text_eq t s)) [
  | inl hit ↦
      let same : text_eq s s ≡ false = subst (λ u. text_eq s u ≡ false) (text_eq_same t s hit) h in
      absurd (ground (arith, same, text_eq_refl s))
  | inr miss ↦ miss
]

pub text_eq_sym : (s t : Text) → text_eq s t ≡ text_eq t s
text_eq_sym s t = elim (Bool-cases (text_eq s t)) [
  | inl hit ↦
      let same : t ≡ s = sym (text_eq_same s t hit) in
      ap (λ u. text_eq s u) same ∙ ap (λ u. text_eq u s) (sym same)
  | inr miss ↦ miss ∙ sym (text_eq_other s t miss)
]

-- The parents that the rows name for a key.
abbrev pub gather : Text → List (Text × Text) → List Text
gather k [] = []
gather k ((child, p) ∷ pairs) =
    let rest = gather k pairs in if text_eq k child then p ∷ rest else rest

abbrev pub with_parents : List (Text × Text) → List Text → List (Text × List Text)
with_parents pairs ks = map (λ k. (k, gather k pairs)) ks

-- What one append does to the lists of a dictionary with distinct keys.
abbrev grown : Text → Text → Text → List Text → List Text
grown child p k ps = if text_eq k child then ps ++ p ∷ [] else ps

abbrev entries : (Text → List Text) → List Text → List (Text × List Text)
entries f ks = map (λ k. (k, f k)) ks

entries_away :
    (f : Text → List Text) (child p : Text) (ks : List Text)
    → is_in child ks ≡ false
    → entries f ks ≡ entries (λ k. grown child p k (f k)) ks
entries_away f child p [] h = refl
entries_away f child p (k ∷ ks) h =
    let miss : text_eq k child ≡ false = ground (arith, h) in
    rw (miss, entries_away f child p ks (ground (arith, h))) refl

append_parent-entries :
    (f : Text → List Text) (child p : Text) (ks : List Text)
    → has_duplicates ks ≡ false
    → append_parent child p (entries f ks) ≡ entries (λ k. grown child p k (f k)) ks
append_parent-entries f child p [] h = refl
append_parent-entries f child p (k ∷ ks) h = elim (Bool-cases (text_eq k child)) [
  | inl hit ↦
      let away : is_in child ks ≡ false =
        subst (λ j. is_in j ks ≡ false) (text_eq_same k child hit) (ground (arith, h)) in
      rw hit (ap (λ d. (k, f k ++ p ∷ []) ∷ d) (entries_away f child p ks away))
  | inr miss ↦
      rw miss (ap (λ d. (k, f k) ∷ d) (append_parent-entries f child p ks (ground (arith, h))))
]

entries_same :
    (f g : Text → List Text) (ks : List Text)
    → ((k : Text) → f k ≡ g k)
    → entries f ks ≡ entries g ks
entries_same f g [] h = refl
entries_same f g (k ∷ ks) h = rw (h k, entries_same f g ks h) refl

grown-gather :
    (child p k : Text) (ps : List Text) (pairs : List (Text × Text))
    → grown child p k ps ++ gather k pairs ≡ ps ++ gather k ((child, p) ∷ pairs)
grown-gather child p k ps pairs = elim (Bool-cases (text_eq k child)) [
  | inl hit ↦ rw hit (append_assoc ps (p ∷ []) (gather k pairs))
  | inr miss ↦ rw miss refl
]

append_parents-entries :
    (f : Text → List Text) (pairs : List (Text × Text)) (ks : List Text)
    → has_duplicates ks ≡ false
    → append_parents pairs (entries f ks) ≡ entries (λ k. f k ++ gather k pairs) ks
append_parents-entries f [] ks h = entries_same f (λ k. f k ++ []) ks (λ k. sym (append-nil (f k)))
append_parents-entries f ((child, p) ∷ pairs) ks h =
    ap (append_parents pairs) (append_parent-entries f child p ks h)
    ∙ append_parents-entries (λ k. grown child p k (f k)) pairs ks h
    ∙ entries_same (λ k. grown child p k (f k) ++ gather k pairs)
        (λ k. f k ++ gather k ((child, p) ∷ pairs)) ks (λ k. grown-gather child p k (f k) pairs)

-- The loop gives each key the parents that the rows name for it.
pub append_parents-gather :
    (pairs : List (Text × Text)) (ks : List Text)
    → has_duplicates ks ≡ false
    → append_parents pairs (map (λ k. (k, [])) ks) ≡ with_parents pairs ks
append_parents-gather pairs ks h = append_parents-entries (λ _. []) pairs ks h
