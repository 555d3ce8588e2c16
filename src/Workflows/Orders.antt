-- ===== src/Workflows/Orders.antt =====
-- The dictionary of the parents does not depend on the order of the rows, but for the order of its
-- keys and that of each list.
use mathlib.Core.List.Permᴰ
use mathlib.Core.List.{Permᴰ}
use distributed_job_orchestr.Common.{
  ◌≡◌, refl, sym, ap, subst, ◌∙◌, Bool, true, false, ◌||◌, List, [], ◌∷◌, ◌++◌, map, Option, none,
  some, All, Perm, arith, if◌then◌else◌, append-nil, Bool-cases, inl, inr,
}
use distributed_job_orchestr.Common.Text.{Text, text_eq}
use distributed_job_orchestr.Workflows.{TaskSpec, is_in, has_duplicates, keys_of}
use distributed_job_orchestr.Workflows.Publish.{text_eq_refl}
use distributed_job_orchestr.Workflows.Edges.{text_eq_same, parents_with, pairs_of}
use distributed_job_orchestr.Workflows.Grouped.{text_eq_sym, text_eq_other, gather, with_parents}

gather-cons :
    (k : Text) (a : Text × Text) (xs ys : List (Text × Text))
    → Permᴰ (gather k xs) (gather k ys)
    → Permᴰ (gather k (a ∷ xs)) (gather k (a ∷ ys))
gather-cons k (child, p) xs ys r = elim (Bool-cases (text_eq k child)) [
  | inl hit ↦ rw hit (Permᴰ.cons refl r)
  | inr miss ↦ rw miss r
]

gather-swap :
    (k : Text) (a b : Text × Text) (xs : List (Text × Text))
    → Permᴰ (gather k (a ∷ b ∷ xs)) (gather k (b ∷ a ∷ xs))
gather-swap k (i, p) (j, q) xs = elim (Bool-cases (text_eq k i)) [
  | inl hit ↦ elim (Bool-cases (text_eq k j)) [
    | inl also ↦ rw (hit, also) (Permᴰ.swap refl refl)
    | inr other ↦ rw (hit, other) (Permᴰ.refl _)
  ]
  | inr miss ↦ rw miss (Permᴰ.refl _)
]

pub gather-perm :
    (k : Text) {xs ys : List (Text × Text)} → Permᴰ xs ys → Permᴰ (gather k xs) (gather k ys)
gather-perm k Permᴰ.nil = Permᴰ.nil
gather-perm k (Permᴰ.cons {a = a} {b = b} {l₁ = xs} {l₂ = ys} e r) =
    rw e (gather-cons k b xs ys (gather-perm k r))
gather-perm k (Permᴰ.swap {a' = a} {b' = b} {l = xs} e f) = rw (e, f) (gather-swap k b a xs)
gather-perm k (Permᴰ.trans q r) = Permᴰ.trans (gather-perm k q) (gather-perm k r)

pub is_in-perm : (k : Text) {xs ys : List Text} → Permᴰ xs ys → is_in k xs ≡ is_in k ys
is_in-perm k Permᴰ.nil = refl
is_in-perm k (Permᴰ.cons e r) = rw (e, is_in-perm k r) refl
is_in-perm k (Permᴰ.swap e f) = rw (e, f) (ground arith)
is_in-perm k (Permᴰ.trans q r) = is_in-perm k q ∙ is_in-perm k r

or_swap : (e f p q d : Bool) → e ≡ f → ((e || p) || (q || d)) ≡ ((f || q) || (p || d))
or_swap e f p q d h = ground (arith, h)

has_duplicates-swap :
    (a b : Text) (l : List Text) → has_duplicates (b ∷ a ∷ l) ≡ has_duplicates (a ∷ b ∷ l)
has_duplicates-swap a b l =
    or_swap (text_eq a b) (text_eq b a) (is_in b l) (is_in a l) (has_duplicates l) (text_eq_sym a b)

pub has_duplicates-perm : {xs ys : List Text} → Permᴰ xs ys → has_duplicates xs ≡ has_duplicates ys
has_duplicates-perm Permᴰ.nil = refl
has_duplicates-perm (Permᴰ.cons {b = b} e r) = rw (e, is_in-perm b r, has_duplicates-perm r) refl
has_duplicates-perm (Permᴰ.swap {a = x} {b = y} {a' = a} {b' = b} {l = l} e f) =
    ap (λ z. has_duplicates (z ∷ y ∷ l)) e
    ∙ ap (λ z. has_duplicates (b ∷ z ∷ l)) f
    ∙ has_duplicates-swap a b l
has_duplicates-perm (Permᴰ.trans q r) = has_duplicates-perm q ∙ has_duplicates-perm r

-- What a dictionary holds for a key.
abbrev pub parents_of : Text → List (Text × List Text) → Option (List Text)
parents_of k [] = none
parents_of k ((j, ps) ∷ d) = let rest = parents_of k d in if text_eq j k then some ps else rest

pub parents_of-with_parents :
    (k : Text) (pairs : List (Text × Text)) (ks : List Text)
    → is_in k ks ≡ true
    → parents_of k (with_parents pairs ks) ≡ some (gather k pairs)
parents_of-with_parents k pairs [] h = absurd (ground (arith, h))
parents_of-with_parents k pairs (j ∷ ks) h = elim (Bool-cases (text_eq j k)) [
  | inl hit ↦ rw hit (ap (λ i. some (gather i pairs)) (text_eq_same j k hit))
  | inr miss ↦ rw miss (parents_of-with_parents k pairs ks (ground (arith, h, miss)))
]

pub keys-with_parents :
    (pairs : List (Text × Text)) (ks : List Text) → map (λ e. e.0) (with_parents pairs ks) ≡ ks
keys-with_parents pairs [] = refl
keys-with_parents pairs (k ∷ ks) = ap (λ l. k ∷ l) (keys-with_parents pairs ks)

-- The pairs of the definition name its parents for each task.
gather-own :
    (k : Text) (ps : List Text) (rest : List (Text × Text))
    → gather k (parents_with k ps ++ rest) ≡ ps ++ gather k rest
gather-own k [] rest = refl
gather-own k (p ∷ ps) rest = rw (text_eq_refl k) (ap (λ l. p ∷ l) (gather-own k ps rest))

gather-other :
    (k j : Text) (ps : List Text) (rest : List (Text × Text))
    → text_eq k j ≡ false
    → gather k (parents_with j ps ++ rest) ≡ gather k rest
gather-other k j [] rest h = refl
gather-other k j (p ∷ ps) rest h = rw h (gather-other k j ps rest h)

gather-none :
    (k : Text) (tasks : List TaskSpec)
    → is_in k (keys_of tasks) ≡ false
    → gather k (pairs_of tasks) ≡ []
gather-none k [] h = refl
gather-none k (t ∷ tasks) h =
    gather-other k t.key t.depends_on (pairs_of tasks) (text_eq_other t.key k (ground (arith, h)))
    ∙ gather-none k tasks (ground (arith, h))

abbrev Named : List (Text × Text) → List TaskSpec → Type 0
Named pairs tasks = All (λ (t : TaskSpec). gather t.key pairs ≡ t.depends_on) tasks

Named-more :
    (k : Text) (ps : List Text) (rest : List (Text × Text)) (tasks : List TaskSpec)
    → is_in k (keys_of tasks) ≡ false
    → Named rest tasks
    → Named (parents_with k ps ++ rest) tasks
Named-more k ps rest [] h n = tt
Named-more k ps rest (t ∷ tasks) h (here, n) = (
  gather-other t.key k ps rest (ground (arith, h)) ∙ here,
  Named-more k ps rest tasks (ground (arith, h)) n,
)

pub gather-pairs_of :
    (tasks : List TaskSpec)
    → has_duplicates (keys_of tasks) ≡ false
    → All (λ (t : TaskSpec). gather t.key (pairs_of tasks) ≡ t.depends_on) tasks
gather-pairs_of [] h = tt
gather-pairs_of (t ∷ tasks) h =
    let away : is_in t.key (keys_of tasks) ≡ false = ground (arith, h) in
    (
      gather-own t.key t.depends_on (pairs_of tasks)
          ∙ ap (λ l. t.depends_on ++ l) (gather-none t.key tasks away)
          ∙ append-nil t.depends_on,
      Named-more t.key t.depends_on (pairs_of tasks) tasks away
          (gather-pairs_of tasks (ground (arith, h))),
    )

-- Each key of the definition once, with its parents, each in some order.
abbrev pub Restored : List TaskSpec → List (Text × List Text) → Type 0
Restored tasks d =
    Perm (keys_of tasks) (map (λ e. e.0) d)
    × All
        (λ (t : TaskSpec). (ps : List Text) × (parents_of t.key d ≡ some ps) × Perm t.depends_on ps)
        tasks

each_task :
    (pairs rows : List (Text × Text)) (ks : List Text) (tasks : List TaskSpec)
    → Permᴰ pairs rows
    → All (λ (t : TaskSpec). is_in t.key ks ≡ true) tasks
    → Named pairs tasks
    → All
        (λ (t : TaskSpec).
          (ps : List Text) × (parents_of t.key (with_parents rows ks) ≡ some ps)
          × Perm t.depends_on ps)
        tasks
each_task pairs rows ks [] q i n = tt
each_task pairs rows ks (t ∷ tasks) q (here, i) (is, n) = (
  (
    gather t.key rows,
    parents_of-with_parents t.key rows ks here,
    ∣ subst (λ l. Permᴰ l (gather t.key rows)) is (gather-perm t.key q) ∣₁,
  ),
  each_task pairs rows ks tasks q i n,
)

moved_keys :
    (tasks : List TaskSpec) (ks ls : List Text)
    → Permᴰ ks ls
    → All (λ (t : TaskSpec). is_in t.key ks ≡ true) tasks
    → All (λ (t : TaskSpec). is_in t.key ls ≡ true) tasks
moved_keys [] ks ls q h = tt
moved_keys (t ∷ tasks) ks ls q (i, h) = (sym (is_in-perm t.key q) ∙ i, moved_keys tasks ks ls q h)

pub with_parents-Restored :
    (tasks : List TaskSpec) (ks : List Text) (rows : List (Text × Text))
    → has_duplicates (keys_of tasks) ≡ false
    → All (λ (t : TaskSpec). is_in t.key (keys_of tasks) ≡ true) tasks
    → Permᴰ (keys_of tasks) ks
    → Permᴰ (pairs_of tasks) rows
    → Restored tasks (with_parents rows ks)
with_parents-Restored tasks ks rows once inside q r = (
  subst (Perm (keys_of tasks)) (sym (keys-with_parents rows ks)) ∣ q ∣₁,
  each_task (pairs_of tasks) rows ks tasks r (moved_keys tasks (keys_of tasks) ks q inside)
      (gather-pairs_of tasks once),
)
