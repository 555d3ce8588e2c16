-- ===== src/Queue/Monad.antt =====
-- Statements against the tables: a transaction that raises is rolled back, so a failure returns
-- no store.
use distributed_job_orchestr.Common.{
  ℕ, suc, Bool, true, false, List, [], ◌∷◌, Option, none, some, if◌then◌else◌,
}
use distributed_job_orchestr.Retry
use distributed_job_orchestr.Queue.Rows.{TaskRun, Store, checks}

-- What an operation can raise: a CHECK constraint, the ConflictError of a unique constraint, a
-- missing key, a ValueError, an exception of the retry policy, or the model's fuel.
pub data Error : Type 0 where
  integrity_error conflict_error key_error value_error out_of_fuel : Error
  policy_error : Retry.Error → Error

pub data Result {ℓ} (A : Type ℓ) : Type ℓ where
  ok : A → Result A
  err : Error → Result A

abbrev pub M : Type 0 → Type 0
M A = Store → Result (A × Store)

abbrev pub pure : {A : Type 0} → A → M A
pure a s = ok (a, s)

abbrev pub raise : {A : Type 0} → Error → M A
raise e s = err e

abbrev pub bind_result : {A B : Type 0} → Result (A × Store) → (A → M B) → Result (B × Store)
bind_result (ok (a, s)) k = k a s
bind_result (err e) k = err e

infixl 5 ◌>>=◌ ◌>>◌
abbrev pub ◌>>=◌ : {A B : Type 0} → M A → (A → M B) → M B
◌>>=◌ m k s = bind_result (m s) k

abbrev pub ◌>>◌ : {B : Type 0} → M (Unit {0}) → M B → M B
◌>>◌ m k s = bind_result (m s) (λ _. k)

abbrev pub gets : {A : Type 0} → (Store → A) → M A
gets f s = ok (f s, s)

-- What the retry policy returns or raises.
abbrev pub lift : {A : Type 0} → Retry.Result A → M A
lift (Retry.ok a) s = ok (a, s)
lift (Retry.err e) s = err (policy_error e)

module _ {ℓ} {A : Type ℓ} where
  -- The rows that a WHERE clause matches.
  abbrev pub select : (A → Bool) → List A → List A
  select p [] = []
  select p (r ∷ rows) = let rest = select p rows in if p r then r ∷ rest else rest

  -- How many there are: `rowcount`.
  abbrev pub count : (A → Bool) → List A → ℕ
  count p [] = 0
  count p (r ∷ rows) = let rest = count p rows in if p r then suc rest else rest

  -- UPDATE ... SET f WHERE p, on a table without CHECK constraints in play.
  abbrev pub patch : (A → Bool) → (A → A) → List A → List A
  patch p f [] = []
  patch p f (r ∷ rows) = (if p r then f r else r) ∷ patch p f rows

  -- The row with a primary key, `session.get`.
  abbrev pub find : (A → Bool) → List A → Option A
  find p [] = none
  find p (r ∷ rows) = let rest = find p rows in if p r then some r else rest

-- Some row that the UPDATE writes would break a CHECK constraint.
unfoldable pub breaks : (TaskRun → Bool) → (TaskRun → TaskRun) → List TaskRun → Bool
breaks p f [] = false
breaks p f (r ∷ rows) =
    let rest = breaks p f rows in if p r then (if checks (f r) then rest else true) else rest

-- UPDATE task_runs SET f WHERE p, which the database refuses as a whole or performs.
unfoldable pub update_task_runs : (TaskRun → Bool) → (TaskRun → TaskRun) → M (Unit {0})
unfolding breaks
update_task_runs p f s =
    if breaks p f s.task_runs
    then err integrity_error
    else ok (tt, record s { task_runs = patch p f s.task_runs })
