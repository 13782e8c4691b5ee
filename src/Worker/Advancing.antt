-- ===== src/Worker/Advancing.antt =====
-- How the work on a claimed execution changes the table of executions.
use workflow_spec.Prelude.{
  ℕ, ◌≡◌, refl, Bool, true, false, not, ◌&&◌, List, [], ◌∷◌, nat_eq, string_eq, arith, All,
  update_where, if-both,
}
use workflow_spec.Shared.Transaction.{Outcome, ok, thrown, aborted, ◌>>=◌}
use workflow_spec.Core.Domain.{Execution, ExecutionStatus, done, failed}
use workflow_spec.Core.Db.{Db, Query}
use workflow_spec.Core.Executions

abbrev pub is_open : ExecutionStatus → Bool
is_open done = false
is_open failed = false
is_open _ = true

-- Row by row the ids stay, and what is closed stays closed.
abbrev pub Advances : List Execution → List Execution → Type 0
Advances [] [] = Unit
Advances (e ∷ es) (f ∷ fs) =
    (f.id ≡ e.id) × ((is_open f.status && not (is_open e.status)) ≡ false) × Advances es fs
Advances _ _ = ⊥

pub Advances-refl : (es : List Execution) → Advances es es
Advances-refl [] = tt
Advances-refl (e ∷ es) = (refl, ground arith, Advances-refl es)

pub Advances-trans : (es fs gs : List Execution) → Advances es fs → Advances fs gs → Advances es gs
Advances-trans [] [] [] a b = tt
Advances-trans [] [] (g ∷ gs) a b = absurd b
Advances-trans [] (f ∷ fs) gs a b = absurd a
Advances-trans (e ∷ es) [] gs a b = absurd a
Advances-trans (e ∷ es) (f ∷ fs) [] a b = absurd b
Advances-trans (e ∷ es) (f ∷ fs) (g ∷ gs) a b =
    (ground (arith, a.0, b.0), ground (arith, a.1, b.1), Advances-trans es fs gs a.2 b.2)

pub Advances-update :
    (p : Execution → Bool) (f : Execution → Execution) (es : List Execution)
    → ((e : Execution) → ((f e).id ≡ e.id))
    → ((e : Execution) → p e ≡ true → (is_open (f e).status && not (is_open e.status)) ≡ false)
    → Advances es (update_where p f es)
Advances-update p f [] id opens = tt
Advances-update p f (e ∷ es) id opens =
    if-both
      (λ (x : Execution).
        (x.id ≡ e.id)
        × ((is_open x.status && not (is_open e.status)) ≡ false)
        × Advances es (update_where p f es))
      (p e) _ _ (λ is. (id e, opens e is, Advances-update p f es id opens))
      (λ no. (refl, ground arith, Advances-update p f es id opens))

-- Every execution with the id is closed.
abbrev pub Closed : ℕ → List Execution → Type 0
Closed i = All (λ e. (Executions.has_id i e && is_open e.status) ≡ false)

Closed-Advances : (i : ℕ) (es fs : List Execution) → Closed i es → Advances es fs → Closed i fs
Closed-Advances i [] [] closed a = tt
Closed-Advances i [] (f ∷ fs) closed a = absurd a
Closed-Advances i (e ∷ es) [] closed a = tt
Closed-Advances i (e ∷ es) (f ∷ fs) closed a =
    (ground (arith, closed.0, a.0, a.1), Closed-Advances i es fs closed.1 a.2)

abbrev pub Moves : {A : Type 0} → Db → Outcome Db A → Type 0
Moves db (ok a db') = Advances db.executions db'.executions
Moves db (thrown e db') = Advances db.executions db'.executions
Moves db aborted = Unit

-- And if it comes to a result, the execution is closed.
abbrev pub Closes : {A : Type 0} → ℕ → Db → Outcome Db A → Type 0
Closes i db (ok a db') = Advances db.executions db'.executions × Closed i db'.executions
Closes i db (thrown e db') = Advances db.executions db'.executions
Closes i db aborted = Unit

abbrev pub Moving : {A : Type 0} → Query A → Type 0
Moving m = (db : Db) → Moves db (m db)

abbrev pub Closing : {A : Type 0} → ℕ → Query A → Type 0
Closing i m = (db : Db) → Closes i db (m db)

module _ {A : Type 0} (i : ℕ) (db db' : Db) (a : Advances db.executions db'.executions) where
  Moves-from : (m : Outcome Db A) → Moves db' m → Moves db m
  Moves-from (ok x db2) h = Advances-trans db.executions db'.executions db2.executions a h
  Moves-from (thrown e db2) h = Advances-trans db.executions db'.executions db2.executions a h
  Moves-from aborted h = tt

  pub Closes-from : (m : Outcome Db A) → Closes i db' m → Closes i db m
  Closes-from (ok x db2) h = (Advances-trans db.executions db'.executions db2.executions a h.0, h.1)
  Closes-from (thrown e db2) h = Advances-trans db.executions db'.executions db2.executions a h
  Closes-from aborted h = tt

  Closed-Closes : (m : Outcome Db A) → Closed i db'.executions → Moves db' m → Closes i db m
  Closed-Closes (ok x db2) closed h = (
    Advances-trans db.executions db'.executions db2.executions a h,
    Closed-Advances i db'.executions db2.executions closed h,
  )
  Closed-Closes (thrown e db2) closed h =
      Advances-trans db.executions db'.executions db2.executions a h
  Closed-Closes aborted closed h = tt

module _ {A B : Type 0} (f : A → Query B) where
  pub Moves-on :
      (db : Db) (m : Outcome Db A)
      → Moves db m
      → ((a : A) → Moving (f a))
      → Moves db (((λ _. m) >>= f) db)
  Moves-on db (ok a db') h rest = Moves-from 0 db db' h (f a db') (rest a db')
  Moves-on db (thrown e db') h rest = h
  Moves-on db aborted h rest = tt

  Closes-on :
      (i : ℕ) (db : Db) (m : Outcome Db A)
      → Moves db m
      → ((a : A) → Closing i (f a))
      → Closes i db (((λ _. m) >>= f) db)
  Closes-on i db (ok a db') h rest = Closes-from i db db' h (f a db') (rest a db')
  Closes-on i db (thrown e db') h rest = h
  Closes-on i db aborted h rest = tt

  Closes-before :
      (i : ℕ) (db : Db) (m : Outcome Db A)
      → Closes i db m
      → ((a : A) → Moving (f a))
      → Closes i db (((λ _. m) >>= f) db)
  Closes-before i db (ok a db') h rest = Closed-Closes i db db' h.0 (f a db') h.1 (rest a db')
  Closes-before i db (thrown e db') h rest = h
  Closes-before i db aborted h rest = tt

module _ {A B : Type 0} (m : Query A) (f : A → Query B) where
  pub Moving-bind : Moving m → ((a : A) → Moving (f a)) → Moving (m >>= f)
  Moving-bind h rest db = Moves-on f db (m db) (h db) rest

  pub Closing-behind : (i : ℕ) → Moving m → ((a : A) → Closing i (f a)) → Closing i (m >>= f)
  Closing-behind i h rest db = Closes-on f i db (m db) (h db) rest

  pub Closing-before : (i : ℕ) → Closing i m → ((a : A) → Moving (f a)) → Closing i (m >>= f)
  Closing-before i h rest db = Closes-before f i db (m db) (h db) rest
