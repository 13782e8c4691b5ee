-- ===== src/Engine/Claim.antt =====
-- What a claim takes and leaves.
use workflow_spec.Prelude.{
  ℕ, ◌+◌, ◌*◌, ◌≡◌, refl, String, Bool, true, false, ◌&&◌, List, [], ◌∷◌, Option, none, some, arith,
  ltb, ltb→lt, nat_eq, Bool-cases, inl, inr, any, All, All-imp, All-map, update_where,
  update_where-map, sym, subst, select, update_row,
}
use workflow_spec.Shared.Transaction.{ok}
use workflow_spec.Core.Domain.{Execution, running}
use workflow_spec.Core.Db.{Db}
use workflow_spec.Core.Executions
use workflow_spec.Core.Executions.{
  claimable, claimed, least, lower, has_id, due, default_lease_seconds,
}
use workflow_spec.Engine.ClaimComplete.{claim_execution}

-- Of the rows that pass the test, none has a lower id.
abbrev pub IsLeast : (Execution → Bool) → List Execution → Option Execution → Type 0
IsLeast p es none = All (λ f. p f ≡ false) es
IsLeast p es (some e) =
    (any (λ f. has_id e.id f && p f) es ≡ true) × All (λ f. (p f && ltb f.id e.id) ≡ false) es

module _ (p : Execution → Bool) (e : Execution) (es : List Execution) where
  IsLeast-skip : p e ≡ false → (o : Option Execution) → IsLeast p es o → IsLeast p (e ∷ es) o
  IsLeast-skip out none h = (out, h)
  IsLeast-skip out (some f) h = (ground (arith, h.0), (ground arith, h.1))

  none_lower :
      (f : Execution)
      → ltb e.id f.id ≡ false
      → All (λ g. (p g && ltb g.id f.id) ≡ false) es
      → All (λ g. (p g && ltb g.id f.id) ≡ false) (e ∷ es)
  none_lower f h a = (ground arith, a)

  IsLeast-lower :
      p e ≡ true → (o : Option Execution) → IsLeast p es o → IsLeast p (e ∷ es) (some (lower e o))
  IsLeast-lower in_ none h = (
    ground arith,
    none_lower e (ground (arith, ltb→lt e.id e.id)) (
        All-imp (λ f. p f ≡ false) (λ f. (p f && ltb f.id e.id) ≡ false) es (λ f h. ground arith)
          h),
  )
  IsLeast-lower in_ (some f) h = elim (Bool-cases (ltb f.id e.id)) [
    | inl less ↦
        let is : lower e (some f) ≡ f = ground arith in
        subst (λ x. IsLeast p (e ∷ es) (some x)) (sym is)
          (
            ground (arith, h.0),
            none_lower f (ground (arith, ltb→lt f.id e.id, ltb→lt e.id f.id)) h.1,
          )
    | inr not_less ↦
        let is : lower e (some f) ≡ e = ground arith in
        subst (λ x. IsLeast p (e ∷ es) (some x)) (sym is)
          (
            ground arith,
            none_lower e (ground (arith, ltb→lt e.id e.id)) (
                All-imp (λ g. (p g && ltb g.id f.id) ≡ false) (λ g. (p g && ltb g.id e.id) ≡ false)
                  es (λ g low. ground arith) h.1),
          )
  ]

pub least-IsLeast :
    (p : Execution → Bool) (es : List Execution) → IsLeast p es (least (select p es))
unfolding least
least-IsLeast p [] = tt
least-IsLeast p (e ∷ es) = elim (Bool-cases (p e)) [
  | inl is ↦ rw is (IsLeast-lower p e es is (least (select p es)) (least-IsLeast p es))
  | inr out ↦ rw out (IsLeast-skip p e es out (least (select p es)) (least-IsLeast p es))
]

-- A claim's result and database: without a result nothing was claimable and nothing changed;
-- with one it was the lowest claimable id, runs for this worker, and is not claimable any more.
abbrev pub IsClaim : String → Db → Option Execution → Db → Type 0
IsClaim worker_id db none db' = All (λ f. claimable db f ≡ false) db.executions × (db' ≡ db)
IsClaim worker_id db (some e) db' =
    (any (λ f. has_id e.id f && claimable db f) db.executions ≡ true)
    × All (λ f. (claimable db f && ltb f.id e.id) ≡ false) db.executions
    × (e.status ≡ running)
    × (e.worker_id ≡ some worker_id)
    × All (λ f. (has_id e.id f && claimable db' f) ≡ false) db'.executions

held :
    (e : Execution) (worker_id : String) (seconds : ℕ) (db db' : Db) (f : Execution)
    → db'.now ≡ db.now
    → (has_id e.id (update_row (has_id e.id) (claimed worker_id seconds db.now) f)
        && claimable db' (update_row (has_id e.id) (claimed worker_id seconds db.now) f))
      ≡ false
unfolding claimable
held e worker_id seconds db db' f same = ground (arith, ltb→lt (db.now + seconds * 1000) db.now)

abbrev Claims : String → Option ℕ → Db → Type 0
Claims worker_id lease_seconds db =
    (r : Option Execution) × (db' : Db) × (claim_execution worker_id lease_seconds db ≡ ok r db')
    × IsClaim worker_id db r db'

Claims-least :
    (worker_id : String) (lease_seconds : Option ℕ) (db : Db) (o : Option Execution)
    → least (select (claimable db) db.executions) ≡ o
    → IsLeast (claimable db) db.executions o
    → Claims worker_id lease_seconds db
unfolding claim_execution Executions.claim Executions.sql_claim
Claims-least worker_id lease_seconds db none found h = (none, db, ground (arith, found), (h, refl))
Claims-least worker_id lease_seconds db (some e) found h =
    let seconds : ℕ = elim lease_seconds [ none ↦ default_lease_seconds | some s ↦ s ] in
    let take = claimed worker_id seconds db.now in
    let db' : Db = record db {
      waits =
          update_where (due db.now e.id) (λ w. record w { satisfied_at = some db.now }) db.waits;
      executions = update_where (has_id e.id) take db.executions;
    } in
    (
      some (take e),
      db',
      ground (arith, found),
      (
        h.0,
        h.1,
        refl,
        refl,
        subst (All (λ f. (has_id e.id f && claimable db' f) ≡ false))
            (sym (update_where-map (has_id e.id) take db.executions))
            (All-map (λ f. (has_id e.id f && claimable db' f) ≡ false)
              (update_row (has_id e.id) take) db.executions
              (λ f. held e worker_id seconds db db' f refl)),
      ),
    )

-- Claiming always returns. It returns nothing and changes nothing where no execution is
-- claimable; else it returns the claimable execution with the lowest id, running for this worker,
-- and at the time of the claim no execution with that id is claimable any more.
pub claim_execution_lem :
    (worker_id : String) (lease_seconds : Option ℕ) (db : Db)
    → (r : Option Execution) × (db' : Db) × (claim_execution worker_id lease_seconds db ≡ ok r db')
      × IsClaim worker_id db r db'
claim_execution_lem worker_id lease_seconds db =
    Claims-least worker_id lease_seconds db (least (select (claimable db) db.executions)) refl
      (least-IsLeast (claimable db) db.executions)
