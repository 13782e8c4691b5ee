-- ===== src/Worker/Progress.antt =====
-- The number of turns in which the worker works.
use workflow_spec.Prelude.{
  ℕ, ◌+◌, ◌≤◌, ◌≡◌, ◌∙◌, refl, sym, subst, String, Bool, true, false, ◌&&◌, List, [], ◌∷◌, Option,
  none, some, nat_eq, arith, All, Distinct, any, select, update_where, first, All-imp,
}
use workflow_spec.Shared.Transaction.{Outcome, ok, thrown, aborted, with_transaction, ◌>>=◌}
use workflow_spec.Core.Domain.{Execution}
use workflow_spec.Core.Db.{Db}
use workflow_spec.Core.Executions
use workflow_spec.Core.Executions.{claimable, claimed, least, default_lease_seconds}
use workflow_spec.Core.WorkflowRuns
use workflow_spec.Engine.ClaimComplete.{claim_execution}
use workflow_spec.Engine.Claim.{IsLeast, least-IsLeast}
use workflow_spec.Worker.AgentClient.{Post, Reply}
use workflow_spec.Worker.Bindings.{Printing}
use workflow_spec.Worker.Loop.{
  WorkerDeps, settle, run_claimed, run_of, run_execution, claim_and_run, run_once, Turn,
  run_worker_loop,
}
use workflow_spec.Worker.Advancing.{is_open, Advances, Closes}
use workflow_spec.Worker.Closing.{Closing-run_claimed}
use workflow_spec.Worker.OpenCount.{
  ids, one_if, open_count, Advances-ids, open_count-Advances, open_count-Closed, only_there,
  claimable-is_open, Advances-update_open, any-update,
}

-- A claim leaves the table as it is, or opens the execution that it brings.
abbrev Claimed : Db → Outcome Db (Option Execution) → Type 0
Claimed db (ok none db') = db' ≡ db
Claimed db (ok (some e) db') =
    Advances db.executions db'.executions
    × (any (λ f. Executions.has_id e.id f && is_open f.status) db'.executions ≡ true)
Claimed db _ = ⊥

module _ (worker_id : String) (lease_seconds : Option ℕ) (db : Db) where
  claims :
      (o : Option Execution)
      → least (select (claimable db) db.executions) ≡ o
      → IsLeast (claimable db) db.executions o
      → Distinct (ids db.executions)
      → Claimed db (claim_execution worker_id lease_seconds db)
  unfolding claim_execution Executions.claim Executions.sql_claim
  claims none found is distinct =
      let claim : claim_execution worker_id lease_seconds db ≡ ok none db = ground (arith, found) in
      subst (Claimed db) (sym claim) refl
  claims (some e) found is distinct =
      let seconds : ℕ = elim lease_seconds [ none ↦ default_lease_seconds | some s ↦ s ] in
      let take = claimed worker_id seconds db.now in
      let db' : Db = record db {
        waits =
            update_where (Executions.due db.now e.id) (λ w. record w { satisfied_at = some db.now })
              db.waits;
        executions = update_where (Executions.has_id e.id) take db.executions;
      } in
      let claim : claim_execution worker_id lease_seconds db ≡ ok (some (take e)) db' =
        ground (arith, found) in
      let only = only_there e.id (claimable db) db.executions distinct is.0 in
      subst (Claimed db) (sym claim) (
        Advances-update_open (Executions.has_id e.id) take db.executions (λ f. refl)
            (All-imp _ _ db.executions (λ f h. ground (arith, h, claimable-is_open db f)) only),
        any-update e.id (claimable db) take db.executions (λ f. (refl, refl)) is.0,
      )

  claim_execution-Claimed :
      Distinct (ids db.executions) → Claimed db (claim_execution worker_id lease_seconds db)
  claim_execution-Claimed distinct =
      claims (least (select (claimable db) db.executions)) refl
        (least-IsLeast (claimable db) db.executions) distinct

-- The executions are the same, and if there was work, fewer of them are open.
abbrev pub Shrinks : Db → Bool × Db → Type 0
Shrinks db (worked, after) =
    (ids after.executions ≡ ids db.executions)
    × (one_if worked + open_count after.executions ≤ open_count db.executions)

module _ (printing : Printing) (print : ℕ → String) (fetch : Post → Reply) (deps : WorkerDeps)
    (db : Db) where
  rolled_back : Shrinks db (false, db)
  rolled_back = (refl, omega arith)

  module _ (e : Execution) (db' : Db) (moved : Advances db.executions db'.executions)
      (there : any (λ f. Executions.has_id e.id f && is_open f.status) db'.executions ≡ true) where
    Closes-Shrinks :
        (m : Outcome Db Bool)
        → Closes e.id db' m
        → Shrinks db (settle (with_transaction (λ _. m) db))
    unfolding with_transaction
    Closes-Shrinks (ok b db2) (a, closed) =
        let before = open_count-Advances db.executions db'.executions moved in
        let fewer = open_count-Closed e.id db'.executions db2.executions a closed there in
        (
          Advances-ids db'.executions db2.executions a
              ∙ Advances-ids db.executions db'.executions moved,
          ground (arith, before, fewer),
        )
    Closes-Shrinks (thrown err db2) h = rolled_back
    Closes-Shrinks aborted h = rolled_back

    run_of-Shrinks :
        (o : Option ℕ)
        → Shrinks db (settle (with_transaction (λ _. run_of printing print fetch deps e o db') db))
    unfolding run_of WorkflowRuns.find_by_id with_transaction
    run_of-Shrinks none = rolled_back
    run_of-Shrinks (some run_id) =
        let r = first (WorkflowRuns.has_id run_id) db'.workflow_runs in
        Closes-Shrinks (run_claimed printing print fetch deps e r db')
          (Closing-run_claimed printing print fetch deps e r db')

  Claimed-Shrinks :
      (m : Outcome Db (Option Execution))
      → Claimed db m
      → Shrinks db
          (settle (with_transaction ((λ _. m) >>= run_execution printing print fetch deps) db))
  unfolding with_transaction run_execution
  Claimed-Shrinks (ok none db') same =
      subst (λ (d : Db). Shrinks db (false, d)) (sym same) rolled_back
  Claimed-Shrinks (ok (some e) db') (moved, there) = run_of-Shrinks e db' moved there e.run_id
  Claimed-Shrinks (thrown err db') never = absurd never
  Claimed-Shrinks aborted never = absurd never

  run_once-Shrinks :
      Distinct (ids db.executions) → Shrinks db (run_once printing print fetch deps db)
  unfolding run_once claim_and_run
  run_once-Shrinks distinct =
      Claimed-Shrinks (claim_execution deps.worker_id (some deps.lease_seconds) db)
        (claim_execution-Claimed deps.worker_id (some deps.lease_seconds) db distinct)

-- Whatever else happens between two turns adds no execution and opens none again.
abbrev pub IsCalm : Turn → Type 0
IsCalm t =
    (db : Db)
    → (ids (t.others db).executions ≡ ids db.executions)
      × (open_count (t.others db).executions ≤ open_count db.executions)

abbrev pub worked_turns : List Bool → ℕ
worked_turns [] = 0
worked_turns (b ∷ bs) = one_if b + worked_turns bs

-- Where no two executions have one id, and what happens between the turns adds none and opens none
-- again, the worker runs out of work: over any number of turns, however the agent answers, the
-- turns that work and the executions that are still neither done nor failed behind them are
-- together at most as many as the executions that were neither done nor failed before.
pub run_worker_loop_lem :
    (printing : Printing) (print : ℕ → String) (deps : WorkerDeps) (turns : List Turn) (db : Db)
    → All IsCalm turns
    → Distinct (ids db.executions)
    → worked_turns (run_worker_loop printing print deps turns db).0
        + open_count (run_worker_loop printing print deps turns db).1.executions
      ≤ open_count db.executions
unfolding run_worker_loop
run_worker_loop_lem printing print deps [] db calm distinct = omega arith
run_worker_loop_lem printing print deps (t ∷ turns) db calm distinct =
    let db1 = t.others db in
    let (same, fewer) = calm.0 db in
    let distinct1 = subst Distinct (sym same) distinct in
    let (same1, shrinks) = run_once-Shrinks printing print t.fetch deps db1 distinct1 in
    let rest =
      run_worker_loop_lem printing print deps turns (run_once printing print t.fetch deps db1).1
        calm.1 (subst Distinct (sym same1) distinct1) in
    omega (arith, fewer, shrinks, rest)
