-- ===== src/Worker/Outcomes.antt =====
-- What one call of `runOnce` does.
use workflow_spec.Prelude.{
  ℕ, ◌≡◌, ◌⊎◌, Bool, true, false, List, [], ◌∷◌, Option, some, arith, nat_eq, first,
}
use workflow_spec.Json.{Json, Dict}
use workflow_spec.Shared.Transaction.{ok}
use workflow_spec.Core.Domain.{Execution, WorkflowRun}
use workflow_spec.WorkflowSpec.Domain.{Step}
use workflow_spec.Core.Db.{Db}
use workflow_spec.Core.WorkflowRuns
use workflow_spec.Engine.ClaimComplete.{claim_execution}
use workflow_spec.Engine.Interpreter.{complete_step}
use workflow_spec.Worker.Dispatch.{Dispatched}
use workflow_spec.Worker.Loop.{WorkerDeps}
use workflow_spec.Worker.Failing.{IsFailed}
use workflow_spec.Worker.Attempt.{Succeeds}

-- An execution is claimed, and its run is in the database.
abbrev pub Claims : WorkerDeps → Db → Execution → WorkflowRun → Db → Type 0
Claims deps db e run db' =
    (claim_execution deps.worker_id (some deps.lease_seconds) db ≡ ok (some e) db')
    × (e.run_id ≡ some run.id)
    × (first (WorkflowRuns.has_id run.id) db'.workflow_runs ≡ some run)

module _ (dispatch : Execution → Step → Dict (Option Json) → Dispatched) (deps : WorkerDeps)
    (db : Db) where
  -- A claimed execution's step was dispatched and brought an output, which completed it.
  abbrev pub Completes : Db → Type 0
  Completes after =
      (e : Execution) × (run : WorkflowRun) × (db' : Db) × Claims deps db e run db'
      × (node : Step) × (output : Dict Json) × Succeeds (dispatch e) run e db' node output
      × (complete_step run e.id node.id output db' ≡ ok tt after)

  abbrev pub Fails : Db → Type 0
  Fails after =
      (e : Execution) × (run : WorkflowRun) × (db' : Db) × Claims deps db e run db'
      × IsFailed run.id e.id after

  abbrev pub Turns : Bool × Db → Type 0
  Turns (worked, after) =
      ((worked ≡ false) × (after ≡ db))
      ⊎ ((worked ≡ true) × Completes after)
      ⊎ ((worked ≡ true) × Fails after)

pub first-has_id :
    (id : ℕ) (runs : List WorkflowRun) (run : WorkflowRun)
    → first (WorkflowRuns.has_id id) runs ≡ some run
    → run.id ≡ id
first-has_id id [] run h = absurd (cc h)
first-has_id id (r ∷ runs) run h = ground (arith, first-has_id id runs run)
