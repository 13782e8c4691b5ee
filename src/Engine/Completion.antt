-- ===== src/Engine/Completion.antt =====
-- What a completed step means for its run.
use workflow_spec.Prelude.{
  ℕ, ◌≡◌, String, true, false, not, ◌&&◌, ◌||◌, List, [], ◌∷◌, some, arith, ◌==◌, contains,
  string_eq, nat_eq, if◌then◌else◌, first, All, All-map, update_row, first-update_where,
}
use workflow_spec.Json.{Json, obj, Dict, from_entries}
use workflow_spec.Shared.Errors.{returns}
use workflow_spec.Shared.Transaction.{ok}
use workflow_spec.WorkflowSpec.Domain.{Step}
use workflow_spec.Core.Domain.{Execution, WorkflowRun, WorkflowRunStatus}
use workflow_spec.Core.Db.{Db}
use workflow_spec.Core.Executions
use workflow_spec.Core.Executions.{is_running}
use workflow_spec.Core.RunNodeOutputs.{completed_in}
use workflow_spec.Core.WorkflowRuns
use workflow_spec.Engine.Interpreter.{assert_plain_steps, complete_step, all_completed}
use workflow_spec.Engine.Promote.{promote_row}
use workflow_spec.Engine.Plain.{assert_plain_steps_iff}
use workflow_spec.Engine.Complete.{
  completed_after, done_rows, db_after, runs_after, unfinished, complete_step_lem,
}
use workflow_spec.Engine.Scheduling.{
  is_stuck, is_early, completed_in-recorded, promote_row-not_stuck, early-rows,
}

abbrev pub completed : WorkflowRun → Db → List String
completed run db = completed_in run.id db.run_node_outputs

-- The run and the execution are in the database, and the run's spec is these plain steps.
pub record IsRunning (run : WorkflowRun) (execution_id : ℕ) (steps : List Step) (db : Db)
    : Type 0 where
  pub row : WorkflowRun
  pub execution : Execution
  pub plain : assert_plain_steps run.spec ≡ returns steps
  pub has_run : first (WorkflowRuns.has_id run.id) db.workflow_runs ≡ some row
  pub has_execution : first (Executions.has_id execution_id) db.executions ≡ some execution

has_id_of_first :
    (id : ℕ) (rs : List WorkflowRun) (r : WorkflowRun)
    → first (WorkflowRuns.has_id id) rs ≡ some r
    → WorkflowRuns.has_id id r ≡ true
has_id_of_first id [] r h = cc
has_id_of_first id (x ∷ rs) r h = ground (arith, has_id_of_first id rs r)

module _ (run : WorkflowRun) (execution_id : ℕ) (node_id : String) (output : Dict Json)
    (steps : List Step) (db : Db) (is : IsRunning run execution_id steps db) where
  runs :
      complete_step run execution_id node_id output db
      ≡ ok tt (db_after run execution_id node_id output db steps)
  runs =
      complete_step_lem run execution_id node_id output db steps is.plain is.has_run
        is.has_execution

  after : List String
  after = completed_after run execution_id node_id output db

  grows : (x : String) → contains (completed run db) x ≡ true → contains after x ≡ true
  unfolding after
  grows x h = ground (arith, completed_in-recorded run.id node_id (obj (from_entries output)) db x)

  -- For a run and an execution that exist and a plain spec: completing a step returns, adds the
  -- node and no other to the run's completed ones, and leaves no execution of the run blocked
  -- whose step is not completed and has all its dependencies completed.
  pub complete_step_wakes :
      (db' : Db) × (complete_step run execution_id node_id output db ≡ ok tt db')
      × ((x : String)
          → contains (completed run db') x ≡ (x == node_id || contains (completed run db) x))
      × All (λ e. is_stuck run.id (completed run db') steps e ≡ false) db'.executions
  unfolding db_after after
  complete_step_wakes = (
    db_after run execution_id node_id output db steps,
    runs,
    completed_in-recorded run.id node_id (obj (from_entries output)) db,
    All-map (λ e. is_stuck run.id (after) steps e ≡ false) (promote_row db.now run.id after steps)
        (done_rows run execution_id node_id output db)
        (promote_row-not_stuck db.now run.id after steps),
  )

  -- For a run and an execution that exist and a plain spec, where every execution with the
  -- completed id is running: if no execution of the run is claimable, claimed or done before the
  -- dependencies of its step are completed, then completing the step returns, and none is after.
  pub complete_step_never_early :
      All
        (λ e. (Executions.has_id execution_id e && not (is_running e.status)) ≡ false)
        db.executions
      → All (λ e. is_early run.id (completed run db) steps e ≡ false) db.executions
      → (db' : Db) × (complete_step run execution_id node_id output db ≡ ok tt db')
        × All (λ e. is_early run.id (completed run db') steps e ≡ false) db'.executions
  unfolding db_after after
  complete_step_never_early running_one early = (
    db_after run execution_id node_id output db steps,
    runs,
    early-rows run.id db.now execution_id (completed run db) after grows steps
        ((assert_plain_steps_iff run.spec steps).0 is.plain).1 db.executions early running_one,
  )

  finish_run : WorkflowRun → WorkflowRun
  finish_run r = record r { status = WorkflowRunStatus.done; updated_at = db.now }

  row_after : WorkflowRun
  row_after =
      if all_completed after steps
      then update_row (unfinished run execution_id node_id output db) finish_run is.row
      else is.row

  finds_row_after :
      first (WorkflowRuns.has_id run.id) (runs_after run execution_id node_id output db steps)
      ≡ some row_after
  unfolding row_after finish_run after
  finds_row_after = ground (
    arith,
    is.has_run,
    first-update_where (WorkflowRuns.has_id run.id) (unfinished run execution_id node_id output db)
        finish_run db.workflow_runs (λ r. ground arith),
  )

  status-row_after : row_after.status ≡ (
      if all_completed after steps && not (WorkflowRuns.is_failed is.row.status)
      then WorkflowRunStatus.done
      else is.row.status)
  unfolding row_after finish_run
  status-row_after = ground (arith, has_id_of_first run.id db.workflow_runs is.row is.has_run)

  -- For a run and an execution that exist and a plain spec: completing a step returns, and leaves
  -- the run done exactly if all its steps are completed and it has not failed; else its status is
  -- what it was.
  pub complete_step-status :
      (db' : Db) × (row' : WorkflowRun) × (complete_step run execution_id node_id output db
        ≡ ok tt db')
      × (first (WorkflowRuns.has_id run.id) db'.workflow_runs ≡ some row')
      × (row'.status ≡ (
          if all_completed (completed run db') steps && not (WorkflowRuns.is_failed is.row.status)
          then WorkflowRunStatus.done
          else is.row.status))
  unfolding db_after after
  complete_step-status = (
    db_after run execution_id node_id output db steps,
    row_after,
    runs,
    finds_row_after,
    status-row_after,
  )
