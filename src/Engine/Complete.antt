-- ===== src/Engine/Complete.antt =====
-- The database that `complete_step` leaves, table by table.
use workflow_spec.Prelude.{
  ℕ, ◌≡◌, String, Bool, not, ◌&&◌, List, [], ◌∷◌, ◌++◌, none, some, map, arith, string_eq, nat_eq,
  if◌then◌else◌, first, update_where,
}
use workflow_spec.Json.{Json, obj, Dict, from_entries}
use workflow_spec.Shared.Errors.{returns}
use workflow_spec.Shared.Transaction.{ok}
use workflow_spec.WorkflowSpec.Domain.{Step}
use workflow_spec.Core.Domain
use workflow_spec.Core.Domain.{Execution, Checkpoint, WorkflowRun, RunNodeOutput, WorkflowRunStatus}
use workflow_spec.Core.Db.{Db}
use workflow_spec.Core.Executions
use workflow_spec.Core.Executions.{run_exists}
use workflow_spec.Core.Checkpoints
use workflow_spec.Core.RunNodeOutputs
use workflow_spec.Core.RunNodeOutputs.{completed_in}
use workflow_spec.Core.WorkflowRuns
use workflow_spec.Engine.ClaimComplete.{complete_execution}
use workflow_spec.Engine.Interpreter.{
  assert_plain_steps, promote_ready_nodes, complete_step, all_completed,
}
use workflow_spec.Engine.Promote.{promote_row, promote_steps_lem}

abbrev new_checkpoint : ℕ → String → Json → Db → Checkpoint
new_checkpoint execution_id step_id output db = record {
  execution_id = execution_id;
  step_id = step_id;
  output = output;
  committed_at = db.now;
}

-- A checkpoint that is there already is kept as it is.
abbrev pub checkpointed : ℕ → String → Json → Db → List Checkpoint
checkpointed execution_id step_id output db =
    elim (first (Checkpoints.is_at execution_id step_id) db.checkpoints) [
      | some _ ↦ db.checkpoints
      | none ↦ db.checkpoints ++ (new_checkpoint execution_id step_id output db ∷ [])
    ]

insert_lem :
    (execution_id : ℕ) (step_id : String) (output : Json) (db : Db) {e : Execution}
    → first (Executions.has_id execution_id) db.executions ≡ some e
    → (c : Checkpoint) × (Checkpoints.insert execution_id step_id output db
        ≡ ok c (record db { checkpoints = checkpointed execution_id step_id output db }))
unfolding Checkpoints.insert
insert_lem execution_id step_id output db h = (
  elim (first (Checkpoints.is_at execution_id step_id) db.checkpoints) [
    | some c ↦ c
    | none ↦ new_checkpoint execution_id step_id output db
  ],
  ground arith,
)

abbrev new_output : ℕ → String → Json → Db → RunNodeOutput
new_output run_id node_id output db = record {
  run_id = run_id;
  node_id = node_id;
  output = output;
  completed_at = db.now;
}

abbrev pub recorded : ℕ → String → Json → Db → List RunNodeOutput
recorded run_id node_id output db =
    elim (first (RunNodeOutputs.is_at run_id node_id) db.run_node_outputs) [
      | some _ ↦ db.run_node_outputs
      | none ↦ db.run_node_outputs ++ (new_output run_id node_id output db ∷ [])
    ]

insert_output_lem :
    (run_id : ℕ) (node_id : String) (output : Json) (db : Db) {r : WorkflowRun}
    → first (WorkflowRuns.has_id run_id) db.workflow_runs ≡ some r
    → (o : RunNodeOutput) × (RunNodeOutputs.insert_output run_id node_id output db
        ≡ ok o (record db { run_node_outputs = recorded run_id node_id output db }))
unfolding RunNodeOutputs.insert_output
insert_output_lem run_id node_id output db h = (
  elim (first (RunNodeOutputs.is_at run_id node_id) db.run_node_outputs) [
    | some o ↦ o
    | none ↦ new_output run_id node_id output db
  ],
  ground arith,
)

module _ (run : WorkflowRun) (execution_id : ℕ) (node_id : String) (output : Dict Json)
    (db : Db) where
  abbrev pub completed_after : List String
  completed_after = completed_in run.id (recorded run.id node_id (obj (from_entries output)) db)

  abbrev pub done_rows : List Execution
  done_rows =
      update_where (Executions.has_id execution_id)
        (λ e. record e { status = Domain.ExecutionStatus.done; updated_at = db.now }) db.executions

  abbrev pub unfinished : WorkflowRun → Bool
  unfinished r = WorkflowRuns.has_id run.id r && not (WorkflowRuns.is_failed r.status)

  abbrev pub runs_after : List Step → List WorkflowRun
  runs_after steps =
      if all_completed completed_after steps
      then update_where unfinished
          (λ r. record r { status = WorkflowRunStatus.done; updated_at = db.now }) db.workflow_runs
      else db.workflow_runs

  unfoldable pub db_after : List Step → Db
  db_after steps = record db {
    checkpoints = checkpointed execution_id node_id (obj (from_entries output)) db;
    run_node_outputs = recorded run.id node_id (obj (from_entries output)) db;
    executions = map (promote_row db.now run.id completed_after steps) done_rows;
    workflow_runs = runs_after steps;
  }

  -- A completion goes through where its run and its execution exist and the run's spec is plain.
  pub complete_step_lem :
      (steps : List Step) {r : WorkflowRun} {e : Execution}
      → assert_plain_steps run.spec ≡ returns steps
      → first (WorkflowRuns.has_id run.id) db.workflow_runs ≡ some r
      → first (Executions.has_id execution_id) db.executions ≡ some e
      → complete_step run execution_id node_id output db ≡ ok tt (db_after steps)
  unfolding complete_step complete_execution WorkflowRuns.lock_for_update Executions.mark_done
      promote_ready_nodes RunNodeOutputs.list_completed_node_ids WorkflowRuns.mark_done db_after
  complete_step_lem steps plain is_run is_execution =
      let o = obj (from_entries output) in
      let checkpoint = insert_lem execution_id node_id o db is_execution in
      let db1 : Db = record db {
        checkpoints = checkpointed execution_id node_id o db;
        executions = done_rows;
      } in
      let out = insert_output_lem run.id node_id o db1 is_run in
      let db2 : Db = record db1 { run_node_outputs = recorded run.id node_id o db } in
      ground (
        arith,
        checkpoint.1,
        out.1,
        plain,
        is_run,
        promote_steps_lem run.id completed_after steps db2,
      )
