-- ===== src/Core/Db.antt =====
-- The database of src/core/ as one transaction sees it: the tables with their next serial ids, the
-- transaction's `now()`, and the rows of `executions` that other open transactions hold locked.
use workflow_spec.Prelude.{ℕ, List, Option, none, some}
use workflow_spec.Json.{Dict}
use workflow_spec.Shared.Errors.{ErrorId, fatal}
use workflow_spec.Shared.Transaction.{ok, thrown, Tx}
use workflow_spec.Core.Domain.{
  Execution, Checkpoint, Wait, SessionLogEntry, SessionPointer, Placement, PlacementAccess,
  PlacementConfig, WorkflowRun, RunNodeOutput,
}

pub record Db : Type 0 where
  pub now : ℕ
  pub locked : List ℕ
  pub executions : List Execution
  pub next_execution_id : ℕ
  pub checkpoints : List Checkpoint
  pub waits : List Wait
  pub next_wait_id : ℕ
  pub session_log : List SessionLogEntry
  pub next_session_log_id : ℕ
  pub session_pointer : List SessionPointer
  pub placement : List Placement
  pub placement_access : List PlacementAccess
  pub placement_config : Dict PlacementConfig
  pub workflow_runs : List WorkflowRun
  pub next_run_id : ℕ
  pub run_node_outputs : List RunNodeOutput

abbrev pub Query : Type 0 → Type 0
Query A = Tx Db A

-- `const row = result.rows[0]; if (!row) throw new FatalError(id)`
abbrev pub row_or_throw : {A : Type 0} → ErrorId → Option A → Query A
row_or_throw id none db = thrown (fatal id) db
row_or_throw id (some row) db = ok row db
