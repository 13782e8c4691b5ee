-- ===== src/Engine/ClaimComplete.antt =====
-- src/engine/claim-complete.ts
use workflow_spec.Prelude.{ℕ, String, Option}
use workflow_spec.Json.{Json}
use workflow_spec.Shared.Transaction.{pure, ◌>>=◌, ◌>>◌}
use workflow_spec.Core.Domain.{Execution, Checkpoint}
use workflow_spec.Core.Db.{Query}
use workflow_spec.Core.Executions
use workflow_spec.Core.Checkpoints

unfoldable pub claim_execution : String → Option ℕ → Query (Option Execution)
claim_execution worker_id lease_seconds = Executions.claim worker_id lease_seconds

unfoldable pub complete_execution : ℕ → String → Json → Query Checkpoint
complete_execution execution_id step_id output = do
  checkpoint ← Checkpoints.insert execution_id step_id output
  Executions.mark_done execution_id
  pure checkpoint
