-- ===== src/Core/Checkpoints.antt =====
-- src/core/repositories/checkpoints.repository.ts and its queries
use workflow_spec.Prelude.{
  ℕ, String, Bool, ◌&&◌, [], ◌∷◌, ◌++◌, Option, none, some, ◌==◌, string_eq, nat_eq, first,
}
use workflow_spec.Json.{Json}
use workflow_spec.Shared.Errors.{core_checkpoint_conflict_not_found}
use workflow_spec.Shared.Transaction.{ok, aborted, gets, pure, ◌>>=◌}
use workflow_spec.Core.Domain.{Checkpoint}
use workflow_spec.Core.Db.{Query, row_or_throw}
use workflow_spec.Core.Executions.{has_id}

abbrev pub is_at : ℕ → String → Checkpoint → Bool
is_at execution_id step_id c = c.execution_id == execution_id && c.step_id == step_id

-- SQL_INSERT_CHECKPOINT: refused where the execution does not exist, and ON CONFLICT DO NOTHING
unfoldable pub sql_insert : ℕ → String → Json → Query (Option Checkpoint)
sql_insert execution_id step_id output db = elim (first (has_id execution_id) db.executions) [
  | none ↦ aborted
  | some _ ↦ elim (first (is_at execution_id step_id) db.checkpoints) [
    | some _ ↦ ok none db
    | none ↦
        let row : Checkpoint = record {
          execution_id = execution_id;
          step_id = step_id;
          output = output;
          committed_at = db.now;
        } in
        ok (some row) (record db { checkpoints = db.checkpoints ++ (row ∷ []) })
  ]
]

unfoldable pub find_by_execution_and_step : ℕ → String → Query (Option Checkpoint)
find_by_execution_and_step execution_id step_id =
    gets (λ db. first (is_at execution_id step_id) db.checkpoints)

-- The inserted row, or on a conflict the one that is there.
abbrev pub inserted_or_existing : ℕ → String → Option Checkpoint → Query Checkpoint
inserted_or_existing execution_id step_id (some row) = pure row
inserted_or_existing execution_id step_id none = do
  existing ← gets (λ db. first (is_at execution_id step_id) db.checkpoints)
  row_or_throw core_checkpoint_conflict_not_found existing

unfoldable pub insert : ℕ → String → Json → Query Checkpoint
unfolding sql_insert
insert execution_id step_id output = do
  inserted ← sql_insert execution_id step_id output
  inserted_or_existing execution_id step_id inserted
