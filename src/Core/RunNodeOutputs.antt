-- ===== src/Core/RunNodeOutputs.antt =====
-- src/core/repositories/run-node-outputs.repository.ts and its queries
use workflow_spec.Prelude.{
  ℕ, String, Bool, ◌&&◌, List, [], ◌∷◌, ◌++◌, map, Option, none, some, ◌==◌, string_eq, nat_eq,
  if◌then◌else◌, select, first,
}
use workflow_spec.Json.{Json}
use workflow_spec.Shared.Errors.{core_run_node_output_no_row_returned}
use workflow_spec.Shared.Transaction.{ok, aborted, gets, pure, ◌>>=◌}
use workflow_spec.Core.Domain.{RunNodeOutput}
use workflow_spec.Core.Db.{Query, row_or_throw}
use workflow_spec.Core.Executions.{run_exists}

abbrev pub is_at : ℕ → String → RunNodeOutput → Bool
is_at run_id node_id o = o.run_id == run_id && o.node_id == node_id

-- SQL_INSERT_RUN_NODE_OUTPUT: refused where the run does not exist, and ON CONFLICT DO NOTHING
unfoldable pub sql_insert : ℕ → String → Json → Query (Option RunNodeOutput)
sql_insert run_id node_id output db =
    if run_exists run_id db
    then elim (first (is_at run_id node_id) db.run_node_outputs) [
      | some _ ↦ ok none db
      | none ↦
          let row : RunNodeOutput = record {
            run_id = run_id;
            node_id = node_id;
            output = output;
            completed_at = db.now;
          } in
          ok (some row) (record db { run_node_outputs = db.run_node_outputs ++ (row ∷ []) })
    ]
    else aborted

unfoldable pub get : ℕ → String → Query (Option RunNodeOutput)
get run_id node_id = gets (λ db. first (is_at run_id node_id) db.run_node_outputs)

abbrev pub inserted_or_existing : ℕ → String → Option RunNodeOutput → Query RunNodeOutput
inserted_or_existing run_id node_id (some row) = pure row
inserted_or_existing run_id node_id none = do
  existing ← gets (λ db. first (is_at run_id node_id) db.run_node_outputs)
  row_or_throw core_run_node_output_no_row_returned existing

unfoldable pub insert_output : ℕ → String → Json → Query RunNodeOutput
unfolding sql_insert
insert_output run_id node_id output = do
  inserted ← sql_insert run_id node_id output
  inserted_or_existing run_id node_id inserted

abbrev pub completed_in : ℕ → List RunNodeOutput → List String
completed_in run_id outputs =
    map (λ (o : RunNodeOutput). o.node_id) (select (λ o. o.run_id == run_id) outputs)

unfoldable pub list_completed_node_ids : ℕ → Query (List String)
list_completed_node_ids run_id = gets (λ db. completed_in run_id db.run_node_outputs)
