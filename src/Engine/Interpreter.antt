-- ===== src/Engine/Interpreter.antt =====
-- src/engine/interpreter.ts
use workflow_spec.Prelude.{
  ℕ, String, ◌<>◌, Bool, List, [], ◌∷◌, Option, none, some, ◌==◌, contains, string_eq,
  if◌then◌else◌, every, first,
}
use workflow_spec.Json.{Json, obj, Dict, entries, from_entries}
use workflow_spec.Json
use workflow_spec.Shared.Errors.{
  fatal, engine_unsupported_node_kind, engine_duplicate_node_id, engine_node_not_found,
  engine_run_not_found, Result, returns, throws,
}
use workflow_spec.Shared.Errors.{◌>>=◌ as ◌>>=ᵣ◌}
use workflow_spec.Shared.Transaction.{pure, throw, lift, ◌>>=◌, ◌>>◌}
use workflow_spec.WorkflowSpec.Domain.{
  Binding, Step, Node, plain, branch, map_node, node_list, WorkflowSpec,
}
use workflow_spec.Core.Domain.{
  WorkflowRun, WorkflowRunStatus, running, done, failed, RunNodeOutput, ExecutionStatus, blocked,
  queued, WorkflowRunStatus,
}
use workflow_spec.Core.Db.{Query}
use workflow_spec.Core.Executions
use workflow_spec.Core.RunNodeOutputs
use workflow_spec.Core.WorkflowRuns
use workflow_spec.Engine.Bindings.{BindingContext, resolve_binding}
use workflow_spec.Engine.ClaimComplete.{complete_execution}
use workflow_spec.Engine.DependencyGraph.{compute_step_dependencies}

-- The walk of `assertPlainSteps`, behind the ids that it has seen.
unfoldable pub plain_steps : List String → List Node → Result (List Step)
plain_steps seen [] = returns []
plain_steps seen (plain s ∷ nodes) =
    let rest = plain_steps (s.id ∷ seen) nodes in
    if contains seen s.id
    then throws (fatal engine_duplicate_node_id)
    else rest >>=ᵣ λ steps. returns (s ∷ steps)
plain_steps seen (branch id selector cases ∷ nodes) = throws (fatal engine_unsupported_node_kind)
plain_steps seen (map_node id source body yields ∷ nodes) =
    throws (fatal engine_unsupported_node_kind)

unfoldable pub assert_plain_steps : WorkflowSpec → Result (List Step)
unfolding plain_steps
assert_plain_steps spec = plain_steps [] (node_list spec.steps)

unfoldable pub find_step_node : List Step → String → Result Step
find_step_node steps node_id = elim (first (λ (s : Step). s.id == node_id) steps) [
  | none ↦ throws (fatal engine_node_not_found)
  | some s ↦ returns s
]

abbrev pub initial_status : List String → ExecutionStatus
initial_status [] = queued
initial_status (d ∷ ds) = blocked

-- The loop of `submitRun` over the steps.
unfoldable pub enqueue_steps : ℕ → String → List Step → Query Unit
enqueue_steps run_id session_id [] = pure tt
enqueue_steps run_id session_id (s ∷ steps) = do
  Executions.enqueue_for_run run_id s.id (obj Json.Fields.end)
      (initial_status (compute_step_dependencies s)) session_id
  enqueue_steps run_id session_id steps

-- `print` is JavaScript's `String(n)`.
module _ (print : ℕ → String) where
  abbrev pub session_label : Option String → ℕ → String
  session_label (some s) run_id = s
  session_label none run_id = "workflow-run:" <> print run_id

  unfoldable pub enqueue_run : Option String → WorkflowRun → List Step → Query WorkflowRun
  enqueue_run session_id run [] = do
    WorkflowRuns.mark_done run.id
    pure (record run { status = done })
  enqueue_run session_id run (s ∷ steps) = do
    enqueue_steps run.id (session_label session_id run.id) (s ∷ steps)
    pure run

  unfoldable pub submit_run : WorkflowSpec → Dict Json → Option String → Query WorkflowRun
  unfolding enqueue_run
  submit_run spec input session_id = do
    steps ← lift (assert_plain_steps spec)
    run ← WorkflowRuns.create session_id spec (obj (from_entries input))
    enqueue_run session_id run steps

-- The loop of `promoteReadyNodes`.
unfoldable pub promote_steps : ℕ → List String → List Step → Query Unit
promote_steps run_id completed [] = pure tt
promote_steps run_id completed (s ∷ steps) =
    (if contains completed s.id
      then pure tt
      else if every (contains completed) (compute_step_dependencies s)
      then Executions.promote_blocked_to_queued run_id s.id
      else pure tt)
    >> promote_steps run_id completed steps

unfoldable pub promote_ready_nodes : WorkflowRun → List String → Query Unit
unfolding promote_steps
promote_ready_nodes run completed = do
  steps ← lift (assert_plain_steps run.spec)
  promote_steps run.id completed steps

-- `value as Record<string, unknown>`, of a value that was written as one.
unfoldable pub as_record : Json → Dict Json
unfolding entries
as_record (obj fs) = entries fs
as_record _ = []

abbrev pub with_output : String → Option RunNodeOutput → Dict (Dict Json) → Dict (Dict Json)
with_output id none outputs = outputs
with_output id (some recorded) outputs = (id, as_record recorded.output) ∷ outputs

-- The recorded outputs of the given nodes, one query for each.
unfoldable pub read_outputs : ℕ → List String → Query (Dict (Dict Json))
unfolding as_record
read_outputs run_id [] = pure []
read_outputs run_id (id ∷ ids) = do
  recorded ← RunNodeOutputs.get run_id id
  rest ← read_outputs run_id ids
  pure (with_output id recorded rest)

unfoldable pub resolve_all : Dict Binding → BindingContext → Result (Dict (Option Json))
resolve_all [] ctx = returns []
resolve_all ((key, binding) ∷ reads) ctx = resolve_binding binding ctx >>=ᵣ λ value.
    resolve_all reads ctx >>=ᵣ λ rest. returns ((key, value) ∷ rest)

unfoldable pub resolve_step_reads : WorkflowRun → Step → Query (Dict (Option Json))
unfolding resolve_all read_outputs as_record
resolve_step_reads run node = do
  node_outputs ← read_outputs run.id (compute_step_dependencies node)
  lift
      (resolve_all node.reads (record { input = as_record run.input; node_outputs = node_outputs }))

abbrev pub all_completed : List String → List Step → Bool
all_completed completed steps = every (λ s. contains completed s.id) steps

unfoldable pub complete_step : WorkflowRun → ℕ → String → Dict Json → Query Unit
complete_step run execution_id node_id output = do
  WorkflowRuns.lock_for_update run.id
  complete_execution execution_id node_id (obj (from_entries output))
  RunNodeOutputs.insert_output run.id node_id (obj (from_entries output))
  completed ← RunNodeOutputs.list_completed_node_ids run.id
  promote_ready_nodes run completed
  steps ← lift (assert_plain_steps run.spec)
  if all_completed completed steps then WorkflowRuns.mark_done run.id else pure tt

unfoldable pub find_run_step_node : WorkflowRun → String → Result Step
unfolding find_step_node
find_run_step_node run node_id =
    assert_plain_steps run.spec >>=ᵣ λ steps. find_step_node steps node_id

pub record RunResult : Type 0 where
  pub status : WorkflowRunStatus
  pub outputs : Option (Dict (Option Json))

unfoldable pub run_outputs : WorkflowRun → Query RunResult
unfolding resolve_all read_outputs as_record
run_outputs fresh = do
  completed ← RunNodeOutputs.list_completed_node_ids fresh.id
  node_outputs ← read_outputs fresh.id completed
  outputs ← lift (
      resolve_all fresh.spec.outputs
        (record { input = as_record fresh.input; node_outputs = node_outputs }))
  pure (record { status = fresh.status; outputs = some outputs })

unfoldable pub result_of : Option WorkflowRun → Query RunResult
unfolding run_outputs
result_of none = throw (fatal engine_run_not_found)
result_of (some fresh) = elim fresh.status [
  | done ↦ run_outputs fresh
  | running ↦ pure (record { status = fresh.status; outputs = none })
  | failed ↦ pure (record { status = fresh.status; outputs = none })
]

unfoldable pub get_run_result : WorkflowRun → Query RunResult
unfolding result_of
get_run_result run = do fresh ← WorkflowRuns.find_by_id run.id; result_of fresh
