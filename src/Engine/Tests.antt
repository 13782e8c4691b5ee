-- ===== src/Engine/Tests.antt =====
-- Runs at concrete inputs.
use mathlib.Core.List.{flat_map}
use workflow_spec.Prelude.{
  All, List, Option, String, [], contains, false, first, if◌then◌else◌, length, nat_eq, none, not,
  refl, some, string_eq, ℕ, ℕ_discrete, ◌&&◌, ◌+◌, ◌==◌, ◌||◌, ◌↔◌, ◌∷◌, ◌++◌, ◌≡◌,
}
use workflow_spec.Json.{null, str, obj, from_entries}
use workflow_spec.Shared.Errors.{returns}
use workflow_spec.Shared.Transaction.{ok}
use workflow_spec.WorkflowSpec.Domain.{Step, node_list}
use workflow_spec.WorkflowSpec.BindingRefs.{collect_step_binding_ids, collect_step_reference_ids}
use workflow_spec.Core.Domain.{Execution, ExecutionStatus, WorkflowRun, WorkflowRunStatus}
use workflow_spec.Core.Db.{Db}
use workflow_spec.Core.Executions
use workflow_spec.Core.Executions.{is_running}
use workflow_spec.Core.WorkflowRuns
use workflow_spec.Engine.ClaimComplete.{claim_execution}
use workflow_spec.Engine.Submit.{AreFor, submit_run_never_early}
use workflow_spec.Engine.Claim.{IsClaim, claim_execution_lem}
use workflow_spec.Engine.Interpreter.{
  assert_plain_steps, submit_run, enqueue_steps, complete_step, all_completed,
}
use workflow_spec.Engine.DependencyGraph.{compute_step_dependencies}
use workflow_spec.Engine.Plain.{ArePlain, assert_plain_steps_iff}
use workflow_spec.Engine.Scheduling.{is_stuck, is_early}
use workflow_spec.Engine.Completion.{
  completed, IsRunning, complete_step_wakes, complete_step_never_early, complete_step-status,
}
use workflow_spec.Samples.{empty_db, fetch, report, two_steps}

abbrev print : ℕ → String
print n = "1"

abbrev steps : List Step
steps = fetch ∷ report ∷ []

abbrev run : WorkflowRun
run = record {
  id = 1;
  session_id = none;
  spec = two_steps;
  input = obj (from_entries (("url", str "u") ∷ []));
  status = WorkflowRunStatus.running;
  created_at = 1000;
  updated_at = 1000;
}

abbrev execution : ℕ → String → ExecutionStatus → Execution
execution id step status = record {
  id = id;
  session_id = "workflow-run:1";
  step = step;
  input = obj (from_entries []);
  status = status;
  worker_id = none;
  lease_until = none;
  attempts = 0;
  created_at = 1000;
  updated_at = 1000;
  run_id = some 1;
}

abbrev submitted_db : Db
submitted_db = record empty_db {
  workflow_runs = run ∷ [];
  next_run_id = 2;
  executions =
      execution 1 "fetch" ExecutionStatus.queued
      ∷ execution 2 "report" ExecutionStatus.blocked
      ∷ [];
  next_execution_id = 3;
}

program : Unit {0}
unfolding string_eq ℕ_discrete submit_run enqueue_steps assert_plain_steps complete_step
    claim_execution compute_step_dependencies collect_step_reference_ids collect_step_binding_ids
    flat_map from_entries Executions.enqueue_for_run WorkflowRuns.create Executions.claim
    Executions.sql_claim
program = tt

submitted : submit_run print two_steps (("url", str "u") ∷ []) none empty_db ≡ ok run submitted_db
unfolding program
submitted = refl

abbrev claimed_db : Db
claimed_db = record submitted_db {
  executions =
      record (execution 1 "fetch" ExecutionStatus.running) {
        worker_id = some "w";
        lease_until = some 31000;
        attempts = 1;
      }
      ∷ execution 2 "report" ExecutionStatus.blocked
      ∷ [];
}

first_claim : (e : Execution) × (claim_execution "w" none submitted_db ≡ ok (some e) claimed_db)
unfolding program
first_claim = (_, refl)

two_steps-ArePlain : ArePlain (node_list two_steps.steps) steps
unfolding program
two_steps-ArePlain = (refl, (refl, (refl, tt)))

assert_plain_steps_iff_example :
    (assert_plain_steps two_steps ≡ returns steps) ↔ ArePlain (node_list two_steps.steps) steps
assert_plain_steps_iff_example = assert_plain_steps_iff two_steps steps

claimed-IsRunning : IsRunning run 1 steps claimed_db
unfolding program
claimed-IsRunning = record {
  row = run;
  execution = _;
  plain = refl;
  has_run = refl;
  has_execution = refl;
}

complete_step_wakes_example :
    (db' : Db) × (complete_step run 1 "fetch" (("body", null) ∷ []) claimed_db ≡ ok tt db')
    × ((x : String)
        → contains (completed run db') x ≡ (x == "fetch" || contains (completed run claimed_db) x))
    × All (λ e. is_stuck 1 (completed run db') steps e ≡ false) db'.executions
complete_step_wakes_example =
    complete_step_wakes run 1 "fetch" (("body", null) ∷ []) steps claimed_db claimed-IsRunning

one_is_running :
    All (λ e. (Executions.has_id 1 e && not (is_running e.status)) ≡ false) claimed_db.executions
unfolding program
one_is_running = (refl, (refl, tt))

none_is_early :
    All (λ e. is_early 1 (completed run claimed_db) steps e ≡ false) claimed_db.executions
unfolding program
none_is_early = (refl, (refl, tt))

complete_step_never_early_example :
    (db' : Db) × (complete_step run 1 "fetch" (("body", null) ∷ []) claimed_db ≡ ok tt db')
    × All (λ e. is_early 1 (completed run db') steps e ≡ false) db'.executions
complete_step_never_early_example =
    complete_step_never_early run 1 "fetch" (("body", null) ∷ []) steps claimed_db claimed-IsRunning
      one_is_running none_is_early

complete_step-status_example :
    (db' : Db) × (row' : WorkflowRun) × (complete_step run 1 "fetch"
        (("body", null) ∷ [])
        claimed_db
      ≡ ok tt db')
    × (first (WorkflowRuns.has_id 1) db'.workflow_runs ≡ some row')
    × (row'.status ≡ (
        if all_completed (completed run db') steps
          && not (WorkflowRuns.is_failed claimed-IsRunning.row.status)
        then WorkflowRunStatus.done
        else claimed-IsRunning.row.status))
complete_step-status_example =
    complete_step-status run 1 "fetch" (("body", null) ∷ []) steps claimed_db claimed-IsRunning

claim_execution_lem_example :
    (r : Option Execution) × (db' : Db) × (claim_execution "w" none submitted_db ≡ ok r db')
    × IsClaim "w" submitted_db r db'
claim_execution_lem_example = claim_execution_lem "w" none submitted_db

two_steps_plain : assert_plain_steps two_steps ≡ returns steps
unfolding program
two_steps_plain = refl

submit_run_never_early_example :
    (r : WorkflowRun) × (db' : Db) × (submit_run print two_steps
        (("url", str "u") ∷ [])
        none
        empty_db
      ≡ ok r db')
    × (r.id ≡ 1)
    × (rows : List Execution) × (db'.executions ≡ empty_db.executions ++ rows)
    × AreFor 1 1 steps rows
    × (length db'.executions ≡ length empty_db.executions + length steps)
    × All (λ e. is_early 1 (completed r db') steps e ≡ false) db'.executions
submit_run_never_early_example =
    submit_run_never_early print two_steps (("url", str "u") ∷ []) none empty_db steps
      two_steps_plain tt
