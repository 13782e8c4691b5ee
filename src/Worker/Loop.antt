-- ===== src/Worker/Loop.antt =====
-- src/apps/worker/worker-loop.ts
use workflow_spec.Prelude.{ℕ, String, Bool, true, false, List, [], ◌∷◌, Option, none, some}
use workflow_spec.Json.{Json, Dict}
use workflow_spec.Shared.Errors.{PlatformError, retryable, fatal, worker_execution_missing_run}
use workflow_spec.Shared.Transaction.{
  ok, thrown, aborted, Settled, resolved, rejected, with_transaction, pure, throw, lift, ◌>>=◌,
  ◌>>◌,
}
use workflow_spec.WorkflowSpec.Domain.{Step}
use workflow_spec.Core.Domain.{Execution, WorkflowRun}
use workflow_spec.Core.Db.{Db, Query}
use workflow_spec.Core.Executions
use workflow_spec.Core.WorkflowRuns
use workflow_spec.Engine.ClaimComplete.{claim_execution}
use workflow_spec.Engine.Interpreter.{complete_step, find_run_step_node, resolve_step_reads}
use workflow_spec.Worker.AgentClient.{Post, Reply}
use workflow_spec.Worker.Dispatch.{Dispatched, succeeded, reported, broken, dispatch_step}
use workflow_spec.Worker.Bindings.{Printing}

pub record WorkerDeps : Type 0 where
  pub agent_base_url : String
  pub worker_id : String
  pub lease_seconds : ℕ
  pub invoke_timeout_ms : ℕ
  pub agent_auth_token : Option String

unfoldable pub fail_run : ℕ → ℕ → Query Unit
fail_run run_id execution_id = do
  WorkflowRuns.mark_failed run_id
  Executions.mark_failed execution_id
  Executions.fail_remaining_for_run run_id

-- `catch (err)` inside the transaction. After a failed statement the handler's own fail as well.
abbrev pub catch_platform : Query Bool → (PlatformError → Query Bool) → Query Bool
catch_platform body handler db = elim (body db) [
  | ok b db' ↦ ok b db'
  | thrown e db' ↦ handler e db'
  | aborted ↦ aborted
]

unfoldable pub fail_and_go_on : ℕ → ℕ → Query Bool
unfolding fail_run
fail_and_go_on run_id execution_id = do fail_run run_id execution_id; pure true

-- A retryable error is thrown again, any other fails the run.
unfoldable pub on_error : ℕ → ℕ → PlatformError → Query Bool
unfolding fail_and_go_on
on_error run_id execution_id (retryable id) = throw (retryable id)
on_error run_id execution_id (fatal id) = fail_and_go_on run_id execution_id

-- What follows `dispatchStep` in the inner `try`. An error of the runtime goes to the handler too,
-- which fails the run.
unfoldable pub after_dispatch : WorkflowRun → Execution → Step → Dispatched → Query Bool
unfolding fail_and_go_on
after_dispatch run execution node (succeeded output) = do
  complete_step run execution.id node.id output
  pure true
after_dispatch run execution node (reported r) = fail_and_go_on run.id execution.id
after_dispatch run execution node (Dispatched.rejected e) = throw e
after_dispatch run execution node broken = fail_and_go_on run.id execution.id

-- The outer `catch`: whatever the transaction is rejected with, no work was done.
abbrev pub settle : Settled Bool × Db → Bool × Db
settle (resolved worked, db) = (worked, db)
settle (rejected e, db) = (false, db)

module _ (printing : Printing) (print : ℕ → String) (fetch : Post → Reply) (deps : WorkerDeps) where
  unfoldable pub dispatch_node : Execution → Step → Dict (Option Json) → Dispatched
  dispatch_node execution node input =
      dispatch_step printing print fetch deps.agent_base_url
        (record {
          execution_id = execution.id;
          step = node;
          resolved_input = input;
          timeout_ms = deps.invoke_timeout_ms;
          capability = none;
          content_hash = none;
        })
        deps.agent_auth_token

  -- The inner `try`.
  unfoldable pub try_step : WorkflowRun → Execution → Query Bool
  unfolding dispatch_node after_dispatch
  try_step run execution = do
    node ← lift (find_run_step_node run execution.step)
    input ← resolve_step_reads run node
    after_dispatch run execution node (dispatch_node execution node input)

  unfoldable pub run_claimed : Execution → Option WorkflowRun → Query Bool
  unfolding try_step on_error
  run_claimed execution none = throw (fatal worker_execution_missing_run)
  run_claimed execution (some run) =
      catch_platform (try_step run execution) (on_error run.id execution.id)

  unfoldable pub run_of : Execution → Option ℕ → Query Bool
  unfolding run_claimed
  run_of execution none = throw (retryable worker_execution_missing_run)
  run_of execution (some run_id) = WorkflowRuns.find_by_id run_id >>= run_claimed execution

  unfoldable pub run_execution : Option Execution → Query Bool
  unfolding run_of
  run_execution none = pure false
  run_execution (some execution) = run_of execution execution.run_id

  unfoldable pub claim_and_run : Query Bool
  unfolding run_execution
  claim_and_run = do
    execution ← claim_execution deps.worker_id (some deps.lease_seconds)
    run_execution execution

  unfoldable pub run_once : Db → Bool × Db
  unfolding claim_and_run with_transaction
  run_once db = settle (with_transaction claim_and_run db)

-- What one turn of the loop meets: what time and the others did to the database since the last
-- one, and how the agent answers.
pub record Turn : Type 0 where
  pub others : Db → Db
  pub fetch : Post → Reply

-- The loop, turn by turn until the signal aborts it; the flags say which turns worked, and the loop
-- sleeps behind each of the others.
unfoldable pub run_worker_loop :
    Printing → (ℕ → String) → WorkerDeps → List Turn → Db → List Bool × Db
unfolding run_once
run_worker_loop printing print deps [] db = ([], db)
run_worker_loop printing print deps (t ∷ turns) db =
    let one = run_once printing print t.fetch deps (t.others db) in
    let rest = run_worker_loop printing print deps turns one.1 in (one.0 ∷ rest.0, rest.1)
