-- ===== src/Worker/Completing.antt =====
-- What the statements of a step's completion do to the table of executions.
use workflow_spec.Prelude.{
  ℕ, ◌≡◌, refl, sym, subst, ◌++◌, String, Bool, true, false, ◌&&◌, List, [], ◌∷◌, Option, none,
  some, nat_eq, string_eq, arith, if◌then◌else◌, first, every, contains,
}
use workflow_spec.Json.{Json, obj, Dict, from_entries}
use workflow_spec.Shared.Errors.{Result, returns, throws, ErrorId}
use workflow_spec.Shared.Transaction.{ok, pure, lift}
use workflow_spec.WorkflowSpec.Domain.{Step}
use workflow_spec.Core.Domain.{Execution, queued, done, WorkflowRun, Checkpoint, RunNodeOutput}
use workflow_spec.Core.Db.{Db, Query, row_or_throw}
use workflow_spec.Core.Executions
use workflow_spec.Core.WorkflowRuns
use workflow_spec.Core.Checkpoints
use workflow_spec.Core.RunNodeOutputs
use workflow_spec.Engine.ClaimComplete.{complete_execution}
use workflow_spec.Engine.Interpreter.{
  promote_steps, promote_ready_nodes, assert_plain_steps, complete_step, all_completed,
}
use workflow_spec.Engine.DependencyGraph.{compute_step_dependencies}
use workflow_spec.Worker.Failing.{All-updated}
use workflow_spec.Worker.Advancing.{
  is_open, Advances-refl, Advances-update, Moving, Closing, Moves, Moves-on, Moving-bind,
  Closing-behind, Closing-before,
}

-- What does not touch the table.
pub Moving-row_or_throw : {A : Type 0} (id : ErrorId) (o : Option A) → Moving (row_or_throw id o)
Moving-row_or_throw id none db = Advances-refl db.executions
Moving-row_or_throw id (some row) db = Advances-refl db.executions

pub Moving-lift : {A : Type 0} (r : Result A) → Moving (lift {S = Db} r)
Moving-lift (returns a) db = Advances-refl db.executions
Moving-lift (throws e) db = Advances-refl db.executions

Moving-lock_for_update : (id : ℕ) → Moving (WorkflowRuns.lock_for_update id)
unfolding WorkflowRuns.lock_for_update
Moving-lock_for_update id db =
    Moving-row_or_throw _ (first (WorkflowRuns.has_id id) db.workflow_runs) db

module _ (i : ℕ) (step : String) (output : Json) (db : Db) where
  checkpoint_inserted :
      (o : Option Execution)
      → first (Executions.has_id i) db.executions ≡ o
      → (c : Option Checkpoint) → first (Checkpoints.is_at i step) db.checkpoints ≡ c
      → Moves db (Checkpoints.sql_insert i step output db)
  unfolding Checkpoints.sql_insert
  checkpoint_inserted none found c at = rw (found, Moves) tt
  checkpoint_inserted (some e) found none at =
      let row : Checkpoint = record {
        execution_id = i;
        step_id = step;
        output = output;
        committed_at = db.now;
      } in
      let is : Checkpoints.sql_insert i step output db
          ≡ ok (some row) (record db { checkpoints = db.checkpoints ++ (row ∷ []) }) =
        ground (arith, found, at) in
      subst (Moves db) (sym is) (Advances-refl db.executions)
  checkpoint_inserted (some e) found (some c) at =
      let is : Checkpoints.sql_insert i step output db ≡ ok none db = ground (arith, found, at) in
      subst (Moves db) (sym is) (Advances-refl db.executions)

  output_inserted :
      (b : Bool)
      → Executions.run_exists i db ≡ b
      → (c : Option RunNodeOutput) → first (RunNodeOutputs.is_at i step) db.run_node_outputs ≡ c
      → Moves db (RunNodeOutputs.sql_insert i step output db)
  unfolding RunNodeOutputs.sql_insert
  output_inserted false found c at = rw found tt
  output_inserted true found none at = rw (found, at) (Advances-refl db.executions)
  output_inserted true found (some c) at = rw (found, at) (Advances-refl db.executions)

Moving-insert : (i : ℕ) (step : String) (output : Json) → Moving (Checkpoints.insert i step output)
unfolding Checkpoints.insert
Moving-insert i step output db =
    Moves-on (Checkpoints.inserted_or_existing i step) db (Checkpoints.sql_insert i step output db)
      (checkpoint_inserted i step output db (first (Executions.has_id i) db.executions) refl
        (first (Checkpoints.is_at i step) db.checkpoints) refl)
      existing
  where
    existing : (o : Option Checkpoint) → Moving (Checkpoints.inserted_or_existing i step o)
    existing (some row) db' = Advances-refl db'.executions
    existing none db' = Moving-row_or_throw _ (first (Checkpoints.is_at i step) db'.checkpoints) db'

Moving-insert_output :
    (i : ℕ) (node : String) (output : Json) → Moving (RunNodeOutputs.insert_output i node output)
unfolding RunNodeOutputs.insert_output
Moving-insert_output i node output db =
    Moves-on (RunNodeOutputs.inserted_or_existing i node) db
      (RunNodeOutputs.sql_insert i node output db)
      (output_inserted i node output db (Executions.run_exists i db) refl
        (first (RunNodeOutputs.is_at i node) db.run_node_outputs) refl)
      existing
  where
    existing : (o : Option RunNodeOutput) → Moving (RunNodeOutputs.inserted_or_existing i node o)
    existing (some row) db' = Advances-refl db'.executions
    existing none db' =
        Moving-row_or_throw _ (first (RunNodeOutputs.is_at i node) db'.run_node_outputs) db'

Closing-mark_done : (i : ℕ) → Closing i (Executions.mark_done i)
unfolding Executions.mark_done Executions.set_status
Closing-mark_done i db =
    let close = λ (e : Execution). record e { status = done; updated_at = db.now } in
    (
      Advances-update (Executions.has_id i) close db.executions (λ e. refl) (λ e is. refl),
      All-updated (λ e. (Executions.has_id i e && is_open e.status) ≡ false) (Executions.has_id i)
          close db.executions (λ e. ground arith),
    )

pub Moving-if :
    {A : Type 0} (b : Bool) (m k : Query A) → Moving m → Moving k → Moving (if b then m else k)
Moving-if true m k hm hk = hm
Moving-if false m k hm hk = hk

pub Moving-pure : {A : Type 0} (a : A) → Moving (pure {S = Db} a)
Moving-pure a db = Advances-refl db.executions

Moving-promote_blocked :
    (run_id : ℕ) (node : String) → Moving (Executions.promote_blocked_to_queued run_id node)
unfolding Executions.promote_blocked_to_queued Executions.set_status
Moving-promote_blocked run_id node db =
    Advances-update (Executions.blocked_at run_id node)
      (λ e. record e { status = queued; updated_at = db.now }) db.executions (λ e. refl)
      (λ e is. ground (arith, is))

Moving-promote_steps :
    (run_id : ℕ) (completed : List String) (steps : List Step)
    → Moving (promote_steps run_id completed steps)
unfolding promote_steps
Moving-promote_steps run_id completed [] = Moving-pure tt
Moving-promote_steps run_id completed (s ∷ steps) =
    Moving-bind _ _
      (Moving-if (contains completed s.id) _ _ (Moving-pure tt) (
        Moving-if (every (contains completed) (compute_step_dependencies s)) _ _
          (Moving-promote_blocked run_id s.id) (Moving-pure tt)))
      (λ _. Moving-promote_steps run_id completed steps)

Moving-mark_run_done : (id : ℕ) → Moving (WorkflowRuns.mark_done id)
unfolding WorkflowRuns.mark_done WorkflowRuns.set_run_status
Moving-mark_run_done id db = Advances-refl db.executions

Moving-promote_ready_nodes :
    (run : WorkflowRun) (completed : List String) → Moving (promote_ready_nodes run completed)
unfolding promote_ready_nodes
Moving-promote_ready_nodes run completed =
    Moving-bind _ _ (Moving-lift (assert_plain_steps run.spec))
      (λ steps. Moving-promote_steps run.id completed steps)

Moving-list_completed : (id : ℕ) → Moving (RunNodeOutputs.list_completed_node_ids id)
unfolding RunNodeOutputs.list_completed_node_ids
Moving-list_completed id db = Advances-refl db.executions

Closing-complete_execution :
    (i : ℕ) (step : String) (output : Json) → Closing i (complete_execution i step output)
unfolding complete_execution
Closing-complete_execution i step output =
    Closing-behind _ _ i (Moving-insert i step output)
      (λ checkpoint. Closing-before _ _ i (Closing-mark_done i) (λ _. Moving-pure checkpoint))

-- Completing a step closes its execution, and opens none.
pub Closing-complete_step :
    (run : WorkflowRun) (i : ℕ) (node_id : String) (output : Dict Json)
    → Closing i (complete_step run i node_id output)
unfolding complete_step
Closing-complete_step run i node_id output =
    Closing-behind _ _ i (Moving-lock_for_update run.id) (λ _.
      Closing-before _ _ i (Closing-complete_execution i node_id (obj (from_entries output))) (λ _.
        Moving-bind _ _ (Moving-insert_output run.id node_id (obj (from_entries output))) (λ _.
          Moving-bind _ _ (Moving-list_completed run.id) (λ completed.
            Moving-bind _ _ (Moving-promote_ready_nodes run completed) (λ _.
              Moving-bind _ _ (Moving-lift (assert_plain_steps run.spec)) (λ steps.
                Moving-if (all_completed completed steps) _ _ (Moving-mark_run_done run.id)
                  (Moving-pure tt)))))))
