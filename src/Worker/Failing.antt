-- ===== src/Worker/Failing.antt =====
-- What failing a run leaves.
use workflow_spec.Prelude.{
  ℕ, ◌≡◌, refl, sym, subst, Bool, true, false, not, ◌||◌, List, arith, nat_eq, All, All-map,
  All-update_where, update_where, update_row, update_where-map,
}
use workflow_spec.Shared.Transaction.{ok}
use workflow_spec.Core.Domain.{Execution, ExecutionStatus, failed, WorkflowRun, WorkflowRunStatus}
use workflow_spec.Core.Db.{Db}
use workflow_spec.Core.Executions
use workflow_spec.Core.Executions.{remaining, in_run}
use workflow_spec.Core.WorkflowRuns
use workflow_spec.Worker.Loop.{fail_run, fail_and_go_on}

abbrev pub has_failed : ExecutionStatus → Bool
has_failed failed = true
has_failed _ = false

-- The run has failed, so has the execution, and no other execution of the run will be claimed
-- unless it runs already.
pub record IsFailed (run_id execution_id : ℕ) (db : Db) : Type 0 where
  pub run_failed :
      All
        (λ r. (not (WorkflowRuns.has_id run_id r) || WorkflowRuns.is_failed r.status) ≡ true)
        db.workflow_runs
  pub execution_failed :
      All
        (λ e. (not (Executions.has_id execution_id e) || has_failed e.status) ≡ true)
        db.executions
  pub none_remains : All (λ e. remaining run_id e ≡ false) db.executions

module _ {ℓ κ} {A : Type ℓ} (P : A → Type κ) (p : A → Bool) (f : A → A) where
  pub All-updated : (xs : List A) → ((x : A) → P (update_row p f x)) → All P (update_where p f xs)
  All-updated xs h = subst (All P) (sym (update_where-map p f xs)) (All-map P (update_row p f) xs h)

pub fail_and_go_on_lem :
    (run_id execution_id : ℕ) (db : Db)
    → (db' : Db) × (fail_and_go_on run_id execution_id db ≡ ok true db')
      × IsFailed run_id execution_id db'
unfolding fail_and_go_on fail_run WorkflowRuns.mark_failed Executions.mark_failed
    Executions.fail_remaining_for_run WorkflowRuns.set_run_status Executions.set_status
fail_and_go_on_lem run_id execution_id db =
    let fail = λ (e : Execution). record e { status = failed; updated_at = db.now } in
    let fail_r =
      λ (r : WorkflowRun). record r { status = WorkflowRunStatus.failed; updated_at = db.now } in
    let rows = update_where (Executions.has_id execution_id) fail db.executions in
    let is =
      λ (e : Execution). (not (Executions.has_id execution_id e) || has_failed e.status) ≡ true in
    (
      _,
      refl,
      record {
        run_failed =
            All-updated
              (λ r. (not (WorkflowRuns.has_id run_id r) || WorkflowRuns.is_failed r.status) ≡ true)
              (WorkflowRuns.has_id run_id) fail_r db.workflow_runs (λ r. ground arith);
        execution_failed =
            All-update_where is (remaining run_id) fail rows (λ e h. ground arith)
              (All-updated is (Executions.has_id execution_id) fail db.executions
                (λ e. ground arith));
        none_remains =
            All-updated (λ e. remaining run_id e ≡ false) (remaining run_id) fail rows
              (λ e. ground arith);
      },
    )
