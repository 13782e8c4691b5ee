-- ===== src/Core/WorkflowRuns.antt =====
-- src/core/repositories/workflow-runs.repository.ts and its queries
use workflow_spec.Prelude.{
  ℕ, suc, String, Bool, true, false, not, ◌&&◌, [], ◌∷◌, ◌++◌, Option, some, ◌==◌, nat_eq, first,
  update_where,
}
use workflow_spec.Json.{Json}
use workflow_spec.Shared.Errors.{core_workflow_run_no_row_returned, core_workflow_run_not_found}
use workflow_spec.Shared.Transaction.{ok, gets, modify, ◌>>=◌}
use workflow_spec.WorkflowSpec.Domain.{WorkflowSpec}
use workflow_spec.Core.Domain.{WorkflowRun, WorkflowRunStatus, running, done, failed}
use workflow_spec.Core.Db.{Db, Query, row_or_throw}

abbrev pub has_id : ℕ → WorkflowRun → Bool
has_id id r = r.id == id

abbrev pub is_failed : WorkflowRunStatus → Bool
is_failed failed = true
is_failed _ = false

-- SQL_INSERT_WORKFLOW_RUN; the status is the column's default
unfoldable pub sql_insert : Option String → WorkflowSpec → Json → Query (Option WorkflowRun)
sql_insert session_id spec input db =
    let row : WorkflowRun = record {
      id = db.next_run_id;
      session_id = session_id;
      spec = spec;
      input = input;
      status = running;
      created_at = db.now;
      updated_at = db.now;
    } in
    ok (some row) (record db {
      workflow_runs = db.workflow_runs ++ (row ∷ []);
      next_run_id = suc db.next_run_id;
    })

unfoldable pub set_run_status : (WorkflowRun → Bool) → WorkflowRunStatus → Db → Db
set_run_status p status db = record db {
  workflow_runs =
      update_where p (λ r. record r { status = status; updated_at = db.now }) db.workflow_runs;
}

unfoldable pub create : Option String → WorkflowSpec → Json → Query WorkflowRun
unfolding sql_insert
create session_id spec input = do
  row ← sql_insert session_id spec input
  row_or_throw core_workflow_run_no_row_returned row

unfoldable pub find_by_id : ℕ → Query (Option WorkflowRun)
find_by_id id = gets (λ db. first (has_id id) db.workflow_runs)

-- A run that failed stays failed.
unfoldable pub mark_done : ℕ → Query Unit
unfolding set_run_status
mark_done id = modify (set_run_status (λ r. has_id id r && not (is_failed r.status)) done)

unfoldable pub mark_failed : ℕ → Query Unit
unfolding set_run_status
mark_failed id = modify (set_run_status (has_id id) failed)

-- The row lock is not part of the state: a transaction that does not get it waits.
unfoldable pub lock_for_update : ℕ → Query WorkflowRun
lock_for_update id = do
  row ← gets (λ db. first (has_id id) db.workflow_runs)
  row_or_throw core_workflow_run_not_found row
