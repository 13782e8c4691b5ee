-- ===== src/Core/Executions.antt =====
-- src/core/repositories/executions.repository.ts, its queries, and `claim_execution` of
-- src/core/database/schema.sql
use workflow_spec.Prelude.{
  ℕ, suc, ◌+◌, ◌*◌, String, Bool, true, false, not, ◌&&◌, ◌||◌, List, [], ◌∷◌, ◌++◌, Option, none,
  some, ltb, leb, ◌==◌, contains, string_eq, nat_eq, if◌then◌else◌, select, first, update_where,
}
use workflow_spec.Json.{Json}
use workflow_spec.Shared.Errors.{core_enqueue_no_row_returned}
use workflow_spec.Shared.Transaction.{ok, aborted, gets, modify, ◌>>=◌}
use workflow_spec.Core.Domain.{
  ExecutionStatus, blocked, queued, running, waiting, done, failed, Execution, Wait, WorkflowRun,
}
use workflow_spec.Core.Db.{Db, Query, row_or_throw}

-- `status = …` in a query
abbrev pub is_blocked : ExecutionStatus → Bool
is_blocked blocked = true
is_blocked _ = false

abbrev pub is_queued : ExecutionStatus → Bool
is_queued queued = true
is_queued _ = false

abbrev pub is_running : ExecutionStatus → Bool
is_running running = true
is_running _ = false

abbrev pub is_waiting : ExecutionStatus → Bool
is_waiting waiting = true
is_waiting _ = false

-- `of_run = r`, which no row without a run passes
abbrev pub in_run : ℕ → Execution → Bool
in_run run_id e = elim e.run_id [ none ↦ false | some r ↦ r == run_id ]

abbrev pub has_id : ℕ → Execution → Bool
has_id id e = e.id == id

-- DEFAULT_LEASE_SECONDS
abbrev pub default_lease_seconds : ℕ
default_lease_seconds = 30

-- SET status = …, updated_at = now() WHERE …
unfoldable pub set_status : (Execution → Bool) → ExecutionStatus → Db → Db
set_status p status db = record db {
  executions =
      update_where p (λ e. record e { status = status; updated_at = db.now }) db.executions;
}

-- Both INSERT statements: without a run the status is the column's default, 'queued'.
unfoldable pub sql_enqueue :
    String → Option ℕ → String → Json → ExecutionStatus → Query (Option Execution)
sql_enqueue session_id run_id step input status db =
    let row : Execution = record {
      id = db.next_execution_id;
      session_id = session_id;
      step = step;
      input = input;
      status = status;
      worker_id = none;
      lease_until = none;
      attempts = 0;
      created_at = db.now;
      updated_at = db.now;
      run_id = run_id;
    } in
    ok (some row) (record db {
      executions = db.executions ++ (row ∷ []);
      next_execution_id = suc db.next_execution_id;
    })

-- executions_run_id_fkey: `executions.run_id` references `workflow_runs(id)`
abbrev pub run_exists : ℕ → Db → Bool
run_exists run_id db = elim (first (λ (r : WorkflowRun). r.id == run_id) db.workflow_runs) [
  | none ↦ false
  | some _ ↦ true
]

unfoldable pub sql_enqueue_for_run :
    String → ℕ → String → Json → ExecutionStatus → Query (Option Execution)
unfolding sql_enqueue
sql_enqueue_for_run session_id run_id step input status db =
    if run_exists run_id db
    then sql_enqueue session_id (some run_id) step input status db
    else aborted

-- A wait that is due: pending, with a wake time that has come.
abbrev pub due : ℕ → ℕ → Wait → Bool
due now execution_id w =
    w.execution_id == execution_id
    && elim w.satisfied_at [ none ↦ true | some _ ↦ false ]
    && elim w.wake_at [ none ↦ false | some t ↦ leb t now ]

abbrev pub any_due : ℕ → ℕ → List Wait → Bool
any_due now execution_id waits = elim (first (due now execution_id) waits) [
  | none ↦ false
  | some _ ↦ true
]

abbrev pub lease_expired : ℕ → Execution → Bool
lease_expired now e = elim e.lease_until [ none ↦ false | some t ↦ ltb t now ]

-- The WHERE of `claim_execution`, and SKIP LOCKED.
unfoldable pub claimable : Db → Execution → Bool
claimable db e =
    (is_queued e.status
      || (is_running e.status && lease_expired db.now e)
      || (is_waiting e.status && any_due db.now e.id db.waits))
    && not (contains db.locked e.id)

abbrev pub lower : Execution → Option Execution → Execution
lower e none = e
lower e (some f) = if ltb f.id e.id then f else e

-- ORDER BY id LIMIT 1
unfoldable pub least : List Execution → Option Execution
least [] = none
least (e ∷ es) = some (lower e (least es))

abbrev pub satisfy_due : ℕ → ℕ → Wait → Wait
satisfy_due now execution_id w =
    if due now execution_id w then record w { satisfied_at = some now } else w

abbrev pub claimed : String → ℕ → ℕ → Execution → Execution
claimed worker_id lease_seconds now e = record e {
  status = running;
  worker_id = some worker_id;
  lease_until = some (now + lease_seconds * 1000);
  attempts = suc e.attempts;
  updated_at = now;
}

-- SQL_CLAIM_EXECUTION
unfoldable pub sql_claim : String → ℕ → Query (Option Execution)
unfolding claimable least
sql_claim worker_id lease_seconds db = elim (least (select (claimable db) db.executions)) [
  | none ↦ ok none db
  | some e ↦ ok (some (claimed worker_id lease_seconds db.now e)) (record db {
    waits = update_where (due db.now e.id) (λ w. record w { satisfied_at = some db.now }) db.waits;
    executions = update_where (has_id e.id) (claimed worker_id lease_seconds db.now) db.executions;
  })
]

unfoldable pub enqueue : String → String → Json → Query Execution
unfolding sql_enqueue
enqueue session_id step input = do
  row ← sql_enqueue session_id none step input queued
  row_or_throw core_enqueue_no_row_returned row

unfoldable pub claim : String → Option ℕ → Query (Option Execution)
claim worker_id lease_seconds =
    sql_claim worker_id (elim lease_seconds [ none ↦ default_lease_seconds | some s ↦ s ])

unfoldable pub find_by_id : ℕ → Query (Option Execution)
find_by_id id = gets (λ db. first (has_id id) db.executions)

unfoldable pub mark_done : ℕ → Query Unit
unfolding set_status
mark_done id = modify (set_status (has_id id) done)

unfoldable pub mark_waiting : ℕ → Query Unit
unfolding set_status
mark_waiting id = modify (set_status (has_id id) waiting)

unfoldable pub mark_failed : ℕ → Query Unit
unfolding set_status
mark_failed id = modify (set_status (has_id id) failed)

-- SQL_FAIL_REMAINING_EXECUTIONS_FOR_RUN leaves 'running' rows alone.
abbrev pub remaining : ℕ → Execution → Bool
remaining run_id e =
    in_run run_id e && (is_blocked e.status || is_queued e.status || is_waiting e.status)

unfoldable pub fail_remaining_for_run : ℕ → Query Unit
unfolding set_status
fail_remaining_for_run run_id = modify (set_status (remaining run_id) failed)

unfoldable pub enqueue_for_run : ℕ → String → Json → ExecutionStatus → String → Query Execution
unfolding sql_enqueue_for_run
enqueue_for_run run_id node_id input status session_id = do
  row ← sql_enqueue_for_run session_id run_id node_id input status
  row_or_throw core_enqueue_no_row_returned row

abbrev pub blocked_at : ℕ → String → Execution → Bool
blocked_at run_id node_id e = in_run run_id e && e.step == node_id && is_blocked e.status

unfoldable pub promote_blocked_to_queued : ℕ → String → Query Unit
unfolding set_status
promote_blocked_to_queued run_id node_id = modify (set_status (blocked_at run_id node_id) queued)
