-- ===== src/Worker/Closing.antt =====
-- The end of the work on a claimed execution, and whether the execution is open behind it.
use workflow_spec.Prelude.{
  ℕ, ◌≡◌, refl, sym, subst, String, Bool, true, false, ◌&&◌, Option, none, some, nat_eq, arith,
}
use workflow_spec.Shared.Errors.{PlatformError, retryable, fatal}
use workflow_spec.Shared.Transaction.{Outcome, ok, thrown, aborted}
use workflow_spec.WorkflowSpec.Domain.{Step}
use workflow_spec.Core.Domain.{Execution, failed, WorkflowRun}
use workflow_spec.Core.Db.{Db, Query}
use workflow_spec.Core.Executions
use workflow_spec.Core.WorkflowRuns
use workflow_spec.Engine.Interpreter.{find_run_step_node, resolve_step_reads}
use workflow_spec.Worker.AgentClient.{Post, Reply}
use workflow_spec.Worker.Bindings.{Printing}
use workflow_spec.Worker.Dispatch.{Dispatched, succeeded, reported, rejected, broken}
use workflow_spec.Worker.Loop.{
  WorkerDeps, fail_run, fail_and_go_on, on_error, catch_platform, after_dispatch, dispatch_node,
  try_step, run_claimed,
}
use workflow_spec.Worker.Failing.{All-updated}
use workflow_spec.Worker.Attempt.{resolve_step_reads_lem}
use workflow_spec.Worker.Advancing.{
  is_open, Advances-refl, Advances-update, Moving, Closing, Moves, Closes, Closes-from,
  Closing-behind, Closing-before,
}
use workflow_spec.Worker.Completing.{Moving-lift, Moving-pure, Closing-complete_step}

Moving-mark_run_failed : (id : ℕ) → Moving (WorkflowRuns.mark_failed id)
unfolding WorkflowRuns.mark_failed WorkflowRuns.set_run_status
Moving-mark_run_failed id db = Advances-refl db.executions

Closing-mark_failed : (i : ℕ) → Closing i (Executions.mark_failed i)
unfolding Executions.mark_failed Executions.set_status
Closing-mark_failed i db =
    let close = λ (e : Execution). record e { status = failed; updated_at = db.now } in
    (
      Advances-update (Executions.has_id i) close db.executions (λ e. refl) (λ e is. refl),
      All-updated (λ e. (Executions.has_id i e && is_open e.status) ≡ false) (Executions.has_id i)
          close db.executions (λ e. ground arith),
    )

Moving-fail_remaining : (run_id : ℕ) → Moving (Executions.fail_remaining_for_run run_id)
unfolding Executions.fail_remaining_for_run Executions.set_status
Moving-fail_remaining run_id db =
    Advances-update (Executions.remaining run_id)
      (λ e. record e { status = failed; updated_at = db.now }) db.executions (λ e. refl)
      (λ e is. refl)

Closing-fail_and_go_on : (run_id i : ℕ) → Closing i (fail_and_go_on run_id i)
unfolding fail_and_go_on fail_run
Closing-fail_and_go_on run_id i =
    Closing-before _ _ i
      (Closing-behind _ _ i (Moving-mark_run_failed run_id)
        (λ _. Closing-before _ _ i (Closing-mark_failed i) (λ _. Moving-fail_remaining run_id)))
      (λ _. Moving-pure true)

Closing-on_error : (run_id i : ℕ) (err : PlatformError) → Closing i (on_error run_id i err)
unfolding on_error
Closing-on_error run_id i (retryable id) = λ db. Advances-refl db.executions
Closing-on_error run_id i (fatal id) = Closing-fail_and_go_on run_id i

Closing-after_dispatch :
    (run : WorkflowRun) (e : Execution) (node : Step) (d : Dispatched)
    → Closing e.id (after_dispatch run e node d)
unfolding after_dispatch
Closing-after_dispatch run e node (succeeded output) =
    Closing-before _ _ e.id (Closing-complete_step run e.id node.id output) (λ _. Moving-pure true)
Closing-after_dispatch run e node (reported r) = Closing-fail_and_go_on run.id e.id
Closing-after_dispatch run e node (rejected err) = λ db. Advances-refl db.executions
Closing-after_dispatch run e node broken = Closing-fail_and_go_on run.id e.id

Moving-resolve_step_reads : (run : WorkflowRun) (node : Step) → Moving (resolve_step_reads run node)
Moving-resolve_step_reads run node db =
    let (r, reads) = resolve_step_reads_lem run node db in
    subst (Moves db) (sym reads) (Moving-lift r db)

Closes-catch_platform :
    (i : ℕ) (handler : PlatformError → Query Bool) (db : Db) (m : Outcome Db Bool)
    → Closes i db m
    → ((err : PlatformError) → Closing i (handler err))
    → Closes i db (catch_platform (λ _. m) handler db)
Closes-catch_platform i handler db (ok b db') h handles = h
Closes-catch_platform i handler db (thrown err db') h handles =
    Closes-from i db db' h (handler err db') (handles err db')
Closes-catch_platform i handler db aborted h handles = tt

module _ (printing : Printing) (print : ℕ → String) (fetch : Post → Reply) (deps : WorkerDeps) where
  Closing-try_step :
      (run : WorkflowRun) (e : Execution) → Closing e.id (try_step printing print fetch deps run e)
  unfolding try_step
  Closing-try_step run e =
      Closing-behind _ _ e.id (Moving-lift (find_run_step_node run e.step)) (λ node.
        Closing-behind _ _ e.id (Moving-resolve_step_reads run node) (λ input.
          Closing-after_dispatch run e node (dispatch_node printing print fetch deps e node input)))

  pub Closing-run_claimed :
      (e : Execution) (r : Option WorkflowRun)
      → Closing e.id (run_claimed printing print fetch deps e r)
  unfolding run_claimed
  Closing-run_claimed e none db = Advances-refl db.executions
  Closing-run_claimed e (some run) db =
      Closes-catch_platform e.id (on_error run.id e.id) db
        (try_step printing print fetch deps run e db) (Closing-try_step run e db)
        (λ err. Closing-on_error run.id e.id err)
