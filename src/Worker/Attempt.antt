-- ===== src/Worker/Attempt.antt =====
-- How the work on a claimed execution ends.
use workflow_spec.Prelude.{
  ℕ, ◌≡◌, ◌⊎◌, inl, inr, refl, subst, sym, String, Bool, true, List, [], ◌∷◌, Option, arith,
  string_eq, first,
}
use workflow_spec.Json.{Json, Dict}
use workflow_spec.Shared.Errors.{PlatformError, retryable, fatal, Result, returns, throws}
use workflow_spec.Shared.Transaction.{Outcome, ok, thrown, aborted, lift, pure, ◌>>◌, ◌>>=◌}
use workflow_spec.WorkflowSpec.Domain.{Step}
use workflow_spec.Core.Domain.{Execution, WorkflowRun}
use workflow_spec.Core.Db.{Db}
use workflow_spec.Core.Executions
use workflow_spec.Core.RunNodeOutputs
use workflow_spec.Core.WorkflowRuns
use workflow_spec.Engine.DependencyGraph.{compute_step_dependencies}
use workflow_spec.Engine.Interpreter.{
  complete_step, find_run_step_node, resolve_step_reads, resolve_all, read_outputs, with_output,
  as_record,
}
use workflow_spec.Worker.AgentClient.{Post, Reply}
use workflow_spec.Worker.Dispatch.{Dispatched, succeeded, reported, rejected, broken}
use workflow_spec.Worker.Bindings.{Printing}
use workflow_spec.Worker.Loop.{
  WorkerDeps, catch_platform, on_error, after_dispatch, fail_and_go_on, dispatch_node, try_step,
}
use workflow_spec.Worker.Failing.{IsFailed, fail_and_go_on_lem}

read_outputs_lem :
    (run_id : ℕ) (ids : List String) (db : Db)
    → (outputs : Dict (Dict Json)) × (read_outputs run_id ids db ≡ ok outputs db)
unfolding read_outputs RunNodeOutputs.get
read_outputs_lem run_id [] db = ([], refl)
read_outputs_lem run_id (id ∷ ids) db =
    let (rest, reads) = read_outputs_lem run_id ids db in
    (
      with_output id (first (RunNodeOutputs.is_at run_id id) db.run_node_outputs) rest,
      ground (arith, reads),
    )

-- Resolving a step's reads changes nothing.
pub resolve_step_reads_lem :
    (run : WorkflowRun) (node : Step) (db : Db)
    → (r : Result (Dict (Option Json))) × (resolve_step_reads run node db ≡ lift r db)
unfolding resolve_step_reads
resolve_step_reads_lem run node db =
    let (outputs, reads) = read_outputs_lem run.id (compute_step_dependencies node) db in
    (
      resolve_all node.reads (record { input = as_record run.input; node_outputs = outputs }),
      ground (arith, reads),
    )

abbrev pub Unfinished : Outcome Db Bool → Type 0
Unfinished (ok a db) = ⊥
Unfinished _ = Unit

-- Dispatching the claimed step with its resolved input brings the output.
abbrev pub Succeeds :
    (Step → Dict (Option Json) → Dispatched)
    → WorkflowRun
    → Execution
    → Db
    → Step
    → Dict Json
    → Type 0
Succeeds dispatch run e db node output =
    (input : Dict (Option Json)) × (find_run_step_node run e.step ≡ returns node)
    × (resolve_step_reads run node db ≡ ok input db)
    × (dispatch node input ≡ succeeded output)

-- It has not come to an end, and its transaction will be rolled back; or it has, with the step
-- completed, or with the run failed.
abbrev pub Ends :
    (Step → Dict (Option Json) → Dispatched)
    → WorkflowRun
    → Execution
    → Db
    → Outcome Db Bool
    → Type 0
Ends dispatch run e db m =
    Unfinished m
    ⊎ ((node : Step) × (output : Dict Json) × (db' : Db) × (m ≡ ok true db')
        × Succeeds dispatch run e db node output
        × (complete_step run e.id node.id output db ≡ ok tt db'))
    ⊎ ((db' : Db) × (m ≡ ok true db') × IsFailed run.id e.id db')

module _ (run : WorkflowRun) (e : Execution) (db : Db)
    (dispatch : Step → Dict (Option Json) → Dispatched) where
  abbrev EndsAs : Outcome Db Bool → Type 0
  EndsAs = Ends dispatch run e db

  fails : EndsAs (fail_and_go_on run.id e.id db)
  fails = inr (inr (fail_and_go_on_lem run.id e.id db))

  on_error-Ends : (err : PlatformError) (db' : Db) → EndsAs (on_error run.id e.id err db')
  unfolding on_error
  on_error-Ends (retryable id) db' = inl tt
  on_error-Ends (fatal id) db' = inr (inr (fail_and_go_on_lem run.id e.id db'))

  module _ (node : Step) (output : Dict Json)
      (succeeds : Succeeds dispatch run e db node output) where
    completed :
        (m : Outcome Db Unit)
        → complete_step run e.id node.id output db ≡ m
        → EndsAs (catch_platform ((λ _. m) >> pure true) (on_error run.id e.id) db)
    completed (ok tt db') is = inr (inl (node, output, db', refl, succeeds, is))
    completed (thrown err db') is = on_error-Ends err db'
    completed aborted is = inl tt

  module _ (node : Step) (input : Dict (Option Json))
      (found : find_run_step_node run e.step ≡ returns node)
      (resolved : resolve_step_reads run node db ≡ ok input db) where
    dispatched :
        (d : Dispatched)
        → dispatch node input ≡ d
        → EndsAs (catch_platform (after_dispatch run e node d) (on_error run.id e.id) db)
    unfolding after_dispatch on_error Executions.mark_failed WorkflowRuns.mark_failed
        Executions.fail_remaining_for_run
    dispatched (succeeded output) is =
        completed node output (input, found, resolved, is)
          (complete_step run e.id node.id output db) refl
    dispatched (reported r) is = fails
    dispatched (rejected err) is = on_error-Ends err db
    dispatched broken is = fails

  read :
      (node : Step) (r : Result (Dict (Option Json)))
      → find_run_step_node run e.step ≡ returns node
      → resolve_step_reads run node db ≡ lift r db
      → EndsAs (
          catch_platform
            (lift r >>= λ input. after_dispatch run e node (dispatch node input))
            (on_error run.id e.id)
            db)
  read node (returns input) found reads =
      dispatched node input found reads (dispatch node input) refl
  read node (throws err) found reads = on_error-Ends err db

  looked_up :
      (r : Result Step)
      → find_run_step_node run e.step ≡ r
      → EndsAs (
          catch_platform
            (lift r >>= λ node. resolve_step_reads run node >>= λ input.
              after_dispatch run e node (dispatch node input))
            (on_error run.id e.id)
            db)
  looked_up (returns node) found =
      let (r, reads) = resolve_step_reads_lem run node db in
      subst
        (λ m. EndsAs (
          catch_platform ((λ _. m) >>= λ input. after_dispatch run e node (dispatch node input))
            (on_error run.id e.id) db))
        (sym reads) (read node r found reads)
  looked_up (throws err) found = on_error-Ends err db

module _ (printing : Printing) (print : ℕ → String) (fetch : Post → Reply) (deps : WorkerDeps) where
  pub try_step-Ends :
      (run : WorkflowRun) (e : Execution) (db : Db)
      → Ends
          (dispatch_node printing print fetch deps e)
          run
          e
          db
          (catch_platform (try_step printing print fetch deps run e) (on_error run.id e.id) db)
  unfolding try_step
  try_step-Ends run e db =
      looked_up run e db (dispatch_node printing print fetch deps e) (find_run_step_node run e.step)
        refl
