-- ===== src/Engine/Submit.antt =====
-- What a submitted run starts from.
use mathlib.Core.List.{append_assoc, append-nil}
use workflow_spec.Prelude.{
  ℕ, suc, ◌+◌, ◌≡◌, refl, ap, sym, String, true, false, not, ◌||◌, List, [], ◌∷◌, ◌++◌, Option,
  none, some, arith, ◌==◌, contains, string_eq, nat_eq, first, every, All, All-append, All-imp,
  Distinct, length, length-append, subst, if◌then◌else◌,
}
use workflow_spec.Json.{Json, obj, Dict, from_entries}
use workflow_spec.Json
use workflow_spec.Shared.Errors.{returns}
use workflow_spec.Shared.Transaction.{ok}
use workflow_spec.WorkflowSpec.Domain.{Step, WorkflowSpec}
use workflow_spec.Core.Domain.{Execution, ExecutionStatus, WorkflowRun, WorkflowRunStatus}
use workflow_spec.Core.Db.{Db}
use workflow_spec.Core.Executions
use workflow_spec.Core.Executions.{in_run, run_exists}
use workflow_spec.Core.WorkflowRuns
use workflow_spec.Engine.DependencyGraph.{compute_step_dependencies}
use workflow_spec.Engine.Interpreter.{
  assert_plain_steps, submit_run, enqueue_run, enqueue_steps, initial_status, session_label,
}
use workflow_spec.Engine.Plain.{ids, assert_plain_steps_iff}
use workflow_spec.Engine.Promote.{is_ready, ready_in}
use workflow_spec.Engine.Scheduling.{is_started, is_early, satisfied_of_ready, satisfied_mono}
use workflow_spec.Engine.Completion.{completed}

module _ (at run_id : ℕ) (session_id : String) where
  abbrev new_row : ℕ → Step → Execution
  new_row id s = record {
    id = id;
    session_id = session_id;
    step = s.id;
    input = obj Json.Fields.end;
    status = initial_status (compute_step_dependencies s);
    worker_id = none;
    lease_until = none;
    attempts = 0;
    created_at = at;
    updated_at = at;
    run_id = some run_id;
  }

  abbrev new_rows : ℕ → List Step → List Execution
  new_rows id [] = []
  new_rows id (s ∷ steps) = new_row id s ∷ new_rows (suc id) steps

abbrev enqueued : ℕ → String → List Step → Db → Db
enqueued run_id session_id steps db = record db {
  executions = db.executions ++ new_rows db.now run_id session_id db.next_execution_id steps;
  next_execution_id = length steps + db.next_execution_id;
}

enqueue_steps_lem :
    (run_id : ℕ) (session_id : String) (steps : List Step) (db : Db)
    → run_exists run_id db ≡ true
    → enqueue_steps run_id session_id steps db ≡ ok tt (enqueued run_id session_id steps db)
unfolding enqueue_steps Executions.enqueue_for_run Executions.sql_enqueue
enqueue_steps_lem run_id session_id [] db is = ground (arith, append-nil db.executions)
enqueue_steps_lem run_id session_id (s ∷ steps) db is =
    let row = new_row db.now run_id session_id db.next_execution_id s in
    let db1 : Db = record db {
      executions = db.executions ++ (row ∷ []);
      next_execution_id = suc db.next_execution_id;
    } in
    ground (
      arith,
      enqueue_steps_lem run_id session_id steps db1,
      append_assoc db.executions (row ∷ [])
          (new_rows db.now run_id session_id (suc db.next_execution_id) steps),
    )

-- A step that starts does not wait for anything.
started-initial_status :
    (ds : List String) → (not (is_started (initial_status ds)) || every (contains []) ds) ≡ true
started-initial_status [] = refl
started-initial_status (d ∷ ds) = refl

abbrev IsListed : List Step → Step → Type 0
IsListed steps s = (not (is_ready [] s) || ready_in [] steps s.id) ≡ true

steps-IsListed : (steps : List Step) → All (IsListed steps) steps
steps-IsListed [] = tt
steps-IsListed (s ∷ steps) = (
  ground arith,
  All-imp (IsListed steps) (IsListed (s ∷ steps)) steps (λ t h. ground arith)
      (steps-IsListed steps),
)

module _ (at run_id : ℕ) (session_id : String) (completed : List String) (steps : List Step)
    (distinct : Distinct (ids steps)) where
  new_row-not_early :
      (id : ℕ) (s : Step)
      → IsListed steps s
      → is_early run_id completed steps (new_row at run_id session_id id s) ≡ false
  new_row-not_early id s listed = ground (
    arith,
    started-initial_status (compute_step_dependencies s),
    satisfied_of_ready [] s.id steps distinct,
    satisfied_mono [] completed (λ x h. absurd (ground arith)) steps s.id,
  )

  new_rows-not_early :
      (id : ℕ) (rest : List Step)
      → All (IsListed steps) rest
      → All (λ e. is_early run_id completed steps e ≡ false) (new_rows at run_id session_id id rest)
  new_rows-not_early id [] a = tt
  new_rows-not_early id (s ∷ rest) a =
      (new_row-not_early id s a.0, new_rows-not_early (suc id) rest a.1)

length-new_rows :
    (at run_id : ℕ) (session_id : String) (id : ℕ) (steps : List Step)
    → length (new_rows at run_id session_id id steps) ≡ length steps
length-new_rows at run_id session_id id [] = refl
length-new_rows at run_id session_id id (s ∷ steps) =
    ap (λ n. suc n) (length-new_rows at run_id session_id (suc id) steps)

-- One execution for each step, in the steps' order and under consecutive ids: of this run, held by
-- no worker, and queued if the step depends on nothing, else blocked.
abbrev pub AreFor : ℕ → ℕ → List Step → List Execution → Type 0
AreFor run_id id [] [] = Unit
AreFor run_id id (s ∷ steps) (e ∷ rows) =
    (e.id ≡ id)
    × (e.run_id ≡ some run_id)
    × (e.step ≡ s.id)
    × (e.worker_id ≡ none)
    × (e.status ≡ (if is_ready [] s then ExecutionStatus.queued else ExecutionStatus.blocked))
    × AreFor run_id (suc id) steps rows
AreFor run_id id [] (e ∷ rows) = ⊥
AreFor run_id id (s ∷ steps) [] = ⊥

initial_status_lem :
    (ds : List String)
    → initial_status ds
      ≡ (if every (contains []) ds then ExecutionStatus.queued else ExecutionStatus.blocked)
initial_status_lem [] = refl
initial_status_lem (d ∷ ds) = refl

new_rows-AreFor :
    (at run_id : ℕ) (session_id : String) (id : ℕ) (steps : List Step)
    → AreFor run_id id steps (new_rows at run_id session_id id steps)
new_rows-AreFor at run_id session_id id [] = tt
new_rows-AreFor at run_id session_id id (s ∷ steps) = (
  refl,
  refl,
  refl,
  refl,
  initial_status_lem (compute_step_dependencies s),
  new_rows-AreFor at run_id session_id (suc id) steps,
)

finds_last :
    (id : ℕ) (rs : List WorkflowRun) (r : WorkflowRun)
    → r.id ≡ id
    → (elim (first (λ (q : WorkflowRun). q.id == id) (rs ++ (r ∷ []))) [
      | none ↦ false
      | some _ ↦ true
    ])
      ≡ true
finds_last id [] r h = ground arith
finds_last id (q ∷ rs) r h = ground (arith, finds_last id rs r)

module _ (print : ℕ → String) (spec : WorkflowSpec) (input : Dict Json) (session_id : Option String)
    (db : Db) where
  run : WorkflowRun
  run = record {
    id = db.next_run_id;
    session_id = session_id;
    spec = spec;
    input = obj (from_entries input);
    status = WorkflowRunStatus.running;
    created_at = db.now;
    updated_at = db.now;
  }

  created : Db
  created = record db {
    workflow_runs = db.workflow_runs ++ (run ∷ []);
    next_run_id = suc db.next_run_id;
  }

  Submitted : List Step → Type 0
  Submitted steps =
      (r : WorkflowRun) × (db' : Db) × (enqueue_run print session_id run steps created ≡ ok r db')
      × (r.id ≡ db.next_run_id)
      × (db'.executions
          ≡ db.executions
            ++ new_rows db.now db.next_run_id (session_label print session_id db.next_run_id)
                db.next_execution_id steps)

  submits : (steps : List Step) → Submitted steps
  unfolding enqueue_run WorkflowRuns.mark_done run created Submitted
  submits [] = (_, _, refl, refl, sym (append-nil db.executions))
  submits (s ∷ steps) =
      let label = session_label print session_id db.next_run_id in
      (
        run,
        enqueued db.next_run_id label (s ∷ steps) created,
        ground (
          arith,
          enqueue_steps_lem db.next_run_id label (s ∷ steps) created
              (finds_last db.next_run_id db.workflow_runs run refl),
        ),
        refl,
        refl,
      )

  -- Submitting a plain spec under a run id that no execution has: it returns a run with that id;
  -- behind the executions that were there it adds exactly one for each step, in the steps' order and
  -- under consecutive ids, of this run, held by no worker, and queued if its step depends on
  -- nothing, else blocked; and no execution of the run is claimable, claimed or done before the
  -- dependencies of its step are completed.
  pub submit_run_never_early :
      (steps : List Step)
      → assert_plain_steps spec ≡ returns steps
      → All (λ e. in_run db.next_run_id e ≡ false) db.executions
      → (r : WorkflowRun) × (db' : Db) × (submit_run print spec input session_id db ≡ ok r db')
        × (r.id ≡ db.next_run_id)
        × (rows : List Execution) × (db'.executions ≡ db.executions ++ rows)
        × AreFor db.next_run_id db.next_execution_id steps rows
        × (length db'.executions ≡ length db.executions + length steps)
        × All (λ e. is_early db.next_run_id (completed r db') steps e ≡ false) db'.executions
  unfolding submit_run WorkflowRuns.create WorkflowRuns.sql_insert run created Submitted
  submit_run_never_early steps plain new =
      let (r, db', went, same, rows) = submits steps in
      let label = session_label print session_id db.next_run_id in
      let added = new_rows db.now db.next_run_id label db.next_execution_id steps in
      let early = λ (e : Execution). is_early db.next_run_id (completed r db') steps e ≡ false in
      (
        r,
        db',
        ground (arith, plain, went),
        same,
        added,
        rows,
        new_rows-AreFor db.now db.next_run_id label db.next_execution_id steps,
        ground (
          arith,
          rows,
          length-append db.executions added,
          length-new_rows db.now db.next_run_id label db.next_execution_id steps,
        ),
        subst (All early) (sym rows) (
            All-append early db.executions added
              (All-imp (λ e. in_run db.next_run_id e ≡ false) early db.executions
                (λ e out. ground arith) new)
              (new_rows-not_early db.now db.next_run_id label (completed r db') steps
                ((assert_plain_steps_iff spec steps).0 plain).1 db.next_execution_id steps
                (steps-IsListed steps))),
      )
