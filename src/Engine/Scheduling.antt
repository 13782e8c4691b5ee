-- ===== src/Engine/Scheduling.antt =====
-- When steps of a run become claimable, and when the run is done.
use workflow_spec.Prelude.{
  ℕ, ◌≡◌, refl, ap, String, Bool, true, false, not, ◌&&◌, ◌||◌, List, [], ◌∷◌, ◌++◌, none, some,
  map, arith, ◌==◌, contains, string_eq, nat_eq, first, every, All, Distinct, update_where,
  update_row,
}
use workflow_spec.Json.{Json}
use workflow_spec.WorkflowSpec.Domain.{Step}
use workflow_spec.Core.Domain.{Execution, ExecutionStatus, blocked, done, failed, RunNodeOutput}
use workflow_spec.Core.Db.{Db}
use workflow_spec.Core.Executions
use workflow_spec.Core.Executions.{in_run, is_blocked, is_running}
use workflow_spec.Core.RunNodeOutputs
use workflow_spec.Core.RunNodeOutputs.{completed_in}
use workflow_spec.Engine.DependencyGraph.{compute_step_dependencies}
use workflow_spec.Engine.Plain.{ids}
use workflow_spec.Engine.Promote.{ready_in, promote_row}
use workflow_spec.Engine.Complete.{recorded}

-- A row that waits for nothing any more and is still blocked.
abbrev pub is_stuck : ℕ → List String → List Step → Execution → Bool
is_stuck run_id completed steps e =
    in_run run_id e && is_blocked e.status && ready_in completed steps e.step

-- All dependencies of the steps with this id are completed.
abbrev pub satisfied : List String → List Step → String → Bool
satisfied completed steps id =
    every (λ s. not (id == s.id) || every (contains completed) (compute_step_dependencies s)) steps

abbrev pub is_started : ExecutionStatus → Bool
is_started blocked = false
is_started failed = false
is_started _ = true

-- A row that is claimable, claimed or done before the dependencies of its step are completed.
abbrev pub is_early : ℕ → List String → List Step → Execution → Bool
is_early run_id completed steps e =
    in_run run_id e && is_started e.status && not (satisfied completed steps e.step)

-- A node with a recorded output is among the completed ones.
first-completed_in :
    (run_id : ℕ) (node_id : String) (os : List RunNodeOutput)
    → (elim (first (RunNodeOutputs.is_at run_id node_id) os) [
      | none ↦ true
      | some _ ↦ contains (completed_in run_id os) node_id
    ])
      ≡ true
first-completed_in run_id node_id [] = refl
first-completed_in run_id node_id (x ∷ os) = ground (arith, first-completed_in run_id node_id os)

contains-completed_in_snoc :
    (run_id : ℕ) (x : String) (os : List RunNodeOutput) (o : RunNodeOutput)
    → o.run_id ≡ run_id
    → contains (completed_in run_id (os ++ (o ∷ []))) x
      ≡ (x == o.node_id || contains (completed_in run_id os) x)
contains-completed_in_snoc run_id x [] o h = ground arith
contains-completed_in_snoc run_id x (y ∷ os) o h =
    ground (arith, contains-completed_in_snoc run_id x os o h)

pub completed_in-recorded :
    (run_id : ℕ) (node_id : String) (output : Json) (db : Db) (x : String)
    → contains (completed_in run_id (recorded run_id node_id output db)) x
      ≡ (x == node_id || contains (completed_in run_id db.run_node_outputs) x)
completed_in-recorded run_id node_id output db x = ground (
  arith,
  first-completed_in run_id node_id db.run_node_outputs,
  ap (contains (completed_in run_id db.run_node_outputs)) {x = x} {y = node_id},
  contains-completed_in_snoc run_id x db.run_node_outputs
      (record { run_id = run_id; node_id = node_id; output = output; completed_at = db.now }) refl,
)

pub promote_row-not_stuck :
    (at run_id : ℕ) (completed : List String) (steps : List Step) (e : Execution)
    → is_stuck run_id completed steps (promote_row at run_id completed steps e) ≡ false
promote_row-not_stuck at run_id completed steps e = ground arith

module _ (completed completed' : List String)
    (grows : (x : String) → contains completed x ≡ true → contains completed' x ≡ true) where
  every-contains_mono :
      (xs : List String)
      → every (contains completed) xs ≡ true
      → every (contains completed') xs ≡ true
  every-contains_mono [] h = refl
  every-contains_mono (x ∷ xs) h = ground (arith, grows x, every-contains_mono xs)

  pub satisfied_mono :
      (steps : List Step) (id : String)
      → satisfied completed steps id ≡ true
      → satisfied completed' steps id ≡ true
  satisfied_mono [] id h = refl
  satisfied_mono (s ∷ steps) id h =
      ground (arith, every-contains_mono (compute_step_dependencies s), satisfied_mono steps id)

module _ (completed : List String) (id : String) where
  satisfied-absent :
      (steps : List Step) → contains (ids steps) id ≡ false → satisfied completed steps id ≡ true
  satisfied-absent [] h = refl
  satisfied-absent (s ∷ steps) h = ground (arith, satisfied-absent steps)

  ready_in-absent :
      (steps : List Step) → contains (ids steps) id ≡ false → ready_in completed steps id ≡ false
  ready_in-absent [] h = refl
  ready_in-absent (s ∷ steps) h = ground (arith, ready_in-absent steps)

  -- Where no id stands twice, a ready node's dependencies are satisfied.
  pub satisfied_of_ready :
      (steps : List Step)
      → Distinct (ids steps)
      → ready_in completed steps id ≡ true
      → satisfied completed steps id ≡ true
  satisfied_of_ready [] d h = refl
  satisfied_of_ready (s ∷ steps) d h = ground (
    arith,
    satisfied-absent steps,
    ready_in-absent steps,
    satisfied_of_ready steps d.1,
    ap (contains (ids steps)) {x = id} {y = s.id},
  )

module _ (run_id at execution_id : ℕ) (completed completed' : List String)
    (grows : (x : String) → contains completed x ≡ true → contains completed' x ≡ true)
    (steps : List Step) (distinct : Distinct (ids steps)) where
  abbrev pub finish : Execution → Execution
  finish e = record e { status = done; updated_at = at }

  early-row :
      (e : Execution)
      → is_early run_id completed steps e ≡ false
      → (Executions.has_id execution_id e && not (is_running e.status)) ≡ false
      → is_early run_id completed' steps (
          promote_row at run_id completed' steps
            (update_row (Executions.has_id execution_id) finish e))
        ≡ false
  early-row e early running_one = ground (
    arith,
    satisfied_mono completed completed' grows steps e.step,
    satisfied_of_ready completed' e.step steps distinct,
  )

  pub early-rows :
      (es : List Execution)
      → All (λ e. is_early run_id completed steps e ≡ false) es
      → All (λ e. (Executions.has_id execution_id e && not (is_running e.status)) ≡ false) es
      → All
          (λ e. is_early run_id completed' steps e ≡ false)
          (map
            (promote_row at run_id completed' steps)
            (update_where (Executions.has_id execution_id) finish es))
  early-rows [] early running_one = tt
  early-rows (e ∷ es) early running_one =
      (early-row e early.0 running_one.0, early-rows es early.1 running_one.1)
