-- ===== src/Engine/Promote.antt =====
-- What `promote_steps` does to the executions, row by row.
use mathlib.Core.List.{map-map}
use mathlib.Core.Path.{fun_ext}
use workflow_spec.Prelude.{
  Bool-cases, inl, inr, ℕ, ◌≡◌, ap, sym, ◌∙◌, String, Bool, true, false, not, ◌&&◌, List, [], ◌∷◌,
  map, arith, ◌==◌, contains, string_eq, nat_eq, if◌then◌else◌, every, any, update_where,
  update_row, update_where-map, map_id,
}
use workflow_spec.Shared.Transaction.{ok}
use workflow_spec.WorkflowSpec.Domain.{Step}
use workflow_spec.Core.Domain.{Execution, queued}
use workflow_spec.Core.Db.{Db}
use workflow_spec.Core.Executions
use workflow_spec.Core.Executions.{in_run, is_blocked, blocked_at}
use workflow_spec.Engine.DependencyGraph.{compute_step_dependencies}
use workflow_spec.Engine.Interpreter.{promote_steps}

-- A node that is not completed, and whose dependencies all are.
abbrev pub is_ready : List String → Step → Bool
is_ready completed s =
    not (contains completed s.id) && every (contains completed) (compute_step_dependencies s)

abbrev pub ready_in : List String → List Step → String → Bool
ready_in completed steps id = any (λ (s : Step). id == s.id && is_ready completed s) steps

abbrev pub promote_row : ℕ → ℕ → List String → List Step → Execution → Execution
promote_row at run_id completed steps e =
    if in_run run_id e && is_blocked e.status && ready_in completed steps e.step
    then record e { status = queued; updated_at = at }
    else e

module _ (at run_id : ℕ) (completed : List String) where
  promote_row_skip :
      (s : Step) (steps : List Step)
      → is_ready completed s ≡ false
      → (e : Execution)
      → promote_row at run_id completed steps e ≡ promote_row at run_id completed (s ∷ steps) e
  promote_row_skip s steps h e = ground arith

  promote_row_step :
      (s : Step) (steps : List Step)
      → is_ready completed s ≡ true
      → (e : Execution)
      → promote_row at run_id completed steps (
          update_row
            (blocked_at run_id s.id)
            (λ e. record e { status = queued; updated_at = at })
            e)
        ≡ promote_row at run_id completed (s ∷ steps) e
  promote_row_step s steps h e = ground arith

  map-promote_row_none : (es : List Execution) → map (promote_row at run_id completed []) es ≡ es
  map-promote_row_none es = ap (λ f. map f es) (fun_ext (λ e. ground arith)) ∙ map_id es

  map-promote_row_skip :
      (s : Step) (steps : List Step)
      → is_ready completed s ≡ false
      → (es : List Execution)
      → map (promote_row at run_id completed steps) es
        ≡ map (promote_row at run_id completed (s ∷ steps)) es
  map-promote_row_skip s steps h es = ap (λ f. map f es) (fun_ext (promote_row_skip s steps h))

  map-promote_row_step :
      (s : Step) (steps : List Step)
      → is_ready completed s ≡ true
      → (es : List Execution)
      → map (promote_row at run_id completed steps) (
          update_where
            (blocked_at run_id s.id)
            (λ e. record e { status = queued; updated_at = at })
            es)
        ≡ map (promote_row at run_id completed (s ∷ steps)) es
  map-promote_row_step s steps h es =
      ap (map (promote_row at run_id completed steps)) (
        update_where-map (blocked_at run_id s.id)
          (λ e. record e { status = queued; updated_at = at }) es)
      ∙ map-map (promote_row at run_id completed steps)
          (update_row (blocked_at run_id s.id) (λ e. record e { status = queued; updated_at = at }))
          es
      ∙ ap (λ f. map f es) (fun_ext (promote_row_step s steps h))

-- The loop promotes exactly the blocked executions of ready nodes of its run, and changes
-- nothing else in the database.
pub promote_steps_lem :
    (run_id : ℕ) (completed : List String) (steps : List Step) (db : Db)
    → promote_steps run_id completed steps db
      ≡ ok tt
          (record db { executions = map (promote_row db.now run_id completed steps) db.executions })
unfolding promote_steps Executions.promote_blocked_to_queued
promote_steps_lem run_id completed [] db =
    ap (λ es. ok tt (record db { executions = es }))
      (sym (map-promote_row_none db.now run_id completed db.executions))
promote_steps_lem run_id completed (s ∷ steps) db =
    let moved = Executions.set_status (blocked_at run_id s.id) queued db in
    elim (Bool-cases (is_ready completed s)) [
      | inl r ↦ ground (
        arith,
        promote_steps_lem run_id completed steps moved,
        map-promote_row_step db.now run_id completed s steps r db.executions,
      )
      | inr r ↦ ground (
        arith,
        promote_steps_lem run_id completed steps db,
        map-promote_row_skip db.now run_id completed s steps r db.executions,
      )
    ]
