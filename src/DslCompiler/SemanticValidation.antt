-- ===== src/DslCompiler/SemanticValidation.antt =====
-- src/dsl-compiler/semantic-validation.ts
use mathlib.Core.List.{flat_map}
use workflow_spec.Prelude.{
  String, Bool, true, false, ◌&&◌, List, [], ◌∷◌, ◌++◌, map, Option, none, some, ◌==◌, contains,
  string_eq, if◌then◌else◌,
}
use workflow_spec.Json.{Dict, lookup, values}
use workflow_spec.WorkflowSpec.Domain.{Binding, SessionStateDeclaration, WorkflowSpec}
use workflow_spec.WorkflowSpec.BindingRefs.{collect_step_binding_ids, collect_step_reference_ids}
use workflow_spec.DslCompiler.Domain.{
  CompileError, duplicate_step_id, unresolved_step_reference,
  internal_step_id_referenced_externally,
}
use workflow_spec.DslCompiler.NodeWalk.{ScopePath, NodeVisitor, walk_nodes}

pub record ReferenceSite : Type 0 where
  pub site_id : String
  pub site_scope : ScopePath
  pub target_id : String

-- A target is visible in its own scope and in those inside it; where the target's path is the
-- longer one, the elements of the site's path run out.
unfoldable pub is_visible : ScopePath → ScopePath → Bool
unfolding string_eq
is_visible [] site = true
is_visible (t ∷ target) [] = false
is_visible (t ∷ target) (s ∷ site) = s == t && is_visible target site

pub record WalkResult : Type 0 where
  pub id_to_scope : Dict ScopePath
  pub duplicate_ids : List String
  pub references : List ReferenceSite

abbrev pub sites : String → ScopePath → List String → List ReferenceSite
sites id scope targets =
    map (λ target. record { site_id = id; site_scope = scope; target_id = target }) targets

abbrev pub push_sites : List ReferenceSite → WalkResult → WalkResult
push_sites new result = record result { references = result.references ++ new }

abbrev pub walk_binding_for_step_refs : Binding → String → ScopePath → WalkResult → WalkResult
walk_binding_for_step_refs binding id scope result =
    push_sites (sites id scope (collect_step_binding_ids binding)) result

unfoldable pub walk_bindings : List Binding → String → ScopePath → WalkResult → WalkResult
walk_bindings [] id scope result = result
walk_bindings (b ∷ bs) id scope result =
    walk_bindings bs id scope (walk_binding_for_step_refs b id scope result)

abbrev pub walk_binding_map_for_step_refs :
    Dict Binding → String → ScopePath → WalkResult → WalkResult
walk_binding_map_for_step_refs bindings = walk_bindings (values bindings)

abbrev pub set_add : String → List String → List String
set_add id ids = if contains ids id then ids else ids ++ (id ∷ [])

unfoldable pub record_id : String → ScopePath → WalkResult → WalkResult
unfolding lookup
record_id id scope result = elim (lookup id result.id_to_scope) [
  | some _ ↦ record result { duplicate_ids = set_add id result.duplicate_ids }
  | none ↦ record result { id_to_scope = result.id_to_scope ++ ((id, scope) ∷ []) }
]

abbrev pub reference_visitor : NodeVisitor WalkResult
reference_visitor = record {
  on_step = λ step scope result.
      push_sites (sites step.id scope (collect_step_reference_ids step))
        (record_id step.id scope result);
  on_branch = λ id selector scope result.
      walk_binding_for_step_refs selector id scope (record_id id scope result);
  on_case_walked = λ id yields scope result. walk_binding_map_for_step_refs yields id scope result;
  on_map = λ id source scope result.
      walk_binding_for_step_refs source id scope (record_id id scope result);
  on_body_walked = λ id yields scope result. walk_binding_map_for_step_refs yields id scope result;
}

-- `if (!binding) return`
abbrev pub walk_fallback : Option Binding → String → WalkResult → WalkResult
walk_fallback none key result = result
walk_fallback (some b) key result = walk_binding_for_step_refs b key [] result

-- The loop over `sessionState`.
unfoldable pub walk_fallbacks : Dict SessionStateDeclaration → WalkResult → WalkResult
walk_fallbacks [] result = result
walk_fallbacks ((key, decl) ∷ rest) result =
    walk_fallbacks rest (walk_fallback decl.fallback key result)

abbrev pub no_result : WalkResult
no_result = record { id_to_scope = []; duplicate_ids = []; references = [] }

unfoldable pub walk_document : WorkflowSpec → WalkResult
unfolding walk_bindings walk_fallbacks
walk_document spec = walk_fallbacks spec.session_state (
    walk_binding_map_for_step_refs spec.outputs "" []
      (walk_nodes reference_visitor spec.steps [] no_result))

unfoldable pub reference_errors : Dict ScopePath → ReferenceSite → List CompileError
unfolding lookup is_visible
reference_errors id_to_scope ref = elim (lookup ref.target_id id_to_scope) [
  | none ↦ record { code = unresolved_step_reference; path = ref.site_id } ∷ []
  | some target_scope ↦
      if is_visible target_scope ref.site_scope
      then []
      else record { code = internal_step_id_referenced_externally; path = ref.site_id } ∷ []
]

unfoldable pub errors_of : WalkResult → List CompileError
unfolding reference_errors
errors_of result =
    map (λ id. record { code = duplicate_step_id; path = id }) result.duplicate_ids
    ++ flat_map (reference_errors result.id_to_scope) result.references

unfoldable pub validate_step_references : WorkflowSpec → List CompileError
unfolding walk_document errors_of
validate_step_references spec = errors_of (walk_document spec)
