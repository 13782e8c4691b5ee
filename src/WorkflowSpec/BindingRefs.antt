-- ===== src/WorkflowSpec/BindingRefs.antt =====
-- src/workflow-spec/binding-refs.ts
use mathlib.Core.List.{flat_map}
use workflow_spec.Prelude.{String, List, [], ◌∷◌, ◌++◌}
use workflow_spec.Json.{values}
use workflow_spec.WorkflowSpec.Domain.{
  Binding, step, compute, item_resource, Using, end, using, static, session, request, item, literal,
  Step,
}

unfoldable mutual
  pub collect_step_binding_ids : Binding → List String
  collect_step_binding_ids (step id output) = id ∷ []
  collect_step_binding_ids (compute logic u) = collect_using_ids u
  collect_step_binding_ids (item_resource item_id path) = collect_step_binding_ids item_id
  collect_step_binding_ids (static ref) = []
  collect_step_binding_ids (session key) = []
  collect_step_binding_ids (request param) = []
  collect_step_binding_ids item = []
  collect_step_binding_ids (literal value) = []

  -- `Object.values(using).flatMap(collectStepBindingIds)`
  pub collect_using_ids : Using → List String
  collect_using_ids end = []
  collect_using_ids (using key b u) = collect_step_binding_ids b ++ collect_using_ids u

unfoldable pub collect_step_reference_ids : Step → List String
collect_step_reference_ids s = s.depends_on ++ flat_map collect_step_binding_ids (values s.reads)
