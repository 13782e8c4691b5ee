-- ===== src/Engine/Bindings.antt =====
-- src/engine/bindings.ts
use workflow_spec.Prelude.{Option, none, some}
use workflow_spec.Json.{Json, Dict, lookup}
use workflow_spec.Shared.Errors.{
  fatal, engine_binding_kind_not_supported, engine_node_output_missing, Result, returns, throws,
}
use workflow_spec.WorkflowSpec.Domain.{
  Binding, step, compute, item_resource, static, session, request, item, literal,
}

pub record BindingContext : Type 0 where
  pub input : Dict Json
  pub node_outputs : Dict (Dict Json)

-- The result `none` is `undefined`: a property that is not there. The two maps are read by their own
-- properties: the members that JavaScript also finds on `Object.prototype` are functions and itself,
-- which are no values of JSON text and stay out of the model.
unfoldable pub resolve_binding : Binding → BindingContext → Result (Option Json)
resolve_binding (literal value) ctx = returns (some value)
resolve_binding (compute logic u) ctx = throws (fatal engine_binding_kind_not_supported)
resolve_binding (request param) ctx = returns (lookup param ctx.input)
resolve_binding (step id output) ctx = elim (lookup id ctx.node_outputs) [
  | none ↦ throws (fatal engine_node_output_missing)
  | some found ↦ returns (lookup output found)
]
resolve_binding (session key) ctx = throws (fatal engine_binding_kind_not_supported)
resolve_binding (static ref) ctx = throws (fatal engine_binding_kind_not_supported)
resolve_binding item ctx = throws (fatal engine_binding_kind_not_supported)
resolve_binding (item_resource _ path) ctx = throws (fatal engine_binding_kind_not_supported)
