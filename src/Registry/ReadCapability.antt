-- ===== src/Registry/ReadCapability.antt =====
-- The capability that a value stands for: what src/registry/admin.ts types its input as, and what
-- the columns of `function_capabilities` keep of it.
use workflow_spec.Prelude.{List, [], ◌∷◌, Option, none, some}
use workflow_spec.Prelude.Options.{◌>>=◌}
use workflow_spec.Json.{Json, null, arr, obj, items}
use workflow_spec.Registry.Domain.{
  NestingDeclaration, InvocationDescriptorEntry, FunctionCapabilityInput,
}
use workflow_spec.Registry.Unknown.{property}
use workflow_spec.Registry.Capability.{
  boolean_of, cost_class_of, transport_of, state_reuse_of, targets_of,
}
use workflow_spec.Registry.WellFormed.{read_entry}

-- Null, or absent, is no nesting.
unfoldable pub read_nesting : Option Json → Option (Option NestingDeclaration)
unfolding property transport_of targets_of
read_nesting none = some none
read_nesting (some null) = some none
read_nesting (some (obj fs)) = transport_of (property "via" (obj fs)) >>= λ via.
    targets_of (property "targets" (obj fs)) >>= λ targets.
    some (some (record { via = via; targets = targets }))
read_nesting (some _) = none

unfoldable pub read_entries : List Json → Option (List InvocationDescriptorEntry)
unfolding read_entry
read_entries [] = some []
read_entries (j ∷ js) = read_entry j >>= λ d. read_entries js >>= λ ds. some (d ∷ ds)

unfoldable pub read_descriptor : Option Json → Option (List InvocationDescriptorEntry)
unfolding read_entries items
read_descriptor (some (arr xs)) = read_entries (items xs)
read_descriptor _ = none

unfoldable pub read_capability : Json → Option FunctionCapabilityInput
unfolding read_nesting read_descriptor cost_class_of state_reuse_of property
read_capability c = boolean_of (property "mutates" c) >>= λ mutates.
    cost_class_of (property "materializationCostClass" c) >>= λ cost.
    boolean_of (property "cowSupport" c) >>= λ cow.
    boolean_of (property "changeDetectionSupport" c) >>= λ change.
    read_nesting (property "nestingDeclaration" c) >>= λ nesting.
    read_descriptor (property "invocationDescriptor" c) >>= λ descriptor.
    state_reuse_of (property "stateReuse" c) >>= λ reuse.
    boolean_of (property "additiveWarmUpdate" c) >>= λ additive. some (record {
      mutates = mutates;
      materialization_cost_class = cost;
      cow_support = cow;
      change_detection_support = change;
      nesting_declaration = nesting;
      invocation_descriptor = descriptor;
      state_reuse = reuse;
      additive_warm_update = additive;
    })
