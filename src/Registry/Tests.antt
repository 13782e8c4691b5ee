-- ===== src/Registry/Tests.antt =====
-- Registrations at concrete inputs.
use mathlib.Core.Option
use workflow_spec.Prelude.{
  ℕ, pos, String, true, false, List, [], ◌∷◌, none, some, ◌≡◌, ◌↔◌, refl, string_eq, ℕ_discrete,
  ◌==◌,
}
use workflow_spec.Json.{
  Json, null, bool, num, int, str, arr, obj, Items, Fields, Dict, entries, items, lookup,
  from_entries,
}
use workflow_spec.Shared.TrustTier.{production_proven}
use workflow_spec.Registry.Domain.{FunctionCapabilityInput, InvocationDescriptorEntry, RegistryDb}
use workflow_spec.Registry.GetEntry.{get_placement_facts, find_by_digest}
use workflow_spec.Registry.Unknown.{property, object_values, is_long_flag}
use workflow_spec.Registry.Descriptor.{
  validate_invocation_descriptor, check_entries, check_entry, check_fields, check_param,
  check_style, check_flag_name, check_position_index, style_of, duplicate_position_index,
}
use workflow_spec.Registry.DescriptorLaws.{Describes, validate_invocation_descriptor_iff}
use workflow_spec.Registry.WellFormed.{IsWellFormed}
use workflow_spec.Registry.Capability.{
  validate_capability, field_faults, validate_nesting_declaration, cost_class_of, transport_of,
  state_reuse_of, texts_of, targets_of,
}
use workflow_spec.Registry.CapabilityLaws.{IsCapability, validate_capability-IsCapability}
use workflow_spec.Registry.ReadCapability.{read_capability}
use workflow_spec.Registry.Validate.{
  validate_registration, capability_faults, undeclared, operation_ids_from_open_api, ids_of_paths,
  ids_of_operations, trust_tier_of,
}
use workflow_spec.Registry.Admin.{RegisterImageInput, register_image, record_trust_tier}
use workflow_spec.Registry.RegisterLaws.{register_image_others}
use workflow_spec.Registry.TrustTiers.{
  IsKept, Records, IsUntouched, register_image-trust_tier, record_trust_tier_lem,
  record_trust_tier_others,
}
use workflow_spec.Registry.Soundness.{IsSound, register_image-IsSound}

program : Unit {0}
unfolding string_eq ℕ_discrete entries items lookup from_entries property object_values is_long_flag
    validate_invocation_descriptor check_entries check_entry check_fields check_param check_style
    check_flag_name check_position_index style_of validate_capability field_faults
    validate_nesting_declaration cost_class_of transport_of state_reuse_of texts_of targets_of
    validate_registration capability_faults undeclared operation_ids_from_open_api ids_of_paths
    ids_of_operations trust_tier_of
program = tt

abbrev entry : String → ℕ → Json
entry param index = obj (
    Fields.field "param" (str param) (
      Fields.field "style" (str "positional")
        (Fields.field "positionIndex" (num (int (pos index))) Fields.end)))

abbrev descriptor : ℕ → ℕ → Json
descriptor i j = arr (Items.cons (entry "source" i) (Items.cons (entry "target" j) Items.nil))

one_slot : validate_invocation_descriptor (some (descriptor 0 0)) ≡ duplicate_position_index 0 ∷ []
unfolding program
one_slot = refl

validate_invocation_descriptor_iff_example :
    (validate_invocation_descriptor (some (descriptor 0 1)) ≡ []) ↔ (
      (ds : List InvocationDescriptorEntry) × Describes (some (descriptor 0 1)) ds
      × IsWellFormed ds)
validate_invocation_descriptor_iff_example =
    validate_invocation_descriptor_iff (some (descriptor 0 1))

abbrev capability : Json
capability = obj (
    from_entries (
      ("mutates", bool false)
      ∷ ("materializationCostClass", str "heavy")
      ∷ ("cowSupport", bool false)
      ∷ ("changeDetectionSupport", bool true)
      ∷ ("nestingDeclaration", null)
      ∷ ("invocationDescriptor", descriptor 0 1)
      ∷ ("stateReuse", str "none")
      ∷ ("additiveWarmUpdate", bool false)
      ∷ []))

capability_valid : validate_capability capability ≡ []
unfolding program
capability_valid = refl

validate_capability-IsCapability_example :
    (c : FunctionCapabilityInput) × (read_capability capability ≡ some c) × IsCapability c
validate_capability-IsCapability_example =
    validate_capability-IsCapability capability capability_valid

abbrev openapi_spec : Dict Json
openapi_spec =
    (
      "paths",
      obj (
          Fields.field "/copy"
            (obj (
              Fields.field "post" (obj (Fields.field "operationId" (str "copy") Fields.end))
                Fields.end))
            Fields.end),
    )
    ∷ []

abbrev input : RegisterImageInput
input = record {
  digest = "sha256:aa";
  oci_ref = "repo/copy@sha256:aa";
  openapi_spec = openapi_spec;
  capability_metadata = some (("copy", capability) ∷ []);
  hardware_requirements = none;
}

-- It was registered before, with other functions, and has earned its trust.
abbrev trusted : RegistryDb
trusted = record {
  service_images =
      record {
        digest = "sha256:aa";
        oci_ref = "repo/old@sha256:aa";
        openapi_spec = [];
        hardware_requirements = [];
        trust_tier = production_proven;
        registered_at = 1;
        updated_at = 2;
      }
      ∷ [];
  function_capabilities = [];
}

trusted-IsSound : IsSound trusted
trusted-IsSound = record { distinct_digests = (refl, tt); registered = tt; capabilities = tt }

other_digest : ◌==◌ {A = String} "sha256:bb" "sha256:aa" ≡ false
unfolding program
other_digest = refl

register_image_others_example :
    get_placement_facts (register_image 5 input trusted).1 "sha256:bb" "copy"
    ≡ get_placement_facts trusted "sha256:bb" "copy"
register_image_others_example =
    register_image_others 5 input trusted "sha256:bb" "copy" (refl, tt) other_digest

register_image-trust_tier_example : IsKept "sha256:aa" trusted (register_image 5 input trusted).1
register_image-trust_tier_example = register_image-trust_tier 5 input trusted "sha256:aa" (refl, tt)

record_trust_tier_lem_example :
    Records 6 "sha256:aa" trusted
      (trust_tier_of (str "conformance-passed"))
      (find_by_digest "sha256:aa" trusted)
      (record_trust_tier 6 "sha256:aa" (str "conformance-passed") trusted)
record_trust_tier_lem_example =
    record_trust_tier_lem 6 "sha256:aa" trusted (str "conformance-passed")

register_image-IsSound_example : IsSound (register_image 5 input trusted).1
register_image-IsSound_example = register_image-IsSound 5 input trusted trusted-IsSound (refl, tt)

record_trust_tier_others_example :
    IsUntouched trusted "sha256:bb" (record_trust_tier 6 "sha256:aa" (str "unverified") trusted).1
record_trust_tier_others_example =
    record_trust_tier_others 6 "sha256:aa" trusted (str "unverified") "sha256:bb" other_digest
