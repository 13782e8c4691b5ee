-- ===== src/Registry/Validate.antt =====
-- `operationIdsFromOpenApi`, `validateRegistration` and `validateTrustTier` in
-- src/registry/validate.ts
use workflow_spec.Prelude.{
  String, Bool, true, false, List, [], ◌∷◌, ◌++◌, map, Option, none, some, ◌==◌, contains,
  string_eq, if◌then◌else◌,
}
use workflow_spec.Json.{Json, str, obj, Dict, entries, keys}
use workflow_spec.Shared.TrustTier.{TrustTier, unverified, conformance_passed, production_proven}
use workflow_spec.Registry.Unknown.{is_object_or_array, is_object, property, object_values, text_of}
use workflow_spec.Registry.Capability.{CapabilityFault, validate_capability}

pub data RegistrationFault : Type 0 where
  digest_required oci_ref_required openapi_spec_required : RegistrationFault
  hardware_requirements_invalid capability_metadata_required empty_function_name : RegistrationFault
  of_function : String → CapabilityFault → RegistrationFault
  undeclared_function : String → RegistrationFault

-- The ids that the operations of one path item declare.
unfoldable pub ids_of_operations : List Json → List String
unfolding property
ids_of_operations [] = []
ids_of_operations (op ∷ ops) =
    let rest = ids_of_operations ops in
    elim (text_of (property "operationId" op)) [ none ↦ rest | some id ↦ id ∷ rest ]

unfoldable pub ids_of_paths : List Json → List String
unfolding ids_of_operations object_values
ids_of_paths [] = []
ids_of_paths (item ∷ rest) = ids_of_operations (object_values item) ++ ids_of_paths rest

-- What holds no object declares nothing: `paths` that are missing, or a path item that is a text.
abbrev pub declared_in : Option Json → List String
declared_in none = []
declared_in (some paths) = ids_of_paths (object_values paths)

-- The set, as a list.
unfoldable pub operation_ids_from_open_api : Json → List String
unfolding ids_of_paths object_values property
operation_ids_from_open_api spec = declared_in (property "paths" spec)

pub record ValidateRegistrationInput : Type 0 where
  pub digest : Option Json
  pub oci_ref : Option Json
  pub openapi_spec : Option Json
  pub capability_metadata : Option Json
  pub hardware_requirements : Option Json

abbrev pub is_filled : Option Json → Bool
is_filled (some (str s)) = if s == "" then false else true
is_filled _ = false

abbrev pub unless : Bool → RegistrationFault → List RegistrationFault
unless ok fault = if ok then [] else fault ∷ []

abbrev pub name_faults : String → List RegistrationFault
name_faults name = if name == "" then empty_function_name ∷ [] else []

unfoldable pub capability_faults : Dict Json → List RegistrationFault
unfolding validate_capability string_eq
capability_faults [] = []
capability_faults ((name, cap) ∷ caps) =
    name_faults name ++ map (of_function name) (validate_capability cap) ++ capability_faults caps

unfoldable pub undeclared : List String → List String → List RegistrationFault
unfolding string_eq
undeclared declared [] = []
undeclared declared (name ∷ names) =
    unless (contains declared name) (undeclared_function name) ++ undeclared declared names

-- The referential check.
abbrev pub referential_faults : Option Json → List String → List RegistrationFault
referential_faults none names = []
referential_faults (some spec) names =
    if is_object_or_array (some spec)
    then undeclared (operation_ids_from_open_api spec) names
    else []

abbrev pub metadata_faults : Option Json → Option Json → List RegistrationFault
metadata_faults spec (some (obj fs)) =
    capability_faults (entries fs) ++ referential_faults spec (keys (entries fs))
metadata_faults spec _ = capability_metadata_required ∷ []

abbrev pub hardware_faults : Option Json → List RegistrationFault
hardware_faults none = []
hardware_faults (some v) = unless (is_object (some v)) hardware_requirements_invalid

-- The errors; the registration is valid if there are none.
unfoldable pub validate_registration : ValidateRegistrationInput → List RegistrationFault
unfolding capability_faults undeclared operation_ids_from_open_api entries string_eq
validate_registration input =
    unless (is_filled input.digest) digest_required
    ++ (unless (is_filled input.oci_ref) oci_ref_required
        ++ (unless (is_object_or_array input.openapi_spec) openapi_spec_required
            ++ (hardware_faults input.hardware_requirements
                ++ metadata_faults input.openapi_spec input.capability_metadata)))

-- TRUST_TIERS, with what stands for each.
unfoldable pub trust_tier_of : Json → Option TrustTier
unfolding string_eq
trust_tier_of (str s) =
    if s == "unverified"
    then some unverified
    else if s == "conformance-passed"
    then some conformance_passed
    else if s == "production-proven"
    then some production_proven
    else none
trust_tier_of _ = none

unfoldable pub validate_trust_tier : Json → Bool
unfolding trust_tier_of
validate_trust_tier tier = elim (trust_tier_of tier) [ none ↦ false | some t ↦ true ]
