-- ===== src/Registry/Capability.antt =====
-- `validateNestingDeclaration` and `validateCapability` in src/registry/validate.ts
use workflow_spec.Prelude.{
  String, Bool, true, false, not, ◌&&◌, List, [], ◌∷◌, ◌++◌, map, Option, none, some, ◌==◌,
  string_eq, if◌then◌else◌, select,
}
use workflow_spec.Json.{Json, null, bool, str, arr, obj, items}
use workflow_spec.Registry.Domain.{
  MaterializationCostClass, negligible, heavy, NestingTransport, sdk, http, cli, mcp, StateReuse,
  no_reuse, state_id_keyed, InvocationStyle, positional,
}
use workflow_spec.Registry.Unknown.{property}
use workflow_spec.Registry.Descriptor.{DescriptorFault, style_of, validate_invocation_descriptor}

-- The messages, by what each complains about.
pub data CapabilityFault : Type 0 where
  not_an_object : CapabilityFault
  mutates_not_boolean invalid_cost_class cow_support_not_boolean : CapabilityFault
  change_detection_not_boolean nesting_not_an_object invalid_via invalid_targets : CapabilityFault
  of_descriptor : DescriptorFault → CapabilityFault
  invalid_state_reuse additive_not_boolean additive_without_state reuse_without_entries :
      CapabilityFault
  reuse_of_positional : List (Option Json) → CapabilityFault

abbrev pub unless : Bool → CapabilityFault → List CapabilityFault
unless ok fault = if ok then [] else fault ∷ []

abbrev pub is_some {ℓ} : {A : Type ℓ} → Option A → Bool
is_some none = false
is_some (some a) = true

abbrev pub boolean_of : Option Json → Option Bool
boolean_of (some (bool b)) = some b
boolean_of _ = none

unfoldable pub cost_class_of : Option Json → Option MaterializationCostClass
unfolding string_eq
cost_class_of (some (str s)) =
    if s == "negligible" then some negligible else if s == "heavy" then some heavy else none
cost_class_of _ = none

unfoldable pub transport_of : Option Json → Option NestingTransport
unfolding string_eq
transport_of (some (str s)) =
    if s == "sdk"
    then some sdk
    else if s == "http"
    then some http
    else if s == "cli"
    then some cli
    else if s == "mcp"
    then some mcp
    else none
transport_of _ = none

unfoldable pub state_reuse_of : Option Json → Option StateReuse
unfolding string_eq
state_reuse_of (some (str s)) =
    if s == "none" then some no_reuse else if s == "stateIdKeyed" then some state_id_keyed else none
state_reuse_of _ = none

-- `targets.every((t) => typeof t === "string")`, with the texts
unfoldable pub texts_of : List Json → Option (List String)
texts_of [] = some []
texts_of (str s ∷ js) = elim (texts_of js) [ none ↦ none | some ss ↦ some (s ∷ ss) ]
texts_of (_ ∷ js) = none

-- `targets`: "open", or an array of texts
unfoldable pub targets_of : Option Json → Option (Option (List String))
unfolding string_eq texts_of items
targets_of (some (str s)) = if s == "open" then some none else none
targets_of (some (arr xs)) = elim (texts_of (items xs)) [ none ↦ none | some ss ↦ some (some ss) ]
targets_of _ = none

unfoldable pub validate_nesting_declaration : Option Json → List CapabilityFault
unfolding property transport_of targets_of
validate_nesting_declaration none = []
validate_nesting_declaration (some null) = []
validate_nesting_declaration (some (obj fs)) =
    unless (is_some (transport_of (property "via" (obj fs)))) invalid_via
    ++ unless (is_some (targets_of (property "targets" (obj fs)))) invalid_targets
validate_nesting_declaration (some _) = nesting_not_an_object ∷ []

abbrev pub is_keyed : Option StateReuse → Bool
is_keyed (some state_id_keyed) = true
is_keyed _ = false

-- `additiveWarmUpdate`: a boolean, and true only for a function that reuses state
abbrev pub additive_faults : Option Bool → Bool → List CapabilityFault
additive_faults none keyed = additive_not_boolean ∷ []
additive_faults (some additive) keyed = unless (not (additive && not keyed)) additive_without_state

abbrev pub is_positional : Option InvocationStyle → Bool
is_positional (some positional) = true
is_positional _ = false

-- The array's entries, where `entry && typeof entry === "object" && entry.style === "positional"`.
abbrev pub positional_entries : List Json → List Json
positional_entries js = select (λ (j : Json). is_positional (style_of (property "style" j))) js

abbrev pub positional_faults : List Json → List CapabilityFault
positional_faults [] = []
positional_faults (j ∷ js) =
    reuse_of_positional (map (λ (k : Json). property "param" k) (j ∷ js)) ∷ []

abbrev pub no_entry_faults : List Json → List CapabilityFault
no_entry_faults [] = reuse_without_entries ∷ []
no_entry_faults (j ∷ js) = []

-- What keying by state ids rules out.
abbrev pub reuse_faults : Bool → Option Json → List CapabilityFault
reuse_faults true (some (arr xs)) =
    no_entry_faults (items xs) ++ positional_faults (positional_entries (items xs))
reuse_faults _ _ = []

abbrev pub pushed {ℓ} : {A : Type ℓ} → List (List A) → List A
pushed [] = []
pushed (xs ∷ xss) = xs ++ pushed xss

-- What follows the checks of the name and of the kind of the value.
unfoldable pub field_faults : Json → List CapabilityFault
unfolding validate_nesting_declaration validate_invocation_descriptor cost_class_of state_reuse_of
    property style_of items
field_faults c =
    let keyed = is_keyed (state_reuse_of (property "stateReuse" c)) in
    pushed (
      unless (is_some (boolean_of (property "mutates" c))) mutates_not_boolean
      ∷ unless (is_some (cost_class_of (property "materializationCostClass" c))) invalid_cost_class
      ∷ unless (is_some (boolean_of (property "cowSupport" c))) cow_support_not_boolean
      ∷ unless (is_some (boolean_of (property "changeDetectionSupport" c)))
          change_detection_not_boolean
      ∷ validate_nesting_declaration (property "nestingDeclaration" c)
      ∷ map of_descriptor (validate_invocation_descriptor (property "invocationDescriptor" c))
      ∷ unless (is_some (state_reuse_of (property "stateReuse" c))) invalid_state_reuse
      ∷ additive_faults (boolean_of (property "additiveWarmUpdate" c)) keyed
      ∷ reuse_faults keyed (property "invocationDescriptor" c)
      ∷ [])

unfoldable pub validate_capability : Json → List CapabilityFault
unfolding field_faults
validate_capability (obj fs) = field_faults (obj fs)
validate_capability (arr xs) = field_faults (arr xs)
validate_capability _ = not_an_object ∷ []
