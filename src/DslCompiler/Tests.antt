-- ===== src/DslCompiler/Tests.antt =====
-- Documents at concrete inputs.
use mathlib.Core.List.{flat_map}
use workflow_spec.Prelude.{
  All, List, String, [], contains, every, false, none, refl, string_eq, true, ℕ_discrete, ◌<>◌, ◌↔◌,
  ◌∷◌, ◌≡◌,
}
use workflow_spec.Shared.Errors.{returns}
use workflow_spec.WorkflowSpec.Domain.{Binding, Nodes, plain, branch, WorkflowSpec, end_cases, case}
use workflow_spec.WorkflowSpec.BindingRefs.{collect_step_binding_ids, collect_step_reference_ids}
use workflow_spec.Engine.Interpreter.{assert_plain_steps}
use workflow_spec.Engine.DependencyGraph.{compute_step_dependencies}
use workflow_spec.Engine.Plain.{ids}
use workflow_spec.DslCompiler.Domain.{
  duplicate_step_id, unresolved_step_reference, internal_step_id_referenced_externally,
  unknown_service_function,
}
use workflow_spec.DslCompiler.NodeWalk.{walk_nodes, walk_node, walk_cases}
use workflow_spec.DslCompiler.SemanticValidation.{
  validate_step_references, record_id, walk_bindings, walk_fallbacks,
}
use workflow_spec.Shared.TrustTier.{unverified}
use workflow_spec.Registry.Domain.{
  ServiceImage, FunctionCapability, RegistryDb, negligible, no_reuse,
}
use workflow_spec.Registry.GetEntry.{
  get_entry, list_by_digest, collect_functions, find_by_digest, assign,
}
use workflow_spec.DslCompiler.RegistryValidation.{
  validate_service_references, digest_from_service_ref, check_steps, get_entry_cached,
  collect_all_steps,
}
use workflow_spec.DslCompiler.Registered.{
  document_steps, has_facts, validate_service_references_iff,
}
use workflow_spec.DslCompiler.Document.{IsSound}
use workflow_spec.DslCompiler.References.{validate_step_references_iff}
use workflow_spec.DslCompiler.Plain.{validate_step_references_plain}
use workflow_spec.Json.{Json, null, str}
use workflow_spec.DslCompiler.RestrictedYaml.{
  parse_restricted_yaml, find_restricted_profile_violations,
}
use workflow_spec.DslCompiler.Compile.{
  Deps, accepts, compile, compile_document, compiled, failed, validate,
}
use workflow_spec.DslCompiler.Acceptance.{Denotes, IsAccepted, compile_iff}
use workflow_spec.Samples.{fetch, report, two_steps}

program : Unit {0}
unfolding string_eq ℕ_discrete validate_service_references digest_from_service_ref collect_all_steps
    check_steps get_entry_cached get_entry list_by_digest collect_functions assign find_by_digest
    validate_step_references record_id walk_bindings walk_fallbacks walk_nodes walk_node walk_cases
    flat_map collect_step_binding_ids collect_step_reference_ids
program = tt

-- `fetch` stands in a case of `choice`, and `report` outside it reads `fetch`.
abbrev inner_fetch : WorkflowSpec
inner_fetch = record two_steps {
  steps =
      Nodes.cons
        (branch "choice" (Binding.request "url") (
          case "true" (Nodes.cons (plain fetch) Nodes.nil)
            (("body", Binding.step "fetch" "body") ∷ []) end_cases))
        (Nodes.cons (plain report) Nodes.nil);
}

abbrev two_fetches : WorkflowSpec
two_fetches = record two_steps {
  steps = Nodes.cons (plain fetch) (Nodes.cons (plain fetch) Nodes.nil);
}

abbrev report_alone : WorkflowSpec
report_alone = record two_steps { steps = Nodes.cons (plain report) Nodes.nil }

two_steps_valid : validate_step_references two_steps ≡ []
unfolding program
two_steps_valid = refl

inner_reference :
    validate_step_references inner_fetch
    ≡ record { code = internal_step_id_referenced_externally; path = "report" } ∷ []
unfolding program
inner_reference = refl

repeated_id :
    validate_step_references two_fetches ≡ record { code = duplicate_step_id; path = "fetch" } ∷ []
unfolding program
repeated_id = refl

unknown_id :
    validate_step_references report_alone
    ≡ record { code = unresolved_step_reference; path = "report" } ∷ []
unfolding program
unknown_id = refl

validate_step_references_iff_example :
    (validate_step_references inner_fetch ≡ []) ↔ IsSound inner_fetch
validate_step_references_iff_example = validate_step_references_iff inner_fetch

validate_step_references_plain_example :
    (assert_plain_steps two_steps ≡ returns (fetch ∷ report ∷ []))
    × All
        (λ s. every (contains (ids (fetch ∷ report ∷ []))) (compute_step_dependencies s) ≡ true)
        (fetch ∷ report ∷ [])
validate_step_references_plain_example =
    validate_step_references_plain two_steps (fetch ∷ report ∷ []) refl two_steps_valid

abbrev image : String → ServiceImage
image digest = record {
  digest = digest;
  oci_ref = "repo@" <> digest;
  openapi_spec = [];
  hardware_requirements = [];
  trust_tier = unverified;
  registered_at = 1;
  updated_at = 1;
}

abbrev function : String → String → FunctionCapability
function digest name = record {
  digest = digest;
  function_name = name;
  capability = record {
    mutates = false;
    materialization_cost_class = negligible;
    cow_support = false;
    change_detection_support = false;
    nesting_declaration = none;
    invocation_descriptor = [];
    state_reuse = no_reuse;
    additive_warm_update = false;
  };
}

-- `report` is registered under another name.
abbrev registry : RegistryDb
registry = record {
  service_images = image "sha256:aa" ∷ image "sha256:bb" ∷ [];
  function_capabilities = function "sha256:aa" "fetch" ∷ function "sha256:bb" "print" ∷ [];
}

abbrev as_stored : List FunctionCapability → List FunctionCapability
as_stored cs = cs

unknown_function :
    validate_service_references as_stored registry two_steps
    ≡ record { code = unknown_service_function; path = "report" } ∷ []
unfolding program
unknown_function = refl

validate_service_references_iff_example :
    (validate_service_references as_stored registry two_steps ≡ [])
    ↔ All (λ s. has_facts registry s ≡ true) (document_steps two_steps.steps)
validate_service_references_iff_example =
    validate_service_references_iff as_stored registry (λ p cs. refl) two_steps

-- A parser that reads any text as the same document, and a schema that accepts it.
abbrev deps : Deps
deps = record {
  parse_document = λ source. record { errors = []; nodes = []; js = null };
  validate_fn = λ doc. accepts;
  as_spec = λ doc. two_steps;
  ordered = as_stored;
}

-- The registry knows no function `render`.
compiled_unknown :
    compile deps registry (str "name: two steps")
    ≡ failed (record { code = unknown_service_function; path = "report" } ∷ [])
unfolding program compile compile_document parse_restricted_yaml find_restricted_profile_violations
    validate
compiled_unknown = refl

compile_iff_example : (compile deps registry (str "name: two steps") ≡ compiled two_steps) ↔ (
    (doc : Json) × Denotes deps registry (str "name: two steps") doc
    × IsAccepted deps registry doc two_steps)
compile_iff_example = compile_iff deps registry (λ p cs. refl) (str "name: two steps") two_steps
