-- ===== src/DslCompiler/Compile.antt =====
-- src/dsl-compiler/compile.ts, and src/workflow-spec/validate.ts, which it calls
use workflow_spec.Prelude.{String, List, [], ◌∷◌, map, Option, none, some, string_eq}
use workflow_spec.Json.{Json, str}
use workflow_spec.WorkflowSpec.Domain.{WorkflowSpec}
use workflow_spec.Registry.Domain.{FunctionCapability, RegistryDb}
use workflow_spec.DslCompiler.Domain.{CompileError, schema_invalid}
use workflow_spec.DslCompiler.RestrictedYaml.{
  YamlDocument, ParsedYamlResult, parsed, not_parsed, parse_restricted_yaml,
}
use workflow_spec.DslCompiler.SemanticValidation.{validate_step_references}
use workflow_spec.DslCompiler.RegistryValidation.{validate_service_references}

-- What the compiled schema does with a document: it accepts it, or rejects it with the paths of
-- its errors, or throws a `RangeError` for one that is nested too deeply, or something else.
pub data SchemaAnswer : Type 0 where
  accepts : SchemaAnswer
  rejects : Option (List String) → SchemaAnswer
  range_error other_error : SchemaAnswer

-- `ValidationResult` by the paths of its errors, or the error that is thrown on.
pub data Validated : Type 0 where
  valid : Validated
  invalid : List String → Validated
  throws_on : Validated

abbrev pub or_none : Option (List String) → List String
or_none none = []
or_none (some paths) = paths

abbrev pub answered : SchemaAnswer → Validated
answered accepts = valid
answered (rejects paths) = invalid (or_none paths)
answered range_error = invalid ("" ∷ [])
answered other_error = throws_on

unfoldable pub validate : (Json → SchemaAnswer) → Json → Validated
validate validate_fn doc = answered (validate_fn doc)

-- `CompileResult`, or a promise that is rejected.
pub data Compiled : Type 0 where
  compiled : WorkflowSpec → Compiled
  failed : List CompileError → Compiled
  crashed : Compiled

-- The libraries that the compiler calls, the reading of a valid document as a `WorkflowSpec`, and
-- the database's ORDER BY.
pub record Deps : Type 0 where
  pub parse_document : String → YamlDocument
  pub validate_fn : Json → SchemaAnswer
  pub as_spec : Json → WorkflowSpec
  pub ordered : List FunctionCapability → List FunctionCapability

module _ (deps : Deps) (registry : RegistryDb) where
  abbrev pub if_registered : WorkflowSpec → List CompileError → Compiled
  if_registered spec [] = compiled spec
  if_registered spec (e ∷ errors) = failed (e ∷ errors)

  abbrev pub if_sound : WorkflowSpec → List CompileError → Compiled
  if_sound spec [] = if_registered spec (validate_service_references deps.ordered registry spec)
  if_sound spec (e ∷ errors) = failed (e ∷ errors)

  abbrev pub if_valid : Json → Validated → Compiled
  if_valid doc valid = if_sound (deps.as_spec doc) (validate_step_references (deps.as_spec doc))
  if_valid doc (invalid paths) =
      failed (map (λ p. record { code = schema_invalid; path = p }) paths)
  if_valid doc throws_on = crashed

  unfoldable pub compile_document : Json → Compiled
  unfolding validate validate_step_references validate_service_references
  compile_document doc = if_valid doc (validate deps.validate_fn doc)

  abbrev pub if_parsed : ParsedYamlResult → Compiled
  if_parsed (parsed doc) = compile_document doc
  if_parsed (not_parsed errors) = failed errors

  -- A text is YAML; any other value is the document itself.
  unfoldable pub compile : Json → Compiled
  unfolding compile_document parse_restricted_yaml
  compile (str source) = if_parsed (parse_restricted_yaml deps.parse_document source)
  compile doc = compile_document doc
