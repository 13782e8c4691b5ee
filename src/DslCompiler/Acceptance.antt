-- ===== src/DslCompiler/Acceptance.antt =====
-- Which inputs the compiler accepts.
use workflow_spec.DslCompiler.Profile.{parsed_inj, not_both, IsSource, parse_restricted_yaml_iff}
use workflow_spec.Prelude.{
  ◌≡◌, ◌↔◌, refl, ◌∙◌, sym, subst, String, Bool, true, List, [], ◌∷◌, any, string_eq, All,
}
use workflow_spec.Json.{Json, null, bool, num, str, arr, obj}
use workflow_spec.WorkflowSpec.Domain.{WorkflowSpec}
use workflow_spec.Registry.Domain.{FunctionCapability, RegistryDb}
use workflow_spec.DslCompiler.Domain.{CompileError}
use workflow_spec.DslCompiler.Document.{IsSound}
use workflow_spec.DslCompiler.References.{validate_step_references_iff}
use workflow_spec.DslCompiler.Registered.{
  document_steps, has_facts, validate_service_references_iff,
}
use workflow_spec.DslCompiler.SemanticValidation.{validate_step_references}
use workflow_spec.DslCompiler.RegistryValidation.{validate_service_references}
use workflow_spec.DslCompiler.RestrictedYaml.{
  ParsedYamlResult, parsed, not_parsed, parse_restricted_yaml,
}
use workflow_spec.DslCompiler.Compile.{
  Deps, SchemaAnswer, accepts, rejects, range_error, other_error, answered, validate, compiled,
  if_registered, if_sound, if_valid, compile_document, if_parsed, compile,
}

module _ (deps : Deps) (registry : RegistryDb) where
  -- What the input stands for, if anything.
  abbrev pub Denotes : Json → Json → Type 0
  Denotes (str source) doc = IsSource deps.parse_document source doc
  Denotes input doc = input ≡ doc

  -- Every step of the document can be placed.
  abbrev pub IsRegistered : WorkflowSpec → Type 0
  IsRegistered spec = All (λ s. has_facts registry s ≡ true) (document_steps spec.steps)

  abbrev pub IsAccepted : Json → WorkflowSpec → Type 0
  IsAccepted doc spec =
      (deps.validate_fn doc ≡ accepts)
      × (deps.as_spec doc ≡ spec)
      × IsSound spec
      × IsRegistered spec

  registered_stage :
      (spec spec' : WorkflowSpec) (errors : List CompileError)
      → (if_registered deps registry spec errors ≡ compiled spec')
        ↔ ((errors ≡ []) × (spec ≡ spec'))
  registered_stage spec spec' [] = (λ h. (refl, cc h), λ h. cc (h.1))
  registered_stage spec spec' (e ∷ errors) = (λ h. absurd (cc h), λ h. absurd (cc (h.0)))

  sound_stage :
      (spec spec' : WorkflowSpec) (errors : List CompileError)
      → (if_sound deps registry spec errors ≡ compiled spec') ↔ (
          (errors ≡ [])
          × (validate_service_references deps.ordered registry spec ≡ [])
          × (spec ≡ spec'))
  sound_stage spec spec' [] =
      let (on, off) =
        registered_stage spec spec' (validate_service_references deps.ordered registry spec) in
      (λ h. let (clean, is) = on h in (refl, clean, is), λ h. off (h.1, h.2))
  sound_stage spec spec' (e ∷ errors) = (λ h. absurd (cc h), λ h. absurd (cc (h.0)))

  module _
      (keeps : (p : FunctionCapability → Bool) (cs : List FunctionCapability)
        → any p (deps.ordered cs) ≡ any p cs) where
    if_sound_iff :
        (spec spec' : WorkflowSpec)
        → (if_sound deps registry spec (validate_step_references spec) ≡ compiled spec')
          ↔ ((spec ≡ spec') × IsSound spec' × IsRegistered spec')
    if_sound_iff spec spec' =
        let (on, off) = sound_stage spec spec' (validate_step_references spec) in
        let (sound, unsound) = validate_step_references_iff spec in
        let (there, back) = validate_service_references_iff deps.ordered registry keeps spec in
        (
          λ h.
              let (a, b, is) = on h in
              (is, subst IsSound is (sound a), subst IsRegistered is (there b)),
          λ h.
              off (
                unsound (subst IsSound (sym h.0) h.1),
                back (subst IsRegistered (sym h.0) h.2),
                h.0,
              ),
        )

    answer_iff :
        (doc : Json) (spec : WorkflowSpec) (answer : SchemaAnswer)
        → (if_valid deps registry doc (answered answer) ≡ compiled spec)
          ↔ ((answer ≡ accepts) × (deps.as_spec doc ≡ spec) × IsSound spec × IsRegistered spec)
    answer_iff doc spec accepts =
        let (on, off) = if_sound_iff (deps.as_spec doc) spec in
        (
          λ h. let (is, sound, registered) = on h in (refl, is, sound, registered),
          λ h. off (h.1, h.2, h.3),
        )
    answer_iff doc spec (rejects paths) = (λ h. absurd (cc h), λ h. absurd (cc (h.0)))
    answer_iff doc spec range_error = (λ h. absurd (cc h), λ h. absurd (cc (h.0)))
    answer_iff doc spec other_error = (λ h. absurd (cc h), λ h. absurd (cc (h.0)))

    document_iff :
        (doc : Json) (spec : WorkflowSpec)
        → (compile_document deps registry doc ≡ compiled spec) ↔ IsAccepted doc spec
    unfolding compile_document validate
    document_iff doc spec = answer_iff doc spec (deps.validate_fn doc)

    abbrev AcceptsSome : Json → WorkflowSpec → Type 0
    AcceptsSome input spec = (doc : Json) × Denotes input doc × IsAccepted doc spec

    parsed_iff :
        (source : String) (spec : WorkflowSpec) (r : ParsedYamlResult)
        → parse_restricted_yaml deps.parse_document source ≡ r
        → (if_parsed deps registry r ≡ compiled spec) ↔ AcceptsSome (str source) spec
    parsed_iff source spec (parsed doc) is =
        let (on, off) = document_iff doc spec in
        (
          λ h. (doc, (parse_restricted_yaml_iff deps.parse_document source doc).0 is, on h),
          λ h.
              let other = (parse_restricted_yaml_iff deps.parse_document source h.0).1 h.1 in
              off (subst (λ d. IsAccepted d spec) (parsed_inj (sym other ∙ is)) h.2),
        )
    parsed_iff source spec (not_parsed errors) is = (
      λ h. absurd (cc h),
      λ h.
          let other = (parse_restricted_yaml_iff deps.parse_document source h.0).1 h.1 in
          absurd (not_both (sym other ∙ is)),
    )

    value_iff :
        (input : Json) (spec : WorkflowSpec)
        → (compile_document deps registry input ≡ compiled spec)
          ↔ ((doc : Json) × (input ≡ doc) × IsAccepted doc spec)
    value_iff input spec =
        let (on, off) = document_iff input spec in
        (λ h. (input, refl, on h), λ h. off (subst (λ d. IsAccepted d spec) (sym h.1) h.2))

    -- Where the database's order keeps the rows: the compiler brings a plan exactly if the input
    -- is, or as a text of the restricted YAML profile stands for, a document that the schema
    -- accepts, whose ids are distinct and whose references resolve, and each of whose steps, at
    -- any depth, the registry has placement facts for; and the plan is that document. The profile
    -- has no parse error, and no node with an anchor, an alias, a tag or a merge key.
    pub compile_iff :
        (input : Json) (spec : WorkflowSpec)
        → (compile deps registry input ≡ compiled spec)
          ↔ ((doc : Json) × Denotes input doc × IsAccepted doc spec)
    unfolding compile
    compile_iff (str source) spec =
        parsed_iff source spec (parse_restricted_yaml deps.parse_document source) refl
    compile_iff null spec = value_iff null spec
    compile_iff (bool b) spec = value_iff (bool b) spec
    compile_iff (num n) spec = value_iff (num n) spec
    compile_iff (arr xs) spec = value_iff (arr xs) spec
    compile_iff (obj fs) spec = value_iff (obj fs) spec
