-- ===== src/DslCompiler/RegistryValidation.antt =====
-- src/dsl-compiler/registry-validation.ts
use Prim.Native.String.{find, slice, len}
use workflow_spec.Prelude.{
  ◌+◌, String, Bool, true, false, List, [], ◌∷◌, ◌++◌, Option, none, some, leb, string_eq,
  if◌then◌else◌,
}
use workflow_spec.Json.{Dict, lookup}
use workflow_spec.WorkflowSpec.Domain.{Step, WorkflowSpec}
use workflow_spec.Registry.Domain.{FunctionCapability, RegistryEntry, RegistryDb}
use workflow_spec.Registry.GetEntry.{get_entry}
use workflow_spec.DslCompiler.Domain.{
  CompileError, unknown_service_digest, unknown_service_function,
}
use workflow_spec.DslCompiler.NodeWalk.{NodeVisitor, walk_nodes}

-- What stands behind the first "@", or all of it where there is none.
unfoldable pub digest_from_service_ref : String → String
digest_from_service_ref service =
    if leb (find service "@") (len service)
    then slice service (find service "@" + 1) (len service)
    else service

abbrev pub step_collector : NodeVisitor (List Step)
step_collector = record {
  on_step = λ step scope steps. steps ++ (step ∷ []);
  on_branch = λ id selector scope steps. steps;
  on_case_walked = λ id yields scope steps. steps;
  on_map = λ id source scope steps. steps;
  on_body_walked = λ id yields scope steps. steps;
}

unfoldable pub collect_all_steps : WorkflowSpec → List Step
collect_all_steps spec = walk_nodes step_collector spec.steps [] []

abbrev pub Cache : Type 0
Cache = Dict (Option RegistryEntry)

-- `Object.hasOwn`
abbrev pub has_own {ℓ} : {V : Type ℓ} → Dict V → String → Bool
has_own d k = elim (lookup k d) [ none ↦ false | some _ ↦ true ]

abbrev pub entry_errors : Step → Option RegistryEntry → List CompileError
entry_errors step none = record { code = unknown_service_digest; path = step.id } ∷ []
entry_errors step (some entry) =
    if has_own entry.functions step.function
    then []
    else record { code = unknown_service_function; path = step.id } ∷ []

module _ (ordered : List FunctionCapability → List FunctionCapability) (db : RegistryDb) where
  -- The entry, and the cache behind it.
  unfoldable pub get_entry_cached : String → Cache → Option RegistryEntry × Cache
  get_entry_cached digest cache = elim (lookup digest cache) [
    | some entry ↦ (entry, cache)
    | none ↦ (get_entry ordered db digest, cache ++ ((digest, get_entry ordered db digest) ∷ []))
  ]

  unfoldable pub check_steps : List Step → Cache → List CompileError
  unfolding get_entry_cached
  check_steps [] cache = []
  check_steps (s ∷ steps) cache =
      let found = get_entry_cached (digest_from_service_ref s.service) cache in
      entry_errors s found.0 ++ check_steps steps found.1

  unfoldable pub validate_service_references : WorkflowSpec → List CompileError
  unfolding check_steps collect_all_steps
  validate_service_references spec = check_steps (collect_all_steps spec) []
