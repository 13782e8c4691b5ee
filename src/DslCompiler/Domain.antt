-- ===== src/DslCompiler/Domain.antt =====
-- src/dsl-compiler/domain/compile-result.ts
use workflow_spec.Prelude.{String}

pub data CompileErrorCode : Type 0 where
  restricted_yaml_violation : CompileErrorCode
  schema_invalid : CompileErrorCode
  duplicate_step_id : CompileErrorCode
  unresolved_step_reference : CompileErrorCode
  internal_step_id_referenced_externally : CompileErrorCode
  unknown_service_digest : CompileErrorCode
  unknown_service_function : CompileErrorCode

-- Without the message for the author.
pub record CompileError : Type 0 where
  pub code : CompileErrorCode
  pub path : String
