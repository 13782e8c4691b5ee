-- ===== src/Registry/Domain.antt =====
-- src/registry/domain/ and constants.ts
use workflow_spec.Prelude.{ℕ, String, Bool, List, Option}
use workflow_spec.Json.{Json, Dict}
use workflow_spec.Shared.TrustTier.{TrustTier}

pub data MaterializationCostClass : Type 0 where
  negligible heavy : MaterializationCostClass

pub data NestingTransport : Type 0 where
  sdk http cli mcp : NestingTransport

pub data InvocationStyle : Type 0 where
  flag positional stdin : InvocationStyle

pub data StateReuse : Type 0 where
  no_reuse state_id_keyed : StateReuse

-- Without a list the targets are "open".
pub record NestingDeclaration : Type 0 where
  pub via : NestingTransport
  pub targets : Option (List String)

pub record InvocationDescriptorEntry : Type 0 where
  pub param : String
  pub style : InvocationStyle
  pub flag_name : Option String
  pub position_index : Option ℕ

pub record ServiceImage : Type 0 where
  pub digest : String
  pub oci_ref : String
  pub openapi_spec : Dict Json
  pub hardware_requirements : Dict Json
  pub trust_tier : TrustTier
  pub registered_at : ℕ
  pub updated_at : ℕ

pub record FunctionCapabilityInput : Type 0 where
  pub mutates : Bool
  pub materialization_cost_class : MaterializationCostClass
  pub cow_support : Bool
  pub change_detection_support : Bool
  pub nesting_declaration : Option NestingDeclaration
  pub invocation_descriptor : List InvocationDescriptorEntry
  pub state_reuse : StateReuse
  pub additive_warm_update : Bool

pub record FunctionCapability : Type 0 where
  pub digest : String
  pub function_name : String
  pub capability : FunctionCapabilityInput

pub record RegistryEntry : Type 0 where
  pub image : ServiceImage
  pub functions : Dict FunctionCapabilityInput

-- The two tables of the registry.
pub record RegistryDb : Type 0 where
  pub service_images : List ServiceImage
  pub function_capabilities : List FunctionCapability
