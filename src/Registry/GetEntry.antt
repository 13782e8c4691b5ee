-- ===== src/Registry/GetEntry.antt =====
-- src/registry/get-entry.ts, get-placement-facts.ts and the queries that they make
use workflow_spec.Prelude.{
  String, Bool, ◌&&◌, List, [], ◌∷◌, Option, none, some, ◌==◌, string_eq, if◌then◌else◌, select,
  first,
}
use workflow_spec.Json.{Json, Dict}
use workflow_spec.Shared.TrustTier.{TrustTier}
use workflow_spec.Registry.Domain.{
  ServiceImage, FunctionCapability, FunctionCapabilityInput, RegistryEntry, RegistryDb,
}

abbrev pub has_digest : String → FunctionCapability → Bool
has_digest digest c = c.digest == digest

unfoldable pub find_by_digest : String → RegistryDb → Option ServiceImage
find_by_digest digest db = first (λ (i : ServiceImage). i.digest == digest) db.service_images

-- `functions[name] = …`: a key that is there keeps its place.
unfoldable pub assign {ℓ} : {V : Type ℓ} → String → V → Dict V → Dict V
unfolding string_eq
assign k v [] = (k, v) ∷ []
assign k v ((j, w) ∷ d) = if k == j then (j, v) ∷ d else (j, w) ∷ assign k v d

unfoldable pub collect_functions :
    List FunctionCapability → Dict FunctionCapabilityInput → Dict FunctionCapabilityInput
unfolding assign
collect_functions [] functions = functions
collect_functions (c ∷ cs) functions =
    collect_functions cs (assign c.function_name c.capability functions)

-- `ordered` is the database's ORDER BY function_name.
module _ (ordered : List FunctionCapability → List FunctionCapability) where
  unfoldable pub list_by_digest : String → RegistryDb → List FunctionCapability
  list_by_digest digest db = ordered (select (has_digest digest) db.function_capabilities)

  unfoldable pub get_entry : RegistryDb → String → Option RegistryEntry
  unfolding list_by_digest collect_functions find_by_digest
  get_entry db digest = elim (find_by_digest digest db) [
    | none ↦ none
    | some image ↦
        some (record { image = image; functions = collect_functions (list_by_digest digest db) [] })
  ]

pub record PlacementFacts : Type 0 where
  pub digest : String
  pub function : String
  pub capability : FunctionCapabilityInput
  pub trust_tier : TrustTier
  pub hardware_requirements : Dict Json

-- SQL_GET_PLACEMENT_FACTS, whose two keys select one row of each table
unfoldable pub get_placement_facts : RegistryDb → String → String → Option PlacementFacts
unfolding find_by_digest
get_placement_facts db digest function_name = elim (find_by_digest digest db) [
  | none ↦ none
  | some image ↦
      elim (first
        (λ (c : FunctionCapability). has_digest digest c && c.function_name == function_name)
        db.function_capabilities) [
          | none ↦ none
          | some c ↦ some (record {
            digest = c.digest;
            function = c.function_name;
            capability = c.capability;
            trust_tier = image.trust_tier;
            hardware_requirements = image.hardware_requirements;
          })
        ]
]
