-- ===== src/Registry/RegisterLaws.antt =====
-- What readers of the registry meet behind a registration.
use mathlib.Core.Option
use workflow_spec.Prelude.{
  ℕ, ◌≡◌, ◌⊎◌, inl, inr, refl, ap, ◌∙◌, sym, subst, String, false, not, List, [], ◌∷◌, map, Option,
  ◌==◌, arith, select, first, string_eq, Distinct,
}
use workflow_spec.Json.{Dict, keys}
use workflow_spec.Registry.Domain.{ServiceImage, FunctionCapabilityInput, RegistryDb}
use workflow_spec.Registry.GetEntry.{
  has_digest, find_by_digest, get_placement_facts, PlacementFacts,
}
use workflow_spec.Registry.Validate.{RegistrationFault, validate_registration}
use workflow_spec.Registry.Admin.{
  RegisterImageInput, is_function, if_valid, register_image, or_empty, payload,
}
use workflow_spec.Registry.Tables.{
  first-append_skip, first-select, upsert_rows_others, row_of, rows_others,
}
use workflow_spec.Registry.Registration.{Capabilities, metadata, written, register_image-resolved}

faults_or_none :
    (faults : List RegistrationFault)
    → (faults ≡ [])
      ⊎ ((now : ℕ) (input : RegisterImageInput) (db : RegistryDb)
          → (if_valid faults now input db).1 ≡ db)
faults_or_none [] = inl refl
faults_or_none (fault ∷ faults) = inr (λ now input db. refl)

abbrev pub facts_of : ServiceImage → String → FunctionCapabilityInput → PlacementFacts
facts_of image name c = record {
  digest = image.digest;
  function = name;
  capability = c;
  trust_tier = image.trust_tier;
  hardware_requirements = image.hardware_requirements;
}

module _ (now : ℕ) (input : RegisterImageInput) (db : RegistryDb) where
  other_rows :
      (d name : String) (caps : Dict FunctionCapabilityInput)
      → (d == input.digest) ≡ false
      → first (is_function d name) (written now input db caps).function_capabilities
        ≡ first (is_function d name) db.function_capabilities
  other_rows d name caps other =
      first-append_skip (is_function d name)
        (select (λ row. not (has_digest input.digest row)) db.function_capabilities)
        (map (row_of input.digest) caps) (rows_others input.digest d name caps other)
      ∙ first-select (is_function d name) (λ row. not (has_digest input.digest row))
          db.function_capabilities (λ row is. ground (arith, is, other))

  other_facts :
      (d name : String) (caps : Dict FunctionCapabilityInput)
      → (d == input.digest) ≡ false
      → get_placement_facts (written now input db caps) d name ≡ get_placement_facts db d name
  unfolding get_placement_facts find_by_digest
  other_facts d name caps other =
      let image =
        upsert_rows_others now input (or_empty input.hardware_requirements) d db.service_images
          other in
      let rows = other_rows d name caps other in ground (arith, image, rows)

module _ (now : ℕ) (input : RegisterImageInput) (db : RegistryDb) where
  -- Either the registration is invalid and changes nothing, or it writes.
  pub either :
      (P : RegistryDb → Type 0)
      → Distinct (keys (metadata input))
      → P db
      → ((caps : Dict FunctionCapabilityInput)
          → Capabilities (metadata input) caps
          → P (written now input db caps))
      → P (register_image now input db).1
  unfolding register_image
  either P distinct same changed = elim (faults_or_none (validate_registration (payload input))) [
    | inl valid ↦
        let (caps, are, is) = register_image-resolved now input db valid distinct in
        subst P (sym (ap (λ r. r.1) is)) (changed caps are)
    | inr invalid ↦ subst P (sym (invalid now input db)) same
  ]

  -- Whatever comes of a registration, what the scheduler finds under another digest stays.
  pub register_image_others :
      (d name : String)
      → Distinct (keys (metadata input))
      → (d == input.digest) ≡ false
      → get_placement_facts (register_image now input db).1 d name ≡ get_placement_facts db d name
  register_image_others d name distinct other =
      either (λ db'. get_placement_facts db' d name ≡ get_placement_facts db d name) distinct refl
        (λ caps are. other_facts now input db d name caps other)
