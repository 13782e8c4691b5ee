-- ===== src/Registry/Admin.antt =====
-- src/registry/admin.ts, conformance.ts and the two repositories' writes. `now` is the database's
-- `now()`.
use workflow_spec.Prelude.{
  ℕ, String, Bool, not, ◌&&◌, List, [], ◌∷◌, ◌++◌, Option, none, some, ◌==◌, string_eq,
  if◌then◌else◌, select, any, update_where,
}
use workflow_spec.Json.{Json, str, obj, Dict, from_entries}
use workflow_spec.Shared.Errors.{
  ErrorId, fatal, platform, registry_validation_failed, registry_trust_tier_invalid,
  registry_trust_tier_unknown_digest, registry_service_image_upsert_no_row_returned,
}
use workflow_spec.Shared.Transaction.{
  ok, aborted, Tx, pure, throw, gets, modify, ◌>>=◌, ◌>>◌, Settled, resolved, rejected,
  with_transaction,
}
use workflow_spec.Shared.TrustTier.{TrustTier, unverified}
use workflow_spec.Registry.Domain.{
  ServiceImage, FunctionCapability, FunctionCapabilityInput, RegistryDb,
}
use workflow_spec.Registry.GetEntry.{has_digest, find_by_digest}
use workflow_spec.Registry.ReadCapability.{read_capability}
use workflow_spec.Registry.Validate.{
  ValidateRegistrationInput, validate_registration, RegistrationFault, trust_tier_of,
}

abbrev pub Query : Type 0 → Type 0
Query A = Tx RegistryDb A

pub record RegisterImageInput : Type 0 where
  pub digest : String
  pub oci_ref : String
  pub openapi_spec : Dict Json
  pub capability_metadata : Option (Dict Json)
  pub hardware_requirements : Option (Dict Json)

abbrev pub is_image : String → ServiceImage → Bool
is_image digest image = image.digest == digest

module _ (now : ℕ) where
  abbrev pub new_image : RegisterImageInput → Dict Json → ServiceImage
  new_image input hardware = record {
    digest = input.digest;
    oci_ref = input.oci_ref;
    openapi_spec = input.openapi_spec;
    hardware_requirements = hardware;
    trust_tier = unverified;
    registered_at = now;
    updated_at = now;
  }

  -- `ON CONFLICT (digest) DO UPDATE`
  abbrev pub replaced : RegisterImageInput → Dict Json → ServiceImage → ServiceImage
  replaced input hardware image = record image {
    oci_ref = input.oci_ref;
    openapi_spec = input.openapi_spec;
    hardware_requirements = hardware;
    updated_at = now;
  }

  -- SQL_UPSERT_SERVICE_IMAGE
  unfoldable pub upsert_rows :
      RegisterImageInput → Dict Json → List ServiceImage → List ServiceImage
  unfolding string_eq
  upsert_rows input hardware images =
      if any (is_image input.digest) images
      then update_where (is_image input.digest) (replaced input hardware) images
      else images ++ (new_image input hardware ∷ [])

  abbrev pub row_or_throw : ErrorId → Option ServiceImage → Query ServiceImage
  row_or_throw id none = throw (fatal id)
  row_or_throw id (some image) = pure image

  unfoldable pub upsert : RegisterImageInput → Dict Json → Query ServiceImage
  unfolding upsert_rows find_by_digest
  upsert input hardware = do
    modify (λ db. record db { service_images = upsert_rows input hardware db.service_images })
    row ← gets (find_by_digest input.digest)
    row_or_throw registry_service_image_upsert_no_row_returned row

  -- SQL_UPDATE_SERVICE_IMAGE_TRUST_TIER
  unfoldable pub update_trust_tier :
      String → TrustTier → RegistryDb → RegistryDb × Option ServiceImage
  unfolding find_by_digest
  update_trust_tier digest tier db =
      let db' : RegistryDb = record db {
        service_images =
            update_where (is_image digest)
              (λ image. record image { trust_tier = tier; updated_at = now }) db.service_images;
      } in
      (db', find_by_digest digest db')

abbrev pub is_function : String → String → FunctionCapability → Bool
is_function digest name row = has_digest digest row && row.function_name == name

-- SQL_DELETE_FUNCTION_CAPABILITIES_FOR_DIGEST
unfoldable pub delete_rows : String → RegistryDb → RegistryDb
delete_rows digest db = record db {
  function_capabilities = select (λ row. not (has_digest digest row)) db.function_capabilities;
}

-- SQL_INSERT_FUNCTION_CAPABILITY fails on a key that is there, and on a capability whose columns
-- the table does not take.
unfoldable pub insert_row : String → String → Option FunctionCapabilityInput → Query (Unit {0})
unfolding string_eq
insert_row digest name none db = aborted
insert_row digest name (some capability) db =
    if any (is_function digest name) db.function_capabilities
    then aborted
    else ok tt (record db {
      function_capabilities =
          db.function_capabilities
          ++ (record { digest = digest; function_name = name; capability = capability } ∷ []);
    })

unfoldable pub insert_rows : String → Dict Json → Query (Unit {0})
unfolding insert_row read_capability
insert_rows digest [] = pure tt
insert_rows digest ((name, c) ∷ caps) = do
  insert_row digest name (read_capability c)
  insert_rows digest caps

unfoldable pub replace_for_digest : String → Dict Json → Query (Unit {0})
unfolding delete_rows insert_rows
replace_for_digest digest caps = do modify (delete_rows digest); insert_rows digest caps

abbrev pub or_empty : Option (Dict Json) → Dict Json
or_empty none = []
or_empty (some d) = d

-- What `registerImage` hands to the validation.
abbrev pub payload : RegisterImageInput → ValidateRegistrationInput
payload input = record {
  digest = some (str input.digest);
  oci_ref = some (str input.oci_ref);
  openapi_spec = some (obj (from_entries input.openapi_spec));
  capability_metadata = some (obj (from_entries (or_empty input.capability_metadata)));
  hardware_requirements = some (obj (from_entries (or_empty input.hardware_requirements)));
}

pub record Registered : Type 0 where
  pub digest : String
  pub trust_tier : TrustTier

-- The work of the transaction.
unfoldable pub write_image : ℕ → RegisterImageInput → Query Registered
unfolding upsert replace_for_digest
write_image now input = do
  image ← upsert now input (or_empty input.hardware_requirements)
  replace_for_digest input.digest (or_empty input.capability_metadata)
  pure (record { digest = image.digest; trust_tier = image.trust_tier })

abbrev pub if_valid :
    List RegistrationFault → ℕ → RegisterImageInput → RegistryDb → Settled Registered × RegistryDb
if_valid [] now input db = with_transaction (write_image now input) db
if_valid (fault ∷ faults) now input db =
    (rejected (platform (fatal registry_validation_failed)), db)

unfoldable pub register_image :
    ℕ → RegisterImageInput → RegistryDb → Settled Registered × RegistryDb
unfolding write_image validate_registration with_transaction
register_image now input db = if_valid (validate_registration (payload input)) now input db

abbrev pub annotated : RegistryDb × Option ServiceImage → Settled Registered × RegistryDb
annotated (db, none) = (rejected (platform (fatal registry_trust_tier_unknown_digest)), db)
annotated (db, some image) =
    (resolved (record { digest = image.digest; trust_tier = image.trust_tier }), db)

unfoldable pub record_valid_tier :
    ℕ → String → Option TrustTier → RegistryDb → Settled Registered × RegistryDb
unfolding update_trust_tier
record_valid_tier now digest none db = (rejected (platform (fatal registry_trust_tier_invalid)), db)
record_valid_tier now digest (some tier) db = annotated (update_trust_tier now digest tier db)

-- One statement, which is its own transaction.
unfoldable pub record_trust_tier : ℕ → String → Json → RegistryDb → Settled Registered × RegistryDb
unfolding record_valid_tier trust_tier_of
record_trust_tier now digest tier db = record_valid_tier now digest (trust_tier_of tier) db
