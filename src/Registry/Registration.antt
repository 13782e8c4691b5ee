-- ===== src/Registry/Registration.antt =====
-- What registering an image writes.
use mathlib.Core.List.{append_assoc, append-nil}
use workflow_spec.Prelude.{
  map_nil, ℕ, ◌≡◌, refl, ap, ◌∙◌, sym, String, false, not, List, [], ◌∷◌, ◌++◌, map, Option, some,
  ◌==◌, arith, select, any, contains, string_eq, Distinct, append_nil_both,
}
use workflow_spec.Json.{Json, Dict, keys, entries, from_entries, entries-from_entries}
use workflow_spec.Shared.Transaction.{ok, resolved, with_transaction, ◌>>=◌}
use workflow_spec.Registry.Domain.{
  ServiceImage, FunctionCapability, FunctionCapabilityInput, RegistryDb,
}
use workflow_spec.Registry.GetEntry.{has_digest, find_by_digest}
use workflow_spec.Registry.Capability.{validate_capability}
use workflow_spec.Registry.CapabilityLaws.{IsCapability, validate_capability-IsCapability}
use workflow_spec.Registry.ReadCapability.{read_capability}
use workflow_spec.Registry.Validate.{
  unless, is_filled, digest_required, oci_ref_required, of_function, name_faults, capability_faults,
  validate_registration, referential_faults,
}
use workflow_spec.Registry.Admin.{
  RegisterImageInput, is_function, upsert, upsert_rows, delete_rows, insert_row, insert_rows,
  replace_for_digest, write_image, register_image, or_empty, payload,
}
use workflow_spec.Registry.Tables.{any-select, image_after, upsert_rows-first, row_of}

-- The capabilities that the metadata's values stand for, under their names.
abbrev pub Capabilities : Dict Json → Dict FunctionCapabilityInput → Type 0
Capabilities [] [] = Unit
Capabilities ((name, j) ∷ meta) ((n, c) ∷ caps) =
    (n ≡ name) × (read_capability j ≡ some c) × IsCapability c × Capabilities meta caps
Capabilities _ _ = ⊥

capability_faults-Capabilities :
    (meta : Dict Json)
    → capability_faults meta ≡ []
    → (caps : Dict FunctionCapabilityInput) × Capabilities meta caps
unfolding capability_faults
capability_faults-Capabilities [] h = ([], tt)
capability_faults-Capabilities ((name, j) ∷ meta) h =
    let (now, later) =
      append_nil_both (name_faults name ++ map (of_function name) (validate_capability j)) _ h in
    let (named, fine) = append_nil_both (name_faults name) _ now in
    let (c, reads, is) = validate_capability-IsCapability j (map_nil (of_function name) _ fine) in
    let (caps, rest) = capability_faults-Capabilities meta later in
    ((name, c) ∷ caps, (refl, reads, is, rest))

abbrev pub metadata : RegisterImageInput → Dict Json
metadata input = or_empty input.capability_metadata

metadata_clean :
    (input : RegisterImageInput)
    → validate_registration (payload input) ≡ []
    → capability_faults (metadata input) ≡ []
unfolding validate_registration
metadata_clean input h =
    let (_, h1) = append_nil_both (unless (is_filled (payload input).digest) digest_required) _ h in
    let (_, h4) =
      append_nil_both (unless (is_filled (payload input).oci_ref) oci_ref_required) _ h1 in
    let given = entries (from_entries (metadata input)) in
    let (clean, _) =
      append_nil_both (capability_faults given)
        (referential_faults (payload input).openapi_spec (keys given)) h4 in
    ap capability_faults (sym (entries-from_entries (metadata input))) ∙ clean

module _ (digest : String) where
  -- None of the names is taken under this digest.
  abbrev Untaken : List FunctionCapability → List String → Type 0
  Untaken rows [] = Unit
  Untaken rows (n ∷ names) = (any (is_function digest n) rows ≡ false) × Untaken rows names

  taken_one :
      (rows : List FunctionCapability) (row : FunctionCapability) (n : String)
      → any (is_function digest n) rows ≡ false
      → (row.function_name == n) ≡ false
      → any (is_function digest n) (rows ++ (row ∷ [])) ≡ false
  taken_one [] row n h other = ground (arith, other)
  taken_one (r ∷ rows) row n h other =
      ground (arith, h, taken_one rows row n (ground (arith, h)) other)

  Untaken-behind :
      (rows : List FunctionCapability) (row : FunctionCapability) (names : List String)
      → Untaken rows names
      → contains names row.function_name ≡ false
      → Untaken (rows ++ (row ∷ [])) names
  Untaken-behind rows row [] h new = tt
  Untaken-behind rows row (n ∷ names) h new = (
    taken_one rows row n h.0 (ground (arith, new)),
    Untaken-behind rows row names h.1 (ground (arith, new)),
  )

  insert_rows_lem :
      (meta : Dict Json) (caps : Dict FunctionCapabilityInput) (db : RegistryDb)
      → Capabilities meta caps
      → Distinct (keys meta)
      → Untaken db.function_capabilities (keys meta)
      → insert_rows digest meta db
        ≡ ok tt (record db {
          function_capabilities = db.function_capabilities ++ map (row_of digest) caps;
        })
  unfolding insert_rows insert_row
  insert_rows_lem [] [] db are distinct untaken =
      ap (λ rows. ok tt (record db { function_capabilities = rows }))
        (sym (append-nil db.function_capabilities))
  insert_rows_lem [] (c ∷ caps) db are distinct untaken = absurd are
  insert_rows_lem (j ∷ meta) [] db are distinct untaken = absurd are
  insert_rows_lem ((name, j) ∷ meta) ((n, c) ∷ caps) db (same, reads, _, are) distinct untaken =
      let row = row_of digest (name, c) in
      let db1 : RegistryDb = record db {
        function_capabilities = db.function_capabilities ++ (row ∷ []);
      } in
      let rest =
        insert_rows_lem meta caps db1 are distinct.1
          (Untaken-behind db.function_capabilities row (keys meta) untaken.1 distinct.0) in
      let inserted : insert_row digest name (read_capability j) db ≡ ok tt db1 =
        ground (arith, reads, untaken.0) in
      ap (λ m. ((λ _. m) >>= λ _. insert_rows digest meta) db) inserted
      ∙ rest
      ∙ ap (λ rows. ok tt (record db { function_capabilities = rows }))
          (append_assoc db.function_capabilities (row ∷ []) (map (row_of digest) caps))
      ∙ ap
          (λ x. ok tt (record db {
            function_capabilities =
                db.function_capabilities ++ (row_of digest (x, c) ∷ map (row_of digest) caps);
          }))
          (sym same)

  select-Untaken :
      (rows : List FunctionCapability) (names : List String)
      → Untaken (select (λ row. not (has_digest digest row)) rows) names
  select-Untaken rows [] = tt
  select-Untaken rows (n ∷ names) = (
    any-select (is_function digest n) (λ row. not (has_digest digest row)) rows
        (λ row is. ground (arith, is)),
    select-Untaken rows names,
  )

module _ (now : ℕ) (input : RegisterImageInput) (db : RegistryDb) where
  -- The row that the image has had, and the one that it gets.
  abbrev pub image_before : Option ServiceImage
  image_before = find_by_digest input.digest db

  abbrev pub image_written : ServiceImage
  image_written = image_after now input (or_empty input.hardware_requirements) image_before

  abbrev pub written : Dict FunctionCapabilityInput → RegistryDb
  written caps = record {
    service_images = upsert_rows now input (or_empty input.hardware_requirements) db.service_images;
    function_capabilities =
        select (λ row. not (has_digest input.digest row)) db.function_capabilities
        ++ map (row_of input.digest) caps;
  }

  upsert_lem :
      upsert now input (or_empty input.hardware_requirements) db
      ≡ ok image_written (record db {
        service_images =
            upsert_rows now input (or_empty input.hardware_requirements) db.service_images;
      })
  unfolding upsert find_by_digest
  upsert_lem =
      let found =
        upsert_rows-first now input (or_empty input.hardware_requirements) db.service_images in
      ground (arith, found)

  write_image_lem :
      (caps : Dict FunctionCapabilityInput)
      → Capabilities (metadata input) caps
      → Distinct (keys (metadata input))
      → write_image now input db
        ≡ ok
            (record { digest = image_written.digest; trust_tier = image_written.trust_tier })
            (written caps)
  unfolding write_image replace_for_digest delete_rows
  write_image_lem caps are distinct =
      let db1 : RegistryDb = record db {
        service_images =
            upsert_rows now input (or_empty input.hardware_requirements) db.service_images;
      } in
      let inserted =
        insert_rows_lem input.digest (metadata input) caps (delete_rows input.digest db1) are
          distinct (select-Untaken input.digest db.function_capabilities (keys (metadata input))) in
      ground (arith, upsert_lem, inserted)

  -- Behind validation nothing fails: the image's row and the capabilities are written.
  pub register_image-resolved :
      validate_registration (payload input) ≡ []
      → Distinct (keys (metadata input))
      → (caps : Dict FunctionCapabilityInput) × Capabilities (metadata input) caps
        × (register_image now input db ≡ (
          resolved
              (record { digest = image_written.digest; trust_tier = image_written.trust_tier }),
          written caps,
        ))
  unfolding register_image with_transaction
  register_image-resolved valid distinct =
      let (caps, are) =
        capability_faults-Capabilities (metadata input) (metadata_clean input valid) in
      (caps, are, ground (arith, valid, write_image_lem caps are distinct))
