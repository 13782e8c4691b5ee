-- ===== src/Registry/TrustTiers.antt =====
-- Trust tiers behind a registration, and behind recording one.
use mathlib.Core.Option
use workflow_spec.Prelude.{
  ℕ, ◌≡◌, false, ◌⊎◌, inl, inr, refl, ap, sym, String, Option, none, some, ◌==◌, arith, first,
  update_where, first-update_where, string_eq, ==-true, subst, Distinct, Bool-cases,
}
use workflow_spec.Json.{Json, Dict, keys}
use workflow_spec.Shared.Errors.{
  fatal, platform, registry_trust_tier_invalid, registry_trust_tier_unknown_digest,
}
use workflow_spec.Shared.TrustTier.{TrustTier, unverified}
use workflow_spec.Shared.Transaction.{Settled, resolved, rejected}
use workflow_spec.Registry.Domain.{ServiceImage, FunctionCapabilityInput, RegistryDb}
use workflow_spec.Registry.GetEntry.{find_by_digest, get_placement_facts, PlacementFacts}
use workflow_spec.Registry.Validate.{trust_tier_of}
use workflow_spec.Registry.Admin.{
  RegisterImageInput, Registered, is_image, register_image, record_trust_tier, update_trust_tier,
  record_valid_tier, or_empty, annotated,
}
use workflow_spec.Registry.Tables.{
  image_after, upsert_rows-first, upsert_rows_others, first_holds, first-update_off,
  update_where-none,
}
use workflow_spec.Registry.Registration.{metadata, written}
use workflow_spec.Registry.RegisterLaws.{either}

abbrev pub tier : String → RegistryDb → Option TrustTier
tier d db = Option.map (λ (i : ServiceImage). i.trust_tier) (first (is_image d) db.service_images)

-- The image has the trust that it had, or is new and has none.
abbrev pub IsKept : String → RegistryDb → RegistryDb → Type 0
IsKept d before after =
    (tier d after ≡ tier d before) ⊎ ((tier d before ≡ none) × (tier d after ≡ some unverified))

module _ (now : ℕ) (input : RegisterImageInput) (db : RegistryDb) where
  kept_own :
      (o : Option ServiceImage)
      → first (is_image input.digest) db.service_images ≡ o
      → (o' : Option TrustTier)
      → o' ≡ some (image_after now input (or_empty input.hardware_requirements) o).trust_tier
      → (o' ≡ tier input.digest db) ⊎ ((tier input.digest db ≡ none) × (o' ≡ some unverified))
  kept_own none before o' after = inr (ground (arith, before), after)
  kept_own (some i) before o' after = inl (ground (arith, before, after))

  written-IsKept :
      (d : String) (caps : Dict FunctionCapabilityInput) → IsKept d db (written now input db caps)
  written-IsKept d caps = elim (Bool-cases (d == input.digest)) [
    | inl own ↦
        subst (λ x. IsKept x db (written now input db caps)) (sym (==-true d input.digest own))
          (kept_own (first (is_image input.digest) db.service_images) refl _ (
            ap (λ o. Option.map (λ (i : ServiceImage). i.trust_tier) o)
              (upsert_rows-first now input (or_empty input.hardware_requirements)
                db.service_images)))
    | inr other ↦ inl (
        ap (λ o. Option.map (λ (i : ServiceImage). i.trust_tier) o)
          (upsert_rows_others now input (or_empty input.hardware_requirements) d db.service_images
            other))
  ]

  -- Registering an image, whatever comes of it, changes the trust tier of no image that is
  -- registered: it keeps what conformance has recorded, and an image that is new is `unverified`.
  pub register_image-trust_tier :
      (d : String) → Distinct (keys (metadata input)) → IsKept d db (register_image now input db).1
  register_image-trust_tier d distinct =
      either now input db (IsKept d db) distinct (inl refl) (λ caps are. written-IsKept d caps)

-- An image's row and what the scheduler finds for each of its functions are as before.
abbrev pub IsUntouched : RegistryDb → String → RegistryDb → Type 0
IsUntouched db d after =
    (find_by_digest d after ≡ find_by_digest d db)
    × ((name : String) → get_placement_facts after d name ≡ get_placement_facts db d name)

module _ (now : ℕ) (digest : String) (db : RegistryDb) where
  -- What an update of the tier leaves of a reader's facts.
  abbrev pub with_tier : TrustTier → PlacementFacts → PlacementFacts
  with_tier t facts = record facts { trust_tier = t }

  abbrev pub Records :
      Option TrustTier → Option ServiceImage → Settled Registered × RegistryDb → Type 0
  Records none o (settled, after) =
      (settled ≡ rejected (platform (fatal registry_trust_tier_invalid))) × (after ≡ db)
  Records (some t) none (settled, after) =
      (settled ≡ rejected (platform (fatal registry_trust_tier_unknown_digest))) × (after ≡ db)
  Records (some t) (some i) (settled, after) =
      (settled ≡ resolved (record { digest = i.digest; trust_tier = t }))
      × ((name : String)
          → get_placement_facts after digest name
            ≡ Option.map (with_tier t) (get_placement_facts db digest name))

  records :
      (ot : Option TrustTier) (o : Option ServiceImage)
      → first (is_image digest) db.service_images ≡ o
      → Records ot o (record_valid_tier now digest ot db)
  unfolding record_valid_tier update_trust_tier find_by_digest get_placement_facts
  records none o found = (refl, refl)
  records (some t) none found =
      let same =
        update_where-none (is_image digest)
          (λ (i : ServiceImage). record i { trust_tier = t; updated_at = now }) db.service_images
          found in
      (ground (arith, same, found), ground (arith, same, found))
  records (some t) (some i) found =
      let f = λ (i : ServiceImage). record i { trust_tier = t; updated_at = now } in
      let updated =
        first-update_where (is_image digest) (is_image digest) f db.service_images
          (λ x. ground arith) in
      let holds = first_holds (is_image digest) db.service_images i found in
      let is : first (is_image digest) (update_where (is_image digest) f db.service_images)
          ≡ some (f i) =
        ground (arith, updated, found, holds) in
      (ground (arith, is), λ name. ground (arith, is, found))

  -- Recording a trust tier: a text that is no tier is refused and changes nothing. With a tier, an
  -- image that is registered gets it, and what the scheduler finds for each of its functions
  -- changes in the tier alone; for a digest that is not registered the call is rejected and the
  -- tables are as they were.
  pub record_trust_tier_lem :
      (v : Json)
      → Records (trust_tier_of v) (find_by_digest digest db) (record_trust_tier now digest v db)
  unfolding record_trust_tier find_by_digest
  record_trust_tier_lem v =
      records (trust_tier_of v) (first (is_image digest) db.service_images) refl

  annotated-keeps : (o : Option ServiceImage) (db' : RegistryDb) → (annotated (db', o)).1 ≡ db'
  annotated-keeps none db' = refl
  annotated-keeps (some i) db' = refl

  tier_others :
      (ot : Option TrustTier) (d : String)
      → (d == digest) ≡ false
      → IsUntouched db d (record_valid_tier now digest ot db).1
  unfolding record_valid_tier update_trust_tier find_by_digest get_placement_facts
  tier_others none d other = (refl, λ name. refl)
  tier_others (some t) d other =
      let f = λ (i : ServiceImage). record i { trust_tier = t; updated_at = now } in
      let rows = update_where (is_image digest) f db.service_images in
      let db' : RegistryDb = record db { service_images = rows } in
      let kept : first (is_image d) rows ≡ first (is_image d) db.service_images =
        first-update_off (is_image d) (is_image digest) f db.service_images
          (λ i changed. (ground (arith, other), ground (arith, other))) in
      subst (IsUntouched db d) (sym (annotated-keeps (first (is_image digest) rows) db'))
        (kept, λ name. ground (arith, kept))

  -- Recording a trust tier under one digest, whatever comes of it, leaves an image under another
  -- digest as it was: its row, and what the scheduler finds for each of its functions.
  pub record_trust_tier_others :
      (v : Json) (d : String)
      → (d == digest) ≡ false
      → IsUntouched db d (record_trust_tier now digest v db).1
  unfolding record_trust_tier
  record_trust_tier_others v d other = tier_others (trust_tier_of v) d other
