-- ===== src/Registry/Soundness.antt =====
-- What every image and every function in the registry's tables is.
use workflow_spec.Prelude.{
  ℕ, ◌≡◌, refl, ap, ◌∙◌, sym, subst, String, Bool, true, false, not, ◌||◌, List, [], ◌∷◌, ◌++◌, map,
  ◌==◌, arith, select, any, update_where, string_eq, ==-same, ==-true, contains, Distinct, All,
  All-append, All-imp, if-both, Bool-cases, inl, inr,
}
use workflow_spec.Json.{Json, Dict, keys}
use workflow_spec.Registry.Domain.{
  ServiceImage, FunctionCapability, FunctionCapabilityInput, RegistryDb,
}
use workflow_spec.Registry.GetEntry.{has_digest}
use workflow_spec.Registry.CapabilityLaws.{IsCapability}
use workflow_spec.Registry.Admin.{
  RegisterImageInput, is_image, new_image, replaced, upsert_rows, register_image, or_empty,
}
use workflow_spec.Registry.Tables.{row_of}
use workflow_spec.Registry.Registration.{Capabilities, metadata, written}
use workflow_spec.Registry.RegisterLaws.{either}

abbrev pub digests : List ServiceImage → List String
digests images = map (λ (i : ServiceImage). i.digest) images

-- No digest is registered twice, every function belongs to an image that is, and every function's
-- capability is one that validation lets pass.
pub record IsSound (db : RegistryDb) : Type 0 where
  pub distinct_digests : Distinct (digests db.service_images)
  pub registered :
      All
        (λ (row : FunctionCapability). contains (digests db.service_images) row.digest ≡ true)
        db.function_capabilities
  pub capabilities :
      All (λ (row : FunctionCapability). IsCapability row.capability) db.function_capabilities

digests-update :
    (p : ServiceImage → Bool) (f : ServiceImage → ServiceImage) (images : List ServiceImage)
    → ((i : ServiceImage) → (f i).digest ≡ i.digest)
    → digests (update_where p f images) ≡ digests images
digests-update p f [] same = refl
digests-update p f (i ∷ images) same = ground (arith, same i, digests-update p f images same)

any-digest :
    (d : String) (images : List ServiceImage)
    → any (is_image d) images ≡ contains (digests images) d
any-digest d [] = refl
any-digest d (i ∷ images) = ground (arith, any-digest d images)

digests-behind :
    (images : List ServiceImage) (i : ServiceImage)
    → digests (images ++ (i ∷ [])) ≡ digests images ++ (i.digest ∷ [])
digests-behind [] i = refl
digests-behind (j ∷ images) i = ap (λ ds. j.digest ∷ ds) (digests-behind images i)

contains-behind :
    (ds : List String) (d x : String) → contains (ds ++ (d ∷ [])) x ≡ (contains ds x || x == d)
contains-behind [] d x = ground arith
contains-behind (e ∷ ds) d x = ground (arith, contains-behind ds d x)

contains-known :
    (ds : List String) (d x : String)
    → contains ds d ≡ true
    → contains ds x ≡ (contains ds x || x == d)
contains-known ds d x known = elim (Bool-cases (x == d)) [
  | inl own ↦ ground (arith, own, subst (λ y. contains ds y ≡ true) (sym (==-true x d own)) known)
  | inr other ↦ ground (arith, other)
]

Distinct-behind :
    (ds : List String) (d : String)
    → Distinct ds
    → contains ds d ≡ false
    → Distinct (ds ++ (d ∷ []))
Distinct-behind [] d h new = (refl, tt)
Distinct-behind (e ∷ ds) d h new = (
  ground (arith, h.0, new, contains-behind ds d e),
  Distinct-behind ds d h.1 (ground (arith, new)),
)

module _ (now : ℕ) (input : RegisterImageInput) (hardware : Dict Json)
    (images : List ServiceImage) where
  abbrev Written : List ServiceImage → Type 0
  Written rows =
      Distinct (digests rows)
      × ((x : String)
          → contains (digests rows) x ≡ (contains (digests images) x || x == input.digest))

  digests-upsert : Distinct (digests images) → Written (upsert_rows now input hardware images)
  unfolding upsert_rows
  digests-upsert distinct =
      let p = is_image input.digest in
      let f = replaced now input hardware in
      if-both Written (any p images) _ _
        (λ there.
          let same = digests-update p f images (λ i. refl) in
          (
            subst Distinct (sym same) distinct,
            λ x.
                ap (λ ds. contains ds x) same
                ∙ contains-known (digests images) input.digest x
                    (sym (any-digest input.digest images) ∙ there),
          ))
        (λ new.
          let is = digests-behind images (new_image now input hardware) in
          (
            subst Distinct (sym is) (
                Distinct-behind (digests images) input.digest distinct
                  (sym (any-digest input.digest images) ∙ new)),
            λ x. ap (λ ds. contains ds x) is ∙ contains-behind (digests images) input.digest x,
          ))

All-select :
    {A : Type 0} (P : A → Type 0) (p : A → Bool) (xs : List A) → All P xs → All P (select p xs)
All-select P p [] h = tt
All-select P p (x ∷ xs) h =
    if-both (All P) (p x) _ _ (λ in_. (h.0, All-select P p xs h.1)) (λ out. All-select P p xs h.1)

All-rows :
    (digest : String) (P : FunctionCapability → Type 0) (meta : Dict Json)
    (caps : Dict FunctionCapabilityInput)
    → Capabilities meta caps
    → ((name : String) (c : FunctionCapabilityInput) → IsCapability c → P (row_of digest (name, c)))
    → All P (map (row_of digest) caps)
All-rows digest P [] [] are h = tt
All-rows digest P [] (c ∷ caps) are h = absurd are
All-rows digest P (j ∷ meta) [] are h = absurd are
All-rows digest P (j ∷ meta) ((n, c) ∷ caps) are h =
    (h n c are.2, All-rows digest P meta caps are.3 h)

module _ (now : ℕ) (input : RegisterImageInput) (db : RegistryDb) (sound : IsSound db) where
  written-IsSound :
      (caps : Dict FunctionCapabilityInput)
      → Capabilities (metadata input) caps
      → IsSound (written now input db caps)
  written-IsSound caps are =
      let kept = select (λ row. not (has_digest input.digest row)) db.function_capabilities in
      let (distinct, known) =
        digests-upsert now input (or_empty input.hardware_requirements) db.service_images
          sound.distinct_digests in
      record {
        distinct_digests = distinct;
        registered =
            All-append _ kept (map (row_of input.digest) caps)
              (All-imp _ _ kept (λ row there. ground (arith, there, known row.digest))
                (All-select _ (λ row. not (has_digest input.digest row)) db.function_capabilities
                  sound.registered))
              (All-rows input.digest _ (metadata input) caps are
                (λ name c is. ground (arith, known input.digest, ==-same input.digest)));
        capabilities =
            All-append _ kept (map (row_of input.digest) caps)
              (All-select _ (λ row. not (has_digest input.digest row)) db.function_capabilities
                sound.capabilities)
              (All-rows input.digest _ (metadata input) caps are (λ name c is. is));
      }

  -- Registering keeps the registry sound, whatever the input, if its function names are the
  -- distinct keys of an object: no digest twice, no function without its image, no capability
  -- that validation refuses.
  pub register_image-IsSound :
      Distinct (keys (metadata input)) → IsSound (register_image now input db).1
  register_image-IsSound distinct =
      either now input db IsSound distinct sound (λ caps are. written-IsSound caps are)
