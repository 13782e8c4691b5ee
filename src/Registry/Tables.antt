-- ===== src/Registry/Tables.antt =====
-- What the writes leave in the registry's two tables.
use mathlib.Core.Option
use workflow_spec.Prelude.{
  ℕ, ◌≡◌, refl, String, Bool, true, false, List, [], ◌∷◌, ◌++◌, map, Option, none, some, ◌==◌,
  arith, select, first, any, update_where, first-update_where, string_eq, ==-same, Bool-cases, inl,
  inr, if-both,
}
use workflow_spec.Json.{Json, Dict, lookup}
use workflow_spec.Registry.Domain.{ServiceImage, FunctionCapability, FunctionCapabilityInput}
use workflow_spec.Registry.Admin.{
  RegisterImageInput, is_image, new_image, replaced, upsert_rows, is_function,
}

module _ {A : Type 0} (p : A → Bool) where
  pub first-append_none : (xs ys : List A) → any p xs ≡ false → first p (xs ++ ys) ≡ first p ys
  first-append_none [] ys h = refl
  first-append_none (x ∷ xs) ys h = ground (arith, h, first-append_none xs ys (ground (arith, h)))

  pub first-append_skip : (xs ys : List A) → any p ys ≡ false → first p (xs ++ ys) ≡ first p xs
  first-append_skip [] [] h = refl
  first-append_skip [] (y ∷ ys) h = ground (arith, h, first-append_skip [] ys (ground (arith, h)))
  first-append_skip (x ∷ xs) ys h = ground (arith, first-append_skip xs ys h)

  pub any-first : (xs : List A) → any p xs ≡ true → (x : A) × (first p xs ≡ some x) × (p x ≡ true)
  any-first [] h = absurd (cc h)
  any-first (x ∷ xs) h = elim (Bool-cases (p x)) [
    | inl here ↦ (x, ground (arith, here), here)
    | inr there ↦
        let (y, is, holds) = any-first xs (ground (arith, h, there)) in
        (y, ground (arith, there, is), holds)
  ]

  pub first-none : (xs : List A) → any p xs ≡ false → first p xs ≡ none
  first-none [] h = refl
  first-none (x ∷ xs) h = ground (arith, h, first-none xs (ground (arith, h)))

  pub first_holds : (xs : List A) (x : A) → first p xs ≡ some x → p x ≡ true
  first_holds [] x h = absurd (cc h)
  first_holds (y ∷ xs) x h = ground (arith, h, first_holds xs x)

  pub update_where-none : (f : A → A) (xs : List A) → first p xs ≡ none → update_where p f xs ≡ xs
  update_where-none f [] h = refl
  update_where-none f (x ∷ xs) h = ground (arith, h, update_where-none f xs (ground (arith, h)))

-- A query that every row it asks for survives.
pub first-select :
    {A : Type 0} (p keep : A → Bool) (xs : List A)
    → ((x : A) → p x ≡ true → keep x ≡ true)
    → first p (select keep xs) ≡ first p xs
first-select p keep [] h = refl
first-select p keep (x ∷ xs) h = ground (arith, h x, first-select p keep xs h)

pub any-select :
    {A : Type 0} (p keep : A → Bool) (xs : List A)
    → ((x : A) → p x ≡ true → keep x ≡ false)
    → any p (select keep xs) ≡ false
any-select p keep [] h = refl
any-select p keep (x ∷ xs) h = ground (arith, h x, any-select p keep xs h)

-- A query that asks for no row that an update changes.
pub first-update_off :
    {A : Type 0} (q p : A → Bool) (f : A → A) (xs : List A)
    → ((x : A) → p x ≡ true → (q x ≡ false) × (q (f x) ≡ false))
    → first q (update_where p f xs) ≡ first q xs
first-update_off q p f [] off = refl
first-update_off q p f (x ∷ xs) off = elim (Bool-cases (p x)) [
  | inl changed ↦
      let (before, after) = off x changed in
      ground (arith, changed, before, after, first-update_off q p f xs off)
  | inr same ↦ ground (arith, same, first-update_off q p f xs off)
]

module _ (now : ℕ) (input : RegisterImageInput) (hardware : Dict Json) where
  -- The image's row, by what there was before.
  abbrev pub image_after : Option ServiceImage → ServiceImage
  image_after none = new_image now input hardware
  image_after (some image) = replaced now input hardware image

  pub upsert_rows-first :
      (images : List ServiceImage)
      → first (is_image input.digest) (upsert_rows now input hardware images)
        ≡ some (image_after (first (is_image input.digest) images))
  unfolding upsert_rows
  upsert_rows-first images =
      let p = is_image input.digest in
      let f = replaced now input hardware in
      elim (Bool-cases (any p images)) [
        | inl there ↦
            let (image, is, holds) = any-first p images there in
            let updated = first-update_where p p f images (λ x. ground arith) in
            ground (arith, there, is, holds, updated)
        | inr new ↦ ground (
          arith,
          new,
          ==-same input.digest,
          first-none p images new,
          first-append_none p images (new_image now input hardware ∷ []) new,
        )
      ]

  pub upsert_rows_others :
      (d : String) (images : List ServiceImage)
      → (d == input.digest) ≡ false
      → first (is_image d) (upsert_rows now input hardware images) ≡ first (is_image d) images
  unfolding upsert_rows
  upsert_rows_others d images other =
      if-both (λ rows. first (is_image d) rows ≡ first (is_image d) images)
        (any (is_image input.digest) images) _ _
        (λ there.
          first-update_off (is_image d) (is_image input.digest) (replaced now input hardware) images
            (λ image changed. (ground (arith, other), ground (arith, other))))
        (λ new.
          first-append_skip (is_image d) images (new_image now input hardware ∷ [])
            (ground (arith, other)))

module _ (digest : String) where
  abbrev pub row_of : String × FunctionCapabilityInput → FunctionCapability
  row_of (name, c) = record { digest = digest; function_name = name; capability = c }

  pub first-rows :
      (name : String) (caps : Dict FunctionCapabilityInput)
      → first (is_function digest name) (map row_of caps)
        ≡ Option.map (λ c. row_of (name, c)) (lookup name caps)
  unfolding lookup
  first-rows name [] = refl
  first-rows name ((n, c) ∷ caps) = ground (arith, ==-same digest, first-rows name caps)

  pub rows_others :
      (d name : String) (caps : Dict FunctionCapabilityInput)
      → (d == digest) ≡ false
      → any (is_function d name) (map row_of caps) ≡ false
  rows_others d name [] other = refl
  rows_others d name (c ∷ caps) other = ground (arith, other, rows_others d name caps other)
