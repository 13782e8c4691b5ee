-- ===== src/Prelude/Sets.antt =====
-- Membership by test, and lists without repetition.
use mathlib.Core.Path.{◌≡◌, refl}
use mathlib.Core.Bool.{false, ◌||◌}
use mathlib.Core.List.{List, [], ◌∷◌, ◌++◌}
use native.Mathlib.Omega.{arith}
use workflow_spec.Prelude.Tests.{Eq, contains}

module _ {ℓ} {A : Type ℓ} ⦃e : Eq A⦄ where
  abbrev pub Distinct : List A → Type 0
  Distinct [] = Unit
  Distinct (x ∷ xs) = (contains xs x ≡ false) × Distinct xs

  -- No element of the list is in `seen`.
  abbrev pub Avoids : List A → List A → Type 0
  Avoids seen [] = Unit
  Avoids seen (x ∷ xs) = (contains seen x ≡ false) × Avoids seen xs

  pub Avoids-nil : (xs : List A) → Avoids [] xs
  Avoids-nil [] = tt
  Avoids-nil (x ∷ xs) = (refl, Avoids-nil xs)

  pub Avoids-cons :
      (y : A) (seen xs : List A) → contains xs y ≡ false → Avoids seen xs → Avoids (y ∷ seen) xs
  Avoids-cons y seen [] h a = tt
  Avoids-cons y seen (x ∷ xs) h a = (ground (arith, a.0), Avoids-cons y seen xs (ground arith) a.1)

  pub Avoids-uncons :
      (y : A) (seen xs : List A) → Avoids (y ∷ seen) xs → (contains xs y ≡ false) × Avoids seen xs
  Avoids-uncons y seen [] a = (refl, tt)
  Avoids-uncons y seen (x ∷ xs) a =
      let (h, rest) = Avoids-uncons y seen xs a.1 in
      (ground (arith, a.0), (ground (arith, a.0), rest))

  pub contains-append :
      (xs ys : List A) (a : A) → contains (xs ++ ys) a ≡ (contains xs a || contains ys a)
  contains-append [] ys a = refl
  contains-append (x ∷ xs) ys a = ground (arith, contains-append xs ys a)
