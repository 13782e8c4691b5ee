-- ===== src/Prelude/Options.antt =====
-- Chains of optional values.
use mathlib.Core.Path.{◌≡◌, refl}
use mathlib.Core.Option.{Option, none, some}

module _ {ℓ κ} {A : Type ℓ} {B : Type κ} where
  infixl 5 ◌>>=◌
  abbrev pub ◌>>=◌ : Option A → (A → Option B) → Option B
  none >>= f = none
  some a >>= f = f a

  pub >>=-some :
      (m : Option A) (f : A → Option B) (b : B)
      → (m >>= f) ≡ some b
      → (a : A) × (m ≡ some a) × (f a ≡ some b)
  >>=-some (some a) f b h = (a, refl, h)
  >>=-some none f b h = absurd (cc h)
