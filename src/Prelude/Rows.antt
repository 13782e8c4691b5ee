-- ===== src/Prelude/Rows.antt =====
-- `UPDATE … WHERE` row by row, and what holds of every row.
use mathlib.Core.Path.{◌≡◌, refl, ap}
use mathlib.Core.Bool.{Bool, false, cond, ◌||◌}
use mathlib.Core.List.{List, [], ◌∷◌, ◌++◌, map}
use mathlib.Core.Option
use mathlib.Core.Option.{Option, none, some}
use native.Mathlib.Omega.{arith}
use workflow_spec.Prelude.Lists.{All, first, update_where}

abbrev pub any {ℓ} : {A : Type ℓ} → (A → Bool) → List A → Bool
any p [] = false
any p (x ∷ xs) = p x || any p xs

abbrev pub update_row {ℓ} : {A : Type ℓ} → (A → Bool) → (A → A) → A → A
update_row p f x = cond (p x) (f x) x

module _ {ℓ} {A : Type ℓ} where
  pub update_where-map :
      (p : A → Bool) (f : A → A) (xs : List A) → update_where p f xs ≡ map (update_row p f) xs
  update_where-map p f [] = refl
  update_where-map p f (x ∷ xs) = ap (λ ys. update_row p f x ∷ ys) (update_where-map p f xs)

  pub map_id : (xs : List A) → map (λ x. x) xs ≡ xs
  map_id [] = refl
  map_id (x ∷ xs) = ap (λ ys. x ∷ ys) (map_id xs)

  pub All-append {κ} : (P : A → Type κ) (xs ys : List A) → All P xs → All P ys → All P (xs ++ ys)
  All-append P [] ys hx hy = hy
  All-append P (x ∷ xs) ys hx hy = (hx.0, All-append P xs ys hx.1 hy)

  pub All-split {κ} : (P : A → Type κ) (xs ys : List A) → All P (xs ++ ys) → All P xs × All P ys
  All-split P [] ys h = (tt, h)
  All-split P (x ∷ xs) ys h = let (hx, hy) = All-split P xs ys h.1 in ((h.0, hx), hy)

  pub All-imp {κ μ} :
      (P : A → Type κ) (Q : A → Type μ) (xs : List A) → ((x : A) → P x → Q x) → All P xs → All Q xs
  All-imp P Q [] f h = tt
  All-imp P Q (x ∷ xs) f h = (f x h.0, All-imp P Q xs f h.1)

  pub All-update_where {κ} :
      (P : A → Type κ) (p : A → Bool) (f : A → A) (xs : List A)
      → ((x : A) → P x → P (update_row p f x))
      → All P xs
      → All P (update_where p f xs)
  All-update_where P p f [] keep h = tt
  All-update_where P p f (x ∷ xs) keep h = (keep x h.0, All-update_where P p f xs keep h.1)

  -- An update that does not change what a query selects by changes the row that it finds.
  pub first-update_where :
      (q p : A → Bool) (f : A → A) (xs : List A)
      → ((x : A) → q (update_row p f x) ≡ q x)
      → first q (update_where p f xs) ≡ Option.map (update_row p f) (first q xs)
  first-update_where q p f [] same = refl
  first-update_where q p f (x ∷ xs) same = ground (arith, same x, first-update_where q p f xs same)

module _ {ℓ κ} {A : Type ℓ} {B : Type κ} where
  pub map_nil : (f : A → B) (xs : List A) → map f xs ≡ [] → xs ≡ []
  map_nil f [] h = refl
  map_nil f (x ∷ xs) h = absurd (cc h)

  pub All-map {μ} :
      (P : B → Type μ) (f : A → B) (xs : List A) → ((x : A) → P (f x)) → All P (map f xs)
  All-map P f [] h = tt
  All-map P f (x ∷ xs) h = (h x, All-map P f xs h)

  pub All-map_imp {μ ν} :
      (P : A → Type μ) (Q : B → Type ν) (f : A → B) (xs : List A)
      → ((x : A) → P x → Q (f x))
      → All P xs
      → All Q (map f xs)
  All-map_imp P Q f [] g h = tt
  All-map_imp P Q f (x ∷ xs) g h = (g x h.0, All-map_imp P Q f xs g h.1)
