-- ===== src/Worker/Passing.antt =====
-- When the values of the resolved input pass as arguments.
use workflow_spec.Prelude.{
  ◌≡◌, refl, String, Bool, true, not, ◌&&◌, ◌||◌, List, [], ◌∷◌, Option, none, some, contains,
  nat_eq, string_eq, arith, All, Bool-cases, inl, inr,
}
use workflow_spec.Json.{
  Json, null, bool, num, str, arr, obj, Dict, Property, own, inherited, missing,
}
use workflow_spec.Shared.Errors.{returns, >>=-returns, ◌>>=◌}
use workflow_spec.Registry.Domain.{InvocationDescriptorEntry}
use workflow_spec.Worker.ArgText.{is_flag_name, starts_with_dash}
use workflow_spec.Worker.Bindings.{
  Printing, params_of, stringify_arg_value, light_arg, translate_args_to_invoke_args,
  assert_heavy_binding_is_path,
}
use workflow_spec.Worker.Safety.{IsSafePath}

-- What reading the input finds for a heavy parameter, if it is defined, is the text of a safe path:
-- a property that the input inherits never is.
abbrev pub IsHeavy : Property (Option Json) → Type 0
IsHeavy (own (some (str path))) = IsSafePath path
IsHeavy (own (some v)) = ⊥
IsHeavy (own none) = Unit
IsHeavy inherited = ⊥
IsHeavy missing = Unit

-- A value of another parameter is named like a flag and is no flag itself.
abbrev pub may_pass : Printing → List InvocationDescriptorEntry → String × Option Json → Bool
may_pass printing descriptor (key, none) = true
may_pass printing descriptor (key, some value) =
    contains (params_of descriptor) key
    || (is_flag_name key && not (starts_with_dash (stringify_arg_value printing value)))

module _ (printing : Printing) (descriptor : List InvocationDescriptorEntry) where
  light_arg_passes :
      (key : String) (value : Json)
      → (is_flag_name key && not (starts_with_dash (stringify_arg_value printing value))) ≡ true
      → light_arg printing key value ≡ returns (key, stringify_arg_value printing value)
  unfolding light_arg
  light_arg_passes key value h = ground (arith, h)

  pub translate_args-passes :
      (input : Dict (Option Json))
      → All (λ given. may_pass printing descriptor given ≡ true) input
      → (args : Dict String) × (translate_args_to_invoke_args printing input descriptor
          ≡ returns args)
  unfolding translate_args_to_invoke_args
  translate_args-passes [] all = ([], refl)
  translate_args-passes ((key, none) ∷ input) all = translate_args-passes input all.1
  translate_args-passes ((key, some value) ∷ input) all =
      let (args, is) = translate_args-passes input all.1 in
      elim (Bool-cases (contains (params_of descriptor) key)) [
        | inl heavy ↦ (args, ground (arith, heavy, is))
        | inr light ↦
            let passes = light_arg_passes key value (ground (arith, all.0, light)) in
            ((key, stringify_arg_value printing value) ∷ args, ground (arith, light, is, passes))
      ]

  pub passes-translate_args :
      (input : Dict (Option Json)) (args : Dict String)
      → translate_args_to_invoke_args printing input descriptor ≡ returns args
      → All (λ given. may_pass printing descriptor given ≡ true) input
  unfolding translate_args_to_invoke_args light_arg
  passes-translate_args [] args h = tt
  passes-translate_args ((key, none) ∷ input) args h = (refl, passes-translate_args input args h)
  passes-translate_args ((key, some value) ∷ input) args h =
      elim (Bool-cases (contains (params_of descriptor) key)) [
        | inl heavy ↦
            (ground (arith, heavy), passes-translate_args input args (ground (arith, h, heavy)))
        | inr light ↦
            let rest = translate_args_to_invoke_args printing input descriptor in
            let (arg, checked, bound) =
              >>=-returns (light_arg printing key value)
                (λ arg. rest >>= λ args. returns (arg ∷ args)) args (ground (arith, h, light)) in
            let (others, translated, is) =
              >>=-returns rest (λ args. returns (arg ∷ args)) args bound in
            (ground (arith, light, checked), passes-translate_args input others translated)
      ]

pub heavy_passes :
    (path : String) → IsSafePath path → assert_heavy_binding_is_path (str path) ≡ returns path
unfolding assert_heavy_binding_is_path
heavy_passes path safe = ground (arith, safe.0, safe.1, safe.2)

pub passes-IsHeavy :
    (v : Json) (path : String)
    → assert_heavy_binding_is_path v ≡ returns path
    → IsHeavy (own (some v))
unfolding assert_heavy_binding_is_path
passes-IsHeavy (str s) path h = ground (arith, h)
passes-IsHeavy null path h = absurd (cc h)
passes-IsHeavy (bool b) path h = absurd (cc h)
passes-IsHeavy (num n) path h = absurd (cc h)
passes-IsHeavy (arr xs) path h = absurd (cc h)
passes-IsHeavy (obj fs) path h = absurd (cc h)
