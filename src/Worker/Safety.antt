-- ===== src/Worker/Safety.antt =====
-- What a request that is built for an agent may hold.
use workflow_spec.Prelude.{
  ℕ, ◌≡◌, refl, String, true, false, List, [], ◌∷◌, ◌++◌, Option, none, some, arith, ◌==◌, contains,
  string_eq, nat_eq, All, All-append, Bool-cases, inl, inr, subst,
}
use workflow_spec.Json.{
  Json, null, bool, num, str, arr, obj, Dict, Property, get_property, own, inherited, missing,
}
use workflow_spec.Shared.Errors.{returns, ◌>>=◌, >>=-returns, returns_inj}
use workflow_spec.Registry.Domain.{
  InvocationDescriptorEntry, InvocationStyle, flag, positional, stdin,
}
use workflow_spec.Worker.AgentClient.{AgentDataFile}
use workflow_spec.Worker.ArgText.{is_flag_name, starts_with_dash, climbs}
use workflow_spec.Worker.Bindings.{
  Printing, params_of, light_arg, translate_args_to_invoke_args, assert_heavy_binding_is_path,
  Rendering, with_file, place_as, index_of, place_binding, render_entry, render_entries,
}

-- A light argument: a flag's name, and a value that is no flag; no heavy parameter's.
abbrev pub IsSafeArg : List InvocationDescriptorEntry → String × String → Type 0
IsSafeArg descriptor arg =
    (is_flag_name arg.0 ≡ true)
    × (starts_with_dash arg.1 ≡ false)
    × (contains (params_of descriptor) arg.0 ≡ false)

-- A path that is not empty, is no flag and has no segment "..".
abbrev pub IsSafePath : String → Type 0
IsSafePath path = ((path == "") ≡ false) × (starts_with_dash path ≡ false) × (climbs path ≡ false)

abbrev pub IsSafeFile : Option String → AgentDataFile → Type 0
IsSafeFile state_id file = IsSafePath file.path × (file.state_id ≡ state_id)

abbrev pub IsSafeSlot : ℕ × String → Type 0
IsSafeSlot slot = IsSafePath slot.1

module _ (printing : Printing) (descriptor : List InvocationDescriptorEntry) where
  light_arg_safe :
      (key : String) (value : Json) (arg : String × String)
      → contains (params_of descriptor) key ≡ false
      → light_arg printing key value ≡ returns arg
      → IsSafeArg descriptor arg
  unfolding light_arg
  light_arg_safe key value arg light h = ground arith

  pub translate_args-IsSafeArg :
      (input : Dict (Option Json)) (args : Dict String)
      → translate_args_to_invoke_args printing input descriptor ≡ returns args
      → All (IsSafeArg descriptor) args
  unfolding translate_args_to_invoke_args
  translate_args-IsSafeArg [] args h = subst (All (IsSafeArg descriptor)) (returns_inj h) tt
  translate_args-IsSafeArg ((key, none) ∷ input) args h = translate_args-IsSafeArg input args h
  translate_args-IsSafeArg ((key, some value) ∷ input) args h =
      elim (Bool-cases (contains (params_of descriptor) key)) [
        | inl heavy ↦ translate_args-IsSafeArg input args (ground (arith, h, heavy))
        | inr light ↦
            let rest = translate_args_to_invoke_args printing input descriptor in
            let (arg, checked, bound) =
              >>=-returns (light_arg printing key value)
                (λ arg. rest >>= λ args. returns (arg ∷ args)) args (ground (arith, h, light)) in
            let (others, translated, is) =
              >>=-returns rest (λ args. returns (arg ∷ args)) args bound in
            subst (All (IsSafeArg descriptor)) (returns_inj is) (
              light_arg_safe key value arg light checked,
              translate_args-IsSafeArg input others translated,
            )
      ]

assert_heavy-IsSafePath :
    (value : Json) (path : String)
    → assert_heavy_binding_is_path value ≡ returns path
    → IsSafePath path
unfolding assert_heavy_binding_is_path
assert_heavy-IsSafePath (str s) path h = ground arith
assert_heavy-IsSafePath null path h = absurd (cc h)
assert_heavy-IsSafePath (bool b) path h = absurd (cc h)
assert_heavy-IsSafePath (num n) path h = absurd (cc h)
assert_heavy-IsSafePath (arr xs) path h = absurd (cc h)
assert_heavy-IsSafePath (obj fs) path h = absurd (cc h)

-- What the loop over the descriptor has collected is safe.
abbrev pub IsSafe : Option String → Rendering → Type 0
IsSafe state_id r = All (IsSafeFile state_id) r.data_files × All IsSafeSlot r.by_index

module _ (state_id : Option String) where
  with_file-IsSafe :
      (file : AgentDataFile) (r r' : Rendering)
      → IsSafeFile state_id file
      → IsSafe state_id r
      → (with_file file r) ≡ r'
      → IsSafe state_id r'
  with_file-IsSafe file r r' safe (files, slots) is =
      subst (IsSafe state_id) is
        (All-append (IsSafeFile state_id) r.data_files (file ∷ []) files (safe, tt), slots)

  place_as-IsSafe :
      (style : InvocationStyle) (entry : InvocationDescriptorEntry) (path : String)
      (r r' : Rendering)
      → IsSafePath path
      → IsSafe state_id r
      → place_as style entry state_id path r ≡ returns r'
      → IsSafe state_id r'
  place_as-IsSafe flag entry path r r' safe all h =
      with_file-IsSafe _ r r' (safe, refl) all (returns_inj h)
  place_as-IsSafe stdin entry path r r' safe all h =
      with_file-IsSafe _ r r' (safe, refl) all (returns_inj h)
  place_as-IsSafe positional entry path r r' safe (files, slots) h =
      let placed : record r { by_index = r.by_index ++ ((index_of entry, path) ∷ []) } ≡ r' =
        ground (arith, h) in
      subst (IsSafe state_id) placed
        (files, All-append IsSafeSlot r.by_index ((index_of entry, path) ∷ []) slots (safe, tt))

  render_entry-IsSafe :
      (entry : InvocationDescriptorEntry) (value : Property (Option Json)) (r r' : Rendering)
      → IsSafe state_id r
      → render_entry entry value state_id r ≡ returns r'
      → IsSafe state_id r'
  unfolding render_entry place_binding
  render_entry-IsSafe entry missing r r' safe h = subst (IsSafe state_id) (returns_inj h) safe
  render_entry-IsSafe entry inherited r r' safe h = absurd (cc h)
  render_entry-IsSafe entry (own none) r r' safe h = subst (IsSafe state_id) (returns_inj h) safe
  render_entry-IsSafe entry (own (some value)) r r' safe h =
      let (path, is, placed) =
        >>=-returns (assert_heavy_binding_is_path value)
          (λ path. place_binding entry state_id path r) r' h in
      place_as-IsSafe entry.style entry path r r' (assert_heavy-IsSafePath value path is) safe
        placed

  pub render_entries-IsSafe :
      (es : List InvocationDescriptorEntry) (input : Dict (Option Json)) (r r' : Rendering)
      → IsSafe state_id r
      → render_entries es input state_id r ≡ returns r'
      → IsSafe state_id r'
  unfolding render_entries
  render_entries-IsSafe [] input r r' safe h = subst (IsSafe state_id) (returns_inj h) safe
  render_entries-IsSafe (e ∷ es) input r r' safe h =
      let (r1, is, rest) =
        >>=-returns (render_entry e (get_property e.param input) state_id r)
          (λ r1. render_entries es input state_id r1) r' h in
      render_entries-IsSafe es input r1 r'
        (render_entry-IsSafe e (get_property e.param input) r r1 safe is) rest
