-- ===== src/Worker/Bindings.antt =====
-- src/apps/worker/dispatch.ts: the arguments of a step as the agent takes them.
use workflow_spec.Prelude.{
  ℕ, ltb, String, Bool, true, List, [], ◌∷◌, ◌++◌, map, Option, none, some, ◌==◌, contains,
  string_eq, nat_eq, if◌then◌else◌, any,
}
use workflow_spec.Json.{
  Json, Number, null, bool, num, str, arr, obj, Dict, Property, get_property, own, inherited,
  missing,
}
use workflow_spec.Shared.Errors.{
  fatal, Result, returns, throws, ◌>>=◌, ◌>>◌, worker_invalid_arg_flag_name,
  worker_unsafe_arg_value, worker_invalid_heavy_binding_value,
}
use workflow_spec.Registry.Domain.{
  InvocationDescriptorEntry, InvocationStyle, StateReuse, no_reuse, state_id_keyed, flag,
  positional, stdin,
}
use workflow_spec.Worker.AgentClient.{AgentDataFile}
use workflow_spec.Worker.ArgText.{is_flag_name, starts_with_dash, climbs}

pub record DispatchCapability : Type 0 where
  pub invocation_descriptor : List InvocationDescriptorEntry
  pub state_reuse : StateReuse

abbrev pub params_of : List InvocationDescriptorEntry → List String
params_of entries = map (λ (e : InvocationDescriptorEntry). e.param) entries

abbrev assert_valid_arg_flag_name : String → Result (Unit {0})
assert_valid_arg_flag_name key =
    if is_flag_name key then returns tt else throws (fatal worker_invalid_arg_flag_name)

abbrev assert_safe_arg_value : String → Result (Unit {0})
assert_safe_arg_value value =
    if starts_with_dash value then throws (fatal worker_unsafe_arg_value) else returns tt

-- How JavaScript prints a number and writes any value as JSON.
pub record Printing : Type 0 where
  pub number : Number → String
  pub json : Json → String

unfoldable pub stringify_arg_value : Printing → Json → String
stringify_arg_value printing (str s) = s
stringify_arg_value printing (num n) = printing.number n
stringify_arg_value printing (bool b) = if b then "true" else "false"
stringify_arg_value printing null = printing.json null
stringify_arg_value printing (arr xs) = printing.json (arr xs)
stringify_arg_value printing (obj fs) = printing.json (obj fs)

-- One light argument: its name and its value are checked.
unfoldable pub light_arg : Printing → String → Json → Result (String × String)
unfolding stringify_arg_value
light_arg printing key value = do
  assert_valid_arg_flag_name key
  assert_safe_arg_value (stringify_arg_value printing value)
  returns (key, stringify_arg_value printing value)

-- The keys of an object are distinct, so each assignment adds one.
unfoldable pub translate_args_to_invoke_args :
    Printing → Dict (Option Json) → List InvocationDescriptorEntry → Result (Dict String)
unfolding string_eq
translate_args_to_invoke_args printing [] descriptor = returns []
translate_args_to_invoke_args printing ((key, none) ∷ input) descriptor =
    translate_args_to_invoke_args printing input descriptor
translate_args_to_invoke_args printing ((key, some value) ∷ input) descriptor =
    let rest = translate_args_to_invoke_args printing input descriptor in
    if contains (params_of descriptor) key
    then rest
    else light_arg printing key value >>= λ arg. rest >>= λ args. returns (arg ∷ args)

-- What a heavy binding's value has to be: a path that is safe as an argument and does not climb.
unfoldable pub assert_heavy_binding_is_path : Json → Result String
unfolding string_eq
assert_heavy_binding_is_path (str path) =
    if path == "" then throws (fatal worker_invalid_heavy_binding_value) else (do
      assert_safe_arg_value path
      if climbs path then throws (fatal worker_unsafe_arg_value) else returns path)
assert_heavy_binding_is_path null = throws (fatal worker_invalid_heavy_binding_value)
assert_heavy_binding_is_path (bool b) = throws (fatal worker_invalid_heavy_binding_value)
assert_heavy_binding_is_path (num n) = throws (fatal worker_invalid_heavy_binding_value)
assert_heavy_binding_is_path (arr xs) = throws (fatal worker_invalid_heavy_binding_value)
assert_heavy_binding_is_path (obj fs) = throws (fatal worker_invalid_heavy_binding_value)

abbrev pub state_id_of : StateReuse → Option String → Option String
state_id_of no_reuse content_hash = none
state_id_of state_id_keyed none = none
state_id_of state_id_keyed (some hash) = if hash == "" then none else some hash

-- `dataFiles` and the map `positionalByIndex` of the loop.
pub record Rendering : Type 0 where
  pub data_files : List AgentDataFile
  pub by_index : List (ℕ × String)

abbrev pub has_index : ℕ → List (ℕ × String) → Bool
has_index i = any (λ slot. slot.0 == i)

-- `entry.positionIndex ?? 0`
abbrev pub or_zero : Option ℕ → ℕ
or_zero none = 0
or_zero (some i) = i

abbrev pub index_of : InvocationDescriptorEntry → ℕ
index_of entry = or_zero entry.position_index

abbrev pub with_file : AgentDataFile → Rendering → Rendering
with_file file r = record r { data_files = r.data_files ++ (file ∷ []) }

-- The `switch` of the loop's body.
abbrev pub place_as :
    InvocationStyle
    → InvocationDescriptorEntry
    → Option String
    → String
    → Rendering
    → Result Rendering
place_as flag entry state_id path r = returns (
    with_file
      (record { flag = entry.flag_name; path = path; state_id = state_id; stdin_from_path = none })
      r)
place_as positional entry state_id path r =
    if has_index (index_of entry) r.by_index
    then throws (fatal worker_invalid_heavy_binding_value)
    else returns (record r { by_index = r.by_index ++ ((index_of entry, path) ∷ []) })
place_as stdin entry state_id path r = returns (
    with_file
      (record { flag = none; path = path; state_id = state_id; stdin_from_path = some true }) r)

unfoldable pub place_binding :
    InvocationDescriptorEntry → Option String → String → Rendering → Result Rendering
place_binding entry state_id path r = place_as entry.style entry state_id path r

-- The body of the loop; a param that is missing or undefined is passed over, and an inherited one
-- has no text for its value, so it is refused as a path.
unfoldable pub render_entry :
    InvocationDescriptorEntry
    → Property (Option Json)
    → Option String
    → Rendering
    → Result Rendering
unfolding place_binding assert_heavy_binding_is_path
render_entry entry (own (some value)) state_id r = do
  path ← assert_heavy_binding_is_path value
  place_binding entry state_id path r
render_entry entry (own none) state_id r = returns r
render_entry entry inherited state_id r = throws (fatal worker_invalid_heavy_binding_value)
render_entry entry missing state_id r = returns r

unfoldable pub render_entries :
    List InvocationDescriptorEntry
    → Dict (Option Json)
    → Option String
    → Rendering
    → Result Rendering
unfolding render_entry get_property
render_entries [] input state_id r = returns r
render_entries (e ∷ es) input state_id r = do
  r' ← render_entry e (get_property e.param input) state_id r
  render_entries es input state_id r'

-- `sort(([a], [b]) => a - b)`
unfoldable pub insert_by_index : ℕ × String → List (ℕ × String) → List (ℕ × String)
insert_by_index s [] = s ∷ []
insert_by_index s (t ∷ ts) = if ltb t.0 s.0 then t ∷ insert_by_index s ts else s ∷ t ∷ ts

unfoldable pub sort_by_index : List (ℕ × String) → List (ℕ × String)
unfolding insert_by_index
sort_by_index [] = []
sort_by_index (s ∷ ss) = insert_by_index s (sort_by_index ss)

abbrev pub paths_of : List (ℕ × String) → List String
paths_of slots = map (λ slot. slot.1) slots

pub record RenderedHeavyBindings : Type 0 where
  pub data_files : List AgentDataFile
  pub positional_args : List String

unfoldable pub render_heavy_bindings :
    Dict (Option Json) → DispatchCapability → Option String → Result RenderedHeavyBindings
unfolding render_entries sort_by_index
render_heavy_bindings input capability content_hash = do
  r ←
      render_entries capability.invocation_descriptor input
        (state_id_of capability.state_reuse content_hash)
        (record { data_files = []; by_index = [] })
  returns
      (record { data_files = r.data_files; positional_args = paths_of (sort_by_index r.by_index) })
