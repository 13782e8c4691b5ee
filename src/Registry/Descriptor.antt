-- ===== src/Registry/Descriptor.antt =====
-- `validateInvocationDescriptor` in src/registry/validate.ts
use workflow_spec.Prelude.{
  ℕ, suc, String, List, [], ◌∷◌, ◌++◌, Option, none, some, ltb, ◌==◌, contains, nat_eq, string_eq,
  if◌then◌else◌,
}
use workflow_spec.Json.{Json, str, arr, obj, items}
use workflow_spec.Registry.Domain.{InvocationStyle, flag, positional, stdin}
use workflow_spec.Registry.Unknown.{property, text_of, index_number, is_long_flag}

-- The messages, by what each complains about.
pub data DescriptorFault : Type 0 where
  not_an_array entry_not_an_object invalid_param : DescriptorFault
  duplicate_param : String → DescriptorFault
  invalid_style flag_name_missing flag_name_malformed invalid_position_index : DescriptorFault
  duplicate_position_index : ℕ → DescriptorFault
  too_many_stdin : ℕ → DescriptorFault

unfoldable pub style_of : Option Json → Option InvocationStyle
unfolding string_eq
style_of (some (str s)) =
    if s == "flag"
    then some flag
    else if s == "positional"
    then some positional
    else if s == "stdin"
    then some stdin
    else none
style_of _ = none

-- `seenParams`, `seenPositionIndexes` and `stdinEntryCount`
pub record Seen : Type 0 where
  pub params : List String
  pub indexes : List ℕ
  pub stdin_entry_count : ℕ

-- What one turn of the loop pushes, and what it has seen.
abbrev pub Turned : Type 0
Turned = List DescriptorFault × Seen

unfoldable pub check_param : Option String → Seen → Turned
check_param none seen = (invalid_param ∷ [], seen)
check_param (some param) seen =
    if param == ""
    then (invalid_param ∷ [], seen)
    else if contains seen.params param
    then (duplicate_param param ∷ [], seen)
    else ([], record seen { params = param ∷ seen.params })

unfoldable pub check_flag_name : Option String → List DescriptorFault
check_flag_name none = flag_name_missing ∷ []
check_flag_name (some name) =
    if name == ""
    then flag_name_missing ∷ []
    else if is_long_flag name
    then []
    else flag_name_malformed ∷ []

unfoldable pub check_position_index : Option ℕ → Seen → Turned
check_position_index none seen = (invalid_position_index ∷ [], seen)
check_position_index (some i) seen =
    if contains seen.indexes i
    then (duplicate_position_index i ∷ [], seen)
    else ([], record seen { indexes = i ∷ seen.indexes })

unfoldable pub check_style : Option InvocationStyle → Option String → Option ℕ → Seen → Turned
unfolding check_flag_name check_position_index
check_style none name index seen = (invalid_style ∷ [], seen)
check_style (some flag) name index seen = (check_flag_name name, seen)
check_style (some positional) name index seen = check_position_index index seen
check_style (some stdin) name index seen =
    ([], record seen { stdin_entry_count = suc seen.stdin_entry_count })

unfoldable pub check_fields :
    Option String → Option InvocationStyle → Option String → Option ℕ → Seen → Turned
unfolding check_param check_style
check_fields param style flag_name position_index seen =
    let of_param = check_param param seen in
    let of_style = check_style style flag_name position_index of_param.1 in
    (of_param.0 ++ of_style.0, of_style.1)

-- The body of the loop.
unfoldable pub check_entry : Json → Seen → Turned
unfolding check_fields style_of property
check_entry (obj fs) seen =
    let entry = obj fs in
    check_fields (text_of (property "param" entry)) (style_of (property "style" entry))
      (text_of (property "flagName" entry)) (index_number (property "positionIndex" entry)) seen
check_entry _ seen = (entry_not_an_object ∷ [], seen)

unfoldable pub check_entries : List Json → Seen → Turned
unfolding check_entry
check_entries [] seen = ([], seen)
check_entries (entry ∷ es) seen =
    let turned = check_entry entry seen in
    let rest = check_entries es turned.1 in (turned.0 ++ rest.0, rest.1)

abbrev pub check_stdin_count : ℕ → List DescriptorFault
check_stdin_count n = if ltb 1 n then too_many_stdin n ∷ [] else []

abbrev checked : Turned → List DescriptorFault
checked (faults, seen) = faults ++ check_stdin_count seen.stdin_entry_count

abbrev pub nothing_seen : Seen
nothing_seen = record { params = []; indexes = []; stdin_entry_count = 0 }

unfoldable pub validate_invocation_descriptor : Option Json → List DescriptorFault
unfolding check_entries items
validate_invocation_descriptor (some (arr xs)) = checked (check_entries (items xs) nothing_seen)
validate_invocation_descriptor _ = not_an_array ∷ []
