-- ===== src/Registry/Unknown.antt =====
-- How src/registry/validate.ts looks at a value that it knows nothing of. `undefined` is `none`.
use Prim.Native.Char.{code}
use workflow_spec.Prelude.{
  ℕ, pos, String, Bool, true, false, ◌&&◌, List, [], Option, none, some, ◌==◌, nat_eq,
}
use workflow_spec.Json.{Json, int, bool, num, str, arr, obj, lookup, entries, items, values}
use workflow_spec.Worker.ArgText.{is_flag_name}

-- `!v || typeof v !== "object"` is not so: an object, or an array.
abbrev pub is_object_or_array : Option Json → Bool
is_object_or_array (some (obj fs)) = true
is_object_or_array (some (arr xs)) = true
is_object_or_array _ = false

-- `typeof v === "object" && !Array.isArray(v)`, of what is not null
abbrev pub is_object : Option Json → Bool
is_object (some (obj fs)) = true
is_object _ = false

abbrev pub is_boolean : Option Json → Bool
is_boolean (some (bool b)) = true
is_boolean _ = false

-- The property of an object or an array, by a name that is no index.
unfoldable pub property : String → Json → Option Json
unfolding entries lookup
property k (obj fs) = lookup k (entries fs)
property k _ = none

-- `Object.values`
unfoldable pub object_values : Json → List Json
unfolding entries items
object_values (obj fs) = values (entries fs)
object_values (arr xs) = items xs
object_values _ = []

abbrev pub text_of : Option Json → Option String
text_of (some (str s)) = some s
text_of _ = none

-- `typeof v === "number" && Number.isInteger(v) && v >= 0`
abbrev pub index_number : Option Json → Option ℕ
index_number (some (num (int (pos n)))) = some n
index_number _ = none

-- INVOCATION_FLAG_NAME_PATTERN: ^--[a-zA-Z][a-zA-Z0-9-]*$
abbrev behind_dash : String → Bool
behind_dash String.[] = false
behind_dash (String.◌∷◌ c s) = code c == b'-' && is_flag_name s

unfoldable pub is_long_flag : String → Bool
is_long_flag String.[] = false
is_long_flag (String.◌∷◌ c s) = code c == b'-' && behind_dash s
