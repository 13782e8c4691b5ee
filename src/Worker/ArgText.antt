-- ===== src/Worker/ArgText.antt =====
-- The tests on texts in src/apps/worker/dispatch.ts and constants.ts.
use Prim.Native.Char.{Char, code}
use workflow_spec.Prelude.{
  ℕ, String, Bool, true, false, ◌&&◌, ◌||◌, List, [], ◌∷◌, leb, ◌==◌, nat_eq, string_eq, contains,
  if◌then◌else◌,
}

abbrev pub is_letter : ℕ → Bool
is_letter c = (leb b'a' c && leb c b'z') || (leb b'A' c && leb c b'Z')

abbrev pub is_flag_char : ℕ → Bool
is_flag_char c = is_letter c || (leb b'0' c && leb c b'9') || c == b'-'

abbrev pub every_char : (ℕ → Bool) → String → Bool
every_char p String.[] = true
every_char p (String.◌∷◌ c s) = p (code c) && every_char p s

-- AGENT_ARG_FLAG_NAME_PATTERN: ^[a-zA-Z][a-zA-Z0-9-]*$
unfoldable pub is_flag_name : String → Bool
is_flag_name String.[] = false
is_flag_name (String.◌∷◌ c s) = is_letter (code c) && every_char is_flag_char s

-- `value.startsWith("-")`
unfoldable pub starts_with_dash : String → Bool
starts_with_dash String.[] = false
starts_with_dash (String.◌∷◌ c s) = code c == b'-'

-- `value.split(/[/\\]/)`
abbrev pub is_separator : Char → Bool
is_separator c = code c == b'/' || code c == b'\\'

abbrev pub onto_first : Char → List String → List String
onto_first c [] = String.◌∷◌ c String.[] ∷ []
onto_first c (s ∷ ss) = String.◌∷◌ c s ∷ ss

unfoldable pub segments : String → List String
segments String.[] = String.[] ∷ []
segments (String.◌∷◌ c s) =
    let rest = segments s in if is_separator c then String.[] ∷ rest else onto_first c rest

unfoldable pub climbs : String → Bool
unfolding segments string_eq
climbs value = contains (segments value) ".."
