-- ===== src/Registry/WellFormed.antt =====
-- What a valid invocation descriptor says.
use workflow_spec.Prelude.{
  ℕ, ◌+◌, ◌≡◌, String, true, false, List, [], ◌∷◌, ◌++◌, map, Option, none, some, ◌==◌, nat_eq,
  string_eq, All, Distinct, leb,
}
use workflow_spec.Json.{Json}
use workflow_spec.Registry.Domain.{
  InvocationDescriptorEntry, InvocationStyle, flag, positional, stdin,
}
use workflow_spec.Registry.Unknown.{property, text_of, index_number, is_long_flag}
use workflow_spec.Registry.Descriptor.{style_of}

-- The entry that a value stands for, as a reader of the stored descriptor has it.
abbrev pub with_style : Json → String → Option InvocationStyle → Option InvocationDescriptorEntry
with_style entry param none = none
with_style entry param (some style) = some (record {
  param = param;
  style = style;
  flag_name = text_of (property "flagName" entry);
  position_index = index_number (property "positionIndex" entry);
})

abbrev pub with_param : Json → Option String → Option InvocationDescriptorEntry
with_param entry none = none
with_param entry (some param) = with_style entry param (style_of (property "style" entry))

unfoldable pub read_entry : Json → Option InvocationDescriptorEntry
unfolding style_of property
read_entry entry = with_param entry (text_of (property "param" entry))

abbrev pub Reads : List Json → List InvocationDescriptorEntry → Type 0
Reads [] [] = Unit
Reads (j ∷ js) (d ∷ ds) = (read_entry j ≡ some d) × Reads js ds
Reads _ _ = ⊥

abbrev pub params_of : List InvocationDescriptorEntry → List String
params_of ds = map (λ (d : InvocationDescriptorEntry). d.param) ds

abbrev pub position_of : InvocationStyle → Option ℕ → List ℕ
position_of positional (some i) = i ∷ []
position_of _ _ = []

-- The slots of the positional entries.
abbrev pub positions : List InvocationDescriptorEntry → List ℕ
positions [] = []
positions (d ∷ ds) = position_of d.style d.position_index ++ positions ds

abbrev pub is_stdin : InvocationStyle → ℕ
is_stdin stdin = 1
is_stdin _ = 0

abbrev pub stdin_count : List InvocationDescriptorEntry → ℕ
stdin_count [] = 0
stdin_count (d ∷ ds) = is_stdin d.style + stdin_count ds

-- What the entry's style asks for is there.
abbrev pub IsStyled : InvocationStyle → Option String → Option ℕ → Type 0
IsStyled flag none index = ⊥
IsStyled flag (some name) index = is_long_flag name ≡ true
IsStyled positional name none = ⊥
IsStyled positional name (some i) = Unit
IsStyled stdin name index = Unit

abbrev pub IsEntry : InvocationDescriptorEntry → Type 0
IsEntry d = ((d.param == "") ≡ false) × IsStyled d.style d.flag_name d.position_index

pub record IsWellFormed (ds : List InvocationDescriptorEntry) : Type 0 where
  pub entries : All IsEntry ds
  pub distinct_params : Distinct (params_of ds)
  pub distinct_positions : Distinct (positions ds)
  pub one_stdin : leb (stdin_count ds) 1 ≡ true
