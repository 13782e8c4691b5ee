-- ===== src/Registry/ReuseLaws.antt =====
-- What reuse of state asks of a descriptor.
use workflow_spec.Prelude.{
  ℕ, ◌≡◌, refl, ap, ◌∙◌, sym, false, List, [], ◌∷◌, ◌++◌, Option, none, some, arith, string_eq,
  append_nil_both,
}
use workflow_spec.Json.{Json, null, bool, num, str, arr, obj, items}
use workflow_spec.Registry.Domain.{
  InvocationDescriptorEntry, StateReuse, no_reuse, state_id_keyed, InvocationStyle, flag, stdin,
  positional,
}
use workflow_spec.Registry.Unknown.{property}
use workflow_spec.Registry.Descriptor.{style_of}
use workflow_spec.Registry.WellFormed.{position_of, Reads, positions}
use workflow_spec.Registry.DescriptorLaws.{Describes}
use workflow_spec.Registry.EntryChecks.{read_entry-style}
use workflow_spec.Registry.Capability.{
  is_positional, is_keyed, reuse_faults, positional_entries, no_entry_faults, positional_faults,
}

-- Of reuse by state ids: some entry, and none that is positional.
abbrev pub IsReuse : StateReuse → List InvocationDescriptorEntry → Type 0
IsReuse no_reuse ds = Unit
IsReuse state_id_keyed [] = ⊥
IsReuse state_id_keyed (d ∷ ds) = positions (d ∷ ds) ≡ []

not_positional :
    (style : InvocationStyle) (index : Option ℕ)
    → is_positional (some style) ≡ false
    → position_of style index ≡ []
not_positional flag index h = refl
not_positional stdin index h = refl
not_positional positional index h = absurd (cc h)

positional_none : (js : List Json) → positional_faults js ≡ [] → js ≡ []
positional_none [] h = refl
positional_none (j ∷ js) h = absurd (cc h)

no_positions :
    (js : List Json) (ds : List InvocationDescriptorEntry)
    → Reads js ds
    → positional_entries js ≡ []
    → positions ds ≡ []
no_positions [] [] reads h = refl
no_positions [] (d ∷ ds) reads h = absurd reads
no_positions (j ∷ js) [] reads h = absurd reads
no_positions (j ∷ js) (d ∷ ds) reads h =
    let style = read_entry-style j d reads.0 in
    let off : is_positional (style_of (property "style" j)) ≡ false = ground (arith, h) in
    let rest : positional_entries js ≡ [] = ground (arith, h) in
    ap (λ is. is ++ positions ds)
      (not_positional d.style d.position_index (ap is_positional (sym style) ∙ off))
    ∙ no_positions js ds reads.1 rest

keyed-IsReuse :
    (js : List Json) (ds : List InvocationDescriptorEntry)
    → Reads js ds
    → no_entry_faults js ≡ []
    → positional_entries js ≡ []
    → IsReuse state_id_keyed ds
keyed-IsReuse [] ds reads filled none_positional = absurd (cc filled)
keyed-IsReuse (j ∷ js) [] reads filled none_positional = absurd reads
keyed-IsReuse (j ∷ js) (d ∷ ds) reads filled none_positional =
    no_positions (j ∷ js) (d ∷ ds) reads none_positional

pub reuse_lem :
    (reuse : StateReuse) (v : Option Json) (ds : List InvocationDescriptorEntry)
    → Describes v ds
    → reuse_faults (is_keyed (some reuse)) v ≡ []
    → IsReuse reuse ds
unfolding items
reuse_lem no_reuse v ds reads h = tt
reuse_lem state_id_keyed (some (arr xs)) ds reads h =
    let (filled, rest) = append_nil_both (no_entry_faults (items xs)) _ h in
    keyed-IsReuse (items xs) ds reads filled (positional_none (positional_entries (items xs)) rest)
reuse_lem state_id_keyed none ds never h = absurd never
reuse_lem state_id_keyed (some null) ds never h = absurd never
reuse_lem state_id_keyed (some (bool b)) ds never h = absurd never
reuse_lem state_id_keyed (some (num n)) ds never h = absurd never
reuse_lem state_id_keyed (some (str s)) ds never h = absurd never
reuse_lem state_id_keyed (some (obj fs)) ds never h = absurd never
