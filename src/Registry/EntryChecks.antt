-- ===== src/Registry/EntryChecks.antt =====
-- One entry of an invocation descriptor: its checks, and what it reads as.
use workflow_spec.Prelude.{
  ℕ, ◌+◌, ◌≡◌, refl, ap, ◌∙◌, subst, String, false, [], ◌∷◌, ◌++◌, Option, none, some, ◌==◌,
  contains, nat_eq, string_eq, arith, Avoids, append_nil_both,
}
use workflow_spec.Json.{Json, null, bool, num, str, arr, obj}
use workflow_spec.Registry.Domain.{
  InvocationDescriptorEntry, InvocationStyle, flag, positional, stdin,
}
use workflow_spec.Registry.Unknown.{property, text_of, index_number, is_long_flag}
use workflow_spec.Registry.Descriptor.{
  Seen, Turned, style_of, check_param, check_flag_name, check_position_index, check_style,
  check_entry, check_fields,
}
use workflow_spec.Registry.WellFormed.{
  with_param, with_style, read_entry, position_of, is_stdin, IsStyled, IsEntry,
}

-- What the loop has seen behind an entry that it lets pass.
abbrev pub with_param_seen : String → Seen → Seen
with_param_seen param seen = record seen { params = param ∷ seen.params }

abbrev pub with_style_seen : InvocationStyle → Option ℕ → Seen → Seen
with_style_seen style index seen = record seen {
  indexes = position_of style index ++ seen.indexes;
  stdin_entry_count = is_stdin style + seen.stdin_entry_count;
}

abbrev pub seen_behind : InvocationDescriptorEntry → Seen → Seen
seen_behind d seen = with_style_seen d.style d.position_index (with_param_seen d.param seen)

-- It may stand behind what the loop has seen.
abbrev pub MayFollow : Seen → InvocationDescriptorEntry → Type 0
MayFollow seen d =
    IsEntry d
    × (contains seen.params d.param ≡ false)
    × Avoids seen.indexes (position_of d.style d.position_index)

check_param_lem :
    (o : Option String) (seen : Seen)
    → (check_param o seen).0 ≡ []
    → (p : String) × (o ≡ some p)
      × ((p == "") ≡ false)
      × (contains seen.params p ≡ false)
      × ((check_param o seen).1 ≡ with_param_seen p seen)
unfolding check_param
check_param_lem none seen h = absurd (cc h)
check_param_lem (some p) seen h = (p, refl, ground (arith, h), ground (arith, h), ground (arith, h))

check_style_lem :
    (o : Option InvocationStyle) (name : Option String) (index : Option ℕ) (seen : Seen)
    → (check_style o name index seen).0 ≡ []
    → (style : InvocationStyle) × (o ≡ some style)
      × IsStyled style name index
      × Avoids seen.indexes (position_of style index)
      × ((check_style o name index seen).1 ≡ with_style_seen style index seen)
unfolding check_style check_flag_name check_position_index
check_style_lem none name index seen h = absurd (cc h)
check_style_lem (some flag) none index seen h = absurd (cc h)
check_style_lem (some flag) (some name) index seen h =
    (flag, refl, ground (arith, h), tt, ground arith)
check_style_lem (some positional) name none seen h = absurd (cc h)
check_style_lem (some positional) name (some i) seen h =
    (positional, refl, tt, (ground (arith, h), tt), ground (arith, h))
check_style_lem (some stdin) name index seen h = (stdin, refl, tt, tt, ground arith)

no_long_flag : is_long_flag "" ≡ false
unfolding is_long_flag
no_long_flag = refl

param_passes :
    (p : String) (seen : Seen)
    → (p == "") ≡ false
    → contains seen.params p ≡ false
    → check_param (some p) seen ≡ ([], with_param_seen p seen)
unfolding check_param
param_passes p seen filled new = ground (arith, filled, new)

style_passes :
    (style : InvocationStyle) (name : Option String) (index : Option ℕ) (seen : Seen)
    → IsStyled style name index
    → Avoids seen.indexes (position_of style index)
    → check_style (some style) name index seen ≡ ([], with_style_seen style index seen)
unfolding check_style check_flag_name check_position_index
style_passes flag none index seen styled new = absurd styled
style_passes flag (some name) index seen styled new = ground (arith, styled, no_long_flag)
style_passes positional name none seen styled new = absurd styled
style_passes positional name (some i) seen styled new = ground (arith, new.0)
style_passes stdin name index seen styled new = ground arith

abbrev ReadAs : Json → InvocationDescriptorEntry → Type 0
ReadAs j d =
    (text_of (property "param" j) ≡ some d.param)
    × (style_of (property "style" j) ≡ some d.style)
    × (text_of (property "flagName" j) ≡ d.flag_name)
    × (index_number (property "positionIndex" j) ≡ d.position_index)

read_style :
    (j : Json) (d : InvocationDescriptorEntry) (p : String) (o : Option InvocationStyle)
    → text_of (property "param" j) ≡ some p
    → style_of (property "style" j) ≡ o
    → with_style j p o ≡ some d
    → ReadAs j d
read_style j d p none is_p is_s h = absurd (cc h)
read_style j d p (some s) is_p is_s h = (cc (is_p, h), cc (is_s, h), cc h, cc h)

read_param :
    (j : Json) (d : InvocationDescriptorEntry) (o : Option String)
    → text_of (property "param" j) ≡ o
    → with_param j o ≡ some d
    → ReadAs j d
read_param j d none is h = absurd (cc h)
read_param j d (some p) is h = read_style j d p (style_of (property "style" j)) is refl h

fields_pass :
    (d : InvocationDescriptorEntry) (seen : Seen)
    → MayFollow seen d
    → check_fields (some d.param) (some d.style) d.flag_name d.position_index seen
      ≡ ([], seen_behind d seen)
unfolding check_fields
fields_pass d seen ((filled, styled), new, free) =
    let style : Seen → Turned = check_style (some d.style) d.flag_name d.position_index in
    ap (λ (t : Turned). (t.0 ++ (style t.1).0, (style t.1).1))
      (param_passes d.param seen filled new)
    ∙ ap (λ (t : Turned). ([] ++ t.0, t.1))
        (style_passes d.style d.flag_name d.position_index (with_param_seen d.param seen) styled
          free)

pub read_entry-style :
    (j : Json) (d : InvocationDescriptorEntry)
    → read_entry j ≡ some d
    → style_of (property "style" j) ≡ some d.style
unfolding read_entry
read_entry-style j d reads = (read_param j d (text_of (property "param" j)) refl reads).1

pub check_entry-passes :
    (j : Json) (d : InvocationDescriptorEntry) (seen : Seen)
    → read_entry j ≡ some d
    → MayFollow seen d
    → check_entry j seen ≡ ([], seen_behind d seen)
unfolding check_entry read_entry
check_entry-passes (obj fs) d seen reads may =
    let (is_p, is_s, is_name, is_index) =
      read_param (obj fs) d (text_of (property "param" (obj fs))) refl reads in
    cc (is_p, is_s, is_name, is_index, fields_pass d seen may)
check_entry-passes null d seen reads may = absurd (cc reads)
check_entry-passes (bool b) d seen reads may = absurd (cc reads)
check_entry-passes (num n) d seen reads may = absurd (cc reads)
check_entry-passes (str s) d seen reads may = absurd (cc reads)
check_entry-passes (arr xs) d seen reads may = absurd (cc reads)

pub check_entry_lem :
    (j : Json) (seen : Seen)
    → (check_entry j seen).0 ≡ []
    → (d : InvocationDescriptorEntry) × (read_entry j ≡ some d)
      × MayFollow seen d
      × ((check_entry j seen).1 ≡ seen_behind d seen)
unfolding check_entry read_entry check_fields
check_entry_lem (obj fs) seen h =
    let param = text_of (property "param" (obj fs)) in
    let name = text_of (property "flagName" (obj fs)) in
    let index = index_number (property "positionIndex" (obj fs)) in
    let style = style_of (property "style" (obj fs)) in
    let (param_ok, style_ok) =
      append_nil_both (check_param param seen).0
        (check_style style name index (check_param param seen).1).0 h in
    let (p, is_p, filled, new, seen1) = check_param_lem param seen param_ok in
    let (s, is_s, styled, free, seen2) =
      check_style_lem style name index (check_param param seen).1 style_ok in
    (
      record { param = p; style = s; flag_name = name; position_index = index },
      ap (with_param (obj fs)) is_p ∙ ap (with_style (obj fs) p) is_s,
      ((filled, styled), new, subst (λ x. Avoids x.indexes (position_of s index)) seen1 free),
      seen2 ∙ ap (with_style_seen s index) seen1,
    )
check_entry_lem null seen h = absurd (cc h)
check_entry_lem (bool b) seen h = absurd (cc h)
check_entry_lem (num n) seen h = absurd (cc h)
check_entry_lem (str s) seen h = absurd (cc h)
check_entry_lem (arr xs) seen h = absurd (cc h)
