-- ===== src/Registry/CapabilityLaws.antt =====
-- What passes the validation of one function's capability metadata.
use workflow_spec.Registry.ReuseLaws.{IsReuse, reuse_lem}
use workflow_spec.Prelude.{
  map_nil, ◌≡◌, refl, subst, Bool, false, not, ◌&&◌, List, [], ◌∷◌, Option, none, some, arith,
  string_eq, append_nil_both,
}
use workflow_spec.Json.{Json, null, bool, num, str, arr, obj, items}
use workflow_spec.Registry.Domain.{
  InvocationDescriptorEntry, FunctionCapabilityInput, NestingDeclaration,
}
use workflow_spec.Registry.Unknown.{property}
use workflow_spec.Registry.WellFormed.{Reads, IsWellFormed}
use workflow_spec.Registry.DescriptorLaws.{Describes, valid-Describes}
use workflow_spec.Registry.Capability.{
  CapabilityFault, unless, is_some, boolean_of, cost_class_of, transport_of, state_reuse_of,
  targets_of, validate_nesting_declaration, additive_faults, is_keyed, reuse_faults, field_faults,
  validate_capability, of_descriptor,
}
use workflow_spec.Registry.ReadCapability.{
  read_nesting, read_entries, read_descriptor, read_capability,
}

unless-is_some :
    {A : Type 0} (o : Option A) (fault : CapabilityFault)
    → unless (is_some o) fault ≡ []
    → (a : A) × (o ≡ some a)
unless-is_some none fault h = absurd (cc h)
unless-is_some (some a) fault h = (a, refl)

nesting_reads :
    (v : Option Json)
    → validate_nesting_declaration v ≡ []
    → (n : Option NestingDeclaration) × (read_nesting v ≡ some n)
unfolding validate_nesting_declaration read_nesting
nesting_reads none h = (none, refl)
nesting_reads (some null) h = (none, refl)
nesting_reads (some (obj fs)) h =
    let (via_ok, targets_ok) = append_nil_both _ _ h in
    let (via, is_via) = unless-is_some (transport_of (property "via" (obj fs))) _ via_ok in
    let (targets, are) = unless-is_some (targets_of (property "targets" (obj fs))) _ targets_ok in
    (some (record { via = via; targets = targets }), ground (arith, is_via, are))
nesting_reads (some (bool b)) h = absurd (cc h)
nesting_reads (some (num n)) h = absurd (cc h)
nesting_reads (some (str s)) h = absurd (cc h)
nesting_reads (some (arr xs)) h = absurd (cc h)

entries_read :
    (js : List Json) (ds : List InvocationDescriptorEntry) → Reads js ds → read_entries js ≡ some ds
unfolding read_entries
entries_read [] [] reads = refl
entries_read [] (d ∷ ds) reads = absurd reads
entries_read (j ∷ js) [] reads = absurd reads
entries_read (j ∷ js) (d ∷ ds) reads = ground (arith, reads.0, entries_read js ds reads.1)

descriptor_reads :
    (v : Option Json) (ds : List InvocationDescriptorEntry)
    → Describes v ds
    → read_descriptor v ≡ some ds
unfolding read_descriptor
descriptor_reads (some (arr xs)) ds reads = entries_read (items xs) ds reads
descriptor_reads none ds never = absurd never
descriptor_reads (some null) ds never = absurd never
descriptor_reads (some (bool b)) ds never = absurd never
descriptor_reads (some (num n)) ds never = absurd never
descriptor_reads (some (str s)) ds never = absurd never
descriptor_reads (some (obj fs)) ds never = absurd never

-- What the platform relies on in a function's capability.
pub record IsCapability (c : FunctionCapabilityInput) : Type 0 where
  pub descriptor : IsWellFormed c.invocation_descriptor
  pub additive : (c.additive_warm_update && not (is_keyed (some c.state_reuse))) ≡ false
  pub reuse : IsReuse c.state_reuse c.invocation_descriptor

additive_lem :
    (o : Option Bool) (keyed : Bool)
    → additive_faults o keyed ≡ []
    → (additive : Bool) × (o ≡ some additive) × ((additive && not keyed) ≡ false)
additive_lem none keyed h = absurd (cc h)
additive_lem (some additive) keyed h = (additive, refl, ground (arith, h))

fields_read :
    (j : Json)
    → field_faults j ≡ []
    → (c : FunctionCapabilityInput) × (read_capability j ≡ some c) × IsCapability c
unfolding field_faults read_capability
fields_read j h =
    let (m, h1) = append_nil_both _ _ h in
    let (mc, h2) = append_nil_both _ _ h1 in
    let (co, h3) = append_nil_both _ _ h2 in
    let (ch, h4) = append_nil_both _ _ h3 in
    let (ne, h5) = append_nil_both _ _ h4 in
    let (de, h6) = append_nil_both _ _ h5 in
    let (sr, h7) = append_nil_both _ _ h6 in
    let (ad, h8) = append_nil_both _ _ h7 in
    let (re, h9) = append_nil_both _ _ h8 in
    let (mutates, is_mutates) = unless-is_some (boolean_of (property "mutates" j)) _ m in
    let (cost, is_cost) =
      unless-is_some (cost_class_of (property "materializationCostClass" j)) _ mc in
    let (cow, is_cow) = unless-is_some (boolean_of (property "cowSupport" j)) _ co in
    let (change, is_change) =
      unless-is_some (boolean_of (property "changeDetectionSupport" j)) _ ch in
    let (nesting, is_nesting) = nesting_reads (property "nestingDeclaration" j) ne in
    let (ds, describes, well) =
      valid-Describes (property "invocationDescriptor" j) (map_nil of_descriptor _ de) in
    let is_descriptor = descriptor_reads (property "invocationDescriptor" j) ds describes in
    let (reuse, is_reuse) = unless-is_some (state_reuse_of (property "stateReuse" j)) _ sr in
    let (additive, is_additive, only) =
      additive_lem (boolean_of (property "additiveWarmUpdate" j))
        (is_keyed (state_reuse_of (property "stateReuse" j))) ad in
    (
      record {
        mutates = mutates;
        materialization_cost_class = cost;
        cow_support = cow;
        change_detection_support = change;
        nesting_declaration = nesting;
        invocation_descriptor = ds;
        state_reuse = reuse;
        additive_warm_update = additive;
      },
      ground (
        arith, is_mutates, is_cost, is_cow, is_change, is_nesting, is_descriptor, is_reuse,
        is_additive,
      ),
      record {
        descriptor = well;
        additive = subst (λ o. (additive && not (is_keyed o)) ≡ false) is_reuse only;
        reuse = reuse_lem reuse (property "invocationDescriptor" j) ds describes (
            subst (λ o. reuse_faults (is_keyed o) (property "invocationDescriptor" j) ≡ []) is_reuse
              re);
      },
    )

-- Capability metadata that passes validation can be read as a capability, with a descriptor that
-- is well formed, with additive warm updates only where state is reused, and with reuse of state
-- only where there is an entry and none is positional.
pub validate_capability-IsCapability :
    (j : Json)
    → validate_capability j ≡ []
    → (c : FunctionCapabilityInput) × (read_capability j ≡ some c) × IsCapability c
unfolding validate_capability
validate_capability-IsCapability (obj fs) h = fields_read (obj fs) h
validate_capability-IsCapability (arr xs) h = fields_read (arr xs) h
validate_capability-IsCapability null h = absurd (cc h)
validate_capability-IsCapability (bool b) h = absurd (cc h)
validate_capability-IsCapability (num n) h = absurd (cc h)
validate_capability-IsCapability (str s) h = absurd (cc h)
