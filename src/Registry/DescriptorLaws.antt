-- ===== src/Registry/DescriptorLaws.antt =====
-- Which invocation descriptors pass validation.
use workflow_spec.Prelude.{
  ℕ, ◌+◌, ◌≡◌, ◌↔◌, refl, ap, sym, subst, false, List, [], ◌∷◌, ◌++◌, Option, none, some, ltb,
  nat_eq, string_eq, arith, All, Distinct, Avoids, Avoids-nil, Avoids-cons, Avoids-uncons,
  append_nil_both,
}
use workflow_spec.Json.{Json, null, bool, num, str, arr, obj, items}
use workflow_spec.Registry.Domain.{
  InvocationDescriptorEntry, InvocationStyle, flag, positional, stdin,
}
use workflow_spec.Registry.Descriptor.{
  Seen, check_entry, check_entries, check_stdin_count, validate_invocation_descriptor, nothing_seen,
}
use workflow_spec.Registry.WellFormed.{
  Reads, params_of, position_of, positions, stdin_count, IsEntry, IsWellFormed,
}
use workflow_spec.Registry.EntryChecks.{seen_behind, MayFollow, check_entry_lem, check_entry-passes}

-- Slots that are free and distinct, of one entry and of those behind it.
module _ (seen rest : List ℕ) where
  slots_join :
      (style : InvocationStyle) (index : Option ℕ)
      → Avoids seen (position_of style index)
      → Avoids (position_of style index ++ seen) rest
      → Distinct rest
      → Avoids seen (position_of style index ++ rest) × Distinct (position_of style index ++ rest)
  slots_join flag index free off distinct = (off, distinct)
  slots_join stdin index free off distinct = (off, distinct)
  slots_join positional none free off distinct = (off, distinct)
  slots_join positional (some i) free off distinct =
      let (new, others) = Avoids-uncons i seen rest off in ((free.0, others), (new, distinct))

  slots_split :
      (style : InvocationStyle) (index : Option ℕ)
      → Avoids seen (position_of style index ++ rest)
      → Distinct (position_of style index ++ rest)
      → Avoids seen (position_of style index)
        × Avoids (position_of style index ++ seen) rest
        × Distinct rest
  slots_split flag index off distinct = (tt, off, distinct)
  slots_split stdin index off distinct = (tt, off, distinct)
  slots_split positional none off distinct = (tt, off, distinct)
  slots_split positional (some i) off distinct =
      ((off.0, tt), Avoids-cons i seen rest distinct.0 off.1, distinct.1)

-- The entries may stand, in this order, behind what the loop has seen.
pub record AllFollow (seen : Seen) (ds : List InvocationDescriptorEntry) : Type 0 where
  pub entries : All IsEntry ds
  pub new_params : Avoids seen.params (params_of ds)
  pub distinct_params : Distinct (params_of ds)
  pub new_positions : Avoids seen.indexes (positions ds)
  pub distinct_positions : Distinct (positions ds)

AllFollow-cons :
    (seen : Seen) (d : InvocationDescriptorEntry) (ds : List InvocationDescriptorEntry)
    → MayFollow seen d
    → AllFollow (seen_behind d seen) ds
    → AllFollow seen (d ∷ ds)
AllFollow-cons seen d ds (entry, new, free) rest =
    let (other, others) = Avoids-uncons d.param seen.params (params_of ds) rest.new_params in
    let (off, distinct) =
      slots_join seen.indexes (positions ds) d.style d.position_index free rest.new_positions
        rest.distinct_positions in
    record {
      entries = (entry, rest.entries);
      new_params = (new, others);
      distinct_params = (other, rest.distinct_params);
      new_positions = off;
      distinct_positions = distinct;
    }

AllFollow-uncons :
    (seen : Seen) (d : InvocationDescriptorEntry) (ds : List InvocationDescriptorEntry)
    → AllFollow seen (d ∷ ds)
    → MayFollow seen d × AllFollow (seen_behind d seen) ds
AllFollow-uncons seen d ds all =
    let (free, off, distinct) =
      slots_split seen.indexes (positions ds) d.style d.position_index all.new_positions
        all.distinct_positions in
    (
      (all.entries.0, all.new_params.0, free),
      record {
        entries = all.entries.1;
        new_params =
            Avoids-cons d.param seen.params (params_of ds) all.distinct_params.0 all.new_params.1;
        distinct_params = all.distinct_params.1;
        new_positions = off;
        distinct_positions = distinct;
      },
    )

check_entries_lem :
    (js : List Json) (seen : Seen)
    → (check_entries js seen).0 ≡ []
    → (ds : List InvocationDescriptorEntry) × Reads js ds
      × AllFollow seen ds
      × ((check_entries js seen).1.stdin_entry_count ≡ stdin_count ds + seen.stdin_entry_count)
unfolding check_entries
check_entries_lem [] seen h = (
  [],
  tt,
  record {
    entries = tt;
    new_params = tt;
    distinct_params = tt;
    new_positions = tt;
    distinct_positions = tt;
  },
  ground arith,
)
check_entries_lem (j ∷ js) seen h =
    let (now, later) =
      append_nil_both (check_entry j seen).0 (check_entries js (check_entry j seen).1).0 h in
    let (d, reads, may, is) = check_entry_lem j seen now in
    let (ds, all_read, follow, count) = check_entries_lem js (check_entry j seen).1 later in
    (
      d ∷ ds,
      (reads, all_read),
      AllFollow-cons seen d ds may (subst (λ s. AllFollow s ds) is follow),
      omega (arith, count, ap (λ s. s.stdin_entry_count) is),
    )

check_entries-pass :
    (js : List Json) (ds : List InvocationDescriptorEntry) (seen : Seen)
    → Reads js ds
    → AllFollow seen ds
    → ((check_entries js seen).0 ≡ [])
      × ((check_entries js seen).1.stdin_entry_count ≡ stdin_count ds + seen.stdin_entry_count)
unfolding check_entries
check_entries-pass [] [] seen reads follow = (refl, ground arith)
check_entries-pass [] (d ∷ ds) seen reads follow = absurd reads
check_entries-pass (j ∷ js) [] seen reads follow = absurd reads
check_entries-pass (j ∷ js) (d ∷ ds) seen reads follow =
    let (may, rest) = AllFollow-uncons seen d ds follow in
    let passes = check_entry-passes j d seen reads.0 may in
    let (faults, count) = check_entries-pass js ds (seen_behind d seen) reads.1 rest in
    subst
      (λ t.
        (t.0 ++ (check_entries js t.1).0 ≡ [])
        × ((check_entries js t.1).1.stdin_entry_count
            ≡ stdin_count (d ∷ ds) + seen.stdin_entry_count))
      (sym passes) (faults, omega (arith, count))

-- The value is an array of objects that read as these entries.
abbrev pub Describes : Option Json → List InvocationDescriptorEntry → Type 0
Describes (some (arr xs)) ds = Reads (items xs) ds
Describes _ ds = ⊥

well_formed_from :
    (ds : List InvocationDescriptorEntry) (count : ℕ)
    → AllFollow nothing_seen ds
    → count ≡ stdin_count ds + 0
    → ltb 1 count ≡ false
    → IsWellFormed ds
well_formed_from ds count follow is few = record {
  entries = follow.entries;
  distinct_params = follow.distinct_params;
  distinct_positions = follow.distinct_positions;
  one_stdin = ground (arith, is, few);
}

follows_from : (ds : List InvocationDescriptorEntry) → IsWellFormed ds → AllFollow nothing_seen ds
follows_from ds well = record {
  entries = well.entries;
  new_params = Avoids-nil (params_of ds);
  distinct_params = well.distinct_params;
  new_positions = Avoids-nil (positions ds);
  distinct_positions = well.distinct_positions;
}

pub valid-Describes :
    (v : Option Json)
    → validate_invocation_descriptor v ≡ []
    → (ds : List InvocationDescriptorEntry) × Describes v ds × IsWellFormed ds
unfolding validate_invocation_descriptor
valid-Describes (some (arr xs)) h =
    let turned = check_entries (items xs) nothing_seen in
    let (clean, few) = append_nil_both turned.0 (check_stdin_count turned.1.stdin_entry_count) h in
    let (ds, reads, follow, count) = check_entries_lem (items xs) nothing_seen clean in
    (ds, reads, well_formed_from ds turned.1.stdin_entry_count follow count (ground (arith, few)))
valid-Describes none h = absurd (cc h)
valid-Describes (some null) h = absurd (cc h)
valid-Describes (some (bool b)) h = absurd (cc h)
valid-Describes (some (num n)) h = absurd (cc h)
valid-Describes (some (str s)) h = absurd (cc h)
valid-Describes (some (obj fs)) h = absurd (cc h)

Describes-valid :
    (v : Option Json) (ds : List InvocationDescriptorEntry)
    → Describes v ds
    → IsWellFormed ds
    → validate_invocation_descriptor v ≡ []
unfolding validate_invocation_descriptor
Describes-valid (some (arr xs)) ds reads well =
    let (clean, count) =
      check_entries-pass (items xs) ds nothing_seen reads (follows_from ds well) in
    ground (arith, clean, count, well.one_stdin)
Describes-valid none ds never well = absurd never
Describes-valid (some null) ds never well = absurd never
Describes-valid (some (bool b)) ds never well = absurd never
Describes-valid (some (num n)) ds never well = absurd never
Describes-valid (some (str s)) ds never well = absurd never
Describes-valid (some (obj fs)) ds never well = absurd never

-- `validateInvocationDescriptor` pushes no error exactly if the value is an array whose elements
-- are objects that read as entries, where each entry has a param that is not empty and what its
-- style asks for (a long flag, an index), no param stands twice, no two positional entries have
-- one index, and at most one entry is for the standard input.
pub validate_invocation_descriptor_iff :
    (v : Option Json)
    → (validate_invocation_descriptor v ≡ [])
      ↔ ((ds : List InvocationDescriptorEntry) × Describes v ds × IsWellFormed ds)
validate_invocation_descriptor_iff v =
    (valid-Describes v, λ found. Describes-valid v found.0 found.1 found.2)
