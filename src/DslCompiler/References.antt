-- ===== src/DslCompiler/References.antt =====
-- Which documents `validate_step_references` accepts.
use mathlib.Core.List.{append-nil, flat_map}
use workflow_spec.Prelude.{
  append_nil_both, String, ◌≡◌, ◌↔◌, refl, ap, sym, ◌∙◌, subst, true, false, List, [], ◌∷◌, ◌++◌,
  none, some, map, arith, contains, contains-append, string_eq, if◌then◌else◌, All, Distinct,
  Avoids, Avoids-nil, Bool-cases, inl, inr,
}
use workflow_spec.Json.{Dict, lookup, keys}
use workflow_spec.WorkflowSpec.Domain.{WorkflowSpec}
use workflow_spec.DslCompiler.Domain.{CompileError, duplicate_step_id}
use workflow_spec.DslCompiler.NodeWalk.{ScopePath}
use workflow_spec.DslCompiler.SemanticValidation.{
  ReferenceSite, WalkResult, set_add, record_id, no_result, reference_errors, errors_of,
  validate_step_references,
}
use workflow_spec.DslCompiler.Document.{definitions, document_sites, resolves, IsSound}
use workflow_spec.DslCompiler.Walk.{record_ids, added, walk_document_lem}

lookup-append :
    (x : String) (m : Dict ScopePath) (n : Dict ScopePath)
    → lookup x (m ++ n) ≡ elim (lookup x m) [ none ↦ lookup x n | some s ↦ some s ]
unfolding lookup
lookup-append x [] n = refl
lookup-append x ((k, v) ∷ m) n = ground (arith, lookup-append x m n)

lookup-record_ids :
    (x : String) (defs : Dict ScopePath) (r : WalkResult)
    → lookup x (record_ids defs r).id_to_scope ≡ lookup x (r.id_to_scope ++ defs)
unfolding record_ids record_id lookup
lookup-record_ids x [] r = ap (lookup x) (sym (append-nil r.id_to_scope))
lookup-record_ids x ((id, scope) ∷ defs) r = ground (
  arith,
  lookup-record_ids x defs (record_id id scope r),
  lookup-append x r.id_to_scope ((id, scope) ∷ defs),
  lookup-append x r.id_to_scope defs,
  lookup-append x (r.id_to_scope ++ ((id, scope) ∷ [])) defs,
  lookup-append x r.id_to_scope ((id, scope) ∷ []),
  ap (λ y. lookup y r.id_to_scope) {x = x} {y = id},
)

keys-append : (m n : Dict ScopePath) → keys (m ++ n) ≡ keys m ++ keys n
keys-append [] n = refl
keys-append ((k, v) ∷ m) n = ap (λ (ks : List String). k ∷ ks) (keys-append m n)

pub has_key :
    (x : String) (m : Dict ScopePath)
    → contains (keys m) x ≡ elim (lookup x m) [ none ↦ false | some _ ↦ true ]
unfolding lookup
has_key x [] = refl
has_key x ((k, v) ∷ m) = ground (arith, has_key x m)

Avoids-snoc :
    (y : String) (seen xs : List String)
    → Avoids (seen ++ (y ∷ [])) xs ↔ ((contains xs y ≡ false) × Avoids seen xs)
Avoids-snoc y seen [] = (λ h. (refl, tt), λ h. tt)
Avoids-snoc y seen (x ∷ xs) =
    let (there, back) = Avoids-snoc y seen xs in
    let split = contains-append seen (y ∷ []) x in
    (
      λ h. (ground (arith, split, h.0, (there h.1).0), (ground (arith, split, h.0), (there h.1).1)),
      λ h. (ground (arith, split, h.0, h.1.0), back (ground (arith, h.0), h.1.1)),
    )

-- No id was seen twice: those of the definitions are distinct, and none was there before.
abbrev NoDuplicates : Dict ScopePath → WalkResult → Type 0
NoDuplicates defs r =
    (r.duplicate_ids ≡ []) × Distinct (keys defs) × Avoids (keys r.id_to_scope) (keys defs)

set_add_nonempty : (id : String) (ids : List String) → set_add id ids ≡ [] → ⊥
set_add_nonempty id [] h = cc
set_add_nonempty id (x ∷ xs) h = ground arith

duplicate_ids-record_id :
    (id : String) (scope : ScopePath) (r : WalkResult)
    → (record_id id scope r).duplicate_ids
      ≡ (if contains (keys r.id_to_scope) id then set_add id r.duplicate_ids else r.duplicate_ids)
unfolding record_id
duplicate_ids-record_id id scope r = ground (arith, has_key id r.id_to_scope)

keys-record_id :
    (id : String) (scope : ScopePath) (r : WalkResult)
    → contains (keys r.id_to_scope) id ≡ false
    → keys (record_id id scope r).id_to_scope ≡ keys r.id_to_scope ++ (id ∷ [])
unfolding record_id
keys-record_id id scope r h =
    ground (arith, has_key id r.id_to_scope, keys-append r.id_to_scope ((id, scope) ∷ []))

NoDuplicates-record_id :
    (id : String) (scope : ScopePath) (defs : Dict ScopePath) (r : WalkResult)
    → NoDuplicates defs (record_id id scope r) ↔ NoDuplicates ((id, scope) ∷ defs) r
NoDuplicates-record_id id scope defs r =
    let dups = duplicate_ids-record_id id scope r in
    elim (Bool-cases (contains (keys r.id_to_scope) id)) [
      | inl old ↦ (
        λ h. absurd (set_add_nonempty id r.duplicate_ids (ground (arith, h.0, dups))),
        λ h. absurd (ground (arith, h.2.0)),
      )
      | inr new ↦
          let same = keys-record_id id scope r new in
          let (there, back) = Avoids-snoc id (keys r.id_to_scope) (keys defs) in
          (
            λ h.
                let (fresh, rest) = there (subst (λ ks. Avoids ks (keys defs)) same h.2) in
                (ground (arith, h.0, dups), (fresh, h.1), (new, rest)),
            λ h. (
              ground (arith, h.0, dups),
              h.1.1,
              subst (λ ks. Avoids ks (keys defs)) (sym same) (back (h.1.0, h.2.1)),
            ),
          )
    ]

duplicates-record_ids :
    (defs : Dict ScopePath) (r : WalkResult)
    → ((record_ids defs r).duplicate_ids ≡ []) ↔ NoDuplicates defs r
unfolding record_ids
duplicates-record_ids [] r = (λ h. (h, tt, tt), λ h. h.0)
duplicates-record_ids ((id, scope) ∷ defs) r =
    let (there, back) = duplicates-record_ids defs (record_id id scope r) in
    let (on, off) = NoDuplicates-record_id id scope defs r in (λ h. on (there h), λ h. back (off h))

reference_errors_nil :
    (m defs : Dict ScopePath) (ref : ReferenceSite)
    → lookup ref.target_id m ≡ lookup ref.target_id defs
    → (reference_errors m ref ≡ []) ↔ (resolves defs ref ≡ true)
unfolding reference_errors
reference_errors_nil m defs ref same = (λ h. ground arith, λ h. ground arith)

reference_errors_nil_each :
    (m defs : Dict ScopePath) (refs : List ReferenceSite)
    → ((x : String) → lookup x m ≡ lookup x defs)
    → (flat_map (reference_errors m) refs ≡ []) ↔ All (λ r. resolves defs r ≡ true) refs
unfolding flat_map
reference_errors_nil_each m defs [] same = (λ h. tt, λ h. refl)
reference_errors_nil_each m defs (ref ∷ refs) same =
    let (there, back) = reference_errors_nil_each m defs refs same in
    let (on, off) = reference_errors_nil m defs ref (same ref.target_id) in
    (
      λ h.
          let (a, b) =
            append_nil_both (reference_errors m ref) (flat_map (reference_errors m) refs) h in
          (on a, there b),
      λ h. ground (arith, off h.0, back h.1),
    )

duplicate_errors : List String → List CompileError
duplicate_errors ids = map (λ id. record { code = duplicate_step_id; path = id }) ids

duplicate_errors_nil : (ids : List String) → (duplicate_errors ids ≡ []) ↔ (ids ≡ [])
unfolding duplicate_errors
duplicate_errors_nil [] = (λ h. refl, λ h. refl)
duplicate_errors_nil (x ∷ xs) = (λ h. cc, λ h. cc)

references-record_ids :
    (defs : Dict ScopePath) (r : WalkResult) → (record_ids defs r).references ≡ r.references
unfolding record_ids record_id
references-record_ids [] r = refl
references-record_ids ((id, scope) ∷ defs) r =
    ground (arith, references-record_ids defs (record_id id scope r))

errors_of-added :
    (defs : Dict ScopePath) (refs : List ReferenceSite)
    → (errors_of (added defs refs no_result) ≡ [])
      ↔ (Distinct (keys defs) × All (λ r. resolves defs r ≡ true) refs)
unfolding errors_of duplicate_errors
errors_of-added defs refs =
    let r = record_ids defs no_result in
    let m = r.id_to_scope in
    let (dup_on, dup_off) = duplicate_errors_nil r.duplicate_ids in
    let (ids_on, ids_off) = duplicates-record_ids defs no_result in
    let (refs_on, refs_off) =
      reference_errors_nil_each m defs refs (λ x. lookup-record_ids x defs no_result) in
    let same : r.references ++ refs ≡ refs =
      ap (λ rs. rs ++ refs) (references-record_ids defs no_result) in
    (
      λ h.
          let (a, b) =
            append_nil_both (duplicate_errors r.duplicate_ids)
              (flat_map (reference_errors m) (r.references ++ refs)) h in
          ((ids_on (dup_on a)).1, refs_on (ap (flat_map (reference_errors m)) (sym same) ∙ b)),
      λ h.
          ground (arith, dup_off (ids_off (refl, h.0, Avoids-nil (keys defs))), refs_off h.1, same),
    )

-- The compiler's semantic check finds no error in a document exactly if no id stands twice at any
-- depth, and every reference of a step, a selector, a source, a yield, an output or a fallback
-- names a node whose scope is that of the reference or one around it.
pub validate_step_references_iff :
    (spec : WorkflowSpec) → (validate_step_references spec ≡ []) ↔ IsSound spec
unfolding validate_step_references
validate_step_references_iff spec =
    subst (λ r. (errors_of r ≡ []) ↔ IsSound spec) (sym (walk_document_lem spec))
      (errors_of-added (definitions spec.steps []) (document_sites spec))
