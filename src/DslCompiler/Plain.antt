-- ===== src/DslCompiler/Plain.antt =====
-- What the engine may rely on in a document of plain steps that compiled.
use workflow_spec.Prelude.{
  String, ◌≡◌, refl, subst, Bool, true, List, [], ◌∷◌, ◌++◌, map, arith, contains, string_eq, All,
  All-imp, All-split, every, Distinct,
}
use workflow_spec.Json.{Dict, keys, values}
use workflow_spec.Shared.Errors.{returns}
use workflow_spec.WorkflowSpec.Domain.{
  Step, Nodes, nil, cons, plain, branch, map_node, node_list, WorkflowSpec,
}
use workflow_spec.WorkflowSpec.BindingRefs.{collect_step_reference_ids}
use workflow_spec.Engine.Interpreter.{assert_plain_steps}
use workflow_spec.Engine.DependencyGraph.{unique_after, compute_step_dependencies}
use workflow_spec.Engine.Plain.{ids, assert_plain_steps_iff}
use workflow_spec.DslCompiler.NodeWalk.{ScopePath}
use workflow_spec.DslCompiler.SemanticValidation.{ReferenceSite, sites, validate_step_references}
use workflow_spec.DslCompiler.Document.{
  definitions, node_definitions, resolves, document_sites, node_list_sites, node_sites, all_sites,
  fallback_sites,
}
use workflow_spec.DslCompiler.References.{has_key, validate_step_references_iff}

keys-definitions_plain :
    (ns : Nodes) (steps : List Step) (scope : ScopePath)
    → node_list ns ≡ map plain steps
    → keys (definitions ns scope) ≡ ids steps
unfolding definitions node_definitions
keys-definitions_plain nil [] scope h = refl
keys-definitions_plain nil (s ∷ steps) scope h = cc
keys-definitions_plain (cons n ns) [] scope h = cc
keys-definitions_plain (cons (branch id b c) ns) (s ∷ steps) scope h = cc
keys-definitions_plain (cons (map_node id b n y) ns) (s ∷ steps) scope h = cc
keys-definitions_plain (cons (plain t) ns) (s ∷ steps) scope h =
    ground (arith, keys-definitions_plain ns steps scope)

module _ (defs : Dict ScopePath) where
  abbrev known : String → Bool
  known x = contains (keys defs) x

  known-sites :
      (id : String) (scope : ScopePath) (targets : List String)
      → All (λ r. resolves defs r ≡ true) (sites id scope targets)
      → every known targets ≡ true
  known-sites id scope [] h = refl
  known-sites id scope (t ∷ ts) h = ground (arith, h.0, known-sites id scope ts h.1, has_key t defs)

  known-plain :
      (ns : Nodes) (steps : List Step) (scope : ScopePath)
      → node_list ns ≡ map plain steps
      → All (λ r. resolves defs r ≡ true) (node_list_sites ns scope)
      → All (λ s. every known (collect_step_reference_ids s) ≡ true) steps
  unfolding node_list_sites node_sites
  known-plain nil [] scope h a = tt
  known-plain nil (s ∷ steps) scope h a = cc
  known-plain (cons n ns) [] scope h a = tt
  known-plain (cons (branch id b c) ns) (s ∷ steps) scope h a = cc
  known-plain (cons (map_node id b n y) ns) (s ∷ steps) scope h a = cc
  known-plain (cons (plain t) ns) (s ∷ steps) scope h a =
      let (here, rest) =
        All-split (λ r. resolves defs r ≡ true) (sites t.id scope (collect_step_reference_ids t))
          (node_list_sites ns scope) a in
      (
        ground (arith, known-sites t.id scope (collect_step_reference_ids t) here),
        known-plain ns steps scope (ground arith) rest,
      )

every-unique_after :
    (p : String → Bool) (seen xs : List String)
    → every p xs ≡ true
    → every p (unique_after seen xs) ≡ true
unfolding unique_after
every-unique_after p seen [] h = refl
every-unique_after p seen (x ∷ xs) h =
    ground (arith, every-unique_after p seen xs, every-unique_after p (x ∷ seen) xs)

-- Where the nodes of a document are plain steps and the compiler's semantic check finds no error,
-- the engine takes the document for these steps, and every dependency of a step is one of them.
pub validate_step_references_plain :
    (spec : WorkflowSpec) (steps : List Step)
    → node_list spec.steps ≡ map plain steps
    → validate_step_references spec ≡ []
    → (assert_plain_steps spec ≡ returns steps)
      × All (λ s. every (contains (ids steps)) (compute_step_dependencies s) ≡ true) steps
unfolding document_sites compute_step_dependencies
validate_step_references_plain spec steps shape valid =
    let defs = definitions spec.steps [] in
    let (distinct, resolved) = (validate_step_references_iff spec).0 valid in
    let same = keys-definitions_plain spec.steps steps [] shape in
    let nodes = node_list_sites spec.steps [] in
    let outputs = all_sites "" [] (values spec.outputs) in
    let ok = λ (r : ReferenceSite). resolves defs r ≡ true in
    let of_nodes =
      (All-split ok nodes outputs
        (All-split ok (nodes ++ outputs) (fallback_sites spec.session_state) resolved).0).0 in
    (
      (assert_plain_steps_iff spec steps).1 (shape, subst Distinct same distinct),
      All-imp (λ s. every (known defs) (collect_step_reference_ids s) ≡ true)
          (λ s. every (contains (ids steps)) (compute_step_dependencies s) ≡ true) steps
          (λ s h.
            subst (λ ks. every (contains ks) (compute_step_dependencies s) ≡ true) same
              (every-unique_after (known defs) [] (collect_step_reference_ids s) h))
          (known-plain defs spec.steps steps [] shape of_nodes),
    )
