-- ===== src/DslCompiler/Walk.antt =====
-- What the walk of `validate_step_references` collects.
use mathlib.Core.List.{append_assoc, append-nil}
use workflow_spec.Prelude.{
  String, ◌≡◌, refl, ap, sym, ◌∙◌, List, [], ◌∷◌, ◌++◌, Option, none, some, arith, string_eq,
}
use workflow_spec.Json.{Dict, values}
use workflow_spec.WorkflowSpec.Domain.{
  Binding, Node, Nodes, Cases, nil, cons, plain, branch, map_node, end_cases, case,
  SessionStateDeclaration, WorkflowSpec,
}
use workflow_spec.WorkflowSpec.BindingRefs.{collect_step_binding_ids}
use workflow_spec.DslCompiler.NodeWalk.{
  ScopePath, walk_nodes, walk_node, walk_cases, case_scope_of, body_scope_of,
}
use workflow_spec.DslCompiler.SemanticValidation.{
  ReferenceSite, WalkResult, sites, push_sites, walk_bindings, walk_binding_for_step_refs,
  record_id, reference_visitor, walk_fallback, walk_fallbacks, walk_document, no_result,
}
use workflow_spec.DslCompiler.Document.{
  definitions, node_definitions, case_definitions, all_sites, node_list_sites, node_sites,
  case_sites, fallback_site, fallback_sites, document_sites,
}

unfoldable pub record_ids : Dict ScopePath → WalkResult → WalkResult
record_ids [] result = result
record_ids ((id, scope) ∷ defs) result = record_ids defs (record_id id scope result)

push_sites_nil : (r : WalkResult) → push_sites [] r ≡ r
push_sites_nil r = ap (λ refs. record r { references = refs }) (append-nil r.references)

push_sites-push_sites :
    (a b : List ReferenceSite) (r : WalkResult)
    → push_sites b (push_sites a r) ≡ push_sites (a ++ b) r
push_sites-push_sites a b r =
    ap (λ refs. record r { references = refs }) (append_assoc r.references a b)

record_id-push_sites :
    (id : String) (scope : ScopePath) (a : List ReferenceSite) (r : WalkResult)
    → record_id id scope (push_sites a r) ≡ push_sites a (record_id id scope r)
unfolding record_id
record_id-push_sites id scope a r = ground arith

record_ids-push_sites :
    (defs : Dict ScopePath) (a : List ReferenceSite) (r : WalkResult)
    → record_ids defs (push_sites a r) ≡ push_sites a (record_ids defs r)
unfolding record_ids
record_ids-push_sites [] a r = refl
record_ids-push_sites ((id, scope) ∷ defs) a r =
    ap (record_ids defs) (record_id-push_sites id scope a r)
    ∙ record_ids-push_sites defs a (record_id id scope r)

record_ids-append :
    (xs ys : Dict ScopePath) (r : WalkResult)
    → record_ids (xs ++ ys) r ≡ record_ids ys (record_ids xs r)
unfolding record_ids
record_ids-append [] ys r = refl
record_ids-append ((id, scope) ∷ xs) ys r = record_ids-append xs ys (record_id id scope r)

pub walk_bindings_lem :
    (bs : List Binding) (id : String) (scope : ScopePath) (r : WalkResult)
    → walk_bindings bs id scope r ≡ push_sites (all_sites id scope bs) r
unfolding walk_bindings
walk_bindings_lem [] id scope r = sym (push_sites_nil r)
walk_bindings_lem (b ∷ bs) id scope r =
    walk_bindings_lem bs id scope (walk_binding_for_step_refs b id scope r)
    ∙ push_sites-push_sites (sites id scope (collect_step_binding_ids b)) (all_sites id scope bs) r

-- What a part of the document adds: its definitions, and its references behind those there are.
abbrev pub added : Dict ScopePath → List ReferenceSite → WalkResult → WalkResult
added defs refs r = push_sites refs (record_ids defs r)

added-added :
    (xs ys : Dict ScopePath) (a b : List ReferenceSite) (r : WalkResult)
    → added ys b (added xs a r) ≡ added (xs ++ ys) (a ++ b) r
added-added xs ys a b r =
    ap (push_sites b) (record_ids-push_sites ys a (record_ids xs r))
    ∙ push_sites-push_sites a b (record_ids ys (record_ids xs r))
    ∙ ap (push_sites (a ++ b)) (sym (record_ids-append xs ys r))

added-push_sites :
    (xs : Dict ScopePath) (a b : List ReferenceSite) (r : WalkResult)
    → push_sites b (added xs a r) ≡ added xs (a ++ b) r
added-push_sites xs a b r = push_sites-push_sites a b (record_ids xs r)

added_nil : (r : WalkResult) → added [] [] r ≡ r
unfolding record_ids
added_nil r = push_sites_nil r

mutual
  unfolding walk_nodes walk_node walk_cases definitions node_definitions case_definitions
      node_list_sites node_sites case_sites record_ids

  pub walk_nodes_lem :
      (ns : Nodes) (scope : ScopePath) (r : WalkResult)
      → walk_nodes reference_visitor ns scope r
        ≡ added (definitions ns scope) (node_list_sites ns scope) r
  walk_nodes_lem nil scope r = sym (added_nil r)
  walk_nodes_lem (cons n ns) scope r =
      walk_nodes_lem ns scope (walk_node reference_visitor n scope r)
      ∙ ap (added (definitions ns scope) (node_list_sites ns scope)) (walk_node_lem n scope r)
      ∙ added-added (node_definitions n scope) (definitions ns scope) (node_sites n scope)
          (node_list_sites ns scope) r

  walk_node_lem :
      (n : Node) (scope : ScopePath) (r : WalkResult)
      → walk_node reference_visitor n scope r
        ≡ added (node_definitions n scope) (node_sites n scope) r
  walk_node_lem (plain s) scope r = refl
  walk_node_lem (branch id selector cases) scope r =
      let refs = sites id scope (collect_step_binding_ids selector) in
      walk_cases_lem id cases scope (push_sites refs (record_id id scope r))
      ∙ added-added ((id, scope) ∷ []) (case_definitions id cases scope) refs
          (case_sites id cases scope) r
  walk_node_lem (map_node id source body yields) scope r =
      let refs = sites id scope (collect_step_binding_ids source) in
      let inner = body_scope_of scope id in
      let bodies = node_list_sites body inner in
      walk_bindings_lem (values yields) id inner
        (walk_nodes reference_visitor body inner (push_sites refs (record_id id scope r)))
      ∙ ap (push_sites (all_sites id inner (values yields))) (
          walk_nodes_lem body inner (push_sites refs (record_id id scope r))
          ∙ added-added ((id, scope) ∷ []) (definitions body inner) refs bodies r)
      ∙ added-push_sites ((id, scope) ∷ definitions body inner) (refs ++ bodies)
          (all_sites id inner (values yields)) r

  walk_cases_lem :
      (id : String) (cases : Cases) (scope : ScopePath) (r : WalkResult)
      → walk_cases reference_visitor id cases scope r
        ≡ added (case_definitions id cases scope) (case_sites id cases scope) r
  walk_cases_lem id end_cases scope r = sym (added_nil r)
  walk_cases_lem id (case key steps yields rest) scope r =
      let inner = case_scope_of scope id key in
      let walked = walk_nodes reference_visitor steps inner r in
      let ys = all_sites id inner (values yields) in
      walk_cases_lem id rest scope (walk_bindings (values yields) id inner walked)
      ∙ ap (added (case_definitions id rest scope) (case_sites id rest scope)) (
          walk_bindings_lem (values yields) id inner walked
          ∙ ap (push_sites ys) (walk_nodes_lem steps inner r)
          ∙ added-push_sites (definitions steps inner) (node_list_sites steps inner) ys r)
      ∙ added-added (definitions steps inner) (case_definitions id rest scope)
          (node_list_sites steps inner ++ ys) (case_sites id rest scope) r

walk_fallback_lem :
    (fallback : Option Binding) (key : String) (r : WalkResult)
    → walk_fallback fallback key r ≡ push_sites (fallback_site key fallback) r
walk_fallback_lem none key r = sym (push_sites_nil r)
walk_fallback_lem (some b) key r = refl

walk_fallbacks_lem :
    (decls : Dict SessionStateDeclaration) (r : WalkResult)
    → walk_fallbacks decls r ≡ push_sites (fallback_sites decls) r
unfolding walk_fallbacks
walk_fallbacks_lem [] r = sym (push_sites_nil r)
walk_fallbacks_lem ((key, decl) ∷ decls) r =
    ap (walk_fallbacks decls) (walk_fallback_lem decl.fallback key r)
    ∙ walk_fallbacks_lem decls (push_sites (fallback_site key decl.fallback) r)
    ∙ push_sites-push_sites (fallback_site key decl.fallback) (fallback_sites decls) r

pub walk_document_lem :
    (spec : WorkflowSpec)
    → walk_document spec ≡ added (definitions spec.steps []) (document_sites spec) no_result
unfolding walk_document document_sites
walk_document_lem spec =
    let steps = walk_nodes reference_visitor spec.steps [] no_result in
    let outputs = all_sites "" [] (values spec.outputs) in
    let defs = definitions spec.steps [] in
    let nodes = node_list_sites spec.steps [] in
    walk_fallbacks_lem spec.session_state (walk_bindings (values spec.outputs) "" [] steps)
    ∙ ap (push_sites (fallback_sites spec.session_state)) (
        walk_bindings_lem (values spec.outputs) "" [] steps
        ∙ ap (push_sites outputs) (walk_nodes_lem spec.steps [] no_result)
        ∙ added-push_sites defs nodes outputs no_result)
    ∙ added-push_sites defs (nodes ++ outputs) (fallback_sites spec.session_state) no_result
