-- ===== src/DslCompiler/Document.antt =====
-- What a document defines and references, told by its shape alone.
use workflow_spec.Prelude.{
  string_eq, String, Bool, true, false, List, [], ◌∷◌, ◌++◌, Option, none, some, ◌≡◌, All, Distinct,
}
use workflow_spec.Json.{Dict, lookup, keys, values}
use workflow_spec.WorkflowSpec.Domain.{
  Binding, Node, Nodes, Cases, nil, cons, plain, branch, map_node, end_cases, case,
  SessionStateDeclaration, WorkflowSpec,
}
use workflow_spec.WorkflowSpec.BindingRefs.{collect_step_binding_ids, collect_step_reference_ids}
use workflow_spec.DslCompiler.NodeWalk.{ScopePath, case_scope_of, body_scope_of}
use workflow_spec.DslCompiler.SemanticValidation.{ReferenceSite, sites, is_visible}

-- Every id that a node of the document has, at any depth, with the scope it stands in.
unfoldable mutual
  pub definitions : Nodes → ScopePath → Dict ScopePath
  definitions nil scope = []
  definitions (cons n ns) scope = node_definitions n scope ++ definitions ns scope

  pub node_definitions : Node → ScopePath → Dict ScopePath
  node_definitions (plain s) scope = (s.id, scope) ∷ []
  node_definitions (branch id selector cases) scope = (id, scope) ∷ case_definitions id cases scope
  node_definitions (map_node id source body yields) scope =
      (id, scope) ∷ definitions body (body_scope_of scope id)

  pub case_definitions : String → Cases → ScopePath → Dict ScopePath
  case_definitions id end_cases scope = []
  case_definitions id (case key steps yields rest) scope =
      definitions steps (case_scope_of scope id key) ++ case_definitions id rest scope

abbrev pub all_sites : String → ScopePath → List Binding → List ReferenceSite
all_sites id scope [] = []
all_sites id scope (b ∷ bs) = sites id scope (collect_step_binding_ids b) ++ all_sites id scope bs

-- Every reference to a step that a node makes, with the scope it is made from.
unfoldable mutual
  pub node_list_sites : Nodes → ScopePath → List ReferenceSite
  node_list_sites nil scope = []
  node_list_sites (cons n ns) scope = node_sites n scope ++ node_list_sites ns scope

  pub node_sites : Node → ScopePath → List ReferenceSite
  node_sites (plain s) scope = sites s.id scope (collect_step_reference_ids s)
  node_sites (branch id selector cases) scope =
      sites id scope (collect_step_binding_ids selector) ++ case_sites id cases scope
  node_sites (map_node id source body yields) scope =
      (sites id scope (collect_step_binding_ids source)
        ++ node_list_sites body (body_scope_of scope id))
      ++ all_sites id (body_scope_of scope id) (values yields)

  pub case_sites : String → Cases → ScopePath → List ReferenceSite
  case_sites id end_cases scope = []
  case_sites id (case key steps yields rest) scope =
      (node_list_sites steps (case_scope_of scope id key)
        ++ all_sites id (case_scope_of scope id key) (values yields))
      ++ case_sites id rest scope

abbrev pub fallback_site : String → Option Binding → List ReferenceSite
fallback_site key none = []
fallback_site key (some b) = sites key [] (collect_step_binding_ids b)

abbrev pub fallback_sites : Dict SessionStateDeclaration → List ReferenceSite
fallback_sites [] = []
fallback_sites ((key, decl) ∷ rest) = fallback_site key decl.fallback ++ fallback_sites rest

unfoldable pub document_sites : WorkflowSpec → List ReferenceSite
document_sites spec =
    (node_list_sites spec.steps [] ++ all_sites "" [] (values spec.outputs))
    ++ fallback_sites spec.session_state

-- A reference that names a node which is visible from where it is made.
abbrev pub resolves : Dict ScopePath → ReferenceSite → Bool
resolves defs ref = elim (lookup ref.target_id defs) [
  | none ↦ false
  | some scope ↦ is_visible scope ref.site_scope
]

-- No id stands twice, and every reference resolves.
abbrev pub IsSound : WorkflowSpec → Type 0
IsSound spec =
    Distinct (keys (definitions spec.steps []))
    × All (λ r. resolves (definitions spec.steps []) r ≡ true) (document_sites spec)
