-- ===== src/DslCompiler/NodeWalk.antt =====
-- src/dsl-compiler/node-walk.ts
use workflow_spec.Prelude.{String, ◌<>◌, List, [], ◌∷◌, ◌++◌}
use workflow_spec.Json.{Dict}
use workflow_spec.WorkflowSpec.Domain.{
  Binding, Step, Node, Nodes, Cases, nil, cons, plain, branch, map_node, end_cases, case,
}

-- From the document's root inward.
abbrev pub ScopePath : Type 0
ScopePath = List String

-- A visitor's callbacks, on the state that they change; each gets the fields it may read.
pub record NodeVisitor (S : Type 0) : Type 0 where
  pub on_step : Step → ScopePath → S → S
  pub on_branch : (id : String) → (selector : Binding) → ScopePath → S → S
  pub on_case_walked : (id : String) → (yields : Dict Binding) → ScopePath → S → S
  pub on_map : (id : String) → (source : Binding) → ScopePath → S → S
  pub on_body_walked : (id : String) → (yields : Dict Binding) → ScopePath → S → S

abbrev pub case_scope_of : ScopePath → String → String → ScopePath
case_scope_of scope id key = scope ++ (("branch:" <> id) ∷ ("case:" <> key) ∷ [])

abbrev pub body_scope_of : ScopePath → String → ScopePath
body_scope_of scope id = scope ++ (("map:" <> id) ∷ [])

module _ {S : Type 0} (v : NodeVisitor S) where
  unfoldable mutual
    pub walk_nodes : Nodes → ScopePath → S → S
    walk_nodes nil scope s = s
    walk_nodes (cons n ns) scope s = walk_nodes ns scope (walk_node n scope s)

    pub walk_node : Node → ScopePath → S → S
    walk_node (plain step) scope s = v.on_step step scope s
    walk_node (branch id selector cases) scope s =
        walk_cases id cases scope (v.on_branch id selector scope s)
    walk_node (map_node id source body yields) scope s =
        v.on_body_walked id yields (body_scope_of scope id)
          (walk_nodes body (body_scope_of scope id) (v.on_map id source scope s))

    pub walk_cases : String → Cases → ScopePath → S → S
    walk_cases id end_cases scope s = s
    walk_cases id (case key steps yields rest) scope s = walk_cases id rest scope (
        v.on_case_walked id yields (case_scope_of scope id key)
          (walk_nodes steps (case_scope_of scope id key) s))
