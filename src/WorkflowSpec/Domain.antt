-- ===== src/WorkflowSpec/Domain.antt =====
-- src/workflow-spec/domain/: the workflow document. An optional map or list that is absent is the
-- empty one, as every reader's `?? {}` and `?? []` has it.
use workflow_spec.Prelude.{ℕ, String, List, [], ◌∷◌, Option}
use workflow_spec.Json.{Json, Dict}

-- binding.ts; the second type is the map `using` of a `compute` binding.
mutual
  pub data Binding : Type 0 where
    static : (ref : String) → Binding
    session : (key : String) → Binding
    request : (param : String) → Binding
    step : (id output : String) → Binding
    item : Binding
    literal : Json → Binding
    compute : (logic : Json) → Using → Binding
    item_resource : (item_id : Binding) → (path : String) → Binding

  pub data Using : Type 0 where
    end : Using
    using : String → Binding → Using → Using

-- write-target.ts and secret-ref.ts
pub record SessionWriteTarget : Type 0 where
  pub key : String

pub data SecretScope : Type 0 where
  writer user : SecretScope

pub record SecretRef : Type 0 where
  pub scope : SecretScope
  pub name : String

-- node.ts
pub record Step : Type 0 where
  pub id : String
  pub service : String
  pub function : String
  pub depends_on : List String
  pub reads : Dict Binding
  pub writes : Dict SessionWriteTarget
  pub secrets : Dict SecretRef

mutual
  pub data Node : Type 0 where
    plain : Step → Node
    branch : (id : String) → (selector : Binding) → Cases → Node
    map_node : (id : String) → (source : Binding) → (body : Nodes) → (yields : Dict Binding) → Node

  pub data Nodes : Type 0 where
    nil : Nodes
    cons : Node → Nodes → Nodes

  -- `Record<string, CaseBody>`
  pub data Cases : Type 0 where
    end_cases : Cases
    case : (key : String) → (steps : Nodes) → (yields : Dict Binding) → Cases → Cases

abbrev pub node_list : Nodes → List Node
node_list nil = []
node_list (cons n ns) = n ∷ node_list ns

-- session-state.ts
pub data Interactivity : Type 0 where
  interactive batch : Interactivity

pub record SessionStateDeclaration : Type 0 where
  pub interactivity : Interactivity
  pub fallback : Option Binding

-- workflow-spec.ts
pub record WorkflowSpec : Type 0 where
  pub workflow_spec_version : ℕ
  pub name : String
  pub description : Option String
  pub input_parameters : List String
  pub session_state : Dict SessionStateDeclaration
  pub steps : Nodes
  pub outputs : Dict Binding

abbrev pub ExecutionPlan : Type 0
ExecutionPlan = WorkflowSpec
