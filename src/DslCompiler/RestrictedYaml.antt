-- ===== src/DslCompiler/RestrictedYaml.antt =====
-- src/dsl-compiler/restricted-yaml.ts. What the yaml library parses a text to is data here; the
-- parser itself is a parameter.
use mathlib.Core.List.{flat_map}
use workflow_spec.Prelude.{
  String, Bool, false, List, [], ◌∷◌, ◌++◌, map, Option, none, some, ◌==◌, string_eq, if◌then◌else◌,
}
use workflow_spec.Json.{Json, str}
use workflow_spec.DslCompiler.Domain.{CompileError, restricted_yaml_violation}

-- What `visit` passes to its callback: a node's anchor, the source of an alias, its tag, and for a
-- map the keys, where a key that is no scalar is `none`.
pub record YamlNode : Type 0 where
  pub anchor : Option String
  pub alias_source : Option String
  pub tag : Option String
  pub keys : List (Option Json)

-- `parseDocument`'s result: its errors' messages, the nodes in the order of `visit`, and `toJS()`.
pub record YamlDocument : Type 0 where
  pub errors : List String
  pub nodes : List YamlNode
  pub js : Json

-- WHOLE_DOCUMENT_ERROR_PATH and YAML_MERGE_KEY
abbrev pub restricted_yaml_error : CompileError
restricted_yaml_error = record { code = restricted_yaml_violation; path = "" }

abbrev pub yaml_merge_key : String
yaml_merge_key = "<<"

-- A text that is there and not empty.
abbrev pub if_truthy : Option String → List CompileError
if_truthy none = []
if_truthy (some s) = if s == "" then [] else restricted_yaml_error ∷ []

abbrev pub if_alias : Option String → List CompileError
if_alias none = []
if_alias (some source) = restricted_yaml_error ∷ []

abbrev pub is_merge_key : Option Json → Bool
is_merge_key (some (str s)) = s == yaml_merge_key
is_merge_key _ = false

abbrev pub key_violations : List (Option Json) → List CompileError
key_violations [] = []
key_violations (k ∷ ks) =
    if is_merge_key k then restricted_yaml_error ∷ key_violations ks else key_violations ks

-- The callback.
unfoldable pub node_violations : YamlNode → List CompileError
unfolding string_eq
node_violations node =
    if_truthy node.anchor
    ++ (if_alias node.alias_source ++ (if_truthy node.tag ++ key_violations node.keys))

unfoldable pub find_restricted_profile_violations : YamlDocument → List CompileError
unfolding node_violations
find_restricted_profile_violations doc = flat_map node_violations doc.nodes

pub data ParsedYamlResult : Type 0 where
  parsed : Json → ParsedYamlResult
  not_parsed : List CompileError → ParsedYamlResult

abbrev pub if_restricted : List CompileError → Json → ParsedYamlResult
if_restricted [] js = parsed js
if_restricted (e ∷ violations) js = not_parsed (e ∷ violations)

abbrev pub if_readable : List String → YamlDocument → ParsedYamlResult
if_readable [] doc = if_restricted (find_restricted_profile_violations doc) doc.js
if_readable (e ∷ errors) doc = not_parsed (map (λ _. restricted_yaml_error) (e ∷ errors))

unfoldable pub parse_restricted_yaml : (String → YamlDocument) → String → ParsedYamlResult
unfolding find_restricted_profile_violations
parse_restricted_yaml parse_document source =
    let doc = parse_document source in if_readable doc.errors doc
