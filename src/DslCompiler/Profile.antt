-- ===== src/DslCompiler/Profile.antt =====
-- Which texts are of the restricted YAML profile.
use mathlib.Core.List.{flat_map}
use workflow_spec.Prelude.{
  ◌≡◌, ◌↔◌, refl, String, false, List, [], ◌∷◌, Option, none, some, arith, string_eq, All,
  append_nil_both,
}
use workflow_spec.Json.{Json}
use workflow_spec.DslCompiler.Domain.{CompileError}
use workflow_spec.DslCompiler.RestrictedYaml.{
  YamlNode, YamlDocument, parsed, not_parsed, if_truthy, if_alias, key_violations, is_merge_key,
  node_violations, find_restricted_profile_violations, if_restricted, if_readable,
  parse_restricted_yaml,
}

pub parsed_inj : {a b : Json} → parsed a ≡ parsed b → a ≡ b
parsed_inj h = cc h

pub not_both : {a : Json} {errors : List CompileError} → parsed a ≡ not_parsed errors → ⊥
not_both h = cc h

abbrev pub IsAbsent : Option String → Type 0
IsAbsent none = Unit
IsAbsent (some s) = s ≡ ""

-- A node with no anchor, no tag and no merge key, which is no alias.
pub record IsRestricted (node : YamlNode) : Type 0 where
  pub anchor : IsAbsent node.anchor
  pub no_alias : node.alias_source ≡ none
  pub tag : IsAbsent node.tag
  pub keys : All (λ k. is_merge_key k ≡ false) node.keys

truthy_iff : (o : Option String) → (if_truthy o ≡ []) ↔ IsAbsent o
truthy_iff none = (λ h. tt, λ h. refl)
truthy_iff (some s) = (λ h. ground (arith, h), λ h. ground (arith, h))

alias_iff : (o : Option String) → (if_alias o ≡ []) ↔ (o ≡ none)
alias_iff none = (λ h. refl, λ h. refl)
alias_iff (some s) = (λ h. absurd (cc h), λ h. absurd (cc h))

keys_iff :
    (ks : List (Option Json)) → (key_violations ks ≡ []) ↔ All (λ k. is_merge_key k ≡ false) ks
keys_iff [] = (λ h. tt, λ h. refl)
keys_iff (k ∷ ks) =
    let (on, off) = keys_iff ks in
    (λ h. (ground (arith, h), on (ground (arith, h))), λ h. ground (arith, h.0, off h.1))

node_iff : (node : YamlNode) → (node_violations node ≡ []) ↔ IsRestricted node
unfolding node_violations
node_iff node = (
  λ h.
      let (a, h1) = append_nil_both (if_truthy node.anchor) _ h in
      let (b, h2) = append_nil_both (if_alias node.alias_source) _ h1 in
      let (c, d) = append_nil_both (if_truthy node.tag) _ h2 in
      record {
        anchor = (truthy_iff node.anchor).0 a;
        no_alias = (alias_iff node.alias_source).0 b;
        tag = (truthy_iff node.tag).0 c;
        keys = (keys_iff node.keys).0 d;
      },
  λ is. ground (
    arith,
    (truthy_iff node.anchor).1 is.anchor,
    (alias_iff node.alias_source).1 is.no_alias,
    (truthy_iff node.tag).1 is.tag,
    (keys_iff node.keys).1 is.keys,
  ),
)

nodes_iff : (nodes : List YamlNode) → (flat_map node_violations nodes ≡ []) ↔ All IsRestricted nodes
unfolding flat_map
nodes_iff [] = (λ h. tt, λ h. refl)
nodes_iff (n ∷ nodes) =
    let (on, off) = nodes_iff nodes in
    (
      λ h.
          let (a, b) = append_nil_both (node_violations n) (flat_map node_violations nodes) h in
          ((node_iff n).0 a, on b),
      λ h. ground (arith, (node_iff n).1 h.0, off h.1),
    )

module _ (parse_document : String → YamlDocument) where
  -- The text is YAML of the restricted profile, for this value.
  abbrev pub IsSource : String → Json → Type 0
  IsSource source doc =
      ((parse_document source).errors ≡ [])
      × All IsRestricted (parse_document source).nodes
      × ((parse_document source).js ≡ doc)

  restricted :
      (vs : List CompileError) (js doc : Json)
      → (if_restricted vs js ≡ parsed doc) ↔ ((vs ≡ []) × (js ≡ doc))
  restricted [] js doc = (λ h. (refl, cc h), λ h. cc (h.1))
  restricted (v ∷ vs) js doc = (λ h. absurd (cc h), λ h. absurd (cc (h.0)))

  readable :
      (errors : List String) (y : YamlDocument) (doc : Json)
      → (if_readable errors y ≡ parsed doc)
        ↔ ((errors ≡ []) × All IsRestricted y.nodes × (y.js ≡ doc))
  unfolding find_restricted_profile_violations
  readable [] y doc =
      let (on, off) = restricted (find_restricted_profile_violations y) y.js doc in
      let (there, back) = nodes_iff y.nodes in
      (λ h. let (clean, is) = on h in (refl, there clean, is), λ h. off (back h.1, h.2))
  readable (e ∷ errors) y doc = (λ h. absurd (cc h), λ h. absurd (cc h.0))

  pub parse_restricted_yaml_iff :
      (source : String) (doc : Json)
      → (parse_restricted_yaml parse_document source ≡ parsed doc) ↔ IsSource source doc
  unfolding parse_restricted_yaml
  parse_restricted_yaml_iff source doc =
      readable (parse_document source).errors (parse_document source) doc
