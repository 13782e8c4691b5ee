-- ===== src/Engine/Plain.antt =====
-- What `assert_plain_steps` accepts.
use workflow_spec.Prelude.{
  String, ◌≡◌, ◌↔◌, refl, ap, ◌∙◌, Bool, if◌then◌else◌, true, false, List, [], ◌∷◌, map, arith,
  contains, string_eq, Distinct, Avoids, Avoids-nil, Avoids-cons, Avoids-uncons,
}
use workflow_spec.Shared.Errors.{Result, returns, throws, fatal, engine_duplicate_node_id, ◌>>=◌}
use workflow_spec.WorkflowSpec.Domain.{Step, Node, plain, branch, map_node, node_list, WorkflowSpec}
use workflow_spec.Engine.Interpreter.{plain_steps, assert_plain_steps}

abbrev pub ids : List Step → List String
ids steps = map (λ (s : Step). s.id) steps

-- The document's nodes are these steps, with no id twice.
abbrev pub ArePlain : List Node → List Step → Type 0
ArePlain nodes steps = (nodes ≡ map plain steps) × Distinct (ids steps)

record Uncons (s : Step) (r : Result (List Step)) (old : Bool) (steps : List Step) : Type 0 where
  fresh : old ≡ false
  rest : List Step
  result : r ≡ returns rest
  whole : steps ≡ s ∷ rest

uncons :
    (s : Step) (r : Result (List Step)) (old : Bool) (steps : List Step)
    → (if old then throws (fatal engine_duplicate_node_id) else r >>= λ rest. returns (s ∷ rest))
      ≡ returns steps
    → Uncons s r old steps
uncons s r true steps h = cc
uncons s (throws e) false steps h = cc
uncons s (returns rest) false steps h = record {
  fresh = refl;
  rest = rest;
  result = refl;
  whole = ground arith;
}

plain_steps_sound :
    (seen : List String) (nodes : List Node) (steps : List Step)
    → plain_steps seen nodes ≡ returns steps
    → ArePlain nodes steps × Avoids seen (ids steps)
unfolding plain_steps
plain_steps_sound seen [] [] h = ((refl, tt), tt)
plain_steps_sound seen [] (t ∷ steps) h = cc
plain_steps_sound seen (branch id b c ∷ nodes) steps h = cc
plain_steps_sound seen (map_node id b n y ∷ nodes) steps h = cc
plain_steps_sound seen (plain s ∷ nodes) steps h =
    let u = uncons s (plain_steps (s.id ∷ seen) nodes) (contains seen s.id) steps h in
    let ((shape, distinct), avoids) = plain_steps_sound (s.id ∷ seen) nodes u.rest u.result in
    let (new, avoids') = Avoids-uncons s.id seen (ids u.rest) avoids in
    rw u.whole ((ap (λ (ns : List Node). plain s ∷ ns) shape, (new, distinct)), (u.fresh, avoids'))

plain_steps_complete :
    (seen : List String) (steps : List Step)
    → Distinct (ids steps)
    → Avoids seen (ids steps)
    → plain_steps seen (map plain steps) ≡ returns steps
unfolding plain_steps
plain_steps_complete seen [] d a = refl
plain_steps_complete seen (s ∷ steps) d a = ground (
  arith,
  plain_steps_complete (s.id ∷ seen) steps d.1 (Avoids-cons s.id seen (ids steps) d.0 a.1),
)

-- `assert_plain_steps` returns a list of steps exactly when the document's top-level nodes are
-- those steps in order, none of them a branch or a map, and no two have one id.
pub assert_plain_steps_iff :
    (spec : WorkflowSpec) (steps : List Step)
    → (assert_plain_steps spec ≡ returns steps) ↔ ArePlain (node_list spec.steps) steps
unfolding assert_plain_steps
assert_plain_steps_iff spec steps = (
  λ h. (plain_steps_sound [] (node_list spec.steps) steps h).0,
  λ h. ap (plain_steps []) h.0 ∙ plain_steps_complete [] steps h.1 (Avoids-nil (ids steps)),
)
