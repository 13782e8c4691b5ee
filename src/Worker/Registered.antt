-- ===== src/Worker/Registered.antt =====
-- Requests for functions that the registry holds.
use mathlib.Core.List.{Perm}
use mathlib.Core.List.Perm
use workflow_spec.Prelude.{
  ℕ, ◌≡◌, ◌↔◌, refl, ap, ◌∙◌, sym, subst, String, Bool, true, List, [], ◌∷◌, ◌++◌, Option, none,
  some, arith, first, string_eq, nat_eq, All, Bool-cases, inl, inr, append_nil_both,
}
use workflow_spec.Json.{Json, Dict, get_property}
use workflow_spec.Shared.Errors.{returns}
use workflow_spec.Registry.Domain.{
  InvocationDescriptorEntry, InvocationStyle, flag, positional, stdin, FunctionCapability,
  ServiceImage, RegistryDb, StateReuse, no_reuse, state_id_keyed,
}
use workflow_spec.Registry.GetEntry.{get_placement_facts, PlacementFacts, find_by_digest}
use workflow_spec.Registry.CapabilityLaws.{IsCapability}
use workflow_spec.Registry.ReuseLaws.{IsReuse}
use workflow_spec.Registry.WellFormed.{positions, position_of, IsStyled, IsEntry, IsWellFormed}
use workflow_spec.Registry.Admin.{is_function}
use workflow_spec.Registry.Soundness.{IsSound}
use workflow_spec.Worker.AgentClient.{InvokeRequest}
use workflow_spec.Worker.Dispatch.{BuildInvokeRequestParams, build_invoke_request, capability_of}
use workflow_spec.Worker.Bindings.{Printing, DispatchCapability, paths_of, state_id_of, index_of}
use workflow_spec.Worker.Requests.{listed, used_capability, allowed_state_id}
use workflow_spec.Worker.Contents.{build_invoke_request_lem}
use workflow_spec.Worker.Given.{slots_given, slots_for, path_given}
use workflow_spec.Worker.Passing.{IsHeavy, may_pass}
use workflow_spec.Worker.Buildable.{build_invoke_request_iff}

-- The part of a function's facts that dispatch takes.
abbrev pub dispatch_capability : PlacementFacts → DispatchCapability
dispatch_capability facts = record {
  invocation_descriptor = facts.capability.invocation_descriptor;
  state_reuse = facts.capability.state_reuse;
}

some_inj : {A : Type 0} {a b : A} → some a ≡ some b → a ≡ b
some_inj h = cc h

All-first :
    {A : Type 0} (P : A → Type 0) (p : A → Bool) (xs : List A) (x : A)
    → All P xs
    → first p xs ≡ some x
    → P x
All-first P p [] x all h = absurd (cc h)
All-first P p (y ∷ xs) x all h = elim (Bool-cases (p y)) [
  | inl here ↦ subst P (some_inj (ground (arith, h, here))) all.0
  | inr there ↦ All-first P p xs x all.1 (ground (arith, h, there))
]

module _ (db : RegistryDb) (digest name : String) (facts : PlacementFacts)
    (sound : IsSound db) where
  found_capability :
      (o : Option ServiceImage)
      → find_by_digest digest db ≡ o
      → (r : Option FunctionCapability)
      → first (is_function digest name) db.function_capabilities ≡ r
      → get_placement_facts db digest name ≡ some facts
      → IsCapability facts.capability
  unfolding get_placement_facts
  found_capability none image r row h = absurd (ground (arith, image, h))
  found_capability (some i) image none row h = absurd (ground (arith, image, row, h))
  found_capability (some i) image (some c) row h =
      let is : c.capability ≡ facts.capability = ground (arith, image, row, h) in
      subst IsCapability is (
        All-first (λ (row : FunctionCapability). IsCapability row.capability)
          (is_function digest name) db.function_capabilities c sound.capabilities row)

  get_placement_facts-IsCapability :
      get_placement_facts db digest name ≡ some facts → IsCapability facts.capability
  get_placement_facts-IsCapability =
      found_capability (find_by_digest digest db) refl
        (first (is_function digest name) db.function_capabilities) refl

slot_none :
    (style : InvocationStyle) (name : Option String) (o : Option ℕ) (i : ℕ) (paths : List String)
    → IsStyled style name o
    → position_of style o ≡ []
    → slots_for style i paths ≡ []
slot_none flag name o i paths styled h = refl
slot_none stdin name o i paths styled h = refl
slot_none positional name none i paths styled h = absurd styled
slot_none positional name (some j) i paths styled h = absurd (cc h)

slots_none :
    (input : Dict (Option Json)) (ds : List InvocationDescriptorEntry)
    → All IsEntry ds
    → positions ds ≡ []
    → slots_given input ds ≡ []
slots_none input [] entries h = refl
slots_none input (d ∷ ds) entries h =
    let (none_here, none_behind) =
      append_nil_both (position_of d.style d.position_index) (positions ds) h in
    ap (λ slots. slots ++ slots_given input ds)
      (slot_none d.style d.flag_name d.position_index (index_of d)
        (path_given (get_property d.param input)) entries.0.1 none_here)
    ∙ slots_none input ds entries.1 none_behind

keyed_none :
    (reuse : StateReuse) (ds : List InvocationDescriptorEntry) (hash : Option String) (id : String)
    → IsReuse reuse ds
    → state_id_of reuse hash ≡ some id
    → positions ds ≡ []
keyed_none no_reuse ds hash id is h = absurd (cc h)
keyed_none state_id_keyed [] hash id is h = absurd is
keyed_none state_id_keyed (d ∷ ds) hash id is h = is

module _ (printing : Printing) (print : ℕ → String) (db : RegistryDb) (digest name : String)
    (facts : PlacementFacts) (params : BuildInvokeRequestParams) where
  -- For a function that a sound registry holds, and whose capability dispatch is given: a request is
  -- built exactly if each heavy parameter that reading the input finds a value for, its own or one
  -- inherited from `Object.prototype`, finds a safe path, so no inherited one is found, and each
  -- other defined value of the input is named like a flag and, as a text, does not begin with a
  -- dash. No two positional arguments meet in one slot.
  pub build_invoke_request_registered :
      IsSound db
      → get_placement_facts db digest name ≡ some facts
      → params.capability ≡ some (dispatch_capability facts)
      → ((request : InvokeRequest) × (build_invoke_request printing print params ≡ returns request))
        ↔ (All
              (λ (e : InvocationDescriptorEntry).
                IsHeavy (get_property e.param params.resolved_input))
              (used_capability params).invocation_descriptor
            × All
                (λ given.
                  may_pass printing (used_capability params).invocation_descriptor given ≡ true)
                params.resolved_input)
  build_invoke_request_registered sound found is =
      let capability = get_placement_facts-IsCapability db digest name facts sound found in
      build_invoke_request_iff printing print params (
        subst (λ c. IsWellFormed (capability_of c).invocation_descriptor) (sym is)
          capability.descriptor)

  -- For a function that a sound registry holds, and whose capability dispatch is given: if that
  -- capability's reuse of state is keyed by a state id and dispatch is given a content hash that is
  -- not empty, so that data files carry it as their state id, then a request that is built has no
  -- positional argument, which could not carry one.
  pub build_invoke_request_keyed :
      (request : InvokeRequest) (id : String)
      → IsSound db
      → get_placement_facts db digest name ≡ some facts
      → params.capability ≡ some (dispatch_capability facts)
      → allowed_state_id params ≡ some id
      → build_invoke_request printing print params ≡ returns request
      → listed request.positional_args ≡ []
  build_invoke_request_keyed request id sound found is keyed built =
      let capability = get_placement_facts-IsCapability db digest name facts sound found in
      let (args, files, slots, perm, ascending, positional_is) =
        build_invoke_request_lem printing print params request built in
      let ds = facts.capability.invocation_descriptor in
      let none_given : slots_given params.resolved_input
            (used_capability params).invocation_descriptor
          ≡ [] =
        subst (λ c. slots_given params.resolved_input (capability_of c).invocation_descriptor ≡ [])
          (sym is)
          (slots_none params.resolved_input ds capability.descriptor.entries (
            keyed_none facts.capability.state_reuse ds params.content_hash id capability.reuse (
              subst (λ c. state_id_of (capability_of c).state_reuse params.content_hash ≡ some id)
                is keyed))) in
      positional_is ∙ ap paths_of (Perm.eq-nil (subst (Perm slots) none_given perm))
