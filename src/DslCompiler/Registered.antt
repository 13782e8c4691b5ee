-- ===== src/DslCompiler/Registered.antt =====
-- Which documents `validate_service_references` accepts.
use mathlib.Core.List.{append_assoc, append-nil}
use workflow_spec.Prelude.{
  append_nil_both, ◌≡◌, ◌↔◌, refl, ap, sym, ◌∙◌, subst, String, Bool, true, false, ◌&&◌, ◌||◌, List,
  [], ◌∷◌, ◌++◌, Option, none, some, arith, string_eq, ◌==◌, any, All, select, first,
}
use workflow_spec.Json.{Dict, lookup}
use workflow_spec.WorkflowSpec.Domain.{
  Step, Node, Nodes, Cases, nil, cons, plain, branch, map_node, end_cases, case, WorkflowSpec,
}
use workflow_spec.Registry.Domain.{
  FunctionCapability, FunctionCapabilityInput, RegistryEntry, RegistryDb,
}
use workflow_spec.Registry.GetEntry.{
  get_entry, get_placement_facts, has_digest, assign, collect_functions, list_by_digest,
}
use workflow_spec.DslCompiler.NodeWalk.{
  ScopePath, walk_nodes, walk_node, walk_cases, case_scope_of, body_scope_of,
}
use workflow_spec.DslCompiler.RegistryValidation.{
  digest_from_service_ref, step_collector, collect_all_steps, Cache, has_own, entry_errors,
  get_entry_cached, check_steps, validate_service_references,
}

-- Every step of the document, at any depth.
unfoldable mutual
  pub document_steps : Nodes → List Step
  document_steps nil = []
  document_steps (cons n ns) = node_steps n ++ document_steps ns

  pub node_steps : Node → List Step
  node_steps (plain s) = s ∷ []
  node_steps (branch id selector cases) = case_steps cases
  node_steps (map_node id source body yields) = document_steps body

  pub case_steps : Cases → List Step
  case_steps end_cases = []
  case_steps (case key steps yields rest) = document_steps steps ++ case_steps rest

mutual
  unfolding walk_nodes walk_node walk_cases document_steps node_steps case_steps

  collect_nodes :
      (ns : Nodes) (scope : ScopePath) (acc : List Step)
      → walk_nodes step_collector ns scope acc ≡ acc ++ document_steps ns
  collect_nodes nil scope acc = sym (append-nil acc)
  collect_nodes (cons n ns) scope acc =
      collect_nodes ns scope (walk_node step_collector n scope acc)
      ∙ ap (λ steps. steps ++ document_steps ns) (collect_node n scope acc)
      ∙ append_assoc acc (node_steps n) (document_steps ns)

  collect_node :
      (n : Node) (scope : ScopePath) (acc : List Step)
      → walk_node step_collector n scope acc ≡ acc ++ node_steps n
  collect_node (plain s) scope acc = refl
  collect_node (branch id selector cases) scope acc = collect_cases id cases scope acc
  collect_node (map_node id source body yields) scope acc =
      collect_nodes body (body_scope_of scope id) acc

  collect_cases :
      (id : String) (cases : Cases) (scope : ScopePath) (acc : List Step)
      → walk_cases step_collector id cases scope acc ≡ acc ++ case_steps cases
  collect_cases id end_cases scope acc = sym (append-nil acc)
  collect_cases id (case key steps yields rest) scope acc =
      collect_cases id rest scope (walk_nodes step_collector steps (case_scope_of scope id key) acc)
      ∙ ap (λ ss. ss ++ case_steps rest) (collect_nodes steps (case_scope_of scope id key) acc)
      ∙ append_assoc acc (document_steps steps) (case_steps rest)

has_own-assign :
    (x k : String) (v : FunctionCapabilityInput) (d : Dict FunctionCapabilityInput)
    → has_own (assign k v d) x ≡ (x == k || has_own d x)
unfolding assign lookup
has_own-assign x k v [] = ground arith
has_own-assign x k v ((j, w) ∷ d) = ground (arith, has_own-assign x k v d)

abbrev named : String → FunctionCapability → Bool
named x c = x == c.function_name

has_own-collect_functions :
    (x : String) (cs : List FunctionCapability) (d : Dict FunctionCapabilityInput)
    → has_own (collect_functions cs d) x ≡ (any (named x) cs || has_own d x)
unfolding collect_functions
has_own-collect_functions x [] d = refl
has_own-collect_functions x (c ∷ cs) d = ground (
  arith,
  has_own-collect_functions x cs (assign c.function_name c.capability d),
  has_own-assign x c.function_name c.capability d,
)

-- A row of this digest with this name, whichever way it is looked for.
any-select-first :
    (digest x : String) (cs : List FunctionCapability)
    → any (named x) (select (has_digest digest) cs)
      ≡ elim (first (λ (c : FunctionCapability). has_digest digest c && c.function_name == x) cs) [
        | none ↦ false
        | some _ ↦ true
      ]
any-select-first digest x [] = refl
any-select-first digest x (c ∷ cs) = ground (arith, any-select-first digest x cs)

-- The registry has placement facts for the step's service and function.
abbrev pub has_facts : RegistryDb → Step → Bool
has_facts db s = elim (get_placement_facts db (digest_from_service_ref s.service) s.function) [
  | none ↦ false
  | some _ ↦ true
]

-- The entry that belongs to each digest in the cache.
module _ (ordered : List FunctionCapability → List FunctionCapability) (db : RegistryDb) where
  abbrev IsCache : Cache → Type 0
  IsCache cache = All (λ kv. kv.1 ≡ get_entry ordered db kv.0) cache

  cached :
      (digest : String) (cache : Cache)
      → IsCache cache
      → (elim (lookup digest cache) [ none ↦ get_entry ordered db digest | some e ↦ e ])
        ≡ get_entry ordered db digest
  unfolding lookup
  cached digest [] is = refl
  cached digest ((k, e) ∷ cache) is =
      ground (arith, is.0, cached digest cache is.1, ap (get_entry ordered db) {x = digest} {y = k})

  IsCache-snoc :
      (digest : String) (cache : Cache)
      → IsCache cache
      → IsCache (cache ++ ((digest, get_entry ordered db digest) ∷ []))
  IsCache-snoc digest [] is = (refl, tt)
  IsCache-snoc digest (kv ∷ cache) is = (is.0, IsCache-snoc digest cache is.1)

  get_entry_cached_lem :
      (digest : String) (cache : Cache)
      → IsCache cache
      → ((get_entry_cached ordered db digest cache).0 ≡ get_entry ordered db digest)
        × IsCache (get_entry_cached ordered db digest cache).1
  unfolding get_entry_cached
  get_entry_cached_lem digest cache is = go (lookup digest cache) refl
    where
      go :
          (o : Option (Option RegistryEntry))
          → lookup digest cache ≡ o
          → ((get_entry_cached ordered db digest cache).0 ≡ get_entry ordered db digest)
            × IsCache (get_entry_cached ordered db digest cache).1
      go none found =
          (ground (arith, found), rw (found, get_entry_cached) (IsCache-snoc digest cache is))
      go (some e) found =
          (ground (arith, found, cached digest cache is), rw (found, get_entry_cached) is)

  module _
      (keeps : (p : FunctionCapability → Bool) (cs : List FunctionCapability)
        → any p (ordered cs) ≡ any p cs) where
    entry_errors_nil :
        (s : Step)
        → (entry_errors s (get_entry ordered db (digest_from_service_ref s.service)) ≡ [])
          ↔ (has_facts db s ≡ true)
    unfolding get_entry get_placement_facts list_by_digest lookup
    entry_errors_nil s =
        let digest = digest_from_service_ref s.service in
        let rows = select (has_digest digest) db.function_capabilities in
        let own = has_own-collect_functions s.function (ordered rows) [] in
        let kept = keeps (named s.function) rows in
        let same = any-select-first digest s.function db.function_capabilities in
        (λ h. ground (arith, own, kept, same), λ h. ground (arith, own, kept, same))

    check_steps_nil :
        (steps : List Step) (cache : Cache)
        → IsCache cache
        → (check_steps ordered db steps cache ≡ []) ↔ All (λ s. has_facts db s ≡ true) steps
    unfolding check_steps
    check_steps_nil [] cache is = (λ h. tt, λ h. refl)
    check_steps_nil (s ∷ steps) cache is =
        let digest = digest_from_service_ref s.service in
        let (entry, is') = get_entry_cached_lem digest cache is in
        let found = get_entry_cached ordered db digest cache in
        let (there, back) = check_steps_nil steps found.1 is' in
        let (on, off) = entry_errors_nil s in
        (
          λ h.
              let (a, b) =
                append_nil_both (entry_errors s found.0) (check_steps ordered db steps found.1) h in
              (on (ap (entry_errors s) (sym entry) ∙ a), there b),
          λ h. ground (arith, ap (entry_errors s) entry, off h.0, back h.1),
        )

    -- Where the database's order keeps the rows: the compiler's check against the registry finds
    -- no error in a document exactly if, for every step at any depth, the registry has placement
    -- facts for the digest of its service and its function.
    pub validate_service_references_iff :
        (spec : WorkflowSpec)
        → (validate_service_references ordered db spec ≡ [])
          ↔ All (λ s. has_facts db s ≡ true) (document_steps spec.steps)
    unfolding validate_service_references collect_all_steps
    validate_service_references_iff spec =
        subst
          (λ steps.
            (check_steps ordered db steps [] ≡ [])
            ↔ All (λ s. has_facts db s ≡ true) (document_steps spec.steps))
          (sym (collect_nodes spec.steps [] [])) (check_steps_nil (document_steps spec.steps) [] tt)
