-- ===== src/Worker/Requests.antt =====
-- The request that `buildInvokeRequest` returns, when it does.
use workflow_spec.Prelude.{
  ℕ, ◌≡◌, refl, ◌∙◌, ap, String, List, [], ◌∷◌, Option, none, some, string_eq, All, All-map_imp,
  subst, sym,
}
use workflow_spec.Shared.Errors.{returns, >>=-returns, returns_inj}
use workflow_spec.Worker.AgentClient.{InvokeRequest}
use workflow_spec.Worker.Dispatch.{
  BuildInvokeRequestParams, capability_of, unless_empty, build_invoke_request,
}
use workflow_spec.Worker.Bindings.{
  Printing, DispatchCapability, state_id_of, paths_of, sort_by_index, Rendering, render_entries,
  render_heavy_bindings, translate_args_to_invoke_args,
}
use workflow_spec.Worker.Safety.{
  IsSafeArg, IsSafePath, IsSafeFile, IsSafeSlot, render_entries-IsSafe, translate_args-IsSafeArg,
}
use workflow_spec.Worker.Sorting.{sort_by_index-All}

-- A list that the request may leave out.
abbrev pub listed {ℓ} : {A : Type ℓ} → Option (List A) → List A
listed none = []
listed (some xs) = xs

listed-unless_empty {ℓ} : {A : Type ℓ} → (xs : List A) → listed (unless_empty xs) ≡ xs
listed-unless_empty [] = refl
listed-unless_empty (x ∷ xs) = refl

abbrev pub used_capability : BuildInvokeRequestParams → DispatchCapability
used_capability params = capability_of params.capability

abbrev pub allowed_state_id : BuildInvokeRequestParams → Option String
allowed_state_id params = state_id_of (used_capability params).state_reuse params.content_hash

module _ (printing : Printing) (print : ℕ → String) (params : BuildInvokeRequestParams) where
  -- The parts that a request is built of.
  pub record IsBuilt (request : InvokeRequest) : Type 0 where
    pub rendering : Rendering
    pub rendered :
        render_entries
          (used_capability params).invocation_descriptor
          params.resolved_input
          (allowed_state_id params)
          (record { data_files = []; by_index = [] })
        ≡ returns rendering
    pub translated :
        translate_args_to_invoke_args printing params.resolved_input
          (used_capability params).invocation_descriptor
        ≡ returns request.args
    pub files : listed request.data_files ≡ rendering.data_files
    pub positional : listed request.positional_args ≡ paths_of (sort_by_index rendering.by_index)

  pub build_invoke_request-IsBuilt :
      (request : InvokeRequest)
      → build_invoke_request printing print params ≡ returns request
      → IsBuilt request
  unfolding build_invoke_request render_heavy_bindings
  build_invoke_request-IsBuilt request h =
      let input = params.resolved_input in
      let (heavy, renders, rest) = >>=-returns _ _ request h in
      let (args, translates, is) = >>=-returns _ _ request rest in
      let (rendering, collects, sorts) = >>=-returns _ _ heavy renders in
      let same = returns_inj is in
      let same_heavy = returns_inj sorts in
      record {
        rendering = rendering;
        rendered = collects;
        translated = translates ∙ ap returns (ap (λ r. r.args) same);
        files =
            ap (λ r. listed r.data_files) (sym same)
            ∙ listed-unless_empty heavy.data_files
            ∙ ap (λ r. r.data_files) (sym same_heavy);
        positional =
            ap (λ r. listed r.positional_args) (sym same)
            ∙ listed-unless_empty heavy.positional_args
            ∙ ap (λ r. r.positional_args) (sym same_heavy);
      }

  -- A request that is built is safe for the command line that the agent runs, whatever the
  -- resolved input holds: each named argument has a flag's name, a value that does not begin with
  -- a dash, and no heavy parameter's name; each path, be it of a data file or a positional
  -- argument, is not empty, does not begin with a dash and has no segment "..". Each data file
  -- has the state id that the capability's reuse of state allows.
  pub build_invoke_request-IsSafe :
      (request : InvokeRequest)
      → build_invoke_request printing print params ≡ returns request
      → All (IsSafeArg (used_capability params).invocation_descriptor) request.args
        × All (IsSafeFile (allowed_state_id params)) (listed request.data_files)
        × All IsSafePath (listed request.positional_args)
  build_invoke_request-IsSafe request h =
      let built = build_invoke_request-IsBuilt request h in
      let (files, slots) =
        render_entries-IsSafe (allowed_state_id params)
          (used_capability params).invocation_descriptor params.resolved_input
          (record { data_files = []; by_index = [] }) built.rendering (tt, tt) built.rendered in
      (
        translate_args-IsSafeArg printing (used_capability params).invocation_descriptor
            params.resolved_input request.args built.translated,
        subst (All (IsSafeFile (allowed_state_id params))) (sym built.files) files,
        subst (All IsSafePath) (sym built.positional) (
            All-map_imp IsSafeSlot IsSafePath (λ slot. slot.1)
              (sort_by_index built.rendering.by_index) (λ slot safe. safe)
              (sort_by_index-All IsSafeSlot built.rendering.by_index slots)),
      )
