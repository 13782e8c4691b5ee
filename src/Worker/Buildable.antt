-- ===== src/Worker/Buildable.antt =====
-- When `buildInvokeRequest` returns a request.
use workflow_spec.Prelude.{
  ℕ, ◌≡◌, ◌↔◌, refl, ap, ◌∙◌, String, true, false, List, [], ◌∷◌, ◌++◌, Option, none, some, ◌==◌,
  contains, nat_eq, string_eq, arith, All, All-split, Distinct,
}
use workflow_spec.Json.{
  Json, null, bool, num, str, arr, obj, Dict, Property, get_property, own, inherited, missing,
}
use workflow_spec.Shared.Errors.{returns, >>=-returns, ◌>>=◌}
use workflow_spec.Registry.Domain.{
  InvocationDescriptorEntry, InvocationStyle, flag, positional, stdin,
}
use workflow_spec.Registry.WellFormed.{positions, position_of, IsStyled, IsEntry, IsWellFormed}
use workflow_spec.Worker.Dispatch.{unless_empty, BuildInvokeRequestParams, build_invoke_request}
use workflow_spec.Worker.Bindings.{
  Printing, assert_heavy_binding_is_path, Rendering, paths_of, sort_by_index, has_index, or_zero,
  index_of, place_as, place_binding, render_entry, render_entries, render_heavy_bindings,
}
use workflow_spec.Worker.AgentClient.{InvokeRequest}
use workflow_spec.Worker.Requests.{used_capability, allowed_state_id, build_invoke_request-IsBuilt}
use workflow_spec.Worker.Passing.{
  IsHeavy, may_pass, translate_args-passes, passes-translate_args, heavy_passes, passes-IsHeavy,
}

-- The slots are still free.
abbrev Free : Rendering → List ℕ → Type 0
Free r = All (λ i. has_index i r.by_index ≡ false)

Distinct-behind : (xs ys : List ℕ) → Distinct (xs ++ ys) → Distinct ys
Distinct-behind [] ys h = h
Distinct-behind (x ∷ xs) ys h = Distinct-behind xs ys h.1

still_free :
    (i : ℕ) (path : String) (slots : List (ℕ × String)) (j : ℕ)
    → has_index j slots ≡ false
    → (i == j) ≡ false
    → has_index j (slots ++ ((i, path) ∷ [])) ≡ false
still_free i path [] j free other = ground (arith, other)
still_free i path (s ∷ slots) j free other =
    ground (arith, free, still_free i path slots j (ground (arith, free)) other)

others : (i : ℕ) (rest : List ℕ) → contains rest i ≡ false → All (λ j. (i == j) ≡ false) rest
others i [] h = tt
others i (j ∷ rest) h = (ground (arith, h), others i rest (ground (arith, h)))

Free-behind :
    (r : Rendering) (i : ℕ) (path : String) (rest : List ℕ)
    → Free r rest
    → All (λ j. (i == j) ≡ false) rest
    → Free (record r { by_index = r.by_index ++ ((i, path) ∷ []) }) rest
Free-behind r i path [] free off = tt
Free-behind r i path (j ∷ rest) free off =
    (still_free i path r.by_index j free.0 off.0, Free-behind r i path rest free.1 off.1)

module _ (state_id : Option String) where
  place_passes :
      (style : InvocationStyle) (o : Option ℕ) (e : InvocationDescriptorEntry) (path : String)
      (r : Rendering) (rest : List ℕ)
      → e.position_index ≡ o
      → IsStyled style e.flag_name o
      → Free r (position_of style o ++ rest)
      → Distinct (position_of style o ++ rest)
      → (r' : Rendering) × (place_as style e state_id path r ≡ returns r') × Free r' rest
  place_passes flag o e path r rest is styled free distinct = (_, refl, free)
  place_passes stdin o e path r rest is styled free distinct = (_, refl, free)
  place_passes positional none e path r rest is styled free distinct = absurd styled
  place_passes positional (some i) e path r rest is styled free distinct =
      let at : index_of e ≡ i = ap or_zero is in
      (
        record r { by_index = r.by_index ++ ((i, path) ∷ []) },
        ground (arith, at, free.0),
        Free-behind r i path rest free.1 (others i rest distinct.0),
      )

  render_entry_passes :
      (e : InvocationDescriptorEntry) (v : Property (Option Json)) (r : Rendering) (rest : List ℕ)
      → IsHeavy v
      → IsEntry e
      → Free r (position_of e.style e.position_index ++ rest)
      → Distinct (position_of e.style e.position_index ++ rest)
      → (r' : Rendering) × (render_entry e v state_id r ≡ returns r') × Free r' rest
  unfolding render_entry place_binding
  render_entry_passes e missing r rest heavy entry free distinct =
      (r, refl, (All-split _ (position_of e.style e.position_index) rest free).1)
  render_entry_passes e (own none) r rest heavy entry free distinct =
      (r, refl, (All-split _ (position_of e.style e.position_index) rest free).1)
  render_entry_passes e inherited r rest heavy entry free distinct = absurd heavy
  render_entry_passes e (own (some (str path))) r rest heavy entry free distinct =
      let (r', placed, free') =
        place_passes e.style e.position_index e path r rest refl entry.1 free distinct in
      (
        r',
        ap (λ m. m >>= λ path. place_as e.style e state_id path r) (heavy_passes path heavy)
            ∙ placed,
        free',
      )
  render_entry_passes e (own (some null)) r rest heavy entry free distinct = absurd heavy
  render_entry_passes e (own (some (bool b))) r rest heavy entry free distinct = absurd heavy
  render_entry_passes e (own (some (num n))) r rest heavy entry free distinct = absurd heavy
  render_entry_passes e (own (some (arr xs))) r rest heavy entry free distinct = absurd heavy
  render_entry_passes e (own (some (obj fs))) r rest heavy entry free distinct = absurd heavy

  passes_render_entry :
      (e : InvocationDescriptorEntry) (v : Property (Option Json)) (r r' : Rendering)
      → render_entry e v state_id r ≡ returns r'
      → IsHeavy v
  unfolding render_entry
  passes_render_entry e missing r r' h = tt
  passes_render_entry e inherited r r' h = absurd (cc h)
  passes_render_entry e (own none) r r' h = tt
  passes_render_entry e (own (some v)) r r' h =
      let (path, is, placed) =
        >>=-returns (assert_heavy_binding_is_path v) (λ path. place_binding e state_id path r) r'
          h in
      passes-IsHeavy v path is

  module _ (input : Dict (Option Json)) where
    abbrev AllHeavy : List InvocationDescriptorEntry → Type 0
    AllHeavy = All (λ e. IsHeavy (get_property e.param input))

    render_entries-pass :
        (es : List InvocationDescriptorEntry) (r : Rendering)
        → AllHeavy es
        → All IsEntry es
        → Free r (positions es)
        → Distinct (positions es)
        → (r' : Rendering) × (render_entries es input state_id r ≡ returns r')
    unfolding render_entries
    render_entries-pass [] r heavy entries free distinct = (r, refl)
    render_entries-pass (e ∷ es) r heavy entries free distinct =
        let (r1, is, free1) =
          render_entry_passes e (get_property e.param input) r (positions es) heavy.0 entries.0 free
            distinct in
        let (r2, rest) =
          render_entries-pass es r1 heavy.1 entries.1 free1
            (Distinct-behind (position_of e.style e.position_index) (positions es) distinct) in
        (r2, ap (λ m. m >>= λ r1. render_entries es input state_id r1) is ∙ rest)

    pass-render_entries :
        (es : List InvocationDescriptorEntry) (r r' : Rendering)
        → render_entries es input state_id r ≡ returns r'
        → AllHeavy es
    unfolding render_entries
    pass-render_entries [] r r' h = tt
    pass-render_entries (e ∷ es) r r' h =
        let (r1, is, rest) =
          >>=-returns (render_entry e (get_property e.param input) state_id r)
            (λ r1. render_entries es input state_id r1) r' h in
        (
          passes_render_entry e (get_property e.param input) r r1 is,
          pass-render_entries es r1 r' rest,
        )

nothing_taken : (is : List ℕ) → Free (record { data_files = []; by_index = [] }) is
nothing_taken [] = tt
nothing_taken (i ∷ is) = (refl, nothing_taken is)

-- With a descriptor that is well formed, as registration demands, a request is built exactly if
-- each heavy parameter that reading the input finds a value for, its own or one inherited from
-- `Object.prototype`, finds a safe path, and each other defined value of the input is named like a
-- flag and, as a text, does not begin with a dash. In particular no two positional arguments meet
-- in one slot.
pub build_invoke_request_iff :
    (printing : Printing) (print : ℕ → String) (params : BuildInvokeRequestParams)
    → IsWellFormed (used_capability params).invocation_descriptor
    → ((request : InvokeRequest) × (build_invoke_request printing print params ≡ returns request))
      ↔ (All
            (λ (e : InvocationDescriptorEntry).
              IsHeavy (get_property e.param params.resolved_input))
            (used_capability params).invocation_descriptor
          × All
              (λ given.
                may_pass printing (used_capability params).invocation_descriptor given ≡ true)
              params.resolved_input)
unfolding build_invoke_request render_heavy_bindings
build_invoke_request_iff printing print params well =
    let descriptor = (used_capability params).invocation_descriptor in
    let input = params.resolved_input in
    (
      λ found.
          let built = build_invoke_request-IsBuilt printing print params found.0 found.1 in
          (
            pass-render_entries (allowed_state_id params) input descriptor _ built.rendering
                built.rendered,
            passes-translate_args printing descriptor input found.0.args built.translated,
          ),
      λ ok.
          let (r, renders) =
            render_entries-pass (allowed_state_id params) input descriptor
              (record { data_files = []; by_index = [] }) ok.0 well.entries
              (nothing_taken (positions descriptor)) well.distinct_positions in
          let (args, translates) = translate_args-passes printing descriptor input ok.1 in
          (
            record {
              execution_id = print params.execution_id;
              step_id = params.step.id;
              function = params.step.function;
              args = args;
              positional_args = unless_empty (paths_of (sort_by_index r.by_index));
              data_files = unless_empty r.data_files;
              timeout_ms = params.timeout_ms;
            },
            ground (arith, renders, translates),
          ),
    )
