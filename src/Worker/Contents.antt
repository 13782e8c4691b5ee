-- ===== src/Worker/Contents.antt =====
-- What of the resolved input a request carries, and where.
use workflow_spec.Worker.Given.{
  path_given, slots_for, files_for, slots_given, files_given, args_given,
}
use mathlib.Core.List.{Perm, append_assoc, append-nil}
use workflow_spec.Prelude.{
  ℕ, ◌≡◌, refl, sym, ◌∙◌, ap, subst, String, List, [], ◌∷◌, ◌++◌, Option, none, some, arith,
  contains, string_eq, nat_eq, if-both,
}
use workflow_spec.Json.{
  Json, null, bool, num, str, arr, obj, Dict, Property, get_property, own, inherited, missing,
}
use workflow_spec.Shared.Errors.{returns, >>=-returns, returns_inj, ◌>>=◌}
use workflow_spec.Registry.Domain.{
  InvocationDescriptorEntry, InvocationStyle, flag, positional, stdin,
}
use workflow_spec.Worker.AgentClient.{AgentDataFile, InvokeRequest}
use workflow_spec.Worker.Dispatch.{BuildInvokeRequestParams, build_invoke_request}
use workflow_spec.Worker.Bindings.{
  Printing, params_of, stringify_arg_value, light_arg, translate_args_to_invoke_args,
  assert_heavy_binding_is_path, Rendering, index_of, place_as, place_binding, render_entry,
  render_entries, paths_of, sort_by_index,
}
use workflow_spec.Worker.Sorting.{Ascending, sort_by_index-Perm, sort_by_index-Ascending}
use workflow_spec.Worker.Requests.{
  listed, used_capability, allowed_state_id, build_invoke_request-IsBuilt,
}

module _ (printing : Printing) (descriptor : List InvocationDescriptorEntry) where
  light_arg_lem :
      (key : String) (value : Json) (arg : String × String)
      → light_arg printing key value ≡ returns arg
      → (key, stringify_arg_value printing value) ≡ arg
  unfolding light_arg
  light_arg_lem key value arg h = ground (arith, h)

  translate_args_lem :
      (input : Dict (Option Json)) (args : Dict String)
      → translate_args_to_invoke_args printing input descriptor ≡ returns args
      → args_given printing descriptor input ≡ args
  unfolding translate_args_to_invoke_args
  translate_args_lem [] args h = returns_inj h
  translate_args_lem ((key, none) ∷ input) args h = translate_args_lem input args h
  translate_args_lem ((key, some value) ∷ input) args h =
      if-both (λ list. list ≡ args) (contains (params_of descriptor) key) _ _
        (λ heavy. translate_args_lem input args (ground (arith, h, heavy)))
        (λ light.
          let rest = translate_args_to_invoke_args printing input descriptor in
          let (arg, checked, bound) =
            >>=-returns (light_arg printing key value)
              (λ arg. rest >>= λ args. returns (arg ∷ args)) args (ground (arith, h, light)) in
          let (others, translated, is) =
            >>=-returns rest (λ args. returns (arg ∷ args)) args bound in
          cc (
            light_arg_lem key value arg checked,
            translate_args_lem input others translated,
            returns_inj is,
          ))

abbrev Extends : Rendering → List AgentDataFile → List (ℕ × String) → Rendering → Type 0
Extends r files slots r' =
    (r'.data_files ≡ r.data_files ++ files) × (r'.by_index ≡ r.by_index ++ slots)

module _ (input : Dict (Option Json)) (state_id : Option String) where
  place_as_lem :
      (style : InvocationStyle) (e : InvocationDescriptorEntry) (path : String) (r r' : Rendering)
      → place_as style e state_id path r ≡ returns r'
      → Extends r
          (files_for style e.flag_name state_id (path ∷ []))
          (slots_for style (index_of e) (path ∷ []))
          r'
  place_as_lem flag e path r r' h =
      let is = returns_inj h in
      (ap (λ x. x.data_files) (sym is), ap (λ x. x.by_index) (sym is) ∙ sym (append-nil r.by_index))
  place_as_lem stdin e path r r' h =
      let is = returns_inj h in
      (ap (λ x. x.data_files) (sym is), ap (λ x. x.by_index) (sym is) ∙ sym (append-nil r.by_index))
  place_as_lem positional e path r r' h =
      let placed : record r { by_index = r.by_index ++ ((index_of e, path) ∷ []) } ≡ r' =
        ground (arith, h) in
      (
        ap (λ x. x.data_files) (sym placed) ∙ sym (append-nil r.data_files),
        ap (λ x. x.by_index) (sym placed),
      )

  assert_heavy_lem :
      (value : Json) (path : String)
      → assert_heavy_binding_is_path value ≡ returns path
      → value ≡ str path
  unfolding assert_heavy_binding_is_path
  assert_heavy_lem (str s) path h = ground arith
  assert_heavy_lem null path h = absurd (cc h)
  assert_heavy_lem (bool b) path h = absurd (cc h)
  assert_heavy_lem (num n) path h = absurd (cc h)
  assert_heavy_lem (arr xs) path h = absurd (cc h)
  assert_heavy_lem (obj fs) path h = absurd (cc h)

  slots_for-none : (style : InvocationStyle) (i : ℕ) → slots_for style i [] ≡ []
  slots_for-none flag i = refl
  slots_for-none positional i = refl
  slots_for-none stdin i = refl

  files_for-none :
      (style : InvocationStyle) (name : Option String) → files_for style name state_id [] ≡ []
  files_for-none flag name = refl
  files_for-none positional name = refl
  files_for-none stdin name = refl

  passed_over :
      (e : InvocationDescriptorEntry) (r r' : Rendering)
      → returns r ≡ returns r'
      → Extends r (files_for e.style e.flag_name state_id []) (slots_for e.style (index_of e) []) r'
  passed_over e r r' h =
      let same = returns_inj h in
      (
        ap (λ x. x.data_files) (sym same)
            ∙ sym (append-nil r.data_files)
            ∙ ap (λ xs. r.data_files ++ xs) (sym (files_for-none e.style e.flag_name)),
        ap (λ x. x.by_index) (sym same)
            ∙ sym (append-nil r.by_index)
            ∙ ap (λ xs. r.by_index ++ xs) (sym (slots_for-none e.style (index_of e))),
      )

  render_entry_lem :
      (e : InvocationDescriptorEntry) (value : Property (Option Json)) (r r' : Rendering)
      → render_entry e value state_id r ≡ returns r'
      → Extends r
          (files_for e.style e.flag_name state_id (path_given value))
          (slots_for e.style (index_of e) (path_given value))
          r'
  unfolding render_entry place_binding
  render_entry_lem e missing r r' h = passed_over e r r' h
  render_entry_lem e inherited r r' h = absurd (cc h)
  render_entry_lem e (own none) r r' h = passed_over e r r' h
  render_entry_lem e (own (some value)) r r' h =
      let (path, is, placed) =
        >>=-returns (assert_heavy_binding_is_path value) (λ path. place_binding e state_id path r)
          r' h in
      subst
        (λ v.
          Extends r (files_for e.style e.flag_name state_id (path_given (own (some v))))
            (slots_for e.style (index_of e) (path_given (own (some v)))) r')
        (sym (assert_heavy_lem value path is)) (place_as_lem e.style e path r r' placed)

  render_entries_lem :
      (es : List InvocationDescriptorEntry) (r r' : Rendering)
      → render_entries es input state_id r ≡ returns r'
      → Extends r (files_given input state_id es) (slots_given input es) r'
  unfolding render_entries
  render_entries_lem [] r r' h =
      let is = returns_inj h in
      (
        ap (λ x. x.data_files) (sym is) ∙ sym (append-nil r.data_files),
        ap (λ x. x.by_index) (sym is) ∙ sym (append-nil r.by_index),
      )
  render_entries_lem (e ∷ es) r r' h =
      let (r1, is, rest) =
        >>=-returns (render_entry e (get_property e.param input) state_id r)
          (λ r1. render_entries es input state_id r1) r' h in
      let (files, slots) = render_entry_lem e (get_property e.param input) r r1 is in
      let (files', slots') = render_entries_lem es r1 r' rest in
      (
        files'
            ∙ ap (λ xs. xs ++ files_given input state_id es) files
            ∙ append_assoc r.data_files _ (files_given input state_id es),
        slots'
            ∙ ap (λ xs. xs ++ slots_given input es) slots
            ∙ append_assoc r.by_index _ (slots_given input es),
      )

-- A request that is built carries the resolved input and no more: its named arguments are the
-- defined values of the parameters that are not heavy, as texts, in the input's order; its data
-- files are the paths of the entries of style flag and stdin, in the descriptor's order; and its
-- positional arguments are the paths of the positional entries, in ascending order of their
-- indexes.
pub build_invoke_request_lem :
    (printing : Printing) (print : ℕ → String) (params : BuildInvokeRequestParams)
    (request : InvokeRequest)
    → build_invoke_request printing print params ≡ returns request
    → (args_given printing (used_capability params).invocation_descriptor params.resolved_input
        ≡ request.args)
      × (listed request.data_files
          ≡ files_given params.resolved_input
              (allowed_state_id params)
              (used_capability params).invocation_descriptor)
      × (slots : List (ℕ × String)) × Perm slots
          (slots_given params.resolved_input (used_capability params).invocation_descriptor)
      × Ascending slots
      × (listed request.positional_args ≡ paths_of slots)
build_invoke_request_lem printing print params request h =
    let built = build_invoke_request-IsBuilt printing print params request h in
    let descriptor = (used_capability params).invocation_descriptor in
    let (files, slots) =
      render_entries_lem params.resolved_input (allowed_state_id params) descriptor
        (record { data_files = []; by_index = [] }) built.rendering built.rendered in
    (
      translate_args_lem printing descriptor params.resolved_input request.args built.translated,
      built.files ∙ files,
      sort_by_index built.rendering.by_index,
      subst (Perm (sort_by_index built.rendering.by_index)) slots
          (sort_by_index-Perm built.rendering.by_index),
      sort_by_index-Ascending built.rendering.by_index,
      built.positional,
    )
