-- ===== src/Worker/Dispatch.antt =====
-- src/apps/worker/dispatch.ts
use workflow_spec.Worker.Bindings.{
  DispatchCapability, Printing, translate_args_to_invoke_args, render_heavy_bindings,
}
use workflow_spec.Prelude.{ℕ, String, List, [], ◌∷◌, Option, none, some, string_eq, nat_eq}
use workflow_spec.Json.{Json, null, bool, num, str, arr, obj, Dict, entries}
use workflow_spec.Shared.Errors.{
  PlatformError, fatal, Result, returns, throws, ◌>>=◌, worker_malformed_invoke_output,
}
use workflow_spec.WorkflowSpec.Domain.{Step}
use workflow_spec.Registry.Domain.{no_reuse}
use workflow_spec.Worker.AgentClient.{
  InvokeRequest, InvokeResponse, ok, error, timeout, Post, Reply, Invoked, response, failed,
  unreadable, invoke,
}

pub record BuildInvokeRequestParams : Type 0 where
  pub execution_id : ℕ
  pub step : Step
  pub resolved_input : Dict (Option Json)
  pub timeout_ms : ℕ
  pub capability : Option DispatchCapability
  pub content_hash : Option String

abbrev pub no_heavy_bindings_capability : DispatchCapability
no_heavy_bindings_capability = record { invocation_descriptor = []; state_reuse = no_reuse }

abbrev pub capability_of : Option DispatchCapability → DispatchCapability
capability_of none = no_heavy_bindings_capability
capability_of (some c) = c

-- A list that is empty is left out of the request.
abbrev pub unless_empty {ℓ} : {A : Type ℓ} → List A → Option (List A)
unless_empty [] = none
unless_empty (x ∷ xs) = some (x ∷ xs)

-- An output that is absent or null is the empty object.
unfoldable pub parse_invoke_output : Option Json → Result (Dict Json)
unfolding entries
parse_invoke_output none = returns []
parse_invoke_output (some null) = returns []
parse_invoke_output (some (obj fs)) = returns (entries fs)
parse_invoke_output (some (bool b)) = throws (fatal worker_malformed_invoke_output)
parse_invoke_output (some (num n)) = throws (fatal worker_malformed_invoke_output)
parse_invoke_output (some (str s)) = throws (fatal worker_malformed_invoke_output)
parse_invoke_output (some (arr xs)) = throws (fatal worker_malformed_invoke_output)

-- What dispatching a step comes to: the agent's output, a failure that it reports, or what the
-- promise is rejected with: an error of the platform's or one of the runtime's.
pub data Dispatched : Type 0 where
  succeeded : Dict Json → Dispatched
  reported : InvokeResponse → Dispatched
  rejected : PlatformError → Dispatched
  broken : Dispatched

abbrev pub of_output : Result (Dict Json) → Dispatched
of_output (returns output) = succeeded output
of_output (throws e) = rejected e

unfoldable pub read_response : InvokeResponse → Dispatched
unfolding parse_invoke_output
read_response r = elim r.status [
  | ok ↦ of_output (parse_invoke_output r.output)
  | error ↦ reported r
  | timeout ↦ reported r
]

abbrev pub of_invoked : Invoked → Dispatched
of_invoked (response r) = read_response r
of_invoked (failed e) = rejected e
of_invoked unreadable = broken

-- `print` is JavaScript's `String(n)`.
module _ (printing : Printing) (print : ℕ → String) where
  unfoldable pub build_invoke_request : BuildInvokeRequestParams → Result InvokeRequest
  unfolding render_heavy_bindings translate_args_to_invoke_args
  build_invoke_request params = do
    let capability = capability_of params.capability
    heavy ← render_heavy_bindings params.resolved_input capability params.content_hash
    args ←
        translate_args_to_invoke_args printing params.resolved_input
          capability.invocation_descriptor
    returns (record {
      execution_id = print params.execution_id;
      step_id = params.step.id;
      function = params.step.function;
      args = args;
      positional_args = unless_empty heavy.positional_args;
      data_files = unless_empty heavy.data_files;
      timeout_ms = params.timeout_ms;
    })

  module _ (fetch : Post → Reply) where
    abbrev pub send : String → Option String → Result InvokeRequest → Dispatched
    send agent_base_url auth_token (throws e) = rejected e
    send agent_base_url auth_token (returns request) =
        of_invoked (invoke fetch agent_base_url request auth_token)

    unfoldable pub dispatch_step : String → BuildInvokeRequestParams → Option String → Dispatched
    unfolding build_invoke_request read_response
    dispatch_step agent_base_url params auth_token =
        send agent_base_url auth_token (build_invoke_request params)
