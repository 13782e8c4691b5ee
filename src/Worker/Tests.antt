-- ===== src/Worker/Tests.antt =====
-- The worker at concrete inputs.
use mathlib.Core.List.{Perm}
use workflow_spec.Prelude.{
  ℕ, pos, String, true, false, List, [], ◌∷◌, Option, none, some, ◌≡◌, ◌↔◌, refl, string_eq,
  ℕ_discrete, nat_eq, Distinct, ◌+◌, ◌≤◌, arith, All,
}
use workflow_spec.Json.{Json, str, obj, lookup, get_property, from_entries}
use workflow_spec.Shared.Errors.{fatal, returns, throws, worker_invalid_heavy_binding_value}
use workflow_spec.Shared.TrustTier.{production_proven}
use workflow_spec.Core.Domain.{Execution, ExecutionStatus, WorkflowRun, WorkflowRunStatus}
use workflow_spec.Core.Db.{Db}
use workflow_spec.Registry.Domain.{
  InvocationDescriptorEntry, flag, state_id_keyed, RegistryDb, heavy,
}
use workflow_spec.Registry.GetEntry.{get_placement_facts, PlacementFacts, find_by_digest}
use workflow_spec.Registry.Soundness.{IsSound}
use workflow_spec.Registry.Unknown.{is_long_flag}
use workflow_spec.Worker.ArgText.{is_flag_name, starts_with_dash, segments, climbs}
use workflow_spec.Worker.AgentClient.{InvokeRequest, InvokeStatus, Post, Reply, answer}
use workflow_spec.Worker.Dispatch.{BuildInvokeRequestParams, build_invoke_request}
use workflow_spec.Worker.Bindings.{
  Printing, render_heavy_bindings, render_entries, render_entry, place_binding, insert_by_index,
  sort_by_index, translate_args_to_invoke_args, light_arg, stringify_arg_value,
  assert_heavy_binding_is_path, paths_of,
}
use workflow_spec.Worker.Loop.{WorkerDeps, Turn, run_worker_loop}
use workflow_spec.Worker.OpenCount.{ids, open_count}
use workflow_spec.Worker.Progress.{worked_turns, run_worker_loop_lem}
use workflow_spec.Worker.Safety.{IsSafeArg, IsSafeFile, IsSafePath}
use workflow_spec.Worker.Requests.{listed, allowed_state_id, build_invoke_request-IsSafe}
use workflow_spec.Worker.Sorting.{Ascending}
use workflow_spec.Worker.Contents.{build_invoke_request_lem}
use workflow_spec.Worker.Given.{args_given, files_given, slots_given}
use workflow_spec.Worker.Passing.{IsHeavy, may_pass}
use workflow_spec.Worker.Registered.{
  dispatch_capability, build_invoke_request_registered, build_invoke_request_keyed,
}
use workflow_spec.Samples.{empty_db, fetch as fetch_step, two_steps}

program : Unit {0}
unfolding string_eq ℕ_discrete lookup get_property build_invoke_request render_heavy_bindings
    render_entries render_entry place_binding sort_by_index insert_by_index
    translate_args_to_invoke_args light_arg stringify_arg_value assert_heavy_binding_is_path climbs
    segments starts_with_dash is_flag_name is_long_flag get_placement_facts find_by_digest
program = tt

abbrev printing : Printing
printing = record { number = λ n. "1"; json = λ j. "{}" }

abbrev print : ℕ → String
print n = "1"

abbrev deps : WorkerDeps
deps = record {
  agent_base_url = "http://agent";
  worker_id = "w";
  lease_seconds = 30;
  invoke_timeout_ms = 1000;
  agent_auth_token = none;
}

abbrev answers : InvokeStatus → Option Json → Post → Reply
answers status output post = answer 200 (
    some (record { status = status; stdout = ""; stderr = ""; exit_code = pos 0; output = output }))

abbrev run : WorkflowRun
run = record {
  id = 1;
  session_id = none;
  spec = two_steps;
  input = obj (from_entries (("url", str "u") ∷ []));
  status = WorkflowRunStatus.running;
  created_at = 1000;
  updated_at = 1000;
}

abbrev execution : ℕ → String → ExecutionStatus → Execution
execution id step status = record {
  id = id;
  session_id = "workflow-run:1";
  step = step;
  input = obj (from_entries []);
  status = status;
  worker_id = none;
  lease_until = none;
  attempts = 0;
  created_at = 1000;
  updated_at = 1000;
  run_id = some 1;
}

abbrev submitted_db : Db
submitted_db = record empty_db {
  workflow_runs = run ∷ [];
  next_run_id = 2;
  executions =
      execution 1 "fetch" ExecutionStatus.queued
      ∷ execution 2 "report" ExecutionStatus.blocked
      ∷ [];
  next_execution_id = 3;
}

-- A function that takes one file by a flag and keeps state under the file's hash.
abbrev data_entry : InvocationDescriptorEntry
data_entry = record {
  param = "data";
  style = flag;
  flag_name = some "--data-file";
  position_index = none;
}

abbrev facts : PlacementFacts
facts = record {
  digest = "sha256:aa";
  function = "fetch";
  capability = record {
    mutates = false;
    materialization_cost_class = heavy;
    cow_support = false;
    change_detection_support = false;
    nesting_declaration = none;
    invocation_descriptor = data_entry ∷ [];
    state_reuse = state_id_keyed;
    additive_warm_update = true;
  };
  trust_tier = production_proven;
  hardware_requirements = [];
}

abbrev registry : RegistryDb
registry = record {
  service_images =
      record {
        digest = "sha256:aa";
        oci_ref = "repo/fetch@sha256:aa";
        openapi_spec = [];
        hardware_requirements = [];
        trust_tier = production_proven;
        registered_at = 1;
        updated_at = 1;
      }
      ∷ [];
  function_capabilities =
      record { digest = "sha256:aa"; function_name = "fetch"; capability = facts.capability } ∷ [];
}

registry-IsSound : IsSound registry
unfolding program
registry-IsSound = record {
  distinct_digests = (refl, tt);
  registered = (refl, tt);
  capabilities = (
    record {
      descriptor = record {
        entries = ((refl, refl), tt);
        distinct_params = (refl, tt);
        distinct_positions = tt;
        one_stdin = refl;
      };
      additive = refl;
      reuse = refl;
    },
    tt,
  );
}

found : get_placement_facts registry "sha256:aa" "fetch" ≡ some facts
unfolding program
found = refl

abbrev params : BuildInvokeRequestParams
params = record {
  execution_id = 1;
  step = fetch_step;
  resolved_input = ("data", some (str "/in/a.csv")) ∷ ("url", some (str "u")) ∷ [];
  timeout_ms = 1000;
  capability = some (dispatch_capability facts);
  content_hash = some "h1";
}

abbrev request : InvokeRequest
request = record {
  execution_id = "1";
  step_id = "fetch";
  function = "fetch";
  args = ("url", "u") ∷ [];
  positional_args = none;
  data_files = some (
      record {
        flag = some "--data-file";
        path = "/in/a.csv";
        state_id = some "h1";
        stdin_from_path = none;
      }
      ∷ []);
  timeout_ms = 1000;
}

built : build_invoke_request printing print params ≡ returns request
unfolding program
built = refl

build_invoke_request-IsSafe_example :
    All (IsSafeArg (data_entry ∷ [])) request.args
    × All (IsSafeFile (allowed_state_id params)) (listed request.data_files)
    × All IsSafePath (listed request.positional_args)
build_invoke_request-IsSafe_example =
    build_invoke_request-IsSafe printing print params request built

build_invoke_request_lem_example :
    (args_given printing (data_entry ∷ []) params.resolved_input ≡ request.args)
    × (listed request.data_files
        ≡ files_given params.resolved_input (allowed_state_id params) (data_entry ∷ []))
    × (slots : List (ℕ × String)) × Perm slots (slots_given params.resolved_input (data_entry ∷ []))
    × Ascending slots
    × (listed request.positional_args ≡ paths_of slots)
build_invoke_request_lem_example = build_invoke_request_lem printing print params request built

build_invoke_request_registered_example :
    ((r : InvokeRequest) × (build_invoke_request printing print params ≡ returns r)) ↔ (
      All
        (λ (e : InvocationDescriptorEntry). IsHeavy (get_property e.param params.resolved_input))
        (data_entry ∷ [])
      × All (λ given. may_pass printing (data_entry ∷ []) given ≡ true) params.resolved_input)
build_invoke_request_registered_example =
    build_invoke_request_registered printing print registry "sha256:aa" "fetch" facts params
      registry-IsSound found refl

-- A heavy parameter that the input lacks and that names a member of `Object.prototype`.
abbrev constructor_params : BuildInvokeRequestParams
constructor_params = record params {
  capability = some (record {
    invocation_descriptor = record data_entry { param = "constructor" } ∷ [];
    state_reuse = state_id_keyed;
  });
  resolved_input = [];
}

inherited_refused :
    build_invoke_request printing print constructor_params
    ≡ throws (fatal worker_invalid_heavy_binding_value)
unfolding program
inherited_refused = refl

keyed : allowed_state_id params ≡ some "h1"
unfolding program
keyed = refl

build_invoke_request_keyed_example : listed request.positional_args ≡ []
build_invoke_request_keyed_example =
    build_invoke_request_keyed printing print registry "sha256:aa" "fetch" facts params request "h1"
      registry-IsSound found refl keyed built

-- Two turns with an agent that reports an error, and nothing between them.
abbrev turns : List Turn
turns =
    let turn : Turn = record { others = λ db. db; fetch = answers InvokeStatus.error none } in
    turn ∷ turn ∷ []

ids-Distinct : Distinct (ids submitted_db.executions)
unfolding program
ids-Distinct = (refl, (refl, tt))

run_worker_loop_lem_example :
    worked_turns (run_worker_loop printing print deps turns submitted_db).0
      + open_count (run_worker_loop printing print deps turns submitted_db).1.executions
    ≤ 2
run_worker_loop_lem_example =
    run_worker_loop_lem printing print deps turns submitted_db
      ((λ db. (refl, omega arith)), ((λ db. (refl, omega arith)), tt)) ids-Distinct
