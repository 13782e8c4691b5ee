-- ===== src/Samples.antt =====
-- Small inputs that the tests share: an empty database, and a run of two steps.
use workflow_spec.Prelude.{[], ◌∷◌, none}
use workflow_spec.WorkflowSpec.Domain.{Step, Binding, plain, Nodes, WorkflowSpec}
use workflow_spec.Core.Db.{Db}

abbrev pub empty_db : Db
empty_db = record {
  now = 1000;
  locked = [];
  executions = [];
  next_execution_id = 1;
  checkpoints = [];
  waits = [];
  next_wait_id = 1;
  session_log = [];
  next_session_log_id = 1;
  session_pointer = [];
  placement = [];
  placement_access = [];
  placement_config = [];
  workflow_runs = [];
  next_run_id = 1;
  run_node_outputs = [];
}

abbrev pub fetch : Step
fetch = record {
  id = "fetch";
  service = "repo/fetch@sha256:aa";
  function = "fetch";
  depends_on = [];
  reads = ("url", Binding.request "url") ∷ [];
  writes = [];
  secrets = [];
}

-- It reads an output of `fetch`.
abbrev pub report : Step
report = record {
  id = "report";
  service = "repo/report@sha256:bb";
  function = "render";
  depends_on = [];
  reads = ("body", Binding.step "fetch" "body") ∷ [];
  writes = [];
  secrets = [];
}

abbrev pub two_steps : WorkflowSpec
two_steps = record {
  workflow_spec_version = 1;
  name = "two steps";
  description = none;
  input_parameters = "url" ∷ [];
  session_state = [];
  steps = Nodes.cons (plain fetch) (Nodes.cons (plain report) Nodes.nil);
  outputs = [];
}
