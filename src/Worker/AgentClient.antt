-- ===== src/Worker/AgentClient.antt =====
-- src/apps/worker/agent-client.ts. `fetch` stands for the network and the agent behind it.
use workflow_spec.Prelude.{
  ℕ, ◌+◌, ℤ, String, ◌<>◌, Bool, not, ◌&&◌, List, Option, none, some, ltb, leb, ◌==◌, string_eq,
  if◌then◌else◌,
}
use workflow_spec.Json.{Json, Dict}
use workflow_spec.Shared.Errors.{
  PlatformError, retryable, fatal, worker_agent_unreachable, worker_invoke_request_rejected,
}

-- A field that is absent is `none`; `secrets` and `stdin` are never set.
pub record AgentDataFile : Type 0 where
  pub flag : Option String
  pub path : String
  pub state_id : Option String
  pub stdin_from_path : Option Bool

pub record InvokeRequest : Type 0 where
  pub execution_id : String
  pub step_id : String
  pub function : String
  pub args : Dict String
  pub positional_args : Option (List String)
  pub data_files : Option (List AgentDataFile)
  pub timeout_ms : ℕ

pub data InvokeStatus : Type 0 where
  ok error timeout : InvokeStatus

pub record InvokeResponse : Type 0 where
  pub status : InvokeStatus
  pub stdout : String
  pub stderr : String
  pub exit_code : ℤ
  pub output : Option Json

-- What `fetch` is called with, but for the method and the content type.
pub record Post : Type 0 where
  pub url : String
  pub authorization : Option String
  pub body : InvokeRequest
  pub abort_after_ms : ℕ

-- `fetch` rejects, or there is an answer with a status and a body; a body that is no JSON is `none`.
pub data Reply : Type 0 where
  no_answer : Reply
  answer : (status : ℕ) → (body : Option InvokeResponse) → Reply

-- The promise's outcome; `unreadable` is the runtime's own error for a body that is no JSON.
pub data Invoked : Type 0 where
  response : InvokeResponse → Invoked
  failed : PlatformError → Invoked
  unreadable : Invoked

-- AGENT_FETCH_TIMEOUT_MARGIN_MS and AGENT_INVOKE_PATH
abbrev pub agent_fetch_timeout_margin_ms : ℕ
agent_fetch_timeout_margin_ms = 5000

abbrev pub agent_invoke_path : String
agent_invoke_path = "/invoke"

abbrev pub bearer : Option String → Option String
bearer none = none
bearer (some token) = if token == "" then none else some ("Bearer " <> token)

-- `response.ok` is a status from 200 to 299.
unfoldable pub read_reply : Reply → Invoked
read_reply no_answer = failed (retryable worker_agent_unreachable)
read_reply (answer status body) =
    if leb 400 status && ltb status 500
    then failed (fatal worker_invoke_request_rejected)
    else if not (leb 200 status && ltb status 300)
    then failed (retryable worker_agent_unreachable)
    else elim body [ none ↦ unreadable | some r ↦ response r ]

module _ (fetch : Post → Reply) where
  unfoldable pub post_json : String → InvokeRequest → ℕ → Option String → Invoked
  unfolding read_reply string_eq
  post_json url body timeout_ms auth_token = read_reply (
      fetch (record {
        url = url;
        authorization = bearer auth_token;
        body = body;
        abort_after_ms = timeout_ms + agent_fetch_timeout_margin_ms;
      }))

  unfoldable pub invoke : String → InvokeRequest → Option String → Invoked
  unfolding post_json
  invoke base_url request auth_token =
      post_json (base_url <> agent_invoke_path) request request.timeout_ms auth_token
