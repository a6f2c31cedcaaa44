-- ===== src/Core/Agent.antt =====
-- core/agent.py: the values of the agent's loop, and what it takes from outside. The debugging,
-- raw and error callbacks are not modelled.
pub mod Batch
pub mod Reading
pub mod Loop
pub mod Transcript
pub mod Change
pub mod Turn
pub mod Calls
pub mod Bounds
pub mod Answers
pub mod Gated
mod Tests
use Prim.Native.String.{◌++◌ as ◌⧺◌}
use simple_ai_agent.Common.{
  ℕ, zero, suc, ◌+◌, String, Bool, true, false, Option, none, some, List, [], ◌∷◌, Result, ok, err,
  Action, if◌then◌else◌, ◌==◌,
}
use simple_ai_agent.Core.Json.{Json, Members, no_member, as_object}
use simple_ai_agent.Core.Protocol.{ToolCall, ParseError}
use simple_ai_agent.Core.Registry.{ToolSpec, ToolRegistry}

abbrev pub max_steps : ℕ
max_steps = 10

abbrev pub max_batch_tool_calls : ℕ
max_batch_tool_calls = 10

abbrev pub max_retries : ℕ
max_retries = 2

abbrev pub max_empty_retries : ℕ
max_empty_retries = 2

-- `arguments` of a native call: a text, a dictionary, `None`, or something else.
pub data NativeArguments : Type 0 where
  encoded : String → NativeArguments
  decoded : Members → NativeArguments
  no_arguments other_arguments : NativeArguments

-- llm/base.py
pub record NativeToolCall : Type 0 where
  pub id : String
  pub name : String
  pub arguments : NativeArguments

pub record NativeToolOutput : Type 0 where
  pub call_id : String
  pub output : String

-- A reply of `chat`: a text, or an `LLMResponse`.
pub data Reply : Type 0 where
  plain : String → Reply
  response : Option String → List NativeToolCall → Reply

pub data Status : Type 0 where
  success failed skipped : Status

pub record BatchToolRecord : Type 0 where
  pub index : ℕ
  pub total : ℕ
  pub action : String
  pub tool_input : Members
  pub status : Status
  pub observation : Option String
  pub error : Option String

pub data Role : Type 0 where
  system user assistant : Role

-- The content of a message: a text, or one of the texts that the loop composes.
pub data Content : Type 0 where
  words : String → Content
  finish_now : ℕ → Content
  retry_empty : Bool → Content
  retry_invalid : Option ParseError → Content
  tool_result : String → String → Content
  batch_result : List BatchToolRecord → Content
  no_calls_provided : Content
  call_summary : List NativeToolCall → Content

-- The entries of `messages`; the last two belong to the native calls of Chat Completions.
pub data Message : Type 0 where
  said : Role → Content → Message
  asks : String → List NativeToolCall → Message
  answers : NativeToolCall → String → Message

-- What the model was asked.
pub data Request : Type 0 where
  chat_request : List Message → Request
  output_request : List NativeToolOutput → Request

pub data AuditStatus : Type 0 where
  audit_success audit_failed : AuditStatus

pub record AuditEntry : Type 0 where
  pub call_id : String
  pub status : AuditStatus
  pub result : String
  pub error : Option String

-- What a function of a tool does.
pub data Outcome : Type 0 where
  returned type_error raised : String → Outcome

-- The tools: the registry, the outcome of the n-th call, what the audit store answers to the n-th
-- start (`none` if there is no store or it raises), and `str` of a number.
pub record Tools : Type 0 where
  pub registry : ToolRegistry
  pub call : ℕ → ToolSpec → Members → Outcome
  pub start_audit : ℕ → Option String
  pub show : ℕ → String

-- The client: its capabilities, whether its tools have the shape that is asserted, the context
-- of the n-th request, and its replies; an error has the text of the exception.
pub record Llm : Type 0 where
  pub supports_native_tools : Bool
  pub supports_native_tool_outputs : Bool
  pub api_type : String
  pub state_api_type : String
  pub tools_fit : Bool
  pub runtime_context : ℕ → String
  pub chat : ℕ → List Message → Result String Reply
  pub submit_tool_outputs : ℕ → List NativeToolOutput → Result String Reply

-- The agent and the two counters of `_step`; `pending` is empty for `None`. `requests`, `executed` and
-- `audits` are what it has sent, called and completed.
pub record Agent : Type 0 where
  pub messages : List Message
  pub pending : List (BatchToolRecord × NativeToolCall)
  pub retry_count : ℕ
  pub empty_retry_count : ℕ
  pub requests : List Request
  pub executed : List ToolCall
  pub audit_starts : ℕ
  pub audits : List AuditEntry

-- What `_step` returns.
pub data StepResult : Type 0 where
  answered : Option String → StepResult
  configuration_mismatch unsupported_api_type empty_response unexpected_state too_many_steps :
      StepResult
  request_failed : String → StepResult
  invalid_response : Option ParseError → StepResult

-- How the loop is left; `escaped` is by an exception.
pub data Exit : Type 0 where
  finished : StepResult → Exit
  escaped : Exit

abbrev pub Work : Type 0 → Type 0
Work A = Action Agent Exit A
