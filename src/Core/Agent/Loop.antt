-- ===== src/Core/Agent/Loop.antt =====
-- `Agent._step` of core/agent.py.
use simple_ai_agent.Common.{
  ℕ, zero, suc, ◌+◌, ◌-◌, String, Bool, not, ◌&&◌, Option, none, some, List, [], ◌∷◌, ◌++◌, ◌==◌,
  ok, err, pure, raise, gets, modify, raise_if, ◌>>=◌, ◌>>◌, ltb, eqb, contains, length,
  if◌then◌else◌,
}
use simple_ai_agent.Core.Protocol.{Reader, ToolCall, Kind, is_empty}
use simple_ai_agent.Core.Agent.{
  Reply, BatchToolRecord, Role, words, finish_now, retry_empty, retry_invalid, no_calls_provided,
  call_summary, Message, said, asks, chat_request, output_request, Tools, Llm, Agent, StepResult,
  answered, configuration_mismatch, unsupported_api_type, empty_response, too_many_steps,
  request_failed, invalid_response, Exit, finished, escaped, Work, max_steps, max_retries,
  max_empty_retries,
}
use simple_ai_agent.Core.Agent.Batch.{execute_limited}
use simple_ai_agent.Core.Agent.Reading.{
  is_nil, zip, messages_with_context, is_effectively_empty, Interpreted, outputs_of, results_of,
  memory_of, interpret,
}

-- The agent at the start of `_step`.
unfoldable pub begin : String → Agent → Agent
begin user_input a = record a {
  messages = a.messages ++ said Role.user (words user_input) ∷ [];
  retry_count = 0;
  empty_retry_count = 0;
}

unfoldable pub add_message : Message → Work (Unit {0})
add_message m = modify (λ a. record a { messages = a.messages ++ m ∷ [] })

-- `return`
unfoldable pub stop : {A : Type 0} → StepResult → Work A
stop r = raise (finished r)

module _ (reader : Reader) (llm : Llm) (tools : Tools) where
  -- The outputs of pending native calls are sent; they stay pending if the request fails.
  unfoldable pub submit_outputs : Work Reply
  unfolding outputs_of stop
  submit_outputs = do
    outputs ← gets (λ a. outputs_of a.pending)
    n ← gets (λ a. length a.requests)
    modify (λ a. record a { requests = a.requests ++ output_request outputs ∷ [] })
    elim (llm.submit_tool_outputs n outputs) [
      | err e ↦ stop (request_failed e)
      | ok reply ↦ modify (λ a. record a { pending = [] }) >> pure reply
    ]

  unfoldable pub chat : Work Reply
  unfolding messages_with_context stop
  chat = do
    n ← gets (λ a. length a.requests)
    messages ← gets (λ a. messages_with_context (llm.runtime_context n) a.messages)
    modify (λ a. record a { requests = a.requests ++ chat_request messages ∷ [] })
    elim (llm.chat n messages) [ err e ↦ stop (request_failed e) | ok reply ↦ pure reply ]

  -- The request of a turn.
  unfoldable pub ask : Work Reply
  unfolding is_nil submit_outputs chat
  ask a =
      if not (is_nil a.pending) && llm.supports_native_tool_outputs
      then submit_outputs a
      else chat a

  -- The guards before the request.
  unfoldable pub check_client : Work (Unit {0})
  unfolding stop
  check_client = do
    raise_if (not (llm.state_api_type == llm.api_type)) (finished configuration_mismatch)
    raise_if
        (llm.supports_native_tools
          && not (contains llm.api_type ("chat_completions" ∷ "responses" ∷ [])))
        (finished unsupported_api_type)
    raise_if (llm.supports_native_tools && not llm.tools_fit) escaped

  -- The last turn but one asks for the answer.
  unfoldable pub remind : ℕ → Work (Unit {0})
  unfolding add_message
  remind step =
      if eqb step (max_steps - 1) then add_message (said Role.user (finish_now step)) else pure tt

  -- A response that is empty is asked for again, twice at most.
  unfoldable pub retry_if_empty : Work (Unit {0})
  unfolding add_message stop
  retry_if_empty = do
    tried ← gets (λ a. a.empty_retry_count)
    raise_if (not (ltb tried max_empty_retries)) (finished empty_response)
    add_message (said Role.user (retry_empty llm.supports_native_tools))
    modify (λ a. record a { empty_retry_count = a.empty_retry_count + 1 })

  unfoldable pub retry_if_invalid : Interpreted → Work (Unit {0})
  unfolding add_message
  retry_if_invalid i = do
    tried ← gets (λ a. a.retry_count)
    raise_if (not (ltb tried max_retries)) (finished (invalid_response i.parsed.error))
    add_message (said Role.assistant (words i.reply))
    add_message (said Role.user (retry_invalid i.parsed.error))
    modify (λ a. record a { retry_count = a.retry_count + 1 })

  abbrev pub is_chat : Bool
  is_chat = llm.api_type == "chat_completions"

  -- What the memory keeps of the request for calls.
  unfoldable pub remember_request : Interpreted → Work (Unit {0})
  unfolding is_nil add_message
  remember_request i =
      if not (is_nil i.native)
      then (if is_chat
          then add_message (asks i.reply i.native)
          else if llm.supports_native_tool_outputs
          then pure tt
          else add_message (said Role.assistant (call_summary i.native)))
      else if i.parsed.consumed_tool_call_markup
      then (if is_empty (reader.strip i.parsed.assistant_text)
          then pure tt
          else add_message (said Role.assistant (words (reader.strip i.parsed.assistant_text))))
      else add_message (said Role.assistant (words i.reply))

  -- What it keeps of the results, and what is pending.
  unfoldable pub remember_results : Interpreted → List BatchToolRecord → Work (Unit {0})
  unfolding is_nil zip results_of memory_of add_message
  remember_results i records =
      if not (is_nil i.native) && is_chat
      then modify (λ a. record a { messages = a.messages ++ results_of (zip records i.native) })
      else if not (is_nil i.native) && llm.supports_native_tool_outputs
      then modify (λ a. record a { pending = zip records i.native })
      else add_message (memory_of records)

  unfoldable pub call_tools : List ToolCall → Work (List BatchToolRecord)
  unfolding execute_limited
  call_tools calls a = let (records, b) = execute_limited tools calls a in (ok records, b)

  -- The calls of a response are executed and remembered.
  unfoldable pub execute_calls : Interpreted → List ToolCall → Work (Unit {0})
  unfolding call_tools remember_results add_message
  execute_calls i [] = add_message (said Role.user no_calls_provided)
  execute_calls i (call ∷ rest) = call_tools (call ∷ rest) >>= remember_results i

  -- The branch of calls.
  unfoldable pub use_tools : Interpreted → Work (Unit {0})
  unfolding remember_request execute_calls
  use_tools i = do remember_request i; execute_calls i i.parsed.tool_calls

  -- The branches by the kind of the response, once it is not empty.
  unfoldable pub respond : Interpreted → Work (Unit {0})
  unfolding use_tools add_message stop retry_if_invalid
  respond i = elim i.parsed.kind [
    | Kind.invalid ↦ retry_if_invalid i
    | Kind.tool ↦ do modify (λ a. record a { retry_count = 0 }); use_tools i
    | Kind.final ↦ do
      modify (λ a. record a {
        retry_count = 0;
        pending = [];
        messages = a.messages ++ said Role.assistant (words i.reply) ∷ [];
      })
      stop (answered i.parsed.final)
  ]

  unfoldable pub react : Interpreted → Work (Unit {0})
  unfolding is_effectively_empty retry_if_empty respond
  react i =
      if is_effectively_empty i.parsed
      then retry_if_empty
      else do modify (λ a. record a { empty_retry_count = 0 }); respond i

  -- A reply that cannot be interpreted ends the step with an exception.
  unfoldable pub react_to : Option Interpreted → Work (Unit {0})
  unfolding react
  react_to none = raise escaped
  react_to (some i) = react i

  -- One turn of the loop; it returns if another one follows.
  unfoldable pub run_turn : ℕ → Work (Unit {0})
  unfolding remind check_client ask interpret react_to
  run_turn step = do remind step; check_client; reply ← ask; react_to (interpret reader reply)

  -- The turns that `range` has left.
  unfoldable pub turns : ℕ → ℕ → Agent → Exit × Agent
  unfolding run_turn
  turns zero step a = (finished too_many_steps, a)
  turns (suc left) step a =
      let (r, b) = run_turn step a in elim r [ ok u ↦ turns left (step + 1) b | err e ↦ (e, b) ]

  -- `_step`
  unfoldable pub step : String → Agent → Exit × Agent
  unfolding begin turns
  step user_input a = turns max_steps 1 (begin user_input a)
