-- ===== src/Core/Agent/Batch.antt =====
-- The execution of calls: `_execute_one_tool_call` and `_execute_tool_batch` of core/agent.py.
pub mod Order
pub mod Ran
use Prim.Native.String.{◌++◌ as ◌⧺◌}
use simple_ai_agent.Common.{
  ℕ, zero, suc, ◌+◌, String, Bool, true, false, Option, none, some, List, [], ◌∷◌, ◌++◌, length,
  lookup, if◌then◌else◌,
}
use simple_ai_agent.Core.Json.{Members}
use simple_ai_agent.Core.Protocol.{ToolCall}
use simple_ai_agent.Core.Registry.{ToolSpec, ToolRegistry, names, has_tool}
use simple_ai_agent.Core.Agent.{
  Status, success, failed, skipped, BatchToolRecord, AuditStatus, audit_success, audit_failed,
  AuditEntry, Outcome, returned, type_error, raised, Tools, Agent, max_batch_tool_calls,
}

-- Status, observation and error of a call.
pub record Execution : Type 0 where
  pub status : Status
  pub observation : String
  pub error : Option String

-- `", ".join(…)`
unfoldable pub comma_joined : List String → String
comma_joined [] = ""
comma_joined (s ∷ []) = s
comma_joined (s ∷ t ∷ rest) = s ⧺ ", " ⧺ comma_joined (t ∷ rest)

-- `_complete_tool_audit`: what it raises is caught.
unfoldable pub complete_audit : Option String → AuditStatus → String → Option String → Agent → Agent
complete_audit none status result error a = a
complete_audit (some id) status result error a = record a {
  audits =
      a.audits ++ record { call_id = id; status = status; result = result; error = error } ∷ [];
}

unfoldable pub failure : String → Execution
failure message = record { status = failed; observation = message; error = some message }

-- What the function of the tool gave.
unfoldable pub observe : String → Outcome → Execution
unfolding failure
observe action (returned s) = record { status = success; observation = s; error = none }
observe action (type_error s) = failure ("Error: Invalid arguments for tool '" ⧺ action ⧺ "': " ⧺ s)
observe action (raised s) = failure ("Error: Tool execution failed for '" ⧺ action ⧺ "': " ⧺ s)

audit_of : Status → AuditStatus
audit_of success = audit_success
audit_of failed = audit_failed
audit_of skipped = audit_failed

-- The end of a call: its audit is completed.
unfoldable pub settle : Option String → Execution → Agent → Execution × Agent
unfolding complete_audit audit_of
settle audit_id e a = (e, complete_audit audit_id (audit_of e.status) e.observation e.error a)

unfoldable pub record_of : ℕ → ℕ → ToolCall → Execution → BatchToolRecord
record_of i total call e = record {
  index = i;
  total = total;
  action = call.action;
  tool_input = call.tool_input;
  status = e.status;
  observation = some e.observation;
  error = e.error;
}

unfoldable pub skipped_record : ℕ → ℕ → ToolCall → String → BatchToolRecord
skipped_record i total call reason = record {
  index = i;
  total = total;
  action = call.action;
  tool_input = call.tool_input;
  status = skipped;
  observation = some reason;
  error = none;
}

abbrev pub fail_fast_reason : String
fail_fast_reason = "Skipped due to earlier failure in fail-fast batch."

unfoldable pub is_failed : Status → Bool
is_failed failed = true
is_failed success = false
is_failed skipped = false

-- The calls that an earlier failure skips.
unfoldable pub skip_rest : ℕ → ℕ → List ToolCall → List BatchToolRecord
unfolding skipped_record
skip_rest total i [] = []
skip_rest total i (call ∷ rest) =
    skipped_record i total call fail_fast_reason ∷ skip_rest total (i + 1) rest

-- `calls[:n]` and `calls[n:]`
unfoldable pub take_calls : ℕ → List ToolCall → List ToolCall
take_calls zero calls = []
take_calls (suc n) [] = []
take_calls (suc n) (call ∷ calls) = call ∷ take_calls n calls

unfoldable pub drop_calls : ℕ → List ToolCall → List ToolCall
drop_calls zero calls = calls
drop_calls (suc n) [] = []
drop_calls (suc n) (call ∷ calls) = drop_calls n calls

unfoldable pub with_total : ℕ → List BatchToolRecord → List BatchToolRecord
with_total n [] = []
with_total n (r ∷ rs) = record r { total = n } ∷ with_total n rs

module _ (tools : Tools) where
  unfoldable pub missing_tool : String → Execution
  unfolding failure comma_joined names
  missing_tool action = failure (
      "Error: Tool '"
      ⧺ action
      ⧺ "' does not exist. Available tools: "
      ⧺ comma_joined (names tools.registry))

  unfoldable pub execute_one_tool_call : String → Members → Agent → Execution × Agent
  unfolding lookup missing_tool observe settle
  execute_one_tool_call action tool_input a =
      let audit_id = tools.start_audit a.audit_starts in
      let started : Agent = record a { audit_starts = a.audit_starts + 1 } in
      elim (lookup action tools.registry) [
        | none ↦ settle audit_id (missing_tool action) started
        | some spec ↦
            let outcome = tools.call (length a.executed) spec tool_input in
            settle audit_id (observe action outcome) (record started {
              executed = a.executed ++ record { action = action; tool_input = tool_input } ∷ [];
            })
      ]

  -- The loop, from the call with index `i`.
  unfoldable pub execute_from : ℕ → ℕ → List ToolCall → Agent → List BatchToolRecord × Agent
  unfolding execute_one_tool_call record_of is_failed skip_rest
  execute_from total i [] a = ([], a)
  execute_from total i (call ∷ rest) a =
      let (e, b) = execute_one_tool_call call.action call.tool_input a in
      let (records, c) = execute_from total (i + 1) rest b in
      if is_failed e.status
      then (record_of i total call e ∷ skip_rest total (i + 1) rest, b)
      else (record_of i total call e ∷ records, c)

  unfoldable pub execute_tool_batch : List ToolCall → Agent → List BatchToolRecord × Agent
  unfolding execute_from
  execute_tool_batch calls a = execute_from (length calls) 1 calls a

  unfoldable pub excess_reason : ℕ → ℕ → String
  excess_reason i requested =
      "Skipped: tool call batch limit exceeded. This was call "
      ⧺ tools.show i
      ⧺ " of "
      ⧺ tools.show requested
      ⧺ "; at most "
      ⧺ tools.show max_batch_tool_calls
      ⧺ " calls are executed per batch. Retry this call in a new batch and do not assume it ran."

  -- The records of the calls beyond the limit.
  unfoldable pub excess_records : ℕ → ℕ → List ToolCall → List BatchToolRecord
  unfolding skipped_record excess_reason
  excess_records requested i [] = []
  excess_records requested i (call ∷ rest) =
      skipped_record i requested call (excess_reason i requested)
      ∷ excess_records requested (i + 1) rest

  -- The calls of a response, with the limit on a batch; without excess the totals are as they were.
  unfoldable pub execute_limited : List ToolCall → Agent → List BatchToolRecord × Agent
  unfolding execute_tool_batch take_calls drop_calls excess_records with_total
  execute_limited calls a =
      let (records, b) = execute_tool_batch (take_calls max_batch_tool_calls calls) a in
      (
        with_total (length calls) records
            ++ excess_records (length calls) (max_batch_tool_calls + 1)
                (drop_calls max_batch_tool_calls calls),
        b,
      )
