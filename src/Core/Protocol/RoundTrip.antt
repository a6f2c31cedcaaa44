-- ===== src/Core/Protocol/RoundTrip.antt =====
-- Calls that are written in the way that the protocol asks for are read back. The hypotheses on
-- `dumps` are that `loads` reads what it writes, and that its text has no space around it.
use simple_ai_agent.Common.{◌≡◌, false, List, [], ◌∷◌, map}
use simple_ai_agent.Core.Json.{Json, str, array, object, no_member, member, array_of}
use simple_ai_agent.Core.Protocol.{Reader, ToolCall, is_empty}

-- `{"action": …, "input": …}`
unfoldable pub call_json : ToolCall → Json
call_json call =
    object (member "action" (str call.action) (member "input" (object call.tool_input) no_member))

-- One call is written alone, several as a batch.
unfoldable pub write_calls : List ToolCall → Json
unfolding call_json array_of
write_calls (call ∷ []) = call_json call
write_calls calls = object (member "tool_calls" (array (array_of (map call_json calls))) no_member)

-- A call whose name the parser leaves as it is.
pub record IsWritable (reader : Reader) (call : ToolCall) : Type 0 where
  pub trimmed : reader.strip call.action ≡ call.action
  pub named : is_empty call.action ≡ false
