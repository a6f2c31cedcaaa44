-- ===== src/Core/Protocol/Tests.antt =====
-- A batch of two calls, written and read.
use simple_ai_agent.Common.{String, List, [], ◌∷◌, ◌==◌, if◌then◌else◌}
use simple_ai_agent.Core.Json.{Json, number, no_member, member}
use simple_ai_agent.Core.Protocol.{Reader, loaded, malformed, ToolCall, parse}
use simple_ai_agent.Core.Protocol.Shape.{IsShaped}
use simple_ai_agent.Core.Protocol.Parsed.{Reads, parse-IsShaped}
use simple_ai_agent.Core.Protocol.Bodies.{Answers}
use simple_ai_agent.Core.Protocol.RoundTrip.{write_calls}

abbrev calls : List ToolCall
calls =
    record { action = "pwd"; tool_input = no_member }
    ∷ record { action = "head"; tool_input = member "lines" (number "3") no_member }
    ∷ []

abbrev written : String
written =
    "{\"tool_calls\": [{\"action\": \"pwd\", \"input\": {}}, {\"action\": \"head\", \"input\": {\"lines\": 3}}]}"

-- A reader of that text alone.
abbrev reader : Reader
reader = record {
  strip = λ s. s;
  lower = λ s. s;
  loads = λ s. if s == written then loaded (write_calls calls) else malformed;
  bodies = λ s. [];
  without_bodies = λ s. s;
}

abbrev dumps : Json → String
dumps j = written

parse-IsShaped_example :
    Answers reader (Reads reader written) (λ r. IsShaped r.kind r) (parse reader written)
parse-IsShaped_example = parse-IsShaped reader written
