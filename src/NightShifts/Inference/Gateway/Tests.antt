-- ===== src/NightShifts/Inference/Gateway/Tests.antt =====
-- A client that sends a request, and one that is closed, and the theorems on their histories.
use Prim.Native.String.{count}
use Prim.Native.String.count as Count
use simple_ai_agent.Common.{
  ℕ, zero, suc, ◌≤◌, ◌≡◌, refl, sym, ap, ◌∙◌, String, true, none, some, List, [], ◌∷◌, ok, err,
  length,
}
use simple_ai_agent.Common.Int.{pos}
use simple_ai_agent.NightShifts.Policy.{InferenceLimits}
use simple_ai_agent.NightShifts.Inference.{
  InferenceRole, InferenceRequest, InferenceResponse, WorkerToolSpec,
}
use simple_ai_agent.NightShifts.Inference.Checks.{unavailable}
use simple_ai_agent.NightShifts.Inference.Gateway.{Host, Gateway, Client, create_client, infer}
use simple_ai_agent.NightShifts.Inference.Gateway.History.{
  GatewayCall, infers, closes, cancels, new_gateway, sent_under, AllOwn, perform, perform_all,
}
use simple_ai_agent.NightShifts.Inference.Gateway.Life.{
  create_client-sent_under, create_client-close_client-infer,
}

abbrev tokens : ℕ → String
tokens zero = ""
tokens (suc n) = String.◌∷◌ "a" (tokens n)

count-tokens : (n : ℕ) → count (tokens n) ≡ n
count-tokens zero = refl
count-tokens (suc n) = Count.cons "a" (tokens n) ∙ ap suc (count-tokens n)

tokens-injective : (m n : ℕ) → tokens m ≡ tokens n → m ≡ n
tokens-injective m n same = sym (count-tokens m) ∙ ap count same ∙ count-tokens n

abbrev greeting : InferenceResponse
greeting = record { content = "Hello."; tool_calls = []; usage = none }

abbrev host : Host
host = record {
  token_urlsafe = tokens;
  utc_now = λ n. n;
  schema_bytes = λ tools. some 2;
  strip = λ s. s;
  model_infer = λ n r. some (some greeting);
  can_cancel = λ model. true;
}

abbrev limits : InferenceLimits
limits = record {
  max_requests = pos 1;
  max_messages = pos 96;
  max_input_bytes = pos 524_288;
  max_output_bytes = pos 131_072;
  max_tool_calls_per_response = pos 8;
  max_tool_schema_bytes = pos 65_536;
  ttl_seconds = pos 3_600;
}

abbrev tool : String → WorkerToolSpec
tool name = record { name = name; description = "A tool."; input_schema = "{}" }

abbrev request : InferenceRequest
request = record {
  job_id = "job";
  worker_profile = "read-only-worker";
  messages =
      record { role = InferenceRole.user; content = "Hi."; tool_calls = []; tool_call_id = none }
      ∷ [];
  tools = tool "list_files" ∷ tool "read_file" ∷ tool "search_text" ∷ tool "write_artifact" ∷ [];
}

abbrev start : Gateway
start = record { models = "m" ∷ []; sessions = []; dispatched = []; draws = 0; readings = 0 }

abbrev client : Client
client = record { is_own = true; token = "" }

abbrev opened : Gateway
opened = (create_client host "job" "read-only-worker" "m" limits start).1

created :
    create_client host "job" "read-only-worker" "m" limits (new_gateway ("m" ∷ []))
    ≡ (ok client, opened)
unfolding create_client new_gateway
created = refl

-- The second request is over the limit.
two_requests : List GatewayCall
two_requests = infers "" request ∷ infers "" request ∷ []

one_is_sent : length (sent_under "" (perform_all host two_requests opened).dispatched) ≡ 1
unfolding perform_all create_client sent_under two_requests
one_is_sent = refl

create_client-sent_under_example :
    (length (sent_under "" (perform_all host two_requests opened).dispatched) ≤ 1)
    × AllOwn host.schema_bytes limits "job" "read-only-worker"
        (sent_under "" (perform_all host two_requests opened).dispatched)
unfolding perform_all new_gateway
create_client-sent_under_example =
    create_client-sent_under host tokens-injective ("m" ∷ []) [] two_requests "job"
      "read-only-worker" "m" limits client opened created

create_client-close_client-infer_example :
    (let closed = perform host (closes client) (perform_all host [] opened) in
      (infer host "" request (perform_all host two_requests closed)).0 ≡ err unavailable)
    × (let cancelled = perform host (cancels client) (perform_all host [] opened) in
        (infer host "" request (perform_all host two_requests cancelled)).0 ≡ err unavailable)
unfolding perform_all new_gateway
create_client-close_client-infer_example =
    create_client-close_client-infer host tokens-injective ("m" ∷ []) [] [] two_requests "job"
      "read-only-worker" "m" limits client opened request created
