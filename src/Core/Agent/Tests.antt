-- ===== src/Core/Agent/Tests.antt =====
-- A model that calls a tool twice and then answers.
use simple_ai_agent.Common.{
  ℕ, zero, suc, ◌+◌, ◌≤◌, ◌<◌, ◌≡◌, refl, subst, arith, true, false, none, some, List, [], ◌∷◌, ok,
  err, length,
}
use simple_ai_agent.Core.Json.{no_member}
use simple_ai_agent.Core.Protocol.{malformed, Reader, ToolCall}
use simple_ai_agent.Core.Registry.{ToolSpec}
use simple_ai_agent.Core.Agent.{
  decoded, NativeToolCall, Reply, plain, response, Role, words, said, returned, Tools, Llm, Agent,
  finished, answered,
}
use simple_ai_agent.Core.Agent.Batch.{execute_limited}
use simple_ai_agent.Core.Agent.Batch.Order.{IsBatch, execute_limited-IsBatch}
use simple_ai_agent.Core.Agent.Loop.{step}
use simple_ai_agent.Core.Agent.Transcript.{IsTranscript, IsAcceptable, Awaiting}
use simple_ai_agent.Core.Agent.Change.{Added, IsKnown, IsExpected}
use simple_ai_agent.Runtime.PrivilegedTurn.{
  PrivilegedTurn, new_turn, evidence_operation, arm, claim, not_enabled,
}
use simple_ai_agent.Runtime.PrivilegedTurn.Status.{armed_operation}
use simple_ai_agent.Runtime.PrivilegedTurn.History.{TurnCall, arms, claims_one, lists, perform_all}
use simple_ai_agent.Runtime.PrivilegedTurn.Revoked.{has_arm}
use simple_ai_agent.Core.Agent.Gated.{has_leave, gated_step, gated_step-revokes}
use simple_ai_agent.Core.Agent.Answers.{IsServed, Wants, Gives, step-answers}
use simple_ai_agent.Core.Agent.Bounds.{step-bounds, step-IsTranscript, step-IsExpected}

-- Texts are not JSON here.
abbrev reader : Reader
reader = record {
  strip = λ s. s;
  lower = λ s. s;
  loads = λ s. malformed;
  bodies = λ s. [];
  without_bodies = λ s. s;
}

abbrev pwd : ToolSpec
pwd = record { name = "pwd"; function = 0; description = "The directory."; requires_state = false }

abbrev tools : Tools
tools = record {
  registry = ("pwd", pwd) ∷ [];
  call = λ n spec input. returned "/home";
  start_audit = λ n. none;
  show = λ n. "n";
}

abbrev wanted : NativeToolCall
wanted = record { id = "c1"; name = "pwd"; arguments = decoded no_member }

abbrev missing : NativeToolCall
missing = record { id = "c2"; name = "cd"; arguments = decoded no_member }

abbrev reply : ℕ → Reply
reply zero = response none (wanted ∷ missing ∷ wanted ∷ [])
reply (suc n) = plain "You are in /home."

abbrev llm : Llm
llm = record {
  supports_native_tools = true;
  supports_native_tool_outputs = false;
  api_type = "chat_completions";
  state_api_type = "chat_completions";
  tools_fit = true;
  runtime_context = λ n. "context";
  chat = λ n messages. ok (reply n);
  submit_tool_outputs = λ n outputs. ok (reply n);
}

abbrev fresh : Agent
fresh = record {
  messages = said Role.system (words "You are an agent.") ∷ [];
  pending = [];
  retry_count = 0;
  empty_retry_count = 0;
  requests = [];
  executed = [];
  audit_starts = 0;
  audits = [];
}

abbrev batch : List ToolCall
batch =
    record { action = "pwd"; tool_input = no_member }
    ∷ record { action = "cd"; tool_input = no_member }
    ∷ record { action = "pwd"; tool_input = no_member }
    ∷ []

step_answers :
    (step reader llm tools "Where am I?" fresh).0 ≡ finished (answered (some "You are in /home."))
unfolding step
step_answers = refl

-- The call after the missing tool is skipped.
step_runs_one : length ((step reader llm tools "Where am I?" fresh).1).executed ≡ 1
unfolding step
step_runs_one = refl

execute_limited-IsBatch_example : IsBatch false 10 1 3 batch ((execute_limited tools batch fresh).0)
execute_limited-IsBatch_example = execute_limited-IsBatch tools batch fresh

step-bounds_example :
    (length ((step reader llm tools "Where am I?" fresh).1).requests ≤ 0 + 10)
    × Added (IsKnown tools) 100 [] ((step reader llm tools "Where am I?" fresh).1).executed
step-bounds_example = step-bounds reader llm tools "Where am I?" fresh

fresh-IsTranscript : IsTranscript fresh.messages
unfolding IsTranscript Awaiting
fresh-IsTranscript = tt

step-IsTranscript_example :
    Added IsAcceptable 10 [] ((step reader llm tools "Where am I?" fresh).1).requests
    × IsTranscript ((step reader llm tools "Where am I?" fresh).1).messages
step-IsTranscript_example =
    step-IsTranscript reader llm tools "Where am I?" fresh fresh-IsTranscript

step-IsExpected_example : IsExpected ((step reader llm tools "Where am I?" fresh).0)
step-IsExpected_example = step-IsExpected reader llm tools "Where am I?" fresh

llm-IsServed : IsServed llm reply
llm-IsServed = record {
  same = refl;
  known = refl;
  fit = refl;
  chat = λ n ms. refl;
  outputs = λ n outs. refl;
}

reply-Wants : Wants reader (reply 0)
unfolding Wants
reply-Wants = (_, refl, refl, refl)

replies-Wants : (j : ℕ) → j < 1 → Wants reader (reply (0 + j))
replies-Wants j less =
    let first : 0 ≡ 0 + j = omega (arith, less) in
    subst (λ m. Wants reader (reply m)) first reply-Wants

reply-Gives : Gives reader "You are in /home." (reply (0 + 1))
unfolding Gives
reply-Gives = (_, refl, refl, refl, refl)

step-answers_example :
    (step reader llm tools "Where am I?" fresh).0 ≡ finished (answered (some "You are in /home."))
step-answers_example =
    step-answers reader llm tools reply llm-IsServed "Where am I?" fresh 1 "You are in /home."
      (omega arith) replies-Wants reply-Gives

-- The user arms a collection; in the step a tool claims it.
abbrev armed : PrivilegedTurn
armed = (arm evidence_operation 5 new_turn).1

abbrev claims : List TurnCall
claims = claims_one (some "id") evidence_operation 15 1_010 ∷ arms evidence_operation 16 ∷ []

abbrev afterwards : List TurnCall
afterwards = lists 30 ∷ []

claims_leave_nothing : has_leave claims ≡ false
unfolding has_leave
claims_leave_nothing = refl

afterwards_arm_nothing : has_arm afterwards ≡ false
unfolding has_arm
afterwards_arm_nothing = refl

gated_step_ends :
    (gated_step
      (λ n. "id")
      (λ s. s)
      reader
      llm
      tools
      "head"
      10
      10
      claims
      "Where am I?"
      armed
      fresh).0
    ≡ ok (finished (answered (some "You are in /home.")))
unfolding gated_step arm new_turn
gated_step_ends = refl

gated_step-revokes_example :
    let after =
      (perform_all
        (λ n. "id")
        (λ s. s)
        afterwards
        ((gated_step
          (λ n. "id")
          (λ s. s)
          reader
          llm
          tools
          "head"
          10
          10
          claims
          "Where am I?"
          armed
          fresh).1)).1 in
    ((claim (λ n. "id") (λ s. s) (some "id") evidence_operation 31 1_031 after).0 ≡ err not_enabled)
    × (armed_operation 31 after ≡ none)
gated_step-revokes_example =
    gated_step-revokes (λ n. "id") (λ s. s) reader llm tools 10 10 claims "Where am I?" armed fresh
      (finished (answered (some "You are in /home."))) claims_leave_nothing gated_step_ends
      afterwards afterwards_arm_nothing (some "id") evidence_operation 31 1_031
