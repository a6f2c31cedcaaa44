-- ===== src/Runtime/ToolProfiles/Tests.antt =====
-- A worker that only reads, and a source with its tools and one more.
use simple_ai_agent.Common.{ℕ, ◌≡◌, refl, String, true, false, none, [], ◌∷◌, ok, err, map}
use simple_ai_agent.Core.Json.{no_member}
use simple_ai_agent.Core.Protocol.{malformed, Reader}
use simple_ai_agent.Core.Registry.{ToolSpec, ToolRegistry, IsKeyed}
use simple_ai_agent.Core.Agent.{decoded, Reply, response, returned, Tools, Llm, Agent}
use simple_ai_agent.Core.Agent.Change.{Added}
use simple_ai_agent.Core.Agent.Loop.{step}
use simple_ai_agent.Runtime.ToolProfiles.{inspection_tools, build_profile_registry}
use simple_ai_agent.Runtime.ToolProfiles.Allowed.{IsAllowed, build_profile_registry-step}

abbrev reader : Reader
reader = record {
  strip = λ s. s;
  lower = λ s. s;
  loads = λ s. malformed;
  bodies = λ s. [];
  without_bodies = λ s. s;
}

abbrev entry_of : String → String × ToolSpec
entry_of name =
    (name, record { name = name; function = 0; description = "A tool."; requires_state = false })

abbrev source : ToolRegistry
source = entry_of "run_shell_command" ∷ entry_of "knowledge_search" ∷ map entry_of inspection_tools

source-IsKeyed : IsKeyed source
unfolding IsKeyed
source-IsKeyed =
    (refl, (refl, (refl, (refl, (refl, (refl, (refl, (refl, (refl, (refl, (refl, tt)))))))))))

-- The source lists them in another order.
abbrev reading : ToolRegistry
reading =
    entry_of "analyze_python_file"
    ∷ entry_of "analyze_python_files"
    ∷ entry_of "file_info"
    ∷ entry_of "pwd"
    ∷ entry_of "ls"
    ∷ entry_of "cd"
    ∷ entry_of "read_file"
    ∷ entry_of "find_files"
    ∷ entry_of "search_text"
    ∷ entry_of "knowledge_search"
    ∷ []

abbrev tools : Tools
tools = record {
  registry = reading;
  call = λ n spec input. returned "/home";
  start_audit = λ n. none;
  show = λ n. "n";
}

abbrev reply : ℕ → Reply
reply n = response none (
    record { id = "c1"; name = "pwd"; arguments = decoded no_member }
    ∷ record { id = "c2"; name = "run_shell_command"; arguments = decoded no_member }
    ∷ [])

abbrev llm : Llm
llm = record {
  supports_native_tools = true;
  supports_native_tool_outputs = false;
  api_type = "chat_completions";
  state_api_type = "chat_completions";
  tools_fit = true;
  runtime_context = λ n. "context";
  chat = λ n messages. ok (reply n);
  submit_tool_outputs = λ n outputs. err "unsupported";
}

abbrev worker : Agent
worker = record {
  messages = [];
  pending = [];
  retry_count = 0;
  empty_retry_count = 0;
  requests = [];
  executed = [];
  audit_starts = 0;
  audits = [];
}

builds_reading : build_profile_registry "read-only-worker" source ≡ ok reading
unfolding build_profile_registry
builds_reading = refl

build_profile_registry-step_example :
    Added (IsAllowed "read-only-worker") 100 [] ((step reader llm tools "Read." worker).1).executed
build_profile_registry-step_example =
    build_profile_registry-step reader llm tools "read-only-worker" source "Read." worker
      source-IsKeyed builds_reading
