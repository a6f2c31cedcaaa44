-- ===== src/NightShifts/Executor/Tests.antt =====
-- A model that lists the files and then submits, and the theorems on its run.
use simple_ai_agent.Common.{
  ℕ, zero, suc, ◌≤◌, ◌≡◌, refl, String, true, false, none, some, List, [], ◌∷◌, ok, length, All,
  arith, subst,
}
use simple_ai_agent.Common.Int.{pos}
use simple_ai_agent.NightShifts.Models.{AgentPlan}
use simple_ai_agent.NightShifts.Protocol.{WorkerTask}
use simple_ai_agent.NightShifts.Policy.{ModelExecutorLimits, InferenceLimits}
use simple_ai_agent.NightShifts.Inference.{
  Arguments, InferenceToolCall, InferenceRequest, InferenceResponse, WorkerToolSpec, tools_of,
  is_call_id,
}
use simple_ai_agent.NightShifts.Inference.Checks.{check_response}
use simple_ai_agent.NightShifts.Executor.{Surroundings, Exit, finished, escaped}
use simple_ai_agent.NightShifts.Executor.Loop.{execute}
use simple_ai_agent.NightShifts.Executor.Planned.{IsOrderly}
use simple_ai_agent.NightShifts.Executor.Invariant.{names_of, IsOwn, IsAcceptable}
use simple_ai_agent.NightShifts.Executor.Bounds.{execute-IsOrderly, execute-IsAcceptable}
use simple_ai_agent.NightShifts.Executor.Outcome.{IsHonest}
use simple_ai_agent.NightShifts.Executor.Outcome.Run.{execute-IsHonest}

abbrev task : WorkerTask
task = record {
  job_id = "job";
  objective = "Count the files.";
  worker_profile = "read-only-worker";
  acceptance_criteria = [];
  repository_id = none;
  starting_revision = none;
  plan = AgentPlan.normal;
}

abbrev limits : ModelExecutorLimits
limits = record { max_turns = pos 4; max_tool_calls = pos 8; max_summary_bytes = pos 100 }

abbrev session : InferenceLimits
session = record {
  max_requests = pos 4;
  max_messages = pos 96;
  max_input_bytes = pos 524_288;
  max_output_bytes = pos 131_072;
  max_tool_calls_per_response = pos 8;
  max_tool_schema_bytes = pos 65_536;
  ttl_seconds = pos 3_600;
}

abbrev no_arguments : Arguments
no_arguments = record { is_object = true; sorted_bytes = some 2; strict_bytes = some 2 }

abbrev listing : InferenceToolCall
listing = record { call_id = "c1"; name = "list_files"; arguments = no_arguments }

abbrev with_listing : InferenceResponse
with_listing = record { content = ""; tool_calls = listing ∷ []; usage = none }

abbrev submitting : InferenceResponse
submitting = record { content = "Two files."; tool_calls = []; usage = none }

-- The answer to each request; the model says the same from the second on.
abbrev reply : ℕ → InferenceResponse
reply zero = with_listing
reply (suc n) = submitting

abbrev world : Surroundings
world = record {
  infer = λ n r. ok (some (reply n));
  invoke =
      λ n name arguments. ok (some (record { tool_name = name; output = "a b"; is_error = false }));
  emit_event = λ n e. ok tt;
  control = none;
  strip = λ s. s;
  reference_of = λ s. none;
}

abbrev specifications : List WorkerToolSpec
specifications = record { name = "list_files"; description = "Lists."; input_schema = "{}" } ∷ []

abbrev summary_of : Exit → String
summary_of (finished r) = r.summary
summary_of escaped = ""

run_submits : summary_of ((execute world limits task specifications).0) ≡ "Two files."
unfolding execute is_call_id
run_submits = refl

execute-IsOrderly_example :
    let p = (execute world limits task specifications).1 in
    IsOrderly (names_of specifications) 8 p.invocations
    × (length p.requests ≤ 4)
    × All (IsOwn task specifications) p.requests
execute-IsOrderly_example = execute-IsOrderly world limits task specifications

checked :
    (n : ℕ) (r : InferenceRequest) (response : InferenceResponse)
    → world.infer n r ≡ ok (some response)
    → check_response (λ s. s) session task.worker_profile (some response) ≡ ok tt
unfolding check_response is_call_id tools_of
checked zero r response h =
    let same : with_listing ≡ response = ground (arith, h) in
    subst (λ s. check_response (λ s. s) session task.worker_profile (some s) ≡ ok tt) same refl
checked (suc n) r response h =
    let same : submitting ≡ response = ground (arith, h) in
    subst (λ s. check_response (λ s. s) session task.worker_profile (some s) ≡ ok tt) same refl

execute-IsAcceptable_example :
    All
      (IsAcceptable session (tools_of task.worker_profile))
      ((execute world limits task specifications).1).requests
execute-IsAcceptable_example =
    execute-IsAcceptable world limits task specifications session (λ s. s) checked

execute-IsHonest_example : IsHonest limits task ((execute world limits task specifications).0)
execute-IsHonest_example = execute-IsHonest world limits task specifications
