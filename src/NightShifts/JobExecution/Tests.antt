-- ===== src/NightShifts/JobExecution/Tests.antt =====
-- A job whose model submits at once, and the theorems on its run.
use simple_ai_agent.Common.{◌≡◌, ◌≢◌, refl, true, false, none, some, [], ◌∷◌, ok, lookup}
use simple_ai_agent.Common.Int.{pos}
use simple_ai_agent.NightShifts.Models.{AgentPlan}
use simple_ai_agent.NightShifts.Protocol.{WorkerTask, WorkerOutcome}
use simple_ai_agent.NightShifts.Policy.{InferenceLimits}
use simple_ai_agent.NightShifts.Inference.{InferenceResponse}
use simple_ai_agent.NightShifts.Inference.Gateway.{Host, Gateway, Client, Session, close_client}
use simple_ai_agent.NightShifts.JobExecution.{
  WorkerExecutionPolicy, ToolSession, RunWorld, run, attempt, close_fails, mismatches, is_failed,
  is_true,
}
use simple_ai_agent.NightShifts.JobExecution.Settled.{run-settles, run-submits}

abbrev submitting : InferenceResponse
submitting = record { content = "Two files."; tool_calls = []; usage = none }

abbrev host : Host
host = record {
  token_urlsafe = λ n. "t";
  utc_now = λ n. n;
  schema_bytes = λ tools. some 2;
  strip = λ s. s;
  model_infer = λ n r. some (some submitting);
  can_cancel = λ model. true;
}

abbrev limits : InferenceLimits
limits = record {
  max_requests = pos 4;
  max_messages = pos 96;
  max_input_bytes = pos 524_288;
  max_output_bytes = pos 131_072;
  max_tool_calls_per_response = pos 8;
  max_tool_schema_bytes = pos 65_536;
  ttl_seconds = pos 3_600;
}

abbrev session : Session
session = record {
  job_id = "job";
  worker_profile = "read-only-worker";
  model_id = "m";
  limits = limits;
  expires_at = 3_600;
  requests = 0;
}

abbrev gateway : Gateway
gateway = record {
  models = "m" ∷ [];
  sessions = ("t", session) ∷ [];
  dispatched = [];
  draws = 1;
  readings = 1;
}

abbrev client : Client
client = record { is_own = true; token = "t" }

abbrev world : RunWorld
world = record {
  surroundings = record {
    infer = λ n r. ok (some submitting);
    invoke = λ n name arguments. ok none;
    emit_event = λ n e. ok tt;
    control = none;
    strip = λ s. s;
    reference_of = λ s. none;
  };
  cancellation_requested = λ n. ok false;
  monotonic = λ n. n;
  meanwhile = [];
  cancelled_then = ok false;
  monotonic_then = 9;
  cancelled_late = ok false;
  close_model = ok tt;
}

abbrev policy : WorkerExecutionPolicy
policy = record {
  job_id = "job";
  repository_id = "repo";
  base_revision = "r1";
  model_id = "m";
  worker_profile = "read-only-worker";
  budget = record {
    timeout_seconds = pos 14_400;
    max_tool_calls = pos 500;
    max_cost_usd = none;
    max_model_requests = pos 24;
    max_input_bytes = pos 524_288;
    max_output_bytes = pos 131_072;
    max_output_tokens = pos 4_096;
    max_command_seconds = pos 300;
  };
}

abbrev tools : ToolSession
tools = record {
  job_id = "job";
  profile = "read-only-worker";
  deadline = 50;
  max_command_seconds = pos 300;
  model_tools = [];
  cancel = ok tt;
}

abbrev task : WorkerTask
task = record {
  job_id = "job";
  objective = "Count the files.";
  worker_profile = "read-only-worker";
  acceptance_criteria = [];
  repository_id = some "repo";
  starting_revision = some "r1";
  plan = AgentPlan.normal;
}

submitted :
    ((run host world policy tools client task (some 60) gateway).0).result.outcome
    ≡ WorkerOutcome.submitted
unfolding run
submitted = refl

run-settles_example :
    (((run host world policy tools client task (some 60) gateway).0).result.job_id ≡ "job")
    × (((run host world policy tools client task (some 60) gateway).0).result.outcome
        ≢ WorkerOutcome.success)
    × (lookup "t" ((run host world policy tools client task (some 60) gateway).1).sessions ≡ none)
run-settles_example = run-settles host world policy tools client task (some 60) gateway refl

run-submits_example :
    (is_failed tools.cancel ≡ false)
    × (let tried = (attempt host world policy tools client task (some 60) gateway).1 in
        close_fails host world policy tools client task ((close_client host client tried).0) tried
        ≡ false)
    × (is_true world.cancelled_late ≡ false)
    × (mismatches host world policy tools client task ≡ false)
run-submits_example = run-submits host world policy tools client task (some 60) gateway submitted
