-- ===== src/NightShifts/Executor/Bounds.antt =====
-- What a run may do: the calls it makes and the requests it sends.
use Prim.Native.String.{len}
use simple_ai_agent.Common.{
  ℕ, ◌≤◌, ◌≡◌, refl, String, some, List, [], ok, arith, length, Result-cases, inl, inr, All,
}
use simple_ai_agent.Common.Int.{pos, pos_part}
use simple_ai_agent.NightShifts.Protocol.{WorkerTask}
use simple_ai_agent.NightShifts.Policy.{ModelExecutorLimits, InferenceLimits}
use simple_ai_agent.NightShifts.Inference.{
  InferenceRequest, InferenceResponse, WorkerToolSpec, tools_of,
}
use simple_ai_agent.NightShifts.Inference.Checks.{
  check_response, check_calls, duplicate_call, check_messages, check_message, check_message_calls,
  check_reference,
}
use simple_ai_agent.NightShifts.Inference.Transcript.{AllNew, IsTranscript, check_calls-AllChecked}
use simple_ai_agent.NightShifts.Executor.{Surroundings}
use simple_ai_agent.NightShifts.Executor.Loop.{execute, start}
use simple_ai_agent.NightShifts.Executor.Planned.{IsOrderly}
use simple_ai_agent.NightShifts.Executor.Steps.{core}
use simple_ai_agent.NightShifts.Executor.Invariant.{names_of, IsOwn, IsAcceptable, IsSound}
use simple_ai_agent.NightShifts.Executor.Run.{IsFine}
use simple_ai_agent.NightShifts.Executor.Run.Turns.{turns-Left}

-- Limits of a session that no run depends on.
no_session : InferenceLimits
no_session = record {
  max_requests = pos 0;
  max_messages = pos 0;
  max_input_bytes = pos 0;
  max_output_bytes = pos 0;
  max_tool_calls_per_response = pos 0;
  max_tool_schema_bytes = pos 0;
  ttl_seconds = pos 0;
}

module _ (world : Surroundings) (limits : ModelExecutorLimits) (task : WorkerTask)
    (specifications : List WorkerToolSpec) where
  -- The state before the first turn.
  start-IsSound :
      (session : InferenceLimits) (tools : List String) (Trust : Type 0)
      → IsSound limits task specifications session tools Trust [] [] 0 (core (start task))
  unfolding start IsTranscript check_messages check_message check_message_calls check_reference
      AllNew
  start-IsSound session tools Trust = record {
    plan = refl;
    orderly = record { new = tt; authorised = tt; few = omega arith };
    seen = refl;
    used = refl;
    transcript = λ trust. (_, refl);
    requests = record { few = omega arith; own = tt; acceptable = λ trust. tt };
  }

  -- Whatever the model, the tools, the callbacks and the clock answer, a run makes at most
  -- `max_tool_calls` calls of tools, each of a tool that `specifications` names, and no two with the same
  -- identifier; it asks the model at most `max_turns` times, each time for its own job and
  -- profile, with `specifications` as its tools.
  pub execute-IsOrderly :
      let p = (execute world limits task specifications).1 in
      IsOrderly (names_of specifications) (pos_part limits.max_tool_calls) p.invocations
      × (length p.requests ≤ pos_part limits.max_turns)
      × All (IsOwn task specifications) p.requests
  unfolding execute
  execute-IsOrderly =
      let left =
        turns-Left world limits task specifications no_session [] ⊥
          (λ trust n r response said. absurd trust) (pos_part limits.max_turns) 1 0 (start task)
          ([], start-IsSound no_session [] ⊥) in
      (left.made, omega (arith, left.requests.few), left.requests.own)

-- What a response that the gateway returned has passed.
check_response-IsFine :
    (world : Surroundings) (limits : ModelExecutorLimits) (task : WorkerTask)
    (specifications : List WorkerToolSpec) (session : InferenceLimits) (Trust : Type 0)
    (strip : String → String) (response : InferenceResponse)
    → check_response strip session task.worker_profile (some response) ≡ ok tt
    → IsFine world limits task specifications session (tools_of task.worker_profile) Trust response
unfolding check_response
check_response-IsFine world limits task specifications session Trust strip response h =
    let calls =
      check_calls duplicate_call (tools_of task.worker_profile) response.tool_calls []
        (len response.content) in
    elim (Result-cases calls) [
      | inl (counted, passed) ↦ (
        ground (arith, h),
        check_calls-AllChecked duplicate_call (tools_of task.worker_profile) response.tool_calls []
            (len response.content) {counted = counted} passed,
      )
      | inr (e, refused) ↦ absurd (ground (arith, h, refused))
    ]

-- If the model answers only what the gateway lets through for the session of the task's profile,
-- then every request of a run has a transcript that the gateway accepts: the roles, the
-- identifiers, the calls and the order of calls and results pass all its checks, whatever the
-- tools answer. What it may still refuse is a request for its length or its size.
pub execute-IsAcceptable :
    (world : Surroundings) (limits : ModelExecutorLimits) (task : WorkerTask)
    (specifications : List WorkerToolSpec) (session : InferenceLimits) (strip : String → String)
    → ((n : ℕ) (r : InferenceRequest) (response : InferenceResponse)
        → world.infer n r ≡ ok (some response)
        → check_response strip session task.worker_profile (some response) ≡ ok tt)
    → All
        (IsAcceptable session (tools_of task.worker_profile))
        ((execute world limits task specifications).1).requests
unfolding execute
execute-IsAcceptable world limits task specifications session strip checked =
    let left =
      turns-Left world limits task specifications session (tools_of task.worker_profile) Unit
        (λ trust n r response said.
          check_response-IsFine world limits task specifications session Unit strip response
            (checked n r response said))
        (pos_part limits.max_turns) 1 0 (start task)
        (
          [],
          start-IsSound world limits task specifications session (tools_of task.worker_profile)
              Unit,
        ) in
    left.requests.acceptable tt
