-- ===== src/NightShifts/Executor/Loop.antt =====
-- `MediatedModelExecutor.execute`: the turns, and the calls of a turn.
use Prim.Native.String.{len, count, slice}
use simple_ai_agent.Common.{
  ℕ, zero, suc, ◌+◌, String, false, not, ◌&&◌, ◌||◌, Option, none, some, List, [], ◌∷◌, ◌++◌, ◌==◌,
  Result, ok, err, pure, raise, gets, modify, raise_if, ◌>>=◌, ◌>>◌, leb, ltb, eqb, contains,
  length, map, if◌then◌else◌,
}
use text.Mathlib.Text.{starts_with}
use simple_ai_agent.Common.Int.{pos_part}
use simple_ai_agent.NightShifts.Protocol.{WorkerOutcome, WorkerResult, WorkerTask, plain_result}
use simple_ai_agent.NightShifts.Policy.{ModelExecutorLimits}
use simple_ai_agent.NightShifts.Inference.{
  InferenceToolCall, InferenceMessage, InferenceRole, InferenceRequest, InferenceResponse,
  WorkerToolSpec, WorkerToolResult,
}
use simple_ai_agent.NightShifts.Executor.{
  Raised, ExecutionControl, WorkerEvent, inference_requested, inference_completed, tool_completed,
  Surroundings, Tally, Progress, Exit, finished, escaped, Work, valid_calls, failure, system_prompt,
  task_prompt, tally_usage,
}

-- `value if not unknown else None`
unfoldable pub reported : Tally → Option ℕ
reported t = if t.is_unknown then none else some t.total

-- The text without its first `n` bytes.
unfoldable pub drop_bytes : ℕ → String → String
drop_bytes n s = slice s n (len s)

unfoldable pub start : WorkerTask → Progress
unfolding system_prompt task_prompt
start task = record {
  messages =
      record {
        role = InferenceRole.system;
        content = system_prompt task.worker_profile;
        tool_calls = [];
        tool_call_id = none;
      }
      ∷ record {
        role = InferenceRole.user;
        content = task_prompt task;
        tool_calls = [];
        tool_call_id = none;
      }
      ∷ [];
  tool_calls_used = 0;
  tool_errors = 0;
  seen_calls = [];
  artifact_references = [];
  input_tokens = record { total = 0; is_unknown = false };
  output_tokens = record { total = 0; is_unknown = false };
  cached_input_tokens = record { total = 0; is_unknown = false };
  reasoning_output_tokens = record { total = 0; is_unknown = false };
  unknown_requests = 0;
  requests = [];
  invocations = [];
  events = 0;
  polls = 0;
}

module _ (world : Surroundings) (limits : ModelExecutorLimits) (task : WorkerTask) where
  -- `return self._failure(task, …)`
  unfoldable pub fail : {A : Type 0} → String → Work A
  unfolding failure
  fail message = raise (finished (failure task message))

  -- A call of something that may raise, whose exception nothing catches.
  unfoldable pub let_through : {A : Type 0} → Result Raised A → Work A
  let_through (ok a) = pure a
  let_through (err e) = raise escaped

  -- `control.stop_outcome()`: the clock is read only if the job is not cancelled.
  unfoldable pub stop_outcome : ExecutionControl → Work (Option WorkerOutcome)
  unfolding let_through
  stop_outcome control = do
    cancelled ← let_through (← gets (λ p. control.cancellation_requested p.polls))
    now ← gets (λ p. control.monotonic p.polls)
    modify (λ p. record p { polls = p.polls + 1 })
    pure (
        if cancelled
        then some WorkerOutcome.cancelled
        else if leb control.deadline now
        then some WorkerOutcome.timed_out
        else none)

  -- `_abort`, and the `return` that follows it.
  unfoldable pub abort : Work (Unit {0})
  unfolding stop_outcome plain_result
  abort = elim world.control [
    | none ↦ pure tt
    | some control ↦ do
      outcome ← stop_outcome control
      elim outcome [
        | none ↦ pure tt
        | some o ↦ raise (
            finished (
              plain_result task.job_id o "Worker execution was cancelled or exceeded its deadline."
                none))
      ]
  ]

  unfoldable pub emit : WorkerEvent → Work (Unit {0})
  unfolding let_through
  emit event = do
    let_through (← gets (λ p. world.emit_event p.events event))
    modify (λ p. record p { events = p.events + 1 })

  unfoldable pub say : InferenceMessage → Work (Unit {0})
  say message = modify (λ p. record p { messages = p.messages ++ message ∷ [] })

  -- `_artifact_reference`, and what is done with it.
  unfoldable pub keep_artifact : InferenceToolCall → WorkerToolResult → Progress → Progress
  keep_artifact call result p =
      if result.is_error || not (call.name == "write_artifact")
      then p
      else elim (world.reference_of result.output) [
        | none ↦ p
        | some reference ↦
            if contains reference p.artifact_references
            then p
            else record p { artifact_references = p.artifact_references ++ reference ∷ [] }
      ]

  -- `tools.invoke(…)` and its handler.
  unfoldable pub invoke : InferenceToolCall → Work (Option WorkerToolResult)
  unfolding fail
  invoke call = do
    answer ← gets (λ p. world.invoke (length p.invocations) call.name call.arguments)
    modify (λ p. record p { invocations = p.invocations ++ call ∷ [] })
    elim answer [ ok result ↦ pure result | err e ↦ fail "worker tool provider failed" ]

  -- A result of the contract's type, for the tool that was called.
  unfoldable pub valid_result : InferenceToolCall → Option WorkerToolResult → Work WorkerToolResult
  unfolding fail
  valid_result call none = fail "worker tool provider returned an invalid result"
  valid_result call (some result) =
      if result.tool_name == call.name
      then pure result
      else fail "worker tool provider returned an invalid result"

  -- What a result adds.
  unfoldable pub record_result : InferenceToolCall → WorkerToolResult → Work (Unit {0})
  unfolding emit say keep_artifact
  record_result call result = do
    modify (λ p. record p {
      tool_calls_used = p.tool_calls_used + 1;
      tool_errors = p.tool_errors + (if result.is_error then 1 else 0);
    })
    emit (tool_completed call.name (not result.is_error))
    say (record {
      role = InferenceRole.tool;
      content = result.output;
      tool_calls = [];
      tool_call_id = some call.call_id;
    })
    modify (keep_artifact call result)

  -- The body of the loop over a response's calls.
  unfoldable pub run_call : InferenceToolCall → Work (Unit {0})
  unfolding abort invoke valid_result record_result
  run_call call = do
    abort
    modify (λ p. record p { seen_calls = p.seen_calls ++ call.call_id ∷ [] })
    answer ← invoke call
    abort
    result ← valid_result call answer
    record_result call result

  unfoldable pub run_calls : List InferenceToolCall → Work (Unit {0})
  unfolding run_call
  run_calls [] = pure tt
  run_calls (call ∷ rest) = run_call call >> run_calls rest

  -- The result of a response without calls, in turn number `turn`.
  unfoldable pub submission : ℕ → String → Progress → WorkerResult
  unfolding failure plain_result reported drop_bytes
  submission turn content p =
      let summary = world.strip content in
      let blocked = starts_with summary "BLOCKED:" in
      let bare =
        not (starts_with summary "BLOCKED: ")
        || eqb (count (world.strip (drop_bytes 9 summary))) 0 in
      if eqb (count summary) 0
      then failure task "worker model returned an empty final response"
      else if ltb (pos_part limits.max_summary_bytes) (len summary)
      then failure task "worker model summary exceeded the limit"
      else if blocked && bare
      then failure task "worker model returned a blocker without a reason"
      else record (plain_result task.job_id
          (if blocked then WorkerOutcome.blocked else WorkerOutcome.submitted) summary none) {
            artifacts = p.artifact_references;
            metrics = some (record {
              inference_turns = turn;
              tool_calls = p.tool_calls_used;
              tool_errors = p.tool_errors;
              input_tokens = reported p.input_tokens;
              output_tokens = reported p.output_tokens;
              cached_input_tokens = reported p.cached_input_tokens;
              reasoning_output_tokens = reported p.reasoning_output_tokens;
              unknown_requests = p.unknown_requests;
            });
          }

  module _ (specifications : List WorkerToolSpec) where
    unfoldable pub request : Progress → InferenceRequest
    request p = record {
      job_id = task.job_id;
      worker_profile = task.worker_profile;
      messages = p.messages;
      tools = specifications;
    }

    unfoldable pub ask : Work (Option InferenceResponse)
    unfolding let_through request
    ask = do
      asked ← gets request
      answer ← gets (λ p. world.infer (length p.requests) asked)
      modify (λ p. record p { requests = p.requests ++ asked ∷ [] })
      let_through answer

    -- `_valid_response`, and the failure if it does not hold.
    unfoldable pub valid_response : Option InferenceResponse → Work InferenceResponse
    unfolding fail valid_calls
    valid_response none = fail "worker model returned an invalid tool call or response"
    valid_response (some response) = do
      seen ← gets (λ p. p.seen_calls)
      raise_if
          (not (
            valid_calls (map (λ (s : WorkerToolSpec). s.name) specifications) seen []
              response.tool_calls))
          (finished (failure task "worker model returned an invalid tool call or response"))
      pure response

    -- The branch of a response with calls.
    unfoldable pub use_tools : InferenceResponse → Work (Unit {0})
    unfolding failure say run_calls
    use_tools response = do
      used ← gets (λ p. p.tool_calls_used)
      raise_if (ltb (pos_part limits.max_tool_calls) (used + length response.tool_calls))
          (finished (failure task "worker model tool-call limit exceeded"))
      say (record {
        role = InferenceRole.assistant;
        content = response.content;
        tool_calls = response.tool_calls;
        tool_call_id = none;
      })
      run_calls response.tool_calls

    unfoldable pub answer_turn : ℕ → InferenceResponse → Work (Unit {0})
    unfolding use_tools submission
    answer_turn turn response = elim response.tool_calls [
      | [] ↦ λ p. raise (finished (submission turn response.content p)) p
      | (call ∷ rest) ↦ use_tools response
    ]

    -- One turn; it returns if another one follows.
    unfoldable pub run_turn : ℕ → Work (Unit {0})
    unfolding abort emit ask valid_response tally_usage answer_turn
    run_turn turn = do
      abort
      emit (inference_requested turn)
      answer ← ask
      abort
      response ← valid_response answer
      modify (tally_usage response.usage)
      emit (inference_completed turn (length response.tool_calls))
      answer_turn turn response

    -- The turns that `range` has left.
    unfoldable pub turns : ℕ → ℕ → Progress → Exit × Progress
    unfolding failure run_turn
    turns zero turn p = (finished (failure task "worker model inference-turn limit exceeded"), p)
    turns (suc left) turn p =
        let (r, p') = run_turn turn p in
        elim r [ ok u ↦ turns left (turn + 1) p' | err e ↦ (e, p') ]

    -- `execute`
    unfoldable pub execute : Exit × Progress
    unfolding start turns
    execute = turns (pos_part limits.max_turns) 1 (start task)
