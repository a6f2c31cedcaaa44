-- ===== src/NightShifts/Executor/Invariant.antt =====
-- What holds between the steps of a run, and when it is left.
use simple_ai_agent.Common.{
  ℕ, ◌+◌, ◌≤◌, ◌≡◌, refl, sym, ap, subst, ◌∙◌, String, true, List, [], ◌∷◌, ◌++◌, arith, contains,
  length, length-append, append_assoc, map, All, eq_refl,
}
use simple_ai_agent.Common.Int.{pos_part}
use simple_ai_agent.NightShifts.Protocol.{WorkerTask}
use simple_ai_agent.NightShifts.Policy.{ModelExecutorLimits, InferenceLimits}
use simple_ai_agent.NightShifts.Inference.{
  InferenceToolCall, InferenceRequest, WorkerToolSpec, WorkerToolResult,
}
use simple_ai_agent.NightShifts.Inference.Transcript.{ids, IsTranscript, IsTranscript-tool}
use simple_ai_agent.NightShifts.Executor.{Surroundings}
use simple_ai_agent.NightShifts.Executor.Planned.{IsOrderly, IsOrderly-prefix}
use simple_ai_agent.NightShifts.Executor.Steps.{Core, result_message}

-- The names of the tools of a run.
abbrev pub names_of : List WorkerToolSpec → List String
names_of specifications = map (λ (s : WorkerToolSpec). s.name) specifications

pub ids-append : (xs ys : List InferenceToolCall) → ids (xs ++ ys) ≡ ids xs ++ ids ys
ids-append [] ys = refl
ids-append (x ∷ xs) ys = ap (λ l. x.call_id ∷ l) (ids-append xs ys)

-- The core once a call was made.
abbrev pub called : InferenceToolCall → Core → Core
called call c = record c {
  seen_calls = c.seen_calls ++ call.call_id ∷ [];
  invocations = c.invocations ++ call ∷ [];
}

-- A request for the task, with the tools of the run.
pub record IsOwn (task : WorkerTask) (specifications : List WorkerToolSpec) (r : InferenceRequest)
    : Type 0 where
  pub own_job : r.job_id ≡ task.job_id
  pub own_profile : r.worker_profile ≡ task.worker_profile
  pub own_tools : r.tools ≡ specifications

-- A request whose transcript the gateway accepts.
abbrev pub IsAcceptable : InferenceLimits → List String → InferenceRequest → Type 0
IsAcceptable session tools r = (known : List String) × IsTranscript session tools known r.messages

module _ (limits : ModelExecutorLimits) (task : WorkerTask) (specifications : List WorkerToolSpec)
    (session : InferenceLimits) (tools : List String) (Trust : Type 0) where
  -- The requests made so far, at most `asked`; `Trust` is what the transcripts depend on.
  pub record AreRequests (asked : ℕ) (requests : List InferenceRequest) : Type 0 where
    pub few : length requests ≤ asked
    pub own : All (IsOwn task specifications) requests
    pub acceptable : Trust → All (IsAcceptable session tools) requests

  abbrev pub AreOrderly : List InferenceToolCall → Type 0
  AreOrderly calls = IsOrderly (names_of specifications) (pos_part limits.max_tool_calls) calls

  -- Between two calls of a turn: `rest` is still to be made.
  pub record IsSound (planned rest : List InferenceToolCall) (asked : ℕ) (c : Core) : Type 0 where
    pub plan : c.invocations ++ rest ≡ planned
    pub orderly : AreOrderly planned
    pub seen : c.seen_calls ≡ ids c.invocations
    pub used : c.tool_calls_used ≡ length c.invocations
    pub transcript : Trust → IsTranscript session tools (ids planned) c.messages
    pub requests : AreRequests asked c.requests

  -- When the run is left.
  pub record IsLeft (asked : ℕ) (c : Core) : Type 0 where
    pub made : AreOrderly c.invocations
    pub requests : AreRequests asked c.requests

  pub IsSound-IsLeft :
      {planned rest : List InferenceToolCall} {asked : ℕ} {c : Core}
      → IsSound planned rest asked c
      → IsLeft asked c
  IsSound-IsLeft {rest = rest} {c = c} s = record {
    made =
        IsOrderly-prefix (names_of specifications) (pos_part limits.max_tool_calls) c.invocations
          rest (subst AreOrderly (sym s.plan) s.orderly);
    requests = s.requests;
  }

  -- A call of the plan is known to the transcript.
  planned_known :
      (before : List InferenceToolCall) (call : InferenceToolCall) (rest : List InferenceToolCall)
      → contains call.call_id (ids (before ++ call ∷ rest)) ≡ true
  planned_known [] call rest = ground (arith, eq_refl call.call_id)
  planned_known (c ∷ cs) call rest = ground (arith, planned_known cs call rest)

  -- What is left of a plan once a call was made, before its result is recorded.
  pub called-IsLeft :
      {planned : List InferenceToolCall} {asked : ℕ} {c : Core} (call : InferenceToolCall)
      (rest : List InferenceToolCall)
      → IsSound planned (call ∷ rest) asked c
      → IsLeft asked (called call c)
  called-IsLeft {c = c} call rest s = record {
    made =
        IsOrderly-prefix (names_of specifications) (pos_part limits.max_tool_calls)
          (c.invocations ++ call ∷ []) rest
          (subst AreOrderly (sym s.plan ∙ sym (append_assoc c.invocations (call ∷ []) rest))
            s.orderly);
    requests = s.requests;
  }

  pub recorded-IsSound :
      {planned : List InferenceToolCall} {asked : ℕ} {c : Core} (call : InferenceToolCall)
      (rest : List InferenceToolCall) (result : WorkerToolResult)
      → (world : Surroundings) → IsSound planned (call ∷ rest) asked c
      → IsSound planned rest asked (record (called call c) {
        tool_calls_used = c.tool_calls_used + 1;
        messages = c.messages ++ result_message world limits task call result ∷ [];
      })
  recorded-IsSound {planned = planned} {c = c} call rest result world s = record {
    plan = append_assoc c.invocations (call ∷ []) rest ∙ s.plan;
    orderly = s.orderly;
    seen = ap (λ l. l ++ call.call_id ∷ []) s.seen ∙ sym (ids-append c.invocations (call ∷ []));
    used = omega (arith, s.used, length-append c.invocations (call ∷ []));
    transcript = λ trust.
        IsTranscript-tool session tools (ids planned) c.messages call.call_id result.output
          (subst (λ l. contains call.call_id (ids l) ≡ true) s.plan
            (planned_known c.invocations call rest))
          (s.transcript trust);
    requests = s.requests;
  }
