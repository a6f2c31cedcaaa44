-- ===== src/NightShifts/Executor/Steps.antt =====
-- What each step of the executor changes of what matters: the transcript, the calls, the requests.
use simple_ai_agent.Common.{
  ℕ, ◌+◌, ◌≡◌, refl, sym, ap, subst, ◌∙◌, modify, ◌>>=◌, ◌>>◌, String, not, Option, some, List, [],
  ◌∷◌, ◌++◌, Result, arith, Ensures, Ensures-bind, Ensures-weaken, if◌then◌else◌,
}
use simple_ai_agent.NightShifts.Protocol.{WorkerTask}
use simple_ai_agent.NightShifts.Policy.{ModelExecutorLimits}
use simple_ai_agent.NightShifts.Inference.{
  InferenceToolCall, InferenceMessage, InferenceRole, InferenceRequest, InferenceUsage,
  WorkerToolSpec, WorkerToolResult,
}
use simple_ai_agent.NightShifts.Executor.{
  WorkerEvent, Surroundings, Progress, Exit, Work, tool_completed, tally_usage,
}
use simple_ai_agent.NightShifts.Executor.Loop.{
  fail, let_through, stop_outcome, abort, emit, say, keep_artifact, invoke, valid_result,
  record_result, request, ask,
}

pub record Core : Type 0 where
  pub messages : List InferenceMessage
  pub tool_calls_used : ℕ
  pub seen_calls : List String
  pub requests : List InferenceRequest
  pub invocations : List InferenceToolCall

abbrev pub core : Progress → Core
core p = record {
  messages = p.messages;
  tool_calls_used = p.tool_calls_used;
  seen_calls = p.seen_calls;
  requests = p.requests;
  invocations = p.invocations;
}

-- The core is this one, whatever is returned or raised.
abbrev pub Leaves : {A : Type 0} → Core → Result Exit A × Progress → Type 0
Leaves c r = Ensures (λ a t. core t ≡ c) (λ e t. core t ≡ c) r

module _ (world : Surroundings) (limits : ModelExecutorLimits) (task : WorkerTask) where
  pub abort-Leaves : (p : Progress) → Leaves (core p) (abort world limits task p)
  unfolding Ensures abort stop_outcome let_through
  abort-Leaves p = ground arith

  pub emit-Leaves :
      (event : WorkerEvent) (p : Progress) → Leaves (core p) (emit world limits task event p)
  unfolding Ensures emit let_through
  emit-Leaves event p = ground arith

  pub keep_artifact-core :
      (call : InferenceToolCall) (result : WorkerToolResult) (p : Progress)
      → core (keep_artifact world limits task call result p) ≡ core p
  unfolding keep_artifact
  keep_artifact-core call result p = ground arith

  pub invoke-Leaves :
      (call : InferenceToolCall) (p : Progress)
      → Leaves
          (record (core p) { invocations = p.invocations ++ call ∷ [] })
          (invoke world limits task call p)
  unfolding Ensures invoke fail
  invoke-Leaves call p = ground arith

  pub valid_result-Leaves :
      (call : InferenceToolCall) (answer : Option WorkerToolResult) (p : Progress)
      → Leaves (core p) (valid_result world limits task call answer p)
  unfolding Ensures valid_result fail
  valid_result-Leaves call answer p = ground arith

  pub tally_usage-core :
      (usage : Option InferenceUsage) (p : Progress) → core (tally_usage usage p) ≡ core p
  unfolding tally_usage
  tally_usage-core usage p = refl

  pub ask-Leaves :
      (specifications : List WorkerToolSpec) (p : Progress)
      → Leaves
          (record (core p) {
            requests = p.requests ++ request world limits task specifications p ∷ [];
          })
          (ask world limits task specifications p)
  unfolding Ensures ask let_through
  ask-Leaves specifications p = ground arith

  -- The message with the result of a call.
  abbrev pub result_message : InferenceToolCall → WorkerToolResult → InferenceMessage
  result_message call result = record {
    role = InferenceRole.tool;
    content = result.output;
    tool_calls = [];
    tool_call_id = some call.call_id;
  }

  pub record_result-core :
      (call : InferenceToolCall) (result : WorkerToolResult) (p : Progress)
      → Ensures
          (λ u t. core t ≡ record (core p) {
            tool_calls_used = p.tool_calls_used + 1;
            messages = p.messages ++ result_message call result ∷ [];
          })
          (λ e t. core t ≡ record (core p) { tool_calls_used = p.tool_calls_used + 1 })
          (record_result world limits task call result p)
  unfolding record_result say Ensures
  record_result-core call result p =
      let counted : Progress = record p {
        tool_calls_used = p.tool_calls_used + 1;
        tool_errors = p.tool_errors + (if result.is_error then 1 else 0);
      } in
      let event = tool_completed call.name (not result.is_error) in
      Ensures-bind (λ u t. core t ≡ core counted) (λ e t. core t ≡ core counted)
        (λ u t.
          core t
          ≡ record (core counted) { messages = p.messages ++ result_message call result ∷ [] })
        (emit world limits task event counted)
        (λ u.
          say world limits task (result_message call result)
          >> modify (keep_artifact world limits task call result))
        (emit-Leaves event counted)
        (λ u t same.
          keep_artifact-core call result
            (record t { messages = t.messages ++ result_message call result ∷ [] })
          ∙ ap (λ (c : Core). record c { messages = c.messages ++ result_message call result ∷ [] })
              same)

-- A step that leaves a known core, and what follows it.
pub Leaves-bind :
    {A B : Type 0} (c : Core) (L : Core → Type 0) (Q : B → Progress → Type 0)
    (r : Result Exit A × Progress) (f : A → Work B)
    → Leaves c r
    → L c
    → ((a : A) (t : Progress) → core t ≡ c → Ensures Q (λ e t. L (core t)) (f a t))
    → Ensures Q (λ (e : Exit) t. L (core t)) (((λ (s : Progress). r) >>= f) (r.1))
Leaves-bind c L Q r f h left next =
    Ensures-bind (λ a t. core t ≡ c) (λ e t. L (core t)) Q r f
      (Ensures-weaken (λ a t. core t ≡ c) (λ a t. core t ≡ c) (λ e t. core t ≡ c)
        (λ e t. L (core t)) r h (λ a t same. same) (λ e t same. subst L (sym same) left))
      next
