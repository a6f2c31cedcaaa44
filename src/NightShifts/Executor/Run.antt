-- ===== src/NightShifts/Executor/Run.antt =====
-- The invariant through the calls of a turn.
pub mod Turns
use simple_ai_agent.Common.{
  ℕ, zero, suc, ◌+◌, ◌≤◌, ◌≡◌, refl, sym, ap, subst, ◌∙◌, String, Bool, true, false, not, ◌&&◌,
  ◌||◌, Option, none, some, List, [], ◌∷◌, ◌++◌, ◌==◌, Result, ok, err, Action, raise, raise_if,
  modify, gets, pure, ◌>>=◌, ◌>>◌, arith, contains, length, length-append, append_assoc, append-nil,
  map, All, Result-cases, inl, inr, Ensures, Ensures-bind, Ensures-guard, Ensures-weaken,
  if◌then◌else◌, ltb,
}
use simple_ai_agent.Common.Int.{pos_part}
use simple_ai_agent.NightShifts.Protocol.{WorkerTask}
use simple_ai_agent.NightShifts.Policy.{ModelExecutorLimits, InferenceLimits}
use simple_ai_agent.NightShifts.Inference.{
  InferenceToolCall, InferenceMessage, InferenceRole, InferenceRequest, InferenceResponse,
  WorkerToolSpec, WorkerToolResult,
}
use simple_ai_agent.NightShifts.Inference.Transcript.{
  ids, AllNew, AllChecked, IsTranscript, IsTranscript-assistant,
}
use simple_ai_agent.NightShifts.Executor.{
  Surroundings, Progress, Exit, finished, escaped, Work, valid_calls, failure, inference_requested,
  inference_completed, tally_usage,
}
use simple_ai_agent.NightShifts.Executor.Loop.{
  abort, emit, say, invoke, valid_result, record_result, run_call, run_calls, use_tools,
  answer_turn, let_through, fail, submission, request, ask, valid_response, run_turn, turns,
  execute, start,
}
use simple_ai_agent.NightShifts.Executor.Planned.{
  IsOrderly, IsOrderly-prefix, IsAllowed, valid_calls-AllNew, AllNew-append, All-append,
}
use simple_ai_agent.NightShifts.Executor.Steps.{
  Core, core, Leaves, Leaves-bind, abort-Leaves, emit-Leaves, ask-Leaves, tally_usage-core,
  invoke-Leaves, valid_result-Leaves, record_result-core, result_message,
}
use simple_ai_agent.NightShifts.Executor.Invariant.{
  names_of, IsOwn, IsAcceptable, AreRequests, AreOrderly, IsSound, IsLeft, IsSound-IsLeft,
  ids-append, called, called-IsLeft, recorded-IsSound,
}

-- The message with the calls of a response.
abbrev pub calls_message : InferenceResponse → InferenceMessage
calls_message response = record {
  role = InferenceRole.assistant;
  content = response.content;
  tool_calls = response.tool_calls;
  tool_call_id = none;
}

module _ (world : Surroundings) (limits : ModelExecutorLimits) (task : WorkerTask)
    (specifications : List WorkerToolSpec) (session : InferenceLimits) (tools : List String)
    (Trust : Type 0) where
  -- Between two calls, and when the run is left.
  abbrev pub Sound : List InferenceToolCall → List InferenceToolCall → ℕ → Core → Type 0
  Sound planned rest asked c =
      IsSound limits task specifications session tools Trust planned rest asked c

  abbrev pub Left : ℕ → Core → Type 0
  Left asked c = IsLeft limits task specifications session tools Trust asked c

  recording :
      (planned rest : List InferenceToolCall) (asked : ℕ) (call : InferenceToolCall)
      (result : WorkerToolResult) (c : Core) (p : Progress)
      → Sound planned (call ∷ rest) asked c
      → core p ≡ called call c
      → Ensures
          (λ u t. Sound planned rest asked (core t))
          (λ e t. Left asked (core t))
          (record_result world limits task call result p)
  recording planned rest asked call result c p sound same =
      Ensures-weaken
        (λ u t. core t ≡ record (core p) {
          tool_calls_used = p.tool_calls_used + 1;
          messages = p.messages ++ result_message world limits task call result ∷ [];
        })
        (λ u t. Sound planned rest asked (core t))
        (λ e t. core t ≡ record (core p) { tool_calls_used = p.tool_calls_used + 1 })
        (λ e t. Left asked (core t)) (record_result world limits task call result p)
        (record_result-core world limits task call result p)
        (λ u t after.
          subst (Sound planned rest asked)
            (sym (
              after
              ∙ ap
                  (λ (d : Core). record d {
                    tool_calls_used = d.tool_calls_used + 1;
                    messages = d.messages ++ result_message world limits task call result ∷ [];
                  })
                  same))
            (recorded-IsSound limits task specifications session tools Trust call rest result world
              sound))
        (λ e t after.
          let left = called-IsLeft limits task specifications session tools Trust call rest sound in
          subst (Left asked)
            (sym (
              after ∙ ap (λ (d : Core). record d { tool_calls_used = d.tool_calls_used + 1 }) same))
            (record { made = left.made; requests = left.requests }))

  run_call-Sound :
      (planned rest : List InferenceToolCall) (asked : ℕ) (call : InferenceToolCall) (p : Progress)
      → Sound planned (call ∷ rest) asked (core p)
      → Ensures
          (λ u t. Sound planned rest asked (core t))
          (λ e t. Left asked (core t))
          (run_call world limits task call p)
  unfolding run_call
  run_call-Sound planned rest asked call p sound =
      let Q : (Unit {0}) → Progress → Type 0 = λ u t. Sound planned rest asked (core t) in
      let left = called-IsLeft limits task specifications session tools Trust call rest sound in
      Leaves-bind (core p) (Left asked) Q (abort world limits task p)
        (λ u. do
          modify (λ s. record s { seen_calls = s.seen_calls ++ call.call_id ∷ [] })
          answer ← invoke world limits task call
          abort world limits task
          result ← valid_result world limits task call answer
          record_result world limits task call result)
        (abort-Leaves world limits task p)
        (IsSound-IsLeft limits task specifications session tools Trust sound)
        (λ u t₁ same₁.
          let noted : Progress = record t₁ { seen_calls = t₁.seen_calls ++ call.call_id ∷ [] } in
          let made : called call (core t₁) ≡ called call (core p) = ap (called call) same₁ in
          Leaves-bind (called call (core t₁)) (Left asked) Q (invoke world limits task call noted)
            (λ answer. do
              abort world limits task
              result ← valid_result world limits task call answer
              record_result world limits task call result)
            (invoke-Leaves world limits task call noted) (subst (Left asked) (sym made) left)
            (λ answer t₂ same₂.
              Leaves-bind (core t₂) (Left asked) Q (abort world limits task t₂)
                (λ u. do
                  result ← valid_result world limits task call answer
                  record_result world limits task call result)
                (abort-Leaves world limits task t₂) (subst (Left asked) (sym (same₂ ∙ made)) left)
                (λ u t₃ same₃.
                  Leaves-bind (core t₃) (Left asked) Q
                    (valid_result world limits task call answer t₃)
                    (record_result world limits task call)
                    (valid_result-Leaves world limits task call answer t₃)
                    (subst (Left asked) (sym (same₃ ∙ same₂ ∙ made)) left)
                    (λ result t₄ same₄.
                      recording planned rest asked call result (core p) t₄ sound
                        (same₄ ∙ same₃ ∙ same₂ ∙ made)))))

  pub run_calls-Sound :
      (planned rest : List InferenceToolCall) (asked : ℕ) (p : Progress)
      → Sound planned rest asked (core p)
      → Ensures
          (λ u t. Sound planned [] asked (core t))
          (λ e t. Left asked (core t))
          (run_calls world limits task rest p)
  unfolding run_calls Ensures
  run_calls-Sound planned [] asked p sound = sound
  run_calls-Sound planned (call ∷ rest) asked p sound =
      Ensures-bind (λ u t. Sound planned rest asked (core t)) (λ e t. Left asked (core t))
        (λ u t. Sound planned [] asked (core t)) (run_call world limits task call p)
        (λ u. run_calls world limits task rest) (run_call-Sound planned rest asked call p sound)
        (λ u t h. run_calls-Sound planned rest asked t h)

  -- What the gateway has checked of a response.
  abbrev pub IsFine : InferenceResponse → Type 0
  IsFine response =
      (ltb (pos_part session.max_tool_calls_per_response) (length response.tool_calls) ≡ false)
      × AllChecked tools response.tool_calls

  -- Between two turns.
  abbrev pub Settled : ℕ → Core → Type 0
  Settled asked c = (planned : List InferenceToolCall) × Sound planned [] asked c

  -- The calls of a valid response join the plan.
  planned-Sound :
      (planned : List InferenceToolCall) (asked : ℕ) (response : InferenceResponse) (c : Core)
      → Sound planned [] asked c
      → valid_calls (names_of specifications) c.seen_calls [] response.tool_calls ≡ true
      → (Trust → IsFine response)
      → c.tool_calls_used + length response.tool_calls ≤ pos_part limits.max_tool_calls
      → Sound
          (planned ++ response.tool_calls)
          response.tool_calls
          asked
          (record c { messages = c.messages ++ calls_message response ∷ [] })
  planned-Sound planned asked response c sound valid fine few =
      let made : c.invocations ≡ planned = sym (append-nil c.invocations) ∙ sound.plan in
      let known : c.seen_calls ++ [] ≡ ids planned =
        append-nil c.seen_calls ∙ sound.seen ∙ ap ids made in
      let (new, allowed) =
        valid_calls-AllNew (names_of specifications) c.seen_calls [] response.tool_calls valid in
      let fresh : AllNew (ids planned) response.tool_calls =
        subst (λ k. AllNew k response.tool_calls) known new in
      record {
        plan = ap (λ l. l ++ response.tool_calls) made;
        orderly = record {
          new = AllNew-append [] planned response.tool_calls sound.orderly.new fresh;
          authorised =
              All-append (IsAllowed (names_of specifications)) planned response.tool_calls
                sound.orderly.authorised allowed;
          few =
              omega
                (arith, few, sound.used, ap length made, length-append planned response.tool_calls);
        };
        seen = sound.seen;
        used = sound.used;
        transcript = λ trust.
            let (short, checked) = fine trust in
            subst (λ k. IsTranscript session tools k (c.messages ++ calls_message response ∷ []))
              (sym (ids-append planned response.tool_calls))
              (IsTranscript-assistant session tools (ids planned) c.messages response.content
                response.tool_calls short checked fresh (sound.transcript trust));
        requests = sound.requests;
      }

  pub use_tools-Settled :
      (planned : List InferenceToolCall) (asked : ℕ) (response : InferenceResponse) (p : Progress)
      → Sound planned [] asked (core p)
      → valid_calls (names_of specifications) p.seen_calls [] response.tool_calls ≡ true
      → (Trust → IsFine response)
      → Ensures
          (λ u t. Settled asked (core t))
          (λ e t. Left asked (core t))
          (use_tools world limits task specifications response p)
  unfolding use_tools say
  use_tools-Settled planned asked response p sound valid fine =
      let calls = response.tool_calls in
      let told : Progress = record p { messages = p.messages ++ calls_message response ∷ [] } in
      let finish =
        Ensures-weaken (λ (u : Unit {0}) t. Sound (planned ++ calls) [] asked (core t))
          (λ u t. Settled asked (core t)) (λ (e : Exit) t. Left asked (core t))
          (λ e t. Left asked (core t)) in
      Ensures-guard (λ e t. Left asked (core t)) (λ u t. Settled asked (core t))
        (ltb (pos_part limits.max_tool_calls) (p.tool_calls_used + length calls))
        (finished (failure task "worker model tool-call limit exceeded"))
        (say world limits task (calls_message response) >> run_calls world limits task calls) p
        (λ over. IsSound-IsLeft limits task specifications session tools Trust sound)
        (λ fits.
          finish (run_calls world limits task calls told)
            (run_calls-Sound (planned ++ calls) calls asked told (
              planned-Sound planned asked response (core p) sound valid fine
                (ground (arith, fits))))
            (λ u t h. (planned ++ calls, h)) (λ e t h. h))
