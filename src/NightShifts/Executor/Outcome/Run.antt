-- ===== src/NightShifts/Executor/Outcome/Run.antt =====
-- What each step of a run says when it leaves it.
use simple_ai_agent.Common.{
  ℕ, zero, suc, ◌+◌, refl, not, Option, none, some, List, [], ◌∷◌, ◌++◌, Result, ok, err, raise,
  modify, pure, ◌>>=◌, ◌>>◌, arith, length, Bool-cases, Result-cases, ◌==◌, inl, inr, Ensures,
  Ensures-guard, if◌then◌else◌, ltb,
}
use simple_ai_agent.Common.Int.{pos_part}
use simple_ai_agent.NightShifts.Protocol.{WorkerTask, plain_result}
use simple_ai_agent.NightShifts.Policy.{ModelExecutorLimits}
use simple_ai_agent.NightShifts.Inference.{
  InferenceToolCall, InferenceResponse, WorkerToolSpec, WorkerToolResult,
}
use simple_ai_agent.NightShifts.Executor.{
  Surroundings, Progress, Exit, finished, Work, failure, inference_requested, inference_completed,
  tool_completed, tally_usage,
}
use simple_ai_agent.NightShifts.Executor.Loop.{
  fail, let_through, abort, emit, say, invoke, valid_result, record_result, run_call, run_calls,
  use_tools, answer_turn, submission, ask, valid_response, run_turn, turns, execute, start,
  keep_artifact,
}
use simple_ai_agent.NightShifts.Executor.Steps.{result_message}
use simple_ai_agent.NightShifts.Executor.Run.{calls_message}
use simple_ai_agent.NightShifts.Executor.Outcome.{
  IsHonest, Honest, next, failure-IsHonest, submission-IsHonest, abort-Honest, emit-Honest,
}

module _ (world : Surroundings) (limits : ModelExecutorLimits) (task : WorkerTask) where
  invoke-Honest :
      (call : InferenceToolCall) (p : Progress)
      → Honest world limits task (invoke world limits task call p)
  unfolding invoke fail failure plain_result Ensures IsHonest
  invoke-Honest call p =
      elim (Result-cases (world.invoke (length p.invocations) call.name call.arguments)) [
        | inl (answer, said) ↦ rw said tt
        | inr (e, fails) ↦ rw fails (refl, refl, ("worker tool provider failed", refl))
      ]

  valid_result-Honest :
      (call : InferenceToolCall) (answer : Option WorkerToolResult) (p : Progress)
      → Honest world limits task (valid_result world limits task call answer p)
  unfolding valid_result fail Ensures
  valid_result-Honest call none p =
      failure-IsHonest world limits task "worker tool provider returned an invalid result"
  valid_result-Honest call (some result) p = elim (Bool-cases (result.tool_name == call.name)) [
    | inl mine ↦ rw mine tt
    | inr other ↦
        rw other
          (failure-IsHonest world limits task "worker tool provider returned an invalid result")
  ]

  record_result-Honest :
      (call : InferenceToolCall) (result : WorkerToolResult) (p : Progress)
      → Honest world limits task (record_result world limits task call result p)
  unfolding record_result say Ensures
  record_result-Honest call result p =
      let counted : Progress = record p {
        tool_calls_used = p.tool_calls_used + 1;
        tool_errors = p.tool_errors + (if result.is_error then 1 else 0);
      } in
      next world limits task
        (emit world limits task (tool_completed call.name (not result.is_error)) counted)
        (λ u.
          say world limits task (result_message world limits task call result)
          >> modify (keep_artifact world limits task call result))
        (emit-Honest world limits task (tool_completed call.name (not result.is_error)) counted)
        (λ u t. tt)

  run_call-Honest :
      (call : InferenceToolCall) (p : Progress)
      → Honest world limits task (run_call world limits task call p)
  unfolding run_call
  run_call-Honest call p =
      next world limits task (abort world limits task p)
        (λ u. do
          modify (λ s. record s { seen_calls = s.seen_calls ++ call.call_id ∷ [] })
          answer ← invoke world limits task call
          abort world limits task
          result ← valid_result world limits task call answer
          record_result world limits task call result)
        (abort-Honest world limits task p)
        (λ u t₁.
          let noted : Progress = record t₁ { seen_calls = t₁.seen_calls ++ call.call_id ∷ [] } in
          next world limits task (invoke world limits task call noted)
            (λ answer. do
              abort world limits task
              result ← valid_result world limits task call answer
              record_result world limits task call result)
            (invoke-Honest call noted)
            (λ answer t₂.
              next world limits task (abort world limits task t₂)
                (λ u. do
                  result ← valid_result world limits task call answer
                  record_result world limits task call result)
                (abort-Honest world limits task t₂)
                (λ u t₃.
                  next world limits task (valid_result world limits task call answer t₃)
                    (record_result world limits task call) (valid_result-Honest call answer t₃)
                    (record_result-Honest call))))

  run_calls-Honest :
      (calls : List InferenceToolCall) (p : Progress)
      → Honest world limits task (run_calls world limits task calls p)
  unfolding run_calls Ensures
  run_calls-Honest [] p = tt
  run_calls-Honest (call ∷ rest) p =
      next world limits task (run_call world limits task call p)
        (λ u. run_calls world limits task rest) (run_call-Honest call p)
        (λ u t. run_calls-Honest rest t)

  module _ (specifications : List WorkerToolSpec) where
    ask-Honest : (p : Progress) → Honest world limits task (ask world limits task specifications p)
    unfolding ask let_through Ensures IsHonest
    ask-Honest p = ground arith

    valid_response-Honest :
        (answer : Option InferenceResponse) (p : Progress)
        → Honest world limits task (valid_response world limits task specifications answer p)
    unfolding valid_response fail Ensures
    valid_response-Honest none p =
        failure-IsHonest world limits task "worker model returned an invalid tool call or response"
    valid_response-Honest (some response) p =
        Ensures-guard (λ e t. IsHonest limits task e) (λ (r : InferenceResponse) t. Unit) _ _
          (pure response) p
          (λ bad.
            failure-IsHonest world limits task
              "worker model returned an invalid tool call or response")
          (λ good. tt)

    use_tools-Honest :
        (response : InferenceResponse) (p : Progress)
        → Honest world limits task (use_tools world limits task specifications response p)
    unfolding use_tools say
    use_tools-Honest response p =
        Ensures-guard (λ e t. IsHonest limits task e) (λ (u : Unit {0}) t. Unit)
          (ltb (pos_part limits.max_tool_calls) (p.tool_calls_used + length response.tool_calls))
          (finished (failure task "worker model tool-call limit exceeded"))
          (say world limits task (calls_message response)
            >> run_calls world limits task response.tool_calls)
          p (λ over. failure-IsHonest world limits task "worker model tool-call limit exceeded")
          (λ fits.
            run_calls-Honest response.tool_calls
              (record p { messages = p.messages ++ calls_message response ∷ [] }))

    answer_turn-Honest :
        (turn : ℕ) (response : InferenceResponse) (p : Progress)
        → Honest world limits task (answer_turn world limits task specifications turn response p)
    unfolding answer_turn Ensures
    answer_turn-Honest turn response p =
        let answers : List InferenceToolCall → Work (Unit {0}) = λ calls. elim calls [
          | [] ↦ λ s. raise (finished (submission world limits task turn response.content s)) s
          | (call ∷ rest) ↦ use_tools world limits task specifications response
        ] in
        elim response.tool_calls as (λ calls. Honest world limits task (answers calls p)) [
          | [] ↦ submission-IsHonest world limits task turn response.content p
          | (call ∷ rest) ↦ use_tools-Honest response p
        ]

    run_turn-Honest :
        (turn : ℕ) (p : Progress)
        → Honest world limits task (run_turn world limits task specifications turn p)
    unfolding run_turn
    run_turn-Honest turn p =
        let going : InferenceResponse → Work (Unit {0}) = λ response. do
          modify (tally_usage response.usage)
          emit world limits task (inference_completed turn (length response.tool_calls))
          answer_turn world limits task specifications turn response
        in let replying : Option InferenceResponse → Work (Unit {0}) = λ answer. do
          abort world limits task
          response ← valid_response world limits task specifications answer
          going response
          in next world limits task (abort world limits task p)
            (λ u. do
              emit world limits task (inference_requested turn)
              answer ← ask world limits task specifications
              replying answer)
            (abort-Honest world limits task p)
            (λ u t₁.
              next world limits task (emit world limits task (inference_requested turn) t₁)
                (λ u. do answer ← ask world limits task specifications; replying answer)
                (emit-Honest world limits task (inference_requested turn) t₁)
                (λ u t₂.
                  next world limits task (ask world limits task specifications t₂) replying
                    (ask-Honest t₂)
                    (λ answer t₃.
                      next world limits task (abort world limits task t₃)
                        (λ u. do
                          response ← valid_response world limits task specifications answer
                          going response)
                        (abort-Honest world limits task t₃)
                        (λ u t₄.
                          next world limits task
                            (valid_response world limits task specifications answer t₄) going
                            (valid_response-Honest answer t₄)
                            (λ response t₅.
                              let tallied : Progress = tally_usage response.usage t₅ in
                              let event = inference_completed turn (length response.tool_calls) in
                              next world limits task (emit world limits task event tallied)
                                (λ u. answer_turn world limits task specifications turn response)
                                (emit-Honest world limits task event tallied)
                                (λ u t₆. answer_turn-Honest turn response t₆))))))

    next_turns :
        (left turn : ℕ) (r : Result Exit (Unit {0}) × Progress)
        → Honest world limits task r
        → ((p : Progress)
            → IsHonest limits task ((turns world limits task specifications left (turn + 1) p).0))
        → IsHonest limits task (
            (elim (r.0) as (λ (x : Result Exit (Unit {0})). Exit × Progress) [
              | ok u ↦ turns world limits task specifications left (turn + 1) (r.1)
              | err e ↦ (e, r.1)
            ]).0)
    unfolding Ensures
    next_turns left turn (ok u, p) h rest = rest p
    next_turns left turn (err e, p) h rest = h

    turns-Honest :
        (left turn : ℕ) (p : Progress)
        → IsHonest limits task ((turns world limits task specifications left turn p).0)
    unfolding turns
    turns-Honest zero turn p =
        failure-IsHonest world limits task "worker model inference-turn limit exceeded"
    turns-Honest (suc left) turn p =
        next_turns left turn (run_turn world limits task specifications turn p)
          (run_turn-Honest turn p) (turns-Honest left (turn + 1))

    -- The result of a run is the task's, never says that the checks were run, never claims
    -- a success, and says what its outcome means: a submission or a blocker has a summary within the
    -- limit and no error, a submission's is not empty and has no blocker's mark, a blocker's
    -- has it, a failure has an error.
    pub execute-IsHonest : IsHonest limits task ((execute world limits task specifications).0)
    unfolding execute
    execute-IsHonest = turns-Honest (pos_part limits.max_turns) 1 (start task)
