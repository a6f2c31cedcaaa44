-- ===== src/NightShifts/Executor/Outcome.antt =====
-- What the result of a run says.
pub mod Run
use Prim.Native.String.{len, count}
use text.Mathlib.Text.{starts_with}
use simple_ai_agent.Common.{
  ℕ, zero, suc, ◌+◌, ◌≤◌, ◌<◌, ◌≡◌, refl, String, Bool, true, false, not, ◌&&◌, ◌||◌, Option, none,
  some, List, [], ◌∷◌, ◌++◌, Result, ok, err, Action, raise, raise_if, modify, gets, pure, ◌>>=◌,
  ◌>>◌, arith, contains, length, map, Bool-cases, Result-cases, ◌==◌, inl, inr, Ensures,
  Ensures-bind, Ensures-guard, if◌then◌else◌, ltb, eqb,
}
use simple_ai_agent.Common.Int.{pos_part}
use simple_ai_agent.NightShifts.Protocol.{
  WorkerTask, WorkerOutcome, WorkerResult, plain_result, CheckStatus, Metrics,
}
use simple_ai_agent.NightShifts.Policy.{ModelExecutorLimits}
use simple_ai_agent.NightShifts.Inference.{
  InferenceToolCall, InferenceRequest, InferenceResponse, WorkerToolSpec, WorkerToolResult,
}
use simple_ai_agent.NightShifts.Executor.{
  ExecutionControl, WorkerEvent, Surroundings, Progress, Exit, finished, escaped, Work, valid_calls,
  failure, inference_requested, inference_completed, tool_completed, tally_usage,
}
use simple_ai_agent.NightShifts.Executor.Loop.{
  fail, let_through, stop_outcome, abort, emit, say, invoke, valid_result, record_result, run_call,
  run_calls, use_tools, answer_turn, submission, ask, valid_response, run_turn, turns, execute,
  start, reported, keep_artifact, drop_bytes,
}
use simple_ai_agent.NightShifts.Executor.Steps.{result_message}
use simple_ai_agent.NightShifts.Executor.Run.{calls_message}

-- What a result says by its outcome: a submission or a blocker has no error and a summary that is
-- not empty and not too long, a blocker starts with its mark, a failure has an error, and no run
-- reports a success.
unfoldable pub Tells : ModelExecutorLimits → WorkerOutcome → WorkerResult → Type 0
Tells limits WorkerOutcome.success r = ⊥
Tells limits WorkerOutcome.submitted r =
    (r.error ≡ none)
    × (0 < count r.summary)
    × (len r.summary ≤ pos_part limits.max_summary_bytes)
    × (starts_with r.summary "BLOCKED:" ≡ false)
Tells limits WorkerOutcome.blocked r =
    (r.error ≡ none)
    × (len r.summary ≤ pos_part limits.max_summary_bytes)
    × (starts_with r.summary "BLOCKED: " ≡ true)
Tells limits WorkerOutcome.failed r = (message : String) × (r.error ≡ some message)
Tells limits WorkerOutcome.cancelled r = r.error ≡ none
Tells limits WorkerOutcome.timed_out r = r.error ≡ none

unfoldable pub IsHonest : ModelExecutorLimits → WorkerTask → Exit → Type 0
unfolding Tells
IsHonest limits task escaped = Unit
IsHonest limits task (finished r) =
    (r.job_id ≡ task.job_id) × (r.check_status ≡ CheckStatus.not_run) × Tells limits r.outcome r

module _ (world : Surroundings) (limits : ModelExecutorLimits) (task : WorkerTask) where
  -- If the step leaves the run, it does so honestly.
  abbrev pub Honest : {A : Type 0} → Result Exit A × Progress → Type 0
  Honest r = Ensures (λ a t. Unit) (λ e t. IsHonest limits task e) r

  pub next :
      {A B : Type 0} (r : Result Exit A × Progress) (f : A → Work B)
      → Honest r
      → ((a : A) (t : Progress) → Honest (f a t))
      → Honest (((λ (s : Progress). r) >>= f) (r.1))
  next {B = B} r f h k =
      Ensures-bind (λ a t. Unit) (λ e t. IsHonest limits task e) (λ (b : B) t. Unit) r f h
        (λ a t u. k a t)

  pub failure-IsHonest : (message : String) → IsHonest limits task (finished (failure task message))
  unfolding failure plain_result IsHonest
  failure-IsHonest message = (refl, refl, (message, refl))

  pub abort-Honest : (p : Progress) → Honest (abort world limits task p)
  unfolding abort stop_outcome let_through Ensures IsHonest plain_result
  abort-Honest p = ground arith

  pub emit-Honest : (event : WorkerEvent) (p : Progress) → Honest (emit world limits task event p)
  unfolding emit let_through Ensures IsHonest
  emit-Honest event p = ground arith

  pub submission-IsHonest :
      (turn : ℕ) (content : String) (p : Progress)
      → IsHonest limits task (finished (submission world limits task turn content p))
  unfolding submission failure plain_result IsHonest
  submission-IsHonest turn content p =
      let summary = world.strip content in
      let bare =
        not (starts_with summary "BLOCKED: ")
        || eqb (count (world.strip (drop_bytes 9 summary))) 0 in
      elim (Bool-cases (eqb (count summary) 0)) [
        | inl empty ↦ rw empty (failure-IsHonest "worker model returned an empty final response")
        | inr full ↦ elim (Bool-cases (ltb (pos_part limits.max_summary_bytes) (len summary))) [
          | inl long ↦ rw (full, long) (failure-IsHonest "worker model summary exceeded the limit")
          | inr short ↦ elim (Bool-cases (starts_with summary "BLOCKED:")) [
            | inr plain ↦
                rw (full, short, plain)
                  (refl, refl, (refl, ground (arith, full), ground (arith, short), plain))
            | inl marked ↦ elim (Bool-cases bare) [
              | inl bad ↦
                  rw (full, short, marked, bad)
                    (failure-IsHonest "worker model returned a blocker without a reason")
              | inr good ↦
                  rw (full, short, marked, good)
                    (refl, refl, (refl, ground (arith, short), ground (arith, good)))
            ]
          ]
        ]
      ]
