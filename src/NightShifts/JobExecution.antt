-- ===== src/NightShifts/JobExecution.antt =====
-- `HostJobExecution.run` of night_shifts/job_execution.py: one run of the executor for a client of the
-- gateway and a session of tools, and the clean-up after it.
pub mod Settled
mod Tests
use Prim.Native.String.{◌++◌ as ◌⧺◌}
use simple_ai_agent.Common.{
  ℕ, ◌<◌, ◌≡◌, ◌≢◌, refl, sym, ap, subst, ◌∙◌, String, Bool, true, false, not, ◌&&◌, ◌||◌, Option,
  none, some, List, [], ◌∷◌, ◌==◌, Result, ok, err, arith, ltb, leb, lookup, Bool-cases,
  Option-cases, Result-cases, inl, inr, if◌then◌else◌,
}
use simple_ai_agent.Common.Int.{ℤ, leb_ℤ}
use simple_ai_agent.NightShifts.Models.{JobBudget}
use simple_ai_agent.NightShifts.Protocol.{
  WorkerTask, WorkerOutcome, WorkerResult, CleanupStatus, plain_result,
}
use simple_ai_agent.NightShifts.Policy.{ModelExecutorLimits, LimitError, executor_limits}
use simple_ai_agent.NightShifts.Inference.{WorkerToolSpec}
use simple_ai_agent.NightShifts.Inference.Checks.{BoundaryError}
use simple_ai_agent.NightShifts.Inference.Gateway.{
  Host, Gateway, Client, authorize_client, close_client,
}
use simple_ai_agent.NightShifts.Inference.Gateway.History.{GatewayCall, perform_all}
use simple_ai_agent.NightShifts.Executor.{Raised, raised, Surroundings, Exit, finished, escaped}
use simple_ai_agent.NightShifts.Executor.Loop.{execute}

-- The fields of `WorkerExecutionPolicy` that a run reads.
pub record WorkerExecutionPolicy : Type 0 where
  pub job_id : String
  pub repository_id : String
  pub base_revision : String
  pub model_id : String
  pub worker_profile : String
  pub budget : JobBudget

-- What a run reads of `SandboxToolSession`, and whether its `cancel` raises.
pub record ToolSession : Type 0 where
  pub job_id : String
  pub profile : String
  pub deadline : ℕ
  pub max_command_seconds : ℤ
  pub model_tools : List WorkerToolSpec
  pub cancel : Result Raised (Unit {0})

-- What a run meets: the executor's surroundings, the calls that its gateway gets meanwhile, the
-- answers of `cancellation_requested` and of the clock to the executor, after an exception and at
-- the end, and what the model's `close` does.
pub record RunWorld : Type 0 where
  pub surroundings : Surroundings
  pub cancellation_requested : ℕ → Result Raised Bool
  pub monotonic : ℕ → ℕ
  pub meanwhile : List GatewayCall
  pub cancelled_then : Result Raised Bool
  pub monotonic_then : ℕ
  pub cancelled_late : Result Raised Bool
  pub close_model : Result Raised (Unit {0})

-- A result, and whether its metrics have the entry that says that the usage is unknown.
pub record JobResult : Type 0 where
  pub result : WorkerResult
  pub usage_unknown : Bool

unfoldable pub is_true : Result Raised Bool → Bool
is_true (ok b) = b
is_true (err e) = false

unfoldable pub is_failed : Result Raised (Unit {0}) → Bool
is_failed (ok u) = false
is_failed (err e) = true

unfoldable pub is_text : Option String → String → Bool
is_text none t = false
is_text (some s) t = s == t

module _ (host : Host) (world : RunWorld) (policy : WorkerExecutionPolicy) (tools : ToolSession)
    (client : Client) (task : WorkerTask) where
  -- `task or sandbox identity does not match`
  unfoldable pub mismatches : Bool
  unfolding is_text
  mismatches =
      not (policy.job_id == tools.job_id)
      || not (policy.worker_profile == tools.profile)
      || not (task.job_id == policy.job_id)
      || not (task.worker_profile == policy.worker_profile)
      || not (is_text task.repository_id policy.repository_id)
      || not (is_text task.starting_revision policy.base_revision)

  unfoldable pub exceeds : ℕ → Bool
  exceeds deadline =
      ltb deadline tools.deadline
      || not (leb_ℤ tools.max_command_seconds policy.budget.max_command_seconds)

  unfoldable pub of_exit : Exit → Result Raised WorkerResult
  of_exit (finished r) = ok r
  of_exit escaped = err raised

  -- The executor with the policy's limits.
  unfoldable pub controlled : ℕ → Surroundings
  controlled deadline = record world.surroundings {
    control = some (record {
      deadline = deadline;
      cancellation_requested = world.cancellation_requested;
      monotonic = world.monotonic;
    });
  }

  unfoldable pub run_executor :
      ℕ → Result LimitError ModelExecutorLimits → Result Raised WorkerResult
  unfolding execute of_exit controlled
  run_executor deadline (err e) = err raised
  run_executor deadline (ok limits) =
      of_exit ((execute (controlled deadline) limits task tools.model_tools).0)

  -- What follows `authorize_client`.
  unfoldable pub authorized_run :
      ℕ → Result BoundaryError (Unit {0}) × Gateway → Result Raised WorkerResult × Gateway
  unfolding run_executor executor_limits perform_all
  authorized_run deadline (err e, h) = (err raised, h)
  authorized_run deadline (ok u, h) =
      (run_executor deadline (executor_limits policy.budget), perform_all host world.meanwhile h)

  -- The `try` block. A deadline of `none` is not a finite number.
  unfoldable pub attempt : Option ℕ → Gateway → Result Raised WorkerResult × Gateway
  unfolding mismatches exceeds authorize_client authorized_run plain_result
  attempt none g = (
    ok (
        plain_result policy.job_id WorkerOutcome.failed "Worker deadline is invalid."
          (some "invalid monotonic job deadline")),
    g,
  )
  attempt (some deadline) g =
      if mismatches
      then (
        ok (
            plain_result policy.job_id WorkerOutcome.failed
              "Worker task did not match its approved job policy."
              (some "task or sandbox identity does not match frozen worker policy")),
        g,
      )
      else if exceeds deadline
      then (
        ok (
            plain_result policy.job_id WorkerOutcome.failed
              "Sandbox tool session exceeds the approved job policy."
              (some "sandbox tool deadline or command limit exceeds job policy")),
        g,
      )
      else authorized_run deadline
          (authorize_client host client policy.job_id policy.worker_profile policy.model_id g)

  unfoldable pub is_late : Option ℕ → Bool
  is_late none = false
  is_late (some deadline) = leb deadline world.monotonic_then

  -- The `except` block.
  unfoldable pub settle_exception : Option ℕ → Result Raised WorkerResult → WorkerResult
  unfolding plain_result is_true is_late
  settle_exception deadline (ok r) = r
  settle_exception deadline (err e) =
      plain_result policy.job_id
        (if is_true world.cancelled_then
          then WorkerOutcome.cancelled
          else if is_late deadline
          then WorkerOutcome.timed_out
          else WorkerOutcome.failed)
        "Worker stopped without a verified submission."
        (some "Worker execution or event reporting failed")

  -- The errors of the clean-ups, joined.
  unfoldable pub cleanup_errors : Bool → Bool → Option String
  cleanup_errors false false = none
  cleanup_errors true false = some "tool session cleanup failed"
  cleanup_errors false true = some "inference child cleanup failed"
  cleanup_errors true true =
      some ("tool session cleanup failed" ⧺ "; " ⧺ "inference child cleanup failed")

  unfoldable pub is_submitted : WorkerOutcome → Bool
  is_submitted WorkerOutcome.submitted = true
  is_submitted _ = false

  -- What the errors, or a late cancellation, make of a result.
  unfoldable pub after_cleanup : Option String → WorkerResult → WorkerResult
  unfolding is_true is_submitted
  after_cleanup (some error) r = record r {
    outcome = WorkerOutcome.failed;
    error = some error;
    cleanup_status = CleanupStatus.failed;
  }
  after_cleanup none r =
      if is_submitted r.outcome && is_true world.cancelled_late
      then record r { outcome = WorkerOutcome.cancelled }
      else r

  unfoldable pub keeps_metrics : WorkerOutcome → Bool
  keeps_metrics WorkerOutcome.submitted = true
  keeps_metrics WorkerOutcome.blocked = true
  keeps_metrics _ = false

  unfoldable pub has_usage : WorkerResult → Bool
  has_usage r = elim r.metrics [ none ↦ false | some m ↦ true ]

  unfoldable pub with_usage : WorkerResult → JobResult
  unfolding keeps_metrics has_usage
  with_usage r = record {
    result = r;
    usage_unknown = not (keeps_metrics r.outcome) && not (has_usage r);
  }

  -- Whether `close_client` raises: it may refuse the client, or the model may not close.
  unfoldable pub close_fails : Result BoundaryError (Unit {0}) → Gateway → Bool
  unfolding is_failed lookup
  close_fails (err e) g = true
  close_fails (ok u) g = elim (lookup client.token g.sessions) [
    | none ↦ false
    | some s ↦ is_failed world.close_model
  ]

  -- `run`: both clean-ups are made whatever came before.
  unfoldable pub run : Option ℕ → Gateway → JobResult × Gateway
  unfolding attempt settle_exception close_client cleanup_errors close_fails is_failed after_cleanup
      with_usage
  run deadline g =
      let (tried, h) = attempt deadline g in
      let (closed, final) = close_client host client h in
      let errors = cleanup_errors (is_failed tools.cancel) (close_fails closed h) in
      (with_usage (after_cleanup errors (settle_exception deadline tried)), final)
