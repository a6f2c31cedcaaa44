-- ===== src/NightShifts/JobExecution/Settled.antt =====
-- What a run of a job returns, and what it leaves of the client's session.
use simple_ai_agent.Common.{
  ℕ, ◌≡◌, ◌≢◌, refl, ap, subst, ◌∙◌, String, Bool, true, false, ◌&&◌, Option, none, some, Result,
  ok, err, arith, lookup, lookup-erase, eq_iff, Bool-cases, inl, inr,
}
use simple_ai_agent.NightShifts.Protocol.{WorkerTask, WorkerOutcome, WorkerResult, plain_result}
use simple_ai_agent.NightShifts.Policy.{ModelExecutorLimits, LimitError, executor_limits}
use simple_ai_agent.NightShifts.Inference.Checks.{BoundaryError}
use simple_ai_agent.NightShifts.Inference.Gateway.{
  Host, Gateway, Client, authorize_client, pop_session, close_client,
}
use simple_ai_agent.NightShifts.Executor.{Raised, Exit, finished, escaped}
use simple_ai_agent.NightShifts.Executor.Loop.{execute}
use simple_ai_agent.NightShifts.Executor.Outcome.{IsHonest, Tells}
use simple_ai_agent.NightShifts.Executor.Outcome.Run.{execute-IsHonest}
use simple_ai_agent.NightShifts.JobExecution.{
  WorkerExecutionPolicy, ToolSession, RunWorld, is_true, is_failed, mismatches, exceeds, of_exit,
  controlled, run_executor, authorized_run, attempt, settle_exception, cleanup_errors, is_submitted,
  after_cleanup, with_usage, close_fails, run,
}

module _ (host : Host) (world : RunWorld) (policy : WorkerExecutionPolicy) (tools : ToolSession)
    (client : Client) (task : WorkerTask) where
  -- The policy's job, and no success.
  record IsOurs (r : WorkerResult) : Type 0 where
    own_job : r.job_id ≡ policy.job_id
    no_success : r.outcome ≢ WorkerOutcome.success

  abbrev Ours : Result Raised WorkerResult → Type 0
  Ours (ok r) = IsOurs r
  Ours (err e) = Unit

  exit-Ours :
      (limits : ModelExecutorLimits) (e : Exit)
      → task.job_id ≡ policy.job_id
      → IsHonest limits task e
      → Ours (of_exit host world policy tools client task e)
  unfolding of_exit IsHonest Tells
  exit-Ours limits escaped same honest = tt
  exit-Ours limits (finished r) same (job, _, tells) = record {
    own_job = job ∙ same;
    no_success = λ is. subst (λ o. Tells limits o r) is tells;
  }

  run_executor-Ours :
      (deadline : ℕ) (limits : Result LimitError ModelExecutorLimits)
      → task.job_id ≡ policy.job_id
      → Ours (run_executor host world policy tools client task deadline limits)
  unfolding run_executor
  run_executor-Ours deadline (err e) same = tt
  run_executor-Ours deadline (ok limits) same =
      exit-Ours limits
        ((execute (controlled host world policy tools client task deadline) limits task
          tools.model_tools).0)
        same
        (execute-IsHonest (controlled host world policy tools client task deadline) limits task
          tools.model_tools)

  authorized_run-Ours :
      (deadline : ℕ) (r : Result BoundaryError (Unit {0}) × Gateway)
      → task.job_id ≡ policy.job_id
      → Ours ((authorized_run host world policy tools client task deadline r).0)
  unfolding authorized_run
  authorized_run-Ours deadline (err e, h) same = tt
  authorized_run-Ours deadline (ok u, h) same =
      run_executor-Ours deadline (executor_limits policy.budget) same

  matching : mismatches host world policy tools client task ≡ false → task.job_id ≡ policy.job_id
  unfolding mismatches
  matching good = ground (arith, good, eq_iff task.job_id policy.job_id)

  attempt-Ours :
      (deadline : Option ℕ) (g : Gateway)
      → Ours ((attempt host world policy tools client task deadline g).0)
  unfolding attempt plain_result
  attempt-Ours none g = record { own_job = refl; no_success = λ is. ground (arith, is) }
  attempt-Ours (some deadline) g =
      elim (Bool-cases (mismatches host world policy tools client task)) [
        | inl bad ↦ rw bad (record { own_job = refl; no_success = λ is. ground (arith, is) })
        | inr good ↦ elim (Bool-cases (exceeds host world policy tools client task deadline)) [
          | inl bad ↦
              rw (good, bad) (record { own_job = refl; no_success = λ is. ground (arith, is) })
          | inr within ↦
              rw (good, within)
                (authorized_run-Ours deadline
                  (authorize_client host client policy.job_id policy.worker_profile policy.model_id
                    g)
                  (matching good))
        ]
      ]

  settle_exception-Ours :
      (deadline : Option ℕ) (r : Result Raised WorkerResult)
      → Ours r
      → IsOurs (settle_exception host world policy tools client task deadline r)
  unfolding settle_exception plain_result
  settle_exception-Ours deadline (ok r) ours = ours
  settle_exception-Ours deadline (err e) ours = record {
    own_job = refl;
    no_success = λ is. ground (arith, is);
  }

  after_cleanup-Ours :
      (errors : Option String) (r : WorkerResult)
      → IsOurs r
      → IsOurs (after_cleanup host world policy tools client task errors r)
  unfolding after_cleanup
  after_cleanup-Ours (some error) r ours = record {
    own_job = ours.own_job;
    no_success = λ is. ground (arith, is);
  }
  after_cleanup-Ours none r ours =
      elim (Bool-cases (
        is_submitted host world policy tools client task r.outcome
        && is_true world.cancelled_late)) [
          | inl late ↦
              rw late (record { own_job = ours.own_job; no_success = λ is. ground (arith, is) })
          | inr kept ↦ rw kept ours
        ]

  close_client-gone :
      (g : Gateway)
      → client.is_own ≡ true
      → lookup client.token ((close_client host client g).1).sessions ≡ none
  unfolding close_client pop_session
  close_client-gone g own = ground (
    arith,
    own,
    lookup-erase client.token client.token g.sessions,
    (eq_iff client.token client.token).1 refl,
  )

  -- Whatever the executor, the tools, the callbacks and the clean-ups do, a run of a job with a
  -- client of the gateway returns a result for the policy's job that claims no success, and leaves
  -- no session for the client.
  pub run-settles :
      (deadline : Option ℕ) (g : Gateway)
      → client.is_own ≡ true
      → (((run host world policy tools client task deadline g).0).result.job_id ≡ policy.job_id)
        × (((run host world policy tools client task deadline g).0).result.outcome
            ≢ WorkerOutcome.success)
        × (lookup client.token ((run host world policy tools client task deadline g).1).sessions
            ≡ none)
  unfolding run with_usage
  run-settles deadline g own =
      let tried = attempt host world policy tools client task deadline g in
      let closed = close_client host client (tried.1) in
      let errors =
        cleanup_errors host world policy tools client task (is_failed tools.cancel)
          (close_fails host world policy tools client task (closed.0) (tried.1)) in
      let ours =
        after_cleanup-Ours errors
          (settle_exception host world policy tools client task deadline (tried.0))
          (settle_exception-Ours deadline (tried.0) (attempt-Ours deadline g)) in
      (ours.own_job, ours.no_success, close_client-gone (tried.1) own)

  after_cleanup-submits :
      (errors : Option String) (r : WorkerResult)
      → (after_cleanup host world policy tools client task errors r).outcome
        ≡ WorkerOutcome.submitted
      → (errors ≡ none) × (is_true world.cancelled_late ≡ false)
  unfolding after_cleanup is_submitted
  after_cleanup-submits (some error) r = λ is. ground (arith, is)
  after_cleanup-submits none r =
      elim (Bool-cases (
        is_submitted host world policy tools client task r.outcome
        && is_true world.cancelled_late)) [
          | inl late ↦ rw late (λ is. ground (arith, is))
          | inr kept ↦ rw kept (λ is. (
            refl,
            ground (arith, kept, ap (is_submitted host world policy tools client task) is),
          ))
        ]

  cleanup_errors-none :
      (a b : Bool)
      → cleanup_errors host world policy tools client task a b ≡ none
      → (a ≡ false) × (b ≡ false)
  unfolding cleanup_errors
  cleanup_errors-none false false h = (refl, refl)
  cleanup_errors-none true false h = ground (arith, h)
  cleanup_errors-none false true h = ground (arith, h)
  cleanup_errors-none true true h = ground (arith, h)

  -- The outcome of a task that does not match is a failure.
  attempt-matches :
      (deadline : Option ℕ) (g : Gateway)
      → (settle_exception host world policy tools client task deadline
          ((attempt host world policy tools client task deadline g).0)).outcome
        ≡ WorkerOutcome.submitted
      → mismatches host world policy tools client task ≡ false
  unfolding attempt settle_exception plain_result
  attempt-matches none g = λ is. ground (arith, is)
  attempt-matches (some deadline) g =
      elim (Bool-cases (mismatches host world policy tools client task)) [
        | inl bad ↦ rw bad (λ is. ground (arith, is))
        | inr good ↦ λ is. good
      ]

  after_cleanup-outcome :
      (errors : Option String) (r : WorkerResult)
      → (after_cleanup host world policy tools client task errors r).outcome
        ≡ WorkerOutcome.submitted
      → r.outcome ≡ WorkerOutcome.submitted
  unfolding after_cleanup
  after_cleanup-outcome (some error) r = λ is. ground (arith, is)
  after_cleanup-outcome none r =
      elim (Bool-cases (
        is_submitted host world policy tools client task r.outcome
        && is_true world.cancelled_late)) [
          | inl late ↦ rw late (λ is. ground (arith, is))
          | inr kept ↦ rw kept (λ is. is)
        ]

  -- A run whose outcome is a submission: both clean-ups passed, the last poll saw no cancellation,
  -- and the task matched the policy and the tools' session.
  pub run-submits :
      (deadline : Option ℕ) (g : Gateway)
      → ((run host world policy tools client task deadline g).0).result.outcome
        ≡ WorkerOutcome.submitted
      → (is_failed tools.cancel ≡ false)
        × (let tried = (attempt host world policy tools client task deadline g).1 in
            close_fails host world policy tools client task
              ((close_client host client tried).0)
              tried
            ≡ false)
        × (is_true world.cancelled_late ≡ false)
        × (mismatches host world policy tools client task ≡ false)
  unfolding run with_usage
  run-submits deadline g submitted =
      let tried = attempt host world policy tools client task deadline g in
      let closed = close_client host client (tried.1) in
      let errors =
        cleanup_errors host world policy tools client task (is_failed tools.cancel)
          (close_fails host world policy tools client task (closed.0) (tried.1)) in
      let settled = settle_exception host world policy tools client task deadline (tried.0) in
      let (clean, on_time) = after_cleanup-submits errors settled submitted in
      let (tools_clean, child_clean) =
        cleanup_errors-none (is_failed tools.cancel)
          (close_fails host world policy tools client task (closed.0) (tried.1)) clean in
      (
        tools_clean,
        child_clean,
        on_time,
        attempt-matches deadline g (after_cleanup-outcome errors settled submitted),
      )
