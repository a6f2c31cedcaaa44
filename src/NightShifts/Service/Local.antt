-- ===== src/NightShifts/Service/Local.antt =====
-- `NightShiftService.run_local`: one queued job through a worker backend.
pub mod Refinement
pub mod Quiet
pub mod Outcome
use simple_ai_agent.Common.{
  String, ◌==◌, Bool, Option, none, some, [], ◌∷◌, ok, err, pure, ◌>>=◌, ◌>>◌, if◌then◌else◌,
}
use simple_ai_agent.Common.Int.{ℤ}
use simple_ai_agent.NightShifts.Models.{JobStatus, NightShiftJob, Payload, Value, null, text}
use simple_ai_agent.NightShifts.Protocol.{
  WorkerOutcome, WorkerResult, WorkerTask, from_job, plain_result, outcome_value, check_value,
  review_value, cleanup_value,
}
use simple_ai_agent.NightShifts.Storage.{World, Service}
use simple_ai_agent.NightShifts.Service.{require, transition}
use simple_ai_agent.NightShifts.Service.Calls.{Call, perform}

-- What `backend.run` does, as far as the service can see: it returns or raises, after polling
-- `cancellation_requested` and while other actors call the service.
pub data Behaviour : Type 0 where
  returns : WorkerResult → Behaviour
  raises : String → Behaviour
  polls : (Bool → Behaviour) → Behaviour
  meanwhile : Call → Behaviour → Behaviour

abbrev pub Backend : Type 0
Backend = WorkerTask → ℤ → Behaviour

-- The texts of two errors that quote what they are given: the `str` of an exception that the poll
-- raised, and the mismatch of two identifiers.
pub record Texts : Type 0 where
  pub unknown_job_text : String → String
  pub mismatch_text : String → String → String

abbrev pub raised_result : String → String → WorkerResult
raised_result id error =
    plain_result id WorkerOutcome.failed "Worker backend raised an exception." (some error)

abbrev pub blocked_result : String → WorkerResult
blocked_result id =
    plain_result id WorkerOutcome.blocked "Strict USD budget cannot be enforced by this runner."
      (some "No trusted pre-call pricing and retry-aware reservation")

abbrev pub cancelled_result : String → WorkerResult
cancelled_result id =
    plain_result id WorkerOutcome.cancelled "Job was cancelled before worker startup." none

unfoldable pub target_of : WorkerOutcome → JobStatus
target_of WorkerOutcome.success = JobStatus.completed
target_of WorkerOutcome.submitted = JobStatus.completed
target_of WorkerOutcome.blocked = JobStatus.failed
target_of WorkerOutcome.cancelled = JobStatus.cancelled
target_of WorkerOutcome.timed_out = JobStatus.failed
target_of WorkerOutcome.failed = JobStatus.failed

unfoldable pub error_value : Option String → Value
error_value none = null
error_value (some e) = text e

unfoldable pub result_payload : WorkerResult → Payload
unfolding error_value outcome_value check_value review_value cleanup_value
result_payload r =
    ("outcome", text (outcome_value r.outcome))
    ∷ ("error", error_value r.error)
    ∷ ("check_status", text (check_value r.check_status))
    ∷ ("review_status", text (review_value r.review_status))
    ∷ ("cleanup_status", text (cleanup_value r.cleanup_status))
    ∷ []

module _ (w : World) (texts : Texts) where
  -- The `try` around `backend.run`: any exception becomes a failed result.
  unfoldable pub attend : String → Behaviour → Service WorkerResult
  unfolding perform require plain_result
  attend id (returns r) db = (ok r, db)
  attend id (raises e) db = (ok (raised_result id e), db)
  attend id (polls k) db = elim (require id db).0 [
    | ok job ↦ attend id (k job.cancellation_requested) db
    | err e ↦ (ok (raised_result id (texts.unknown_job_text id)), db)
  ]
  attend id (meanwhile c b) db = attend id b (perform w c db)

  -- A result for another job is replaced.
  unfoldable pub own_result : String → WorkerResult → WorkerResult
  unfolding plain_result
  own_result id r =
      if r.job_id == id
      then r
      else plain_result id WorkerOutcome.failed
          "Worker backend returned a result for a different job."
          (some (texts.mismatch_text id r.job_id))

  -- The final transition, with the result that the caller gets.
  unfoldable pub settle : String → WorkerResult → Service WorkerResult
  unfolding target_of result_payload transition
  settle id r = do
    transition w id (target_of r.outcome) "orchestrator" (some (result_payload r)) (some r.summary)
    pure r

  -- The branch of a job with a USD ceiling: it fails before a worker starts.
  unfoldable pub refuse_budget : String → Service WorkerResult
  unfolding plain_result result_payload transition
  refuse_budget id = do
    let r = blocked_result id
    transition w id JobStatus.failed "orchestrator" (some (result_payload r)) (some r.summary)
    pure r

  -- The branch of a job that was cancelled while it waited.
  unfoldable pub cancel_waiting : String → Service WorkerResult
  unfolding plain_result transition
  cancel_waiting id = do
    transition w id JobStatus.cancelled "orchestrator" none none
    pure (cancelled_result id)

  -- From the call of the backend on.
  unfoldable pub finish : String → Behaviour → Service WorkerResult
  unfolding attend own_result settle
  finish id b = do settle id (own_result id (← attend id b))

  -- The branch that starts the worker, once the job is provisioning.
  unfoldable pub run_provisioned : String → Backend → Service WorkerResult
  unfolding transition finish from_job
  run_provisioned id backend = do
    running ← transition w id JobStatus.running "orchestrator" none none
    finish id (backend (from_job running) running.budget.timeout_seconds)

  unfoldable pub run_worker : String → Backend → Service WorkerResult
  unfolding transition run_provisioned
  run_worker id backend = do
    transition w id JobStatus.provisioning "orchestrator" none none
    run_provisioned id backend

  -- `run_local` from the job that it has read.
  unfoldable pub start : String → Backend → NightShiftJob → Service WorkerResult
  unfolding cancel_waiting refuse_budget run_worker
  start id backend job =
      if job.cancellation_requested
      then cancel_waiting id
      else elim job.budget.max_cost_usd [ none ↦ run_worker id backend | some _ ↦ refuse_budget id ]

  unfoldable pub run_local : String → Backend → Service WorkerResult
  unfolding require start
  run_local id backend = do start id backend (← require id)
