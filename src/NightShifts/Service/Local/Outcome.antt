-- ===== src/NightShifts/Service/Local/Outcome.antt =====
-- How `run_local` ends: it returns, and the job's row has the final status of the result.
use simple_ai_agent.Common.{◌≡◌, ◌≢◌, ◌↔◌, ◌⊎◌, String, Bool, some, ok, Result}
use simple_ai_agent.NightShifts.Models.{JobStatus, NightShiftJob}
use simple_ai_agent.NightShifts.Protocol.{WorkerResult, WorkerOutcome}
use simple_ai_agent.NightShifts.Storage.{World, Database, ServiceError, get_job}
use simple_ai_agent.NightShifts.Storage.Invariant.{IsFresh, IsValid}
use simple_ai_agent.NightShifts.Service.Effects
use simple_ai_agent.NightShifts.Service.Calls.{Call}
use simple_ai_agent.NightShifts.Service.Local.{
  Behaviour, returns, raises, polls, meanwhile, raised_result,
}
use simple_ai_agent.NightShifts.Service.Local.Quiet.{Stands}

-- The last answer of a backend, whatever its polls are told: its result, or what stands for its
-- exception.
pub data Ends (id : String) : Behaviour → WorkerResult → Type 0 where
  by_result : (r : WorkerResult) → Ends id (returns r) r
  by_exception : (e : String) → Ends id (raises e) (raised_result id e)
  after_poll :
      (k : Bool → Behaviour) (flag : Bool) (r : WorkerResult)
      → Ends id (k flag) r
      → Ends id (polls k) r
  after_call :
      (c : Call) (b : Behaviour) (r : WorkerResult) → Ends id b r → Ends id (meanwhile c b) r

-- A final status: completed after a success or a submission only, cancelled after a cancellation
-- only, and failed after all else.
pub record IsFinal (o : WorkerOutcome) (s : JobStatus) : Type 0 where
  pub completed :
      (s ≡ JobStatus.completed) ↔ ((o ≡ WorkerOutcome.success) ⊎ (o ≡ WorkerOutcome.submitted))
  pub cancelled : (s ≡ JobStatus.cancelled) ↔ (o ≡ WorkerOutcome.cancelled)
  pub ended : (s ≡ JobStatus.completed) ⊎ ((s ≡ JobStatus.cancelled) ⊎ (s ≡ JobStatus.failed))

module _ (w : World) (fresh : IsFresh w) where
  -- The call returned the backend's answer, or a failure in place of an answer for another job; the
  -- row has the matching final status, and the summary.
  pub record Settled (id : String) (b : Behaviour) (p : Result ServiceError WorkerResult × Database)
      : Type 0 where
    pub answer : WorkerResult
    pub answered : Ends id b answer
    pub result : WorkerResult
    pub returned : p.0 ≡ ok result
    pub own : result.job_id ≡ id
    pub kept : answer.job_id ≡ id → result ≡ answer
    pub replaced : answer.job_id ≢ id → result.outcome ≡ WorkerOutcome.failed
    pub row : NightShiftJob
    pub found : get_job id p.1 ≡ some row
    pub final_status : IsFinal result.outcome row.status
    pub final_summary : row.result_summary ≡ some result.summary

  -- What is known when the backend's call is over.
  pub record Attended (id : String) (b : Behaviour)
      (p : Result ServiceError WorkerResult × Database) : Type 0 where
    pub answer : WorkerResult
    pub answered : p.0 ≡ ok answer
    pub ends : Ends id b answer
    pub valid : IsValid w p.1
    pub still_running : Stands id JobStatus.running p.1
