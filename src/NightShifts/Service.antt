-- ===== src/NightShifts/Service.antt =====
-- night_shifts/service.py: the one owner of job mutation, and its append-only event trail.
pub mod Calls
pub mod Local
pub mod Trace
pub mod Effects
pub mod Refinement
pub mod History
pub mod Race
pub mod Unlogged
use simple_ai_agent.Common.{
  String, ◌==◌, Bool, true, false, not, Option, some, [], ◌∷◌, pure, gets, or_raise, raise_if,
  ◌>>=◌, ◌>>◌, if◌then◌else◌, or_else, get_or,
}
use simple_ai_agent.NightShifts.Models.{
  JobStatus, NightShiftJob, Payload, Value, text, plan_value, status_value,
}
use simple_ai_agent.NightShifts.StateMachine.{is_allowed}
use simple_ai_agent.NightShifts.Storage.{
  World, Service, unknown_job, terminal_job, invalid_transition, create_job, update_job, get_job,
  append_event, fresh_id, now,
}

-- `d[k] = v` on a payload.
unfoldable pub put : String → Value → Payload → Payload
put k v [] = (k, v) ∷ []
put k v ((j, u) ∷ rest) = if j == k then (j, v) ∷ rest else (j, u) ∷ put k v rest

-- `{**first, **second}`
unfoldable pub merge : Payload → Payload → Payload
unfolding put
merge first [] = first
merge first ((k, v) ∷ rest) = merge (put k v first) rest

-- `FAILED, CANCELLED, REJECTED, MERGED`, as `request_cancellation` lists them.
unfoldable pub is_terminal : JobStatus → Bool
is_terminal JobStatus.failed = true
is_terminal JobStatus.cancelled = true
is_terminal JobStatus.rejected = true
is_terminal JobStatus.merged = true
is_terminal _ = false

-- `_require`
unfoldable pub require : String → Service NightShiftJob
unfolding get_job
require id = do or_raise (← gets (get_job id)) unknown_job

module _ (w : World) where
  -- `self.events.append(NightShiftEvent(…))`: the defaults take an identifier, then a time.
  unfoldable pub log_event : String → String → String → Payload → Service (Unit {0})
  unfolding fresh_id now append_event
  log_event id event_type actor payload = do
    event_id ← fresh_id w
    created_at ← now w
    append_event w (record {
      event_type = event_type;
      actor = actor;
      payload = payload;
      event_job_id = some id;
      event_id = event_id;
      event_created_at = created_at;
    })

  unfoldable pub create : NightShiftJob → String → Service NightShiftJob
  unfolding create_job log_event status_value plan_value
  create job actor = do
    create_job job
    log_event job.job_id "job_created" actor (
        ("status", text (status_value job.status))
        ∷ ("worker_profile", text job.worker_profile)
        ∷ ("plan", text (plan_value job.plan))
        ∷ [])
    pure job

  -- `transition` from its validation on, with the job that it has read.
  unfoldable pub commit_transition :
      String
      → NightShiftJob
      → JobStatus
      → String
      → Option Payload
      → Option String
      → Service NightShiftJob
  unfolding is_allowed now update_job log_event merge status_value
  commit_transition id job target actor payload result_summary = do
    raise_if (not (is_allowed job.status target)) (invalid_transition job.status target)
    updated_at ← now w
    let updated = record job {
      status = target;
      updated_at = updated_at;
      result_summary = or_else result_summary job.result_summary;
    }
    update_job updated
    log_event id "job_status_changed" actor (
        merge (("from", text (status_value job.status)) ∷ ("to", text (status_value target)) ∷ [])
          (get_or payload []))
    pure updated

  unfoldable pub transition :
      String → JobStatus → String → Option Payload → Option String → Service NightShiftJob
  unfolding require commit_transition
  transition id target actor payload result_summary = do
    commit_transition id (← require id) target actor payload result_summary

  unfoldable pub request_cancellation : String → String → Service NightShiftJob
  unfolding require is_terminal now update_job log_event status_value
  request_cancellation id actor = do
    job ← require id
    raise_if (is_terminal job.status) terminal_job
    updated_at ← now w
    let updated = record job { cancellation_requested = true; updated_at = updated_at }
    update_job updated
    log_event id "cancellation_requested" actor (("status", text (status_value job.status)) ∷ [])
    pure updated
