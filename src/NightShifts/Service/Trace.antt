-- ===== src/NightShifts/Service/Trace.antt =====
-- The abstract view of the service: each call makes at most one step on the tables of jobs and
-- events, and no step other than these.
use simple_ai_agent.Common.{◌≡◌, String, true, false, none, some, [], ◌∷◌, ◌++◌}
use simple_ai_agent.NightShifts.Models.{
  JobStatus, NightShiftJob, NightShiftEvent, Payload, text, plan_value, status_value,
}
use simple_ai_agent.NightShifts.StateMachine.{is_allowed}
use simple_ai_agent.NightShifts.Storage.{Database, job_key, get_job}
use simple_ai_agent.NightShifts.Storage.Table.{update_rows}
use simple_ai_agent.NightShifts.Service.{is_terminal, merge}
use simple_ai_agent.NightShifts.Service.Calls.{Call, creates, transitions, cancels}

-- What an actor may ask for: which jobs it creates, which payloads it adds to a transition.
pub record Rules : Type 1 where
  pub AllowedJob : NightShiftJob → Type 0
  pub AllowedPayload : Payload → Type 0

-- No restriction.
abbrev pub anything : Rules
anything = record { AllowedJob = λ _. Unit {0}; AllowedPayload = λ _. Unit {0} }

abbrev pub creation_payload : NightShiftJob → Payload
creation_payload job =
    ("status", text (status_value job.status))
    ∷ ("worker_profile", text job.worker_profile)
    ∷ ("plan", text (plan_value job.plan))
    ∷ []

abbrev pub move_payload : JobStatus → JobStatus → Payload → Payload
move_payload current target extra =
    merge (("from", text (status_value current)) ∷ ("to", text (status_value target)) ∷ []) extra

-- The event says of which job it is, of what kind, and with what payload.
pub record Says (event : NightShiftEvent) (id kind : String) (payload : Payload) : Type 0 where
  pub of_job : event.event_job_id ≡ some id
  pub of_kind : event.event_type ≡ kind
  pub with_payload : event.payload ≡ payload

-- The fields of a job that the service may write; every other field stays as it was created.
abbrev pub rewritten : NightShiftJob → NightShiftJob → NightShiftJob
rewritten job updated = record job {
  status = updated.status;
  updated_at = updated.updated_at;
  cancellation_requested = updated.cancellation_requested;
  result_summary = updated.result_summary;
}

module _ (rules : Rules) where
  open rules use {AllowedJob, AllowedPayload}

  -- How one row of the table of jobs may change, and the event that records it.
  pub data Change (job updated : NightShiftJob) (event : NightShiftEvent) : Type 0 where
    moves :
        (extra : Payload)
        → AllowedPayload extra
        → is_allowed job.status updated.status ≡ true
        → updated.cancellation_requested ≡ job.cancellation_requested
        → Says event job.job_id "job_status_changed" (move_payload job.status updated.status extra)
        → Change job updated event
    flags :
        is_terminal job.status ≡ false
        → updated.status ≡ job.status
        → updated.cancellation_requested ≡ true
        → Says event job.job_id "cancellation_requested"
            (("status", text (status_value job.status)) ∷ [])
        → Change job updated event

  pub data Step (s t : Database) : Type 0 where
    created :
        (job : NightShiftJob) (event : NightShiftEvent)
        → AllowedJob job
        → get_job job.job_id s ≡ none
        → Says event job.job_id "job_created" (creation_payload job)
        → t.jobs ≡ s.jobs ++ job ∷ []
        → t.events ≡ s.events ++ event ∷ []
        → Step s t
    changed :
        (job updated : NightShiftJob) (event : NightShiftEvent)
        → get_job job.job_id s ≡ some job
        → updated ≡ rewritten job updated
        → Change job updated event
        → t.jobs ≡ update_rows job_key updated s.jobs
        → t.events ≡ s.events ++ event ∷ []
        → Step s t

  pub data Trace (s : Database) : Database → Type 0 where
    here : Trace s s
    next : {t u : Database} → Trace s t → Step t u → Trace s u

  pub Trace-trans : {s t u : Database} → Trace s t → Trace t u → Trace s u
  Trace-trans p here = p
  Trace-trans p (next q step) = next (Trace-trans p q) step

  -- A call that keeps to the rules.
  abbrev pub IsLawful : Call → Type 0
  IsLawful (creates job actor) = AllowedJob job
  IsLawful (transitions id target actor none summary) = AllowedPayload []
  IsLawful (transitions id target actor (some payload) summary) = AllowedPayload payload
  IsLawful (cancels id actor) = Unit {0}

pub IsLawful-call : (c : Call) → IsLawful anything c
IsLawful-call (creates job actor) = tt
IsLawful-call (transitions id target actor none summary) = tt
IsLawful-call (transitions id target actor (some payload) summary) = tt
IsLawful-call (cancels id actor) = tt
