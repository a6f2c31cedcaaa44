-- ===== src/NightShifts/Service/History/Trail.antt =====
-- The event trail is an audit trail: replaying it gives the status of every job, and a merged job
-- has an approval in it.
use simple_ai_agent.Common.{
  ◌≡◌, refl, String, ◌==◌, eq_iff, eq_refl, Bool, false, Option, none, some, List, [], ◌∷◌, ◌++◌,
  arith, All, if◌then◌else◌, or_else,
}
use mathlib.Core.Option
use simple_ai_agent.NightShifts.Models.{
  JobStatus, NightShiftJob, NightShiftEvent, Payload, Value, null, text, python_object,
  status_value, status_of_value, status_of_value-status_value,
}
use simple_ai_agent.NightShifts.Storage.{World, Database, get_job}
use simple_ai_agent.NightShifts.Storage.Invariant.{IsFresh}
use simple_ai_agent.NightShifts.Service.{put, merge}
use simple_ai_agent.NightShifts.Service.Local.{Texts, result_payload}
use simple_ai_agent.NightShifts.Service.Local.Refinement.{AllowsResults}
use simple_ai_agent.NightShifts.Service.Trace.{
  Rules, Says, moves, flags, Trace, here, next, move_payload, creation_payload,
}
use simple_ai_agent.NightShifts.Service.History.{
  Act, act_all, act_all-Refines, empty, empty-IsValid, IsLawfulAct, JobStep, elsewhere, appears,
  alters, Step-JobStep,
}

-- `payload.get(k)`
unfoldable pub entry : String → Payload → Option Value
entry k [] = none
entry k ((j, v) ∷ rest) = if j == k then some v else entry k rest

entry-put :
    (k j : String) (v : Value) (p : Payload)
    → entry k (put j v p) ≡ (if j == k then some v else entry k p)
unfolding entry put
entry-put k j v [] = refl
entry-put k j v ((i, u) ∷ rest) =
    ground (arith, eq_iff i j, eq_iff i k, eq_iff j k, entry-put k j v rest)

-- A key that the second payload lacks keeps its value.
entry-merge :
    (k : String) (first second : Payload)
    → entry k second ≡ none
    → entry k (merge first second) ≡ entry k first
unfolding merge entry
entry-merge k first [] h = refl
entry-merge k first ((j, v) ∷ rest) h =
    ground (arith, entry-put k j v first, entry-merge k (put j v first) rest)

-- What a reader of the trail takes an event of job `id` to say about its status.
status_in : Value → Option JobStatus
status_in null = none
status_in (python_object n) = none
status_in (text t) = status_of_value t

status_entry : String → Payload → Option JobStatus
unfolding entry status_in
status_entry k p = elim (entry k p) [ none ↦ none | some v ↦ status_in v ]

unfoldable pub status_told : NightShiftEvent → Option JobStatus
unfolding status_entry
status_told e =
    if e.event_type == "job_created"
    then status_entry "status" e.payload
    else if e.event_type == "job_status_changed"
    then status_entry "to" e.payload
    else none

unfoldable pub is_about : String → NightShiftEvent → Bool
is_about id e = elim e.event_job_id [ none ↦ false | some j ↦ j == id ]

-- The last status that the trail tells of the job, from `before` on.
unfoldable pub replay : String → Option JobStatus → List NightShiftEvent → Option JobStatus
unfolding status_told is_about
replay id before [] = before
replay id before (e ∷ rest) =
    replay id (if is_about id e then or_else (status_told e) before else before) rest

replay-append :
    (id : String) (before : Option JobStatus) (events : List NightShiftEvent) (e : NightShiftEvent)
    → replay id before (events ++ e ∷ []) ≡ (
        if is_about id e
        then or_else (status_told e) (replay id before events)
        else replay id before events)
unfolding replay
replay-append id before [] e = refl
replay-append id before (x ∷ rest) e =
    replay-append id (if is_about id x then or_else (status_told x) before else before) rest e

-- Transitions whose own payload has no entry `to`.
abbrev pub plain_payloads : Rules
plain_payloads = record { AllowedJob = λ _. Unit {0}; AllowedPayload = λ p. entry "to" p ≡ none }

pub results_plain : AllowsResults plain_payloads
unfolding entry result_payload
results_plain = record { allows_none = refl; allows_result = λ r. refl }

pub told_created :
    (id : String) (e : NightShiftEvent) (job : NightShiftJob)
    → Says e id "job_created" (creation_payload job)
    → status_told e ≡ some job.status
unfolding status_told status_entry entry status_in
told_created id e job says =
    rw (says.of_kind, says.with_payload) (status_of_value-status_value job.status)

entry-move :
    (current target : JobStatus) (extra : Payload)
    → entry "to" extra ≡ none
    → entry "to" (move_payload current target extra) ≡ some (text (status_value target))
unfolding entry
entry-move current target extra plain = entry-merge "to" _ extra plain

status_entry-move :
    (current target : JobStatus) (extra : Payload)
    → entry "to" extra ≡ none
    → status_entry "to" (move_payload current target extra) ≡ some target
unfolding status_entry
status_entry-move current target extra plain =
    rw (entry-move current target extra plain, status_entry) (status_of_value-status_value target)

pub told_moved :
    (id : String) (e : NightShiftEvent) (current target : JobStatus) (extra : Payload)
    → entry "to" extra ≡ none
    → Says e id "job_status_changed" (move_payload current target extra)
    → status_told e ≡ some target
unfolding status_told
told_moved id e current target extra plain says =
    rw (says.of_kind, says.with_payload) (status_entry-move current target extra plain)

pub told_flagged :
    (id : String) (e : NightShiftEvent) (p : Payload)
    → Says e id "cancellation_requested" p
    → status_told e ≡ none
unfolding status_told
told_flagged id e p says = rw says.of_kind refl

-- The trail and the row of job `id` agree.
abbrev Agrees : String → Database → Type 0
Agrees id db =
    replay id none db.events ≡ Option.map (λ (j : NightShiftJob). j.status) (get_job id db)

JobStep-Agrees :
    (id : String) {s t : Database} → Agrees id s → JobStep plain_payloads id s t → Agrees id t
unfolding is_about
JobStep-Agrees id {s} {t} h (elsewhere other event same of_job ne events) =
    ground (arith, replay-append id none s.events event, eq_iff other id)
JobStep-Agrees id {s} {t} h (appears job event _ free there says events) = ground (
  arith,
  replay-append id none s.events event,
  says.of_job,
  eq_refl id,
  told_created id event job says,
)
JobStep-Agrees id {s} {t} h
      (alters job updated event found new mine brief (moves extra plain allowed kept says) events) =
    ground (
      arith,
      replay-append id none s.events event,
      says.of_job,
      eq_refl id,
      told_moved job.job_id event job.status updated.status extra plain says,
    )
JobStep-Agrees id {s} {t} h
      (alters job updated event found new mine brief (flags open_job kept asked says) events) =
    ground (
      arith,
      replay-append id none s.events event,
      says.of_job,
      eq_refl id,
      told_flagged job.job_id event _ says,
    )

Trace-Agrees : (id : String) {s t : Database} → Agrees id s → Trace plain_payloads s t → Agrees id t
Trace-Agrees id h here = h
Trace-Agrees id h (next {t} {u} trace step) =
    JobStep-Agrees id (Trace-Agrees id h trace) (Step-JobStep plain_payloads id t u step)

-- After any history from the empty database in which no actor's transition payload has an entry
-- `to`, where identifiers never repeat and every event can be stored, replaying the events of a job gives the status in its row, and gives none for a job that
-- was not created.
pub replay-act_all :
    (w : World) (texts : Texts) (acts : List Act) (id : String)
    → IsFresh w
    → All (IsLawfulAct plain_payloads) acts
    → let db = act_all w texts acts empty in
      replay id none db.events ≡ Option.map (λ (j : NightShiftJob). j.status) (get_job id db)
unfolding replay get_job
replay-act_all w texts acts id fresh lawful =
    Trace-Agrees id refl
      (act_all-Refines w fresh texts plain_payloads results_plain acts empty lawful
        (empty-IsValid w fresh)).trace
