-- ===== src/NightShifts/Service/Race.antt =====
-- Two actors at once: `transition` reads a row, and later writes all of it back.
use simple_ai_agent.Common.{◌≡◌, ap, String, eq_refl, true, false, Option, some, ok, arith}
use simple_ai_agent.NightShifts.Models.{JobStatus, NightShiftJob, Payload}
use simple_ai_agent.NightShifts.StateMachine.{is_allowed}
use simple_ai_agent.NightShifts.Storage.{World, Database, job_key, get_job}
use simple_ai_agent.NightShifts.Storage.Table.{select_row-update_rows}
use simple_ai_agent.NightShifts.Storage.Invariant.{IsFresh, IsValid, job_id-get_job}
use simple_ai_agent.NightShifts.Service.{is_terminal, commit_transition, request_cancellation}
use simple_ai_agent.NightShifts.Service.Effects
use simple_ai_agent.NightShifts.Service.Refinement.{request_cancellation-Refines}
use simple_ai_agent.NightShifts.Service.Trace.{anything}

request_cancellation_found :
    (w : World) (id other : String) (db : Database) (job : NightShiftJob)
    → IsValid w db
    → get_job id db ≡ some job
    → is_terminal job.status ≡ false
    → get_job id (request_cancellation w id other db).1 ≡ some (Effects.flagged w job db.readings)
unfolding get_job
request_cancellation_found w id other db job valid found open_job =
    rw (Effects.request_cancellation_ok w id other db job valid found open_job) (
      ground (
        arith,
        select_row-update_rows job_key id (Effects.flagged w job db.readings) db.jobs,
        job_id-get_job id db found,
        eq_refl id,
      ))

-- What `commit_transition` wrote is found again, whatever row it wrote over.
commit_transition_found :
    (w : World) (id : String) (target : JobStatus) (actor : String) (payload : Option Payload)
    (summary : Option String) (db : Database) (job : NightShiftJob) {row : NightShiftJob}
    → IsValid w db
    → job.job_id ≡ id
    → get_job id db ≡ some row
    → is_allowed job.status target ≡ true
    → get_job id (commit_transition w id job target actor payload summary db).1
      ≡ some (Effects.moved w job target summary db.readings)
unfolding get_job
commit_transition_found w id target actor payload summary db job {row} valid mine found allowed =
    rw
      (Effects.commit_transition_ok w id target actor payload summary db job {row = row} valid mine
        found allowed)
      (ground (
        arith,
        select_row-update_rows job_key id (Effects.moved w job target summary db.readings) db.jobs,
        mine,
        eq_refl id,
        found,
      ))

-- Where identifiers never repeat and every event can be stored, in a valid database: if a request
-- for cancellation is accepted between the read and the write of an allowed
-- transition, the row that the transition leaves does not ask for cancellation, though the request
-- returned.
pub commit_transition_loses_cancellation :
    (w : World) (id : String) (target : JobStatus) (actor other : String) (payload : Option Payload)
    (summary : Option String) (db : Database) (job : NightShiftJob)
    → IsFresh w
    → IsValid w db
    → get_job id db ≡ some job
    → job.cancellation_requested ≡ false
    → is_terminal job.status ≡ false
    → is_allowed job.status target ≡ true
    → let (asked, db') = request_cancellation w id other db in
      let (moved, db'') = commit_transition w id job target actor payload summary db' in
      (asked ≡ ok (Effects.flagged w job db.readings))
      × (moved ≡ ok (Effects.moved w job target summary db'.readings))
      × (get_job id db'' ≡ some (Effects.moved w job target summary db'.readings))
      × ((Effects.moved w job target summary db'.readings).cancellation_requested ≡ false)
commit_transition_loses_cancellation w id target actor other payload summary db job fresh valid
      found unasked open_job allowed =
    let row = Effects.flagged w job db.readings in
    let mine = job_id-get_job id db found in
    let valid' = (request_cancellation-Refines w fresh anything id other db valid).valid in
    let found' = request_cancellation_found w id other db job valid found open_job in
    (
      ap (λ p. p.0) (Effects.request_cancellation_ok w id other db job valid found open_job),
      ap (λ p. p.0)
          (Effects.commit_transition_ok w id target actor payload summary _ job {row = row} valid'
            mine found' allowed),
      commit_transition_found w id target actor payload summary _ job {row = row} valid' mine found'
          allowed,
      unasked,
    )
