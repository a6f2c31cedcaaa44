-- ===== src/NightShifts/Service/Unlogged.antt =====
-- `transition` where its event cannot be stored.
use simple_ai_agent.Common.{
  ◌+◌, ◌≡◌, eq_refl, sym, subst, String, true, false, Option, some, [], err, arith, get_or,
}
use simple_ai_agent.NightShifts.Models.{JobStatus, NightShiftJob, NightShiftEvent, Payload}
use simple_ai_agent.NightShifts.StateMachine.{is_allowed}
use simple_ai_agent.NightShifts.Storage.{
  World, Database, not_storable, job_key, get_job, append_event,
}
use simple_ai_agent.NightShifts.Storage.Table.{IsKeyed, update_rows, select_row-update_rows}
use simple_ai_agent.NightShifts.Storage.Invariant.{job_id-get_job, update_job_ok}
use simple_ai_agent.NightShifts.Service.{log_event, commit_transition, transition}
use simple_ai_agent.NightShifts.Service.Trace.{move_payload}
use simple_ai_agent.NightShifts.Service.Effects

module _ (w : World) where
  append_event_refused :
      (event : NightShiftEvent) (db : Database)
      → w.storable event ≡ false
      → append_event w event db ≡ (err not_storable, db)
  unfolding append_event
  append_event_refused event db refused = ground arith

  log_event_refused :
      (id kind actor : String) (payload : Payload) (db : Database)
      → w.storable (Effects.event_at w db.draws db.readings id kind actor payload) ≡ false
      → log_event w id kind actor payload db
        ≡ (err not_storable, record db { draws = db.draws + 1; readings = db.readings + 1 })
  unfolding log_event
  log_event_refused id kind actor payload db refused = ground (
    arith,
    append_event_refused (Effects.event_at w db.draws db.readings id kind actor payload)
        (record db { draws = db.draws + 1; readings = db.readings + 1 }) refused,
  )

  -- The database after an accepted transition whose event was refused.
  abbrev unlogged : Database → NightShiftJob → Database
  unlogged db updated = record db {
    jobs = update_rows job_key updated db.jobs;
    draws = db.draws + 1;
    readings = db.readings + 1 + 1;
  }

  transition_refused_event :
      (id : String) (target : JobStatus) (actor : String) (payload : Option Payload)
      (summary : Option String) (db : Database) (job : NightShiftJob)
      → IsKeyed job_key db.jobs
      → get_job id db ≡ some job
      → is_allowed job.status target ≡ true
      → w.storable (
          Effects.event_at w db.draws
            (db.readings + 1)
            id
            "job_status_changed"
            actor
            (move_payload job.status target (get_or payload [])))
        ≡ false
      → transition w id target actor payload summary db
        ≡ (err not_storable, unlogged db (Effects.moved w job target summary db.readings))
  unfolding transition commit_transition get_job
  transition_refused_event id target actor payload summary db job keyed found allowed refused =
      let updated : NightShiftJob = Effects.moved w job target summary db.readings in
      ground (
        arith,
        found,
        allowed,
        update_job_ok w updated (record db { readings = db.readings + 1 }) {old = job} keyed
            (subst (λ k. get_job k db ≡ some job) (sym (job_id-get_job id db found)) found),
        log_event_refused id "job_status_changed" actor
            (move_payload job.status target (get_or payload []))
            (record db { jobs = update_rows job_key updated db.jobs; readings = db.readings + 1 })
            refused,
      )

  -- A transition that the lifecycle allows, and whose event cannot be stored, raises, and leaves the
  -- job's row moved with no event of the move in the trail.
  pub transition_moves_unlogged :
      (id : String) (target : JobStatus) (actor : String) (payload : Option Payload)
      (summary : Option String) (db : Database) (job : NightShiftJob)
      → IsKeyed job_key db.jobs
      → get_job id db ≡ some job
      → is_allowed job.status target ≡ true
      → w.storable (
          Effects.event_at w db.draws
            (db.readings + 1)
            id
            "job_status_changed"
            actor
            (move_payload job.status target (get_or payload [])))
        ≡ false
      → let (r, t) = transition w id target actor payload summary db in
        (r ≡ err not_storable)
        × (get_job id t ≡ some (Effects.moved w job target summary db.readings))
        × (t.events ≡ db.events)
  unfolding get_job
  transition_moves_unlogged id target actor payload summary db job keyed found allowed refused =
      rw
        (transition_refused_event id target actor payload summary db job keyed found allowed
          refused)
        (ground (
          arith,
          select_row-update_rows job_key id (Effects.moved w job target summary db.readings)
              db.jobs,
          job_id-get_job id db found,
          eq_refl id,
          found,
        ))
