-- ===== src/NightShifts/Service/Effects.antt =====
-- What each operation of the service does to a valid database, branch by branch.
use simple_ai_agent.Common.{
  ℕ, ◌+◌, ◌≤◌, ◌≡◌, sym, subst, String, eq_iff, true, false, Option, none, some, List, [], ◌∷◌,
  ◌++◌, ok, err, arith, or_else, get_or,
}
use simple_ai_agent.NightShifts.Models.{
  JobStatus, NightShiftJob, NightShiftEvent, Payload, text, status_value,
}
use simple_ai_agent.NightShifts.StateMachine.{is_allowed}
use simple_ai_agent.NightShifts.Storage.{
  World, Database, unknown_job, terminal_job, integrity_error, invalid_transition, job_key,
  event_key, get_job,
}
use simple_ai_agent.NightShifts.Storage.Table.{select_row, update_rows, IsKeyed, select_row-append}
use simple_ai_agent.NightShifts.Storage.Invariant.{
  IsFresh, IsValid, job_id-get_job, get_job_self, create_job_ok, create_job_taken, update_job_ok,
  append_event_ok,
}
use simple_ai_agent.NightShifts.Service.{
  is_terminal, log_event, create, commit_transition, transition, request_cancellation,
}
use simple_ai_agent.NightShifts.Service.Trace.{creation_payload, move_payload}

module _ (w : World) where
  -- The event that the next call of `log_event` writes.
  abbrev pub event_at : ℕ → ℕ → String → String → String → Payload → NightShiftEvent
  event_at draw reading id kind actor payload = record {
    event_type = kind;
    actor = actor;
    payload = payload;
    event_job_id = some id;
    event_id = w.uuid4 draw;
    event_created_at = w.utc_now reading;
  }

  -- The database with new jobs and one more event, after `n` readings of the clock.
  abbrev pub recorded : Database → List NightShiftJob → NightShiftEvent → ℕ → Database
  recorded db jobs event readings = record {
    jobs = jobs;
    events = db.events ++ event ∷ [];
    draws = db.draws + 1;
    readings = readings;
  }

  pub log_event_ok :
      (id kind actor : String) (payload : Payload) (db : Database)
      → ((n : ℕ) → db.draws ≤ n → select_row event_key (w.uuid4 n) db.events ≡ none)
      → ((event : NightShiftEvent) → w.storable event ≡ true)
      → log_event w id kind actor payload db ≡ (
        ok tt,
        recorded db db.jobs (event_at db.draws db.readings id kind actor payload) (db.readings + 1),
      )
  unfolding log_event
  log_event_ok id kind actor payload db unused stores = ground (
    arith,
    unused db.draws,
    append_event_ok w (event_at db.draws db.readings id kind actor payload)
        (record db { draws = db.draws + 1; readings = db.readings + 1 })
        (stores (event_at db.draws db.readings id kind actor payload)),
  )

  pub recorded-IsValid :
      (db : Database) (jobs : List NightShiftJob) (event : NightShiftEvent) (readings : ℕ)
      → IsFresh w
      → IsValid w db
      → IsKeyed job_key jobs
      → event.event_id ≡ w.uuid4 db.draws
      → IsValid w (recorded db jobs event readings)
  recorded-IsValid db jobs event readings fresh valid keyed e = record {
    keyed = keyed;
    unused = λ n h. ground (
      arith,
      select_row-append event_key (w.uuid4 n) event db.events,
      valid.unused n,
      eq_iff event.event_id (w.uuid4 n),
      fresh.distinct db.draws n,
    );
    stores = fresh.stores;
  }

  abbrev pub moved : NightShiftJob → JobStatus → Option String → ℕ → NightShiftJob
  moved job target summary reading = record job {
    status = target;
    updated_at = w.utc_now reading;
    result_summary = or_else summary job.result_summary;
  }

  abbrev pub flagged : NightShiftJob → ℕ → NightShiftJob
  flagged job reading = record job { cancellation_requested = true; updated_at = w.utc_now reading }

  -- The database after a transition that is allowed.
  abbrev pub after_move :
      Database
      → String
      → NightShiftJob
      → JobStatus
      → String
      → Option Payload
      → Option String
      → Database
  after_move db id job target actor payload summary =
      recorded db (update_rows job_key (moved job target summary db.readings) db.jobs)
        (event_at db.draws (db.readings + 1) id "job_status_changed" actor
          (move_payload job.status target (get_or payload [])))
        (db.readings + 1 + 1)

  -- The job that was read need not be the row that is there now.
  pub commit_transition_ok :
      (id : String) (target : JobStatus) (actor : String) (payload : Option Payload)
      (summary : Option String) (db : Database) (job : NightShiftJob) {row : NightShiftJob}
      → IsValid w db
      → job.job_id ≡ id
      → get_job id db ≡ some row
      → is_allowed job.status target ≡ true
      → commit_transition w id job target actor payload summary db ≡ (
        ok (moved job target summary db.readings),
        after_move db id job target actor payload summary,
      )
  unfolding commit_transition get_job
  commit_transition_ok id target actor payload summary db job {row} valid mine found allowed =
      let updated : NightShiftJob = moved job target summary db.readings in
      ground (
        arith,
        update_job_ok w updated (record db { readings = db.readings + 1 }) {old = row} valid.keyed
            (subst (λ k. get_job k db ≡ some row) (sym mine) found),
        log_event_ok id "job_status_changed" actor
            (move_payload job.status target (get_or payload []))
            (record db { jobs = update_rows job_key updated db.jobs; readings = db.readings + 1 })
            valid.unused valid.stores,
      )

  pub transition_ok :
      (id : String) (target : JobStatus) (actor : String) (payload : Option Payload)
      (summary : Option String) (db : Database) (job : NightShiftJob)
      → IsValid w db
      → get_job id db ≡ some job
      → is_allowed job.status target ≡ true
      → transition w id target actor payload summary db ≡ (
        ok (moved job target summary db.readings),
        after_move db id job target actor payload summary,
      )
  unfolding transition
  transition_ok id target actor payload summary db job valid found allowed = ground (
    arith,
    commit_transition_ok id target actor payload summary db job {row = job} valid
        (job_id-get_job id db found) found allowed,
  )

  pub transition_unknown :
      (id : String) (target : JobStatus) (actor : String) (payload : Option Payload)
      (summary : Option String) (db : Database)
      → get_job id db ≡ none
      → transition w id target actor payload summary db ≡ (err unknown_job, db)
  unfolding transition
  transition_unknown id target actor payload summary db missing = ground arith

  pub transition_refused :
      (id : String) (target : JobStatus) (actor : String) (payload : Option Payload)
      (summary : Option String) (db : Database) (job : NightShiftJob)
      → get_job id db ≡ some job
      → is_allowed job.status target ≡ false
      → transition w id target actor payload summary db
        ≡ (err (invalid_transition job.status target), db)
  unfolding transition
  transition_refused id target actor payload summary db job found refused = ground arith

  -- The database after an accepted request for cancellation.
  abbrev pub after_flag : Database → String → NightShiftJob → String → Database
  after_flag db id job actor =
      recorded db (update_rows job_key (flagged job db.readings) db.jobs)
        (event_at db.draws (db.readings + 1) id "cancellation_requested" actor
          (("status", text (status_value job.status)) ∷ []))
        (db.readings + 1 + 1)

  pub request_cancellation_ok :
      (id actor : String) (db : Database) (job : NightShiftJob)
      → IsValid w db
      → get_job id db ≡ some job
      → is_terminal job.status ≡ false
      → request_cancellation w id actor db
        ≡ (ok (flagged job db.readings), after_flag db id job actor)
  unfolding request_cancellation get_job
  request_cancellation_ok id actor db job valid found open_job =
      let updated : NightShiftJob = flagged job db.readings in
      ground (
        arith,
        job_id-get_job id db found,
        update_job_ok w updated (record db { readings = db.readings + 1 }) {old = job} valid.keyed
            (get_job_self id db found),
        log_event_ok id "cancellation_requested" actor
            (("status", text (status_value job.status)) ∷ [])
            (record db { jobs = update_rows job_key updated db.jobs; readings = db.readings + 1 })
            valid.unused valid.stores,
      )

  pub request_cancellation_unknown :
      (id actor : String) (db : Database)
      → get_job id db ≡ none
      → request_cancellation w id actor db ≡ (err unknown_job, db)
  unfolding request_cancellation
  request_cancellation_unknown id actor db missing = ground arith

  pub request_cancellation_refused :
      (id actor : String) (db : Database) (job : NightShiftJob)
      → get_job id db ≡ some job
      → is_terminal job.status ≡ true
      → request_cancellation w id actor db ≡ (err terminal_job, db)
  unfolding request_cancellation
  request_cancellation_refused id actor db job found done = ground arith

  abbrev pub after_create : Database → NightShiftJob → String → Database
  after_create db job actor =
      recorded db (db.jobs ++ job ∷ [])
        (event_at db.draws db.readings job.job_id "job_created" actor (creation_payload job))
        (db.readings + 1)

  pub create_ok :
      (job : NightShiftJob) (actor : String) (db : Database)
      → IsValid w db
      → get_job job.job_id db ≡ none
      → create w job actor db ≡ (ok job, after_create db job actor)
  unfolding create
  create_ok job actor db valid free = ground (
    arith,
    create_job_ok job db free,
    log_event_ok job.job_id "job_created" actor (creation_payload job)
        (record db { jobs = db.jobs ++ job ∷ [] }) valid.unused valid.stores,
  )

  pub create_taken :
      (job : NightShiftJob) (actor : String) (db : Database) {old : NightShiftJob}
      → get_job job.job_id db ≡ some old
      → create w job actor db ≡ (err integrity_error, db)
  unfolding create
  create_taken job actor db {old} taken = ground (arith, create_job_taken job db {old = old} taken)
