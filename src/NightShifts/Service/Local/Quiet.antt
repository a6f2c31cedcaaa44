-- ===== src/NightShifts/Service/Local/Quiet.antt =====
-- Calls of other actors that leave the status of a job alone while its worker runs.
use simple_ai_agent.Common.{
  ◌≡◌, refl, ◌∙◌, ◌≢◌, String, ◌==◌, eq_iff, eq_refl, Bool, true, Option, some, inl, inr, arith,
  Option-cases, Bool-cases,
}
use simple_ai_agent.Common.Int.{ℤ}
use simple_ai_agent.NightShifts.Models.{JobStatus, NightShiftJob, Payload}
use simple_ai_agent.NightShifts.StateMachine.{is_allowed}
use simple_ai_agent.NightShifts.Protocol.{WorkerTask}
use simple_ai_agent.NightShifts.Storage.{World, Database, job_key, get_job}
use simple_ai_agent.NightShifts.Storage.Table.{select_row-update_rows, select_row-append}
use simple_ai_agent.NightShifts.Storage.Invariant.{IsFresh, IsValid, job_id-get_job}
use simple_ai_agent.NightShifts.Service.{is_terminal, create, transition, request_cancellation}
use simple_ai_agent.NightShifts.Service.Effects
use simple_ai_agent.NightShifts.Service.Calls.{Call, creates, transitions, cancels, perform}
use simple_ai_agent.NightShifts.Service.Local.{
  Behaviour, Backend, returns, raises, polls, meanwhile,
}

-- A call that leaves the status of job `id` alone: anyone may ask for its cancellation.
abbrev pub IsQuietCall : String → Call → Type 0
IsQuietCall id (creates job actor) = Unit {0}
IsQuietCall id (transitions other target actor payload summary) = other ≢ id
IsQuietCall id (cancels other actor) = Unit {0}

abbrev pub IsQuiet : String → Behaviour → Type 0
IsQuiet id (returns r) = Unit
IsQuiet id (raises e) = Unit
IsQuiet id (polls k) = (b : Bool) → IsQuiet id (k b)
IsQuiet id (meanwhile c b) = IsQuietCall id c × IsQuiet id b

-- Whatever task and time limit the backend is given.
abbrev pub IsQuietBackend : String → Backend → Type 0
IsQuietBackend id backend = (task : WorkerTask) (seconds : ℤ) → IsQuiet id (backend task seconds)

-- The row of job `id` is there and has this status.
pub record Stands (id : String) (status : JobStatus) (db : Database) : Type 0 where
  pub row : NightShiftJob
  pub found : get_job id db ≡ some row
  pub has_status : row.status ≡ status

module _ (w : World) (fresh : IsFresh w) where
  pub transition_found :
      (id : String) (target : JobStatus) (actor : String) (payload : Option Payload)
      (summary : Option String) (db : Database) (job : NightShiftJob)
      → IsValid w db
      → get_job id db ≡ some job
      → is_allowed job.status target ≡ true
      → get_job id (transition w id target actor payload summary db).1
        ≡ some (Effects.moved w job target summary db.readings)
  unfolding get_job
  transition_found id target actor payload summary db job valid found allowed =
      rw (Effects.transition_ok w id target actor payload summary db job valid found allowed) (
        ground (
          arith,
          select_row-update_rows job_key id (Effects.moved w job target summary db.readings)
              db.jobs,
          job_id-get_job id db found,
          eq_refl id,
        ))

  pub transition_elsewhere :
      (id other : String) (target : JobStatus) (actor : String) (payload : Option Payload)
      (summary : Option String) (db : Database)
      → IsValid w db
      → other ≢ id
      → get_job id (transition w other target actor payload summary db).1 ≡ get_job id db
  unfolding get_job
  transition_elsewhere id other target actor payload summary db valid ne =
      elim (Option-cases (get_job other db)) [
        | inl missing ↦
            rw (Effects.transition_unknown w other target actor payload summary db missing) refl
        | inr (job, found) ↦ elim (Bool-cases (is_allowed job.status target)) [
          | inl allowed ↦
              rw
                (Effects.transition_ok w other target actor payload summary db job valid found
                  allowed)
                (ground (
                  arith,
                  select_row-update_rows job_key id (Effects.moved w job target summary db.readings)
                      db.jobs,
                  job_id-get_job other db found,
                  eq_iff other id,
                ))
          | inr refused ↦
              rw
                (Effects.transition_refused w other target actor payload summary db job found
                  refused)
                refl
        ]
      ]

  after_flag-Stands :
      (id other actor : String) (status : JobStatus) (db : Database) (job : NightShiftJob)
      → get_job other db ≡ some job
      → Stands id status db
      → Stands id status (Effects.after_flag w db other job actor)
  unfolding get_job
  after_flag-Stands id other actor status db job found stands = elim (Bool-cases (other == id)) [
    | inl same ↦ record {
      row = Effects.flagged w job db.readings;
      found = ground (
        arith,
        select_row-update_rows job_key id (Effects.flagged w job db.readings) db.jobs,
        job_id-get_job other db found,
        eq_iff other id,
        stands.found,
      );
      has_status = ground (arith, eq_iff other id, stands.found, stands.has_status);
    }
    | inr differs ↦ record {
      row = stands.row;
      found = ground (
        arith,
        select_row-update_rows job_key id (Effects.flagged w job db.readings) db.jobs,
        job_id-get_job other db found,
        eq_iff other id,
        stands.found,
      );
      has_status = stands.has_status;
    }
  ]

  request_cancellation-Stands :
      (id other actor : String) (status : JobStatus) (db : Database)
      → IsValid w db
      → Stands id status db
      → Stands id status (request_cancellation w other actor db).1
  request_cancellation-Stands id other actor status db valid stands =
      elim (Option-cases (get_job other db)) [
        | inl missing ↦ rw (Effects.request_cancellation_unknown w other actor db missing) stands
        | inr (job, found) ↦ elim (Bool-cases (is_terminal job.status)) [
          | inl done ↦
              rw (Effects.request_cancellation_refused w other actor db job found done) stands
          | inr open_job ↦
              rw (Effects.request_cancellation_ok w other actor db job valid found open_job)
                (after_flag-Stands id other actor status db job found stands)
        ]
      ]

  create-Stands :
      (id : String) (job : NightShiftJob) (actor : String) (status : JobStatus) (db : Database)
      → IsValid w db
      → Stands id status db
      → Stands id status (create w job actor db).1
  unfolding get_job
  create-Stands id job actor status db valid stands = elim (Option-cases (get_job job.job_id db)) [
    | inl free ↦ rw (Effects.create_ok w job actor db valid free) (record {
      row = stands.row;
      found = ground (arith, select_row-append job_key id job db.jobs, stands.found);
      has_status = stands.has_status;
    })
    | inr (old, taken) ↦ rw (Effects.create_taken w job actor db {old = old} taken) stands
  ]

  pub perform-Stands :
      (id : String) (c : Call) (status : JobStatus) (db : Database)
      → IsQuietCall id c
      → IsValid w db
      → Stands id status db
      → Stands id status (perform w c db)
  unfolding perform
  perform-Stands id (creates job actor) status db quiet valid stands =
      create-Stands id job actor status db valid stands
  perform-Stands id (transitions other target actor payload summary) status db quiet valid stands =
      record {
        row = stands.row;
        found =
            transition_elsewhere id other target actor payload summary db valid quiet
            ∙ stands.found;
        has_status = stands.has_status;
      }
  perform-Stands id (cancels other actor) status db quiet valid stands =
      request_cancellation-Stands id other actor status db valid stands
