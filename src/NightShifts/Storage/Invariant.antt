-- ===== src/NightShifts/Storage/Invariant.antt =====
-- What every call of the service keeps of the database, and the effect of each store operation in
-- a database that keeps it.
use simple_ai_agent.Common.{
  ℕ, ◌≤◌, ◌≡◌, sym, subst, String, true, none, some, [], ◌∷◌, ◌++◌, ok, err, arith,
}
use simple_ai_agent.NightShifts.Models.{NightShiftJob, NightShiftEvent}
use simple_ai_agent.NightShifts.Storage.{
  World, Database, integrity_error, job_key, event_key, create_job, update_job, get_job,
  append_event,
}
use simple_ai_agent.NightShifts.Storage.Table.{
  select_row, update_rows, IsKeyed, row_count-some, key-select_row,
}

-- `uuid4` gives no identifier twice, and every event can be stored.
pub record IsFresh (w : World) : Type 0 where
  pub distinct : (m n : ℕ) → w.uuid4 m ≡ w.uuid4 n → m ≡ n
  pub stores : (event : NightShiftEvent) → w.storable event ≡ true

-- Job identifiers are unique, no event has an identifier that is still to be drawn, and every event
-- can be stored.
pub record IsValid (w : World) (db : Database) : Type 0 where
  pub keyed : IsKeyed job_key db.jobs
  pub unused : (n : ℕ) → db.draws ≤ n → select_row event_key (w.uuid4 n) db.events ≡ none
  pub stores : (event : NightShiftEvent) → w.storable event ≡ true

pub create_job_ok :
    (job : NightShiftJob) (db : Database)
    → get_job job.job_id db ≡ none
    → create_job job db ≡ (ok tt, record db { jobs = db.jobs ++ job ∷ [] })
unfolding create_job get_job
create_job_ok job db h = ground arith

pub create_job_taken :
    (job : NightShiftJob) (db : Database) {old : NightShiftJob}
    → get_job job.job_id db ≡ some old
    → create_job job db ≡ (err integrity_error, db)
unfolding create_job get_job
create_job_taken job db h = ground arith

pub job_id-get_job :
    (id : String) (db : Database) {job : NightShiftJob} → get_job id db ≡ some job → job.job_id ≡ id
unfolding get_job
job_id-get_job id db found = key-select_row job_key id db.jobs found

-- A job that is found is found under its own identifier.
pub get_job_self :
    (id : String) (db : Database) {job : NightShiftJob}
    → get_job id db ≡ some job
    → get_job job.job_id db ≡ some job
get_job_self id db {job} found =
    subst (λ k. get_job k db ≡ some job) (sym (job_id-get_job id db found)) found

pub update_job_ok :
    (w : World) (job : NightShiftJob) (db : Database) {old : NightShiftJob}
    → IsKeyed job_key db.jobs
    → get_job job.job_id db ≡ some old
    → update_job job db ≡ (ok tt, record db { jobs = update_rows job_key job db.jobs })
unfolding update_job get_job
update_job_ok w job db {old} keyed h =
    ground (arith, row_count-some job_key job.job_id db.jobs {r = old} keyed h)

pub append_event_ok :
    (w : World) (event : NightShiftEvent) (db : Database)
    → w.storable event ≡ true
    → select_row event_key event.event_id db.events ≡ none
    → append_event w event db ≡ (ok tt, record db { events = db.events ++ event ∷ [] })
unfolding append_event
append_event_ok w event db accepted h = ground arith
