-- ===== src/NightShifts/Storage.antt =====
-- night_shifts/storage/sqlite.py: the tables of jobs and of events, one database that both stores
-- open. Each statement commits by itself, so what a call wrote before it raised stays written.
-- Rows hold the records themselves; the text columns of a row are not modelled here.
pub mod Table
pub mod Invariant
use simple_ai_agent.Common.{
  ℕ, ◌+◌, ◌≡◌, String, Bool, Option, none, some, List, ◌∷◌, [], Action, ok, err, pure, raise, gets,
  or_raise, raise_if, modify, ◌>>=◌, ◌>>◌, Result, eqb, not,
}
use simple_ai_agent.NightShifts.Models.{NightShiftJob, NightShiftEvent, JobStatus}
use Table.{select_row, insert_row, update_rows, row_count}

-- What the process takes from outside: the n-th `uuid.uuid4().hex` and the n-th `utc_now()`, and
-- whether `json.dumps` and sqlite3 accept the values of an event.
pub record World : Type 0 where
  pub uuid4 : ℕ → String
  pub utc_now : ℕ → ℕ
  pub storable : NightShiftEvent → Bool

-- The database, and how many identifiers and times have been taken.
pub record Database : Type 0 where
  pub jobs : List NightShiftJob
  pub events : List NightShiftEvent
  pub draws : ℕ
  pub readings : ℕ

pub data ServiceError : Type 0 where
  unknown_job integrity_error terminal_job not_storable : ServiceError
  invalid_transition : JobStatus → JobStatus → ServiceError

abbrev pub Service : Type 0 → Type 0
Service A = Action Database ServiceError A

abbrev pub job_key : NightShiftJob → String
job_key j = j.job_id

abbrev pub event_key : NightShiftEvent → String
event_key e = e.event_id

-- `JobStore.create`
unfoldable pub create_job : NightShiftJob → Service (Unit {0})
unfolding insert_row
create_job job = do
  jobs ← or_raise (← gets (λ db. insert_row job_key job db.jobs)) integrity_error
  modify (λ db. record db { jobs = jobs })

-- `JobStore.update`: the statement runs, and then its row count is read.
unfoldable pub update_job : NightShiftJob → Service (Unit {0})
unfolding row_count update_rows
update_job job = do
  count ← gets (λ db. row_count job_key job.job_id db.jobs)
  modify (λ db. record db { jobs = update_rows job_key job db.jobs })
  raise_if (not (eqb count 1)) unknown_job

-- `JobStore.get`
unfoldable pub get_job : String → Database → Option NightShiftJob
unfolding select_row
get_job id db = select_row job_key id db.jobs

module _ (w : World) where
  -- `EventStore.append`: the values of the row are made before the statement runs.
  unfoldable pub append_event : NightShiftEvent → Service (Unit {0})
  unfolding insert_row
  append_event event = do
    raise_if (not (w.storable event)) not_storable
    events ← or_raise (← gets (λ db. insert_row event_key event db.events)) integrity_error
    modify (λ db. record db { events = events })

  unfoldable pub fresh_id : Service String
  fresh_id db = (ok (w.uuid4 db.draws), record db { draws = db.draws + 1 })

  unfoldable pub now : Service ℕ
  now db = (ok (w.utc_now db.readings), record db { readings = db.readings + 1 })
