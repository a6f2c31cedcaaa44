-- ===== src/NightShifts/Service/History.antt =====
-- Histories: any sequence of calls and of local runs by any actors, and what one step does to one
-- job and its events.
pub mod Jobs
pub mod Trail
pub mod Approval
use simple_ai_agent.Common.{
  ◌≡◌, refl, ap, subst, ◌≢◌, ◌==◌, eq_iff, String, none, some, List, [], ◌∷◌, ◌++◌, arith, inl, inr,
  All, Bool-cases,
}
use simple_ai_agent.NightShifts.Models.{NightShiftJob, NightShiftEvent}
use simple_ai_agent.NightShifts.Protocol.{WorkerTask}
use simple_ai_agent.Common.Int.{ℤ}
use simple_ai_agent.NightShifts.Storage.{World, Database, job_key, get_job}
use simple_ai_agent.NightShifts.Storage.Table.{
  select_row, update_rows, select_row-update_rows, select_row-append,
}
use simple_ai_agent.NightShifts.Storage.Invariant.{IsFresh, IsValid}
use simple_ai_agent.NightShifts.Service.Calls.{Call, perform}
use simple_ai_agent.NightShifts.Service.Local.{Backend, Texts, run_local}
use simple_ai_agent.NightShifts.Service.Local.Refinement.{
  AllowsResults, IsOrderly, run_local-Refines,
}
use simple_ai_agent.NightShifts.Service.Refinement.{
  Refines, Refines-refl, Refines-trans, perform-Refines,
}
use simple_ai_agent.NightShifts.Service.Trace.{
  Rules, Says, Change, moves, flags, Step, created, changed, IsLawful, creation_payload, rewritten,
}

pub data Act : Type 0 where
  calls : Call → Act
  runs : String → Backend → Act

unfoldable pub act : World → Texts → Act → Database → Database
unfolding perform run_local
act w texts (calls c) db = perform w c db
act w texts (runs id backend) db = (run_local w texts id backend db).1

unfoldable pub act_all : World → Texts → List Act → Database → Database
unfolding act
act_all w texts [] db = db
act_all w texts (a ∷ acts) db = act_all w texts acts (act w texts a db)

abbrev pub empty : Database
empty = record { jobs = []; events = []; draws = 0; readings = 0 }

pub empty-IsValid : (w : World) → IsFresh w → IsValid w empty
unfolding select_row
empty-IsValid w fresh = record { keyed = tt; unused = λ n h. refl; stores = fresh.stores }

-- The acts of a history keep to the rules.
abbrev pub IsLawfulAct : Rules → Act → Type 0
IsLawfulAct rules (calls c) = IsLawful rules c
IsLawfulAct rules (runs id backend) =
    (task : WorkerTask) (seconds : ℤ) → IsOrderly rules (backend task seconds)

module _ (w : World) (fresh : IsFresh w) (texts : Texts) (rules : Rules)
    (allows : AllowsResults rules) where
  pub act-Refines :
      (a : Act) (db : Database)
      → IsLawfulAct rules a
      → IsValid w db
      → Refines w fresh rules db (act w texts a db)
  unfolding act
  act-Refines (calls c) db lawful valid = perform-Refines w fresh rules c db valid lawful
  act-Refines (runs id backend) db lawful valid =
      run_local-Refines w fresh texts rules id backend db allows lawful valid

  pub act_all-Refines :
      (acts : List Act) (db : Database)
      → All (IsLawfulAct rules) acts
      → IsValid w db
      → Refines w fresh rules db (act_all w texts acts db)
  unfolding act_all
  act_all-Refines [] db lawful valid = Refines-refl w fresh rules valid
  act_all-Refines (a ∷ acts) db lawful valid =
      let first = act-Refines a db lawful.0 valid in
      Refines-trans w fresh rules first
        (act_all-Refines acts (act w texts a db) lawful.1 first.valid)

-- What one abstract step means for the job with identifier `id`: it is another job's step, or the
-- job is created, or its row changes; and one event is added to the trail.
pub data JobStep (rules : Rules) (id : String) (s t : Database) : Type 0 where
  elsewhere :
      (other : String) (event : NightShiftEvent)
      → get_job id t ≡ get_job id s
      → event.event_job_id ≡ some other
      → other ≢ id
      → t.events ≡ s.events ++ event ∷ []
      → JobStep rules id s t
  appears :
      (job : NightShiftJob) (event : NightShiftEvent)
      → rules.AllowedJob job
      → get_job id s ≡ none
      → get_job id t ≡ some job
      → Says event id "job_created" (creation_payload job)
      → t.events ≡ s.events ++ event ∷ []
      → JobStep rules id s t
  alters :
      (job updated : NightShiftJob) (event : NightShiftEvent)
      → get_job id s ≡ some job
      → get_job id t ≡ some updated
      → job.job_id ≡ id
      → updated ≡ rewritten job updated
      → Change rules job updated event
      → t.events ≡ s.events ++ event ∷ []
      → JobStep rules id s t

created-JobStep :
    (rules : Rules) (id : String) (s t : Database) (job : NightShiftJob) (event : NightShiftEvent)
    → rules.AllowedJob job
    → get_job job.job_id s ≡ none
    → Says event job.job_id "job_created" (creation_payload job)
    → t.jobs ≡ s.jobs ++ job ∷ []
    → t.events ≡ s.events ++ event ∷ []
    → JobStep rules id s t
unfolding get_job
created-JobStep rules id s t job event lawful free says jobs events =
    elim (Bool-cases (job.job_id == id)) [
      | inl same ↦
          let e : job.job_id ≡ id = (eq_iff job.job_id id).0 same in
          appears job event lawful (subst (λ k. get_job k s ≡ none) e free)
            (ground (
              arith,
              eq_iff job.job_id id,
              select_row-append job_key id job s.jobs,
              subst (λ k. get_job k s ≡ none) e free,
            ))
            (subst (λ k. Says event k "job_created" (creation_payload job)) e says) events
      | inr other ↦
          elsewhere job.job_id event (ground (arith, select_row-append job_key id job s.jobs))
            says.of_job (ground (arith, eq_iff job.job_id id)) events
    ]

changed-JobStep :
    (rules : Rules) (id : String) (s t : Database) (job updated : NightShiftJob)
    (event : NightShiftEvent)
    → get_job job.job_id s ≡ some job
    → updated ≡ rewritten job updated
    → Change rules job updated event
    → event.event_job_id ≡ some job.job_id
    → t.jobs ≡ update_rows job_key updated s.jobs
    → t.events ≡ s.events ++ event ∷ []
    → JobStep rules id s t
unfolding get_job
changed-JobStep rules id s t job updated event found brief change of_job jobs events =
    let key : updated.job_id ≡ job.job_id = ap job_key brief in
    elim (Bool-cases (job.job_id == id)) [
      | inl same ↦
          let e : job.job_id ≡ id = (eq_iff job.job_id id).0 same in
          let found' : get_job id s ≡ some job = subst (λ k. get_job k s ≡ some job) e found in
          alters job updated event found'
            (ground (
              arith,
              key,
              eq_iff updated.job_id id,
              select_row-update_rows job_key id updated s.jobs,
              found',
            ))
            e brief change events
      | inr other ↦
          elsewhere job.job_id event
            (ground (
              arith,
              key,
              eq_iff updated.job_id id,
              eq_iff job.job_id id,
              select_row-update_rows job_key id updated s.jobs,
            ))
            of_job (ground (arith, eq_iff job.job_id id)) events
    ]

Change-of_job :
    (rules : Rules) (job updated : NightShiftJob) (event : NightShiftEvent)
    → Change rules job updated event
    → event.event_job_id ≡ some job.job_id
Change-of_job rules job updated event (moves extra lawful allowed kept says) = says.of_job
Change-of_job rules job updated event (flags open_job kept asked says) = says.of_job

pub Step-JobStep :
    (rules : Rules) (id : String) (s t : Database) → Step rules s t → JobStep rules id s t
Step-JobStep rules id s t (created job event lawful free says jobs events) =
    created-JobStep rules id s t job event lawful free says jobs events
Step-JobStep rules id s t (changed job updated event found brief change jobs events) =
    changed-JobStep rules id s t job updated event found brief change
      (Change-of_job rules job updated event change) jobs events
