-- ===== src/NightShifts/Service/History/Jobs.antt =====
-- What no history of the service can do to a job: lose it, change its brief, take back a request
-- for cancellation, or move it outside the lifecycle.
use simple_ai_agent.Common.{
  ◌≡◌, refl, sym, subst, ap, ◌∙◌, String, true, false, some, List, [], ◌∷◌, arith, All,
}
use simple_ai_agent.NightShifts.Models.{JobStatus, NightShiftJob, NightShiftEvent}
use simple_ai_agent.NightShifts.StateMachine.{is_allowed}
use simple_ai_agent.NightShifts.Storage.{World, Database, get_job}
use simple_ai_agent.NightShifts.Storage.Invariant.{IsFresh, IsValid}
use simple_ai_agent.NightShifts.Service.{is_terminal}
use simple_ai_agent.NightShifts.Service.Local.{Texts, Behaviour, returns, raises, polls, meanwhile}
use simple_ai_agent.NightShifts.Service.Local.Refinement.{AllowsResults, IsOrderly}
use simple_ai_agent.NightShifts.Service.Trace.{
  IsLawful-call, Rules, Change, moves, flags, Trace, here, next, anything, rewritten,
}
use simple_ai_agent.NightShifts.Service.History.{
  Act, calls, runs, act_all, act_all-Refines, IsLawfulAct, JobStep, elsewhere, appears, alters,
  Step-JobStep,
}

orderly : (b : Behaviour) → IsOrderly anything b
orderly (returns r) = tt
orderly (raises e) = tt
orderly (polls k) = λ b. orderly (k b)
orderly (meanwhile c b) = (IsLawful-call c, orderly b)

anything_goes : AllowsResults anything
anything_goes = record { allows_none = tt; allows_result = λ r. tt }

lawful : (a : Act) → IsLawfulAct anything a
lawful (calls c) = IsLawful-call c
lawful (runs id backend) = λ task seconds. orderly (backend task seconds)

All-lawful : (acts : List Act) → All (IsLawfulAct anything) acts
All-lawful [] = tt
All-lawful (a ∷ acts) = (lawful a, All-lawful acts)

-- A status is reached from another by transitions that the lifecycle allows.
pub data Leads (from : JobStatus) : JobStatus → Type 0 where
  stays : Leads from from
  moves_on : {mid to : JobStatus} → Leads from mid → is_allowed mid to ≡ true → Leads from to

-- How a job may have changed since.
pub record Evolves (old new : NightShiftJob) : Type 0 where
  pub same_brief : new ≡ rewritten old new
  pub still_requested : old.cancellation_requested ≡ true → new.cancellation_requested ≡ true
  pub leads : Leads old.status new.status

Evolves-refl : (job : NightShiftJob) → Evolves job job
Evolves-refl job = record { same_brief = refl; still_requested = λ h. h; leads = stays }

Change-Evolves :
    {old job updated : NightShiftJob} (rules : Rules) {event : NightShiftEvent}
    → Evolves old job
    → updated ≡ rewritten job updated
    → Change rules job updated event
    → Evolves old updated
Change-Evolves {old} {job} {updated} rules e brief (moves extra lawful allowed kept says) = record {
  same_brief = brief ∙ ap (λ j. rewritten j updated) e.same_brief;
  still_requested = λ h. kept ∙ e.still_requested h;
  leads = moves_on e.leads allowed;
}
Change-Evolves {old} {job} {updated} rules e brief (flags open_job kept asked says) = record {
  same_brief = brief ∙ ap (λ j. rewritten j updated) e.same_brief;
  still_requested = λ h. asked;
  leads = subst (Leads old.status) (sym kept) e.leads;
}

JobStep-Evolves :
    (rules : Rules) (id : String) {s t : Database} {old job : NightShiftJob}
    → get_job id s ≡ some job
    → Evolves old job
    → JobStep rules id s t
    → (new : NightShiftJob) × (get_job id t ≡ some new) × Evolves old new
JobStep-Evolves rules id {old = old} {job = job} found e (elsewhere other event same _ _ _) =
    (job, same ∙ found, e)
JobStep-Evolves rules id found e (appears job event _ free _ _ _) = absurd (cc (free, found))
JobStep-Evolves rules id {s} {old = old} {job = job} found e
      (alters job' updated event found' new _ brief change _) =
    let same : job ≡ job' = ground arith in
    (updated, new, Change-Evolves rules (subst (Evolves old) same e) brief change)

Trace-Evolves :
    (rules : Rules) (id : String) {s t : Database} {old : NightShiftJob}
    → get_job id s ≡ some old
    → Trace rules s t
    → (new : NightShiftJob) × (get_job id t ≡ some new) × Evolves old new
Trace-Evolves rules id {old = old} found here = (old, found, Evolves-refl old)
Trace-Evolves rules id {s} found (next {t} {u} trace step) =
    let (job, there, e) = Trace-Evolves rules id found trace in
    JobStep-Evolves rules id there e (Step-JobStep rules id t u step)

-- In any history of calls and local runs, from any valid database, where identifiers never repeat
-- and every event can be stored, a job that is there stays: its
-- brief is the one it was created with, a requested cancellation stays requested, and its status
-- has moved by allowed transitions only.
pub act_all-Evolves :
    (w : World) (texts : Texts) (acts : List Act) (db : Database) (id : String)
    {old : NightShiftJob}
    → IsFresh w
    → IsValid w db
    → get_job id db ≡ some old
    → (new : NightShiftJob) × (get_job id (act_all w texts acts db) ≡ some new) × Evolves old new
act_all-Evolves w texts acts db id fresh valid found =
    Trace-Evolves anything id found
      (act_all-Refines w fresh texts anything anything_goes acts db (All-lawful acts) valid).trace

terminal_stuck : (from to : JobStatus) → is_terminal from ≡ true → is_allowed from to ≡ false
unfolding is_terminal is_allowed
terminal_stuck JobStatus.failed to done = refl
terminal_stuck JobStatus.cancelled to done = refl
terminal_stuck JobStatus.rejected to done = refl
terminal_stuck JobStatus.merged to done = refl
terminal_stuck _ to done = cc

Leads-terminal : {from to : JobStatus} → is_terminal from ≡ true → Leads from to → to ≡ from
Leads-terminal done stays = refl
Leads-terminal {from} {to} done (moves_on {mid} before allowed) =
    let same : mid ≡ from = Leads-terminal done before in
    absurd (cc (terminal_stuck from to done, same, allowed))

-- A job that has failed, was cancelled, rejected or merged keeps that status in any history from a
-- valid database, where identifiers never repeat and every event can be stored.
pub act_all-terminal :
    (w : World) (texts : Texts) (acts : List Act) (db : Database) (id : String)
    {old : NightShiftJob}
    → IsFresh w
    → IsValid w db
    → get_job id db ≡ some old
    → is_terminal old.status ≡ true
    → (new : NightShiftJob) × (get_job id (act_all w texts acts db) ≡ some new)
      × (new.status ≡ old.status)
act_all-terminal w texts acts db id fresh valid found done =
    let (new, there, e) = act_all-Evolves w texts acts db id fresh valid found in
    (new, there, Leads-terminal done e.leads)
