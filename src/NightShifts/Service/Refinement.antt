-- ===== src/NightShifts/Service/Refinement.antt =====
-- Every operation of the service keeps the database valid, and does no more than a trace of the
-- abstract steps.
use simple_ai_agent.Common.{
  ◌≡◌, refl, sym, ap, String, true, false, Option, none, some, List, [], ◌∷◌, inl, inr, All, get_or,
  Bool-cases, Option-cases,
}
use simple_ai_agent.NightShifts.Models.{JobStatus, NightShiftJob, Payload}
use simple_ai_agent.NightShifts.StateMachine.{is_allowed}
use simple_ai_agent.NightShifts.Storage.{World, Database, job_key, get_job}
use simple_ai_agent.NightShifts.Storage.Table.{update_rows-IsKeyed, append-IsKeyed}
use simple_ai_agent.NightShifts.Storage.Invariant.{IsFresh, IsValid, job_id-get_job, get_job_self}
use simple_ai_agent.NightShifts.Service.{is_terminal, create, transition, request_cancellation}
use simple_ai_agent.NightShifts.Service.Calls.{
  Call, creates, transitions, cancels, perform, perform_all,
}
use simple_ai_agent.NightShifts.Service.Trace.{
  Rules, moves, flags, created, changed, Trace, here, next, Trace-trans, IsLawful,
}
use simple_ai_agent.NightShifts.Service.Effects

module _ (w : World) (fresh : IsFresh w) (rules : Rules) where
  -- What a call may do to a valid database.
  pub record Refines (s t : Database) : Type 0 where
    pub valid : IsValid w t
    pub trace : Trace rules s t

  pub Refines-refl : {s : Database} → IsValid w s → Refines s s
  Refines-refl valid = record { valid = valid; trace = here }

  pub Refines-trans : {s t u : Database} → Refines s t → Refines t u → Refines s u
  Refines-trans p q = record { valid = q.valid; trace = Trace-trans rules p.trace q.trace }

  lawful_payload :
      (id : String) (target : JobStatus) (actor : String) (payload : Option Payload)
      (summary : Option String)
      → IsLawful rules (transitions id target actor payload summary)
      → rules.AllowedPayload (get_or payload [])
  lawful_payload id target actor none summary lawful = lawful
  lawful_payload id target actor (some payload) summary lawful = lawful

  after_move-Refines :
      (id : String) (target : JobStatus) (actor : String) (payload : Option Payload)
      (summary : Option String) (db : Database) (job : NightShiftJob)
      → IsValid w db
      → IsLawful rules (transitions id target actor payload summary)
      → get_job id db ≡ some job
      → is_allowed job.status target ≡ true
      → Refines db (Effects.after_move w db id job target actor payload summary)
  after_move-Refines id target actor payload summary db job valid lawful found allowed = record {
    valid =
        Effects.recorded-IsValid w db _ _ _ fresh valid
          (update_rows-IsKeyed job_key _ db.jobs valid.keyed) refl;
    trace = next here (
        changed job (Effects.moved w job target summary db.readings) _ (get_job_self id db found)
          refl
          (moves (get_or payload []) (lawful_payload id target actor payload summary lawful) allowed
            refl
            (record {
              of_job = ap some (sym (job_id-get_job id db found));
              of_kind = refl;
              with_payload = refl;
            }))
          refl refl);
  }

  after_flag-Refines :
      (id actor : String) (db : Database) (job : NightShiftJob)
      → IsValid w db
      → get_job id db ≡ some job
      → is_terminal job.status ≡ false
      → Refines db (Effects.after_flag w db id job actor)
  after_flag-Refines id actor db job valid found open_job = record {
    valid =
        Effects.recorded-IsValid w db _ _ _ fresh valid
          (update_rows-IsKeyed job_key _ db.jobs valid.keyed) refl;
    trace = next here (
        changed job (Effects.flagged w job db.readings) _ (get_job_self id db found) refl
          (flags open_job refl refl (record {
            of_job = ap some (sym (job_id-get_job id db found));
            of_kind = refl;
            with_payload = refl;
          }))
          refl refl);
  }

  after_create-Refines :
      (job : NightShiftJob) (actor : String) (db : Database)
      → IsValid w db
      → rules.AllowedJob job
      → get_job job.job_id db ≡ none
      → Refines db (Effects.after_create w db job actor)
  unfolding get_job
  after_create-Refines job actor db valid lawful free = record {
    valid =
        Effects.recorded-IsValid w db _ _ _ fresh valid
          (append-IsKeyed job_key job db.jobs valid.keyed free) refl;
    trace = next here (
        created job _ lawful free (record { of_job = refl; of_kind = refl; with_payload = refl })
          refl refl);
  }

  pub transition-Refines :
      (id : String) (target : JobStatus) (actor : String) (payload : Option Payload)
      (summary : Option String) (db : Database)
      → IsValid w db
      → IsLawful rules (transitions id target actor payload summary)
      → Refines db (transition w id target actor payload summary db).1
  transition-Refines id target actor payload summary db valid lawful =
      elim (Option-cases (get_job id db)) [
        | inl missing ↦
            rw (Effects.transition_unknown w id target actor payload summary db missing)
              (Refines-refl valid)
        | inr (job, found) ↦ elim (Bool-cases (is_allowed job.status target)) [
          | inl allowed ↦
              rw
                (Effects.transition_ok w id target actor payload summary db job valid found allowed)
                (after_move-Refines id target actor payload summary db job valid lawful found
                  allowed)
          | inr refused ↦
              rw (Effects.transition_refused w id target actor payload summary db job found refused)
                (Refines-refl valid)
        ]
      ]

  pub request_cancellation-Refines :
      (id actor : String) (db : Database)
      → IsValid w db
      → Refines db (request_cancellation w id actor db).1
  request_cancellation-Refines id actor db valid = elim (Option-cases (get_job id db)) [
    | inl missing ↦
        rw (Effects.request_cancellation_unknown w id actor db missing) (Refines-refl valid)
    | inr (job, found) ↦ elim (Bool-cases (is_terminal job.status)) [
      | inl done ↦
          rw (Effects.request_cancellation_refused w id actor db job found done)
            (Refines-refl valid)
      | inr open_job ↦
          rw (Effects.request_cancellation_ok w id actor db job valid found open_job)
            (after_flag-Refines id actor db job valid found open_job)
    ]
  ]

  pub create-Refines :
      (job : NightShiftJob) (actor : String) (db : Database)
      → IsValid w db
      → rules.AllowedJob job
      → Refines db (create w job actor db).1
  create-Refines job actor db valid lawful = elim (Option-cases (get_job job.job_id db)) [
    | inl free ↦
        rw (Effects.create_ok w job actor db valid free)
          (after_create-Refines job actor db valid lawful free)
    | inr (old, taken) ↦
        rw (Effects.create_taken w job actor db {old = old} taken) (Refines-refl valid)
  ]

  pub perform-Refines :
      (c : Call) (db : Database) → IsValid w db → IsLawful rules c → Refines db (perform w c db)
  unfolding perform
  perform-Refines (creates job actor) db valid lawful = create-Refines job actor db valid lawful
  perform-Refines (transitions id target actor payload summary) db valid lawful =
      transition-Refines id target actor payload summary db valid lawful
  perform-Refines (cancels id actor) db valid lawful =
      request_cancellation-Refines id actor db valid

  pub perform_all-Refines :
      (cs : List Call) (db : Database)
      → IsValid w db
      → All (IsLawful rules) cs
      → Refines db (perform_all w cs db)
  unfolding perform_all
  perform_all-Refines [] db valid lawful = Refines-refl valid
  perform_all-Refines (c ∷ cs) db valid lawful =
      let first = perform-Refines c db valid lawful.0 in
      Refines-trans first (perform_all-Refines cs (perform w c db) first.valid lawful.1)
