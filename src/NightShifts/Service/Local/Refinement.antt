-- ===== src/NightShifts/Service/Local/Refinement.antt =====
-- `run_local` is a trace of the abstract steps too, also while other actors call the service.
use simple_ai_agent.Common.{
  arith, String, Bool, none, some, [], inl, inr, pure, ◌>>=◌, Result-cases,
}
use simple_ai_agent.Common.Int.{ℤ}
use simple_ai_agent.NightShifts.Models.{JobStatus, NightShiftJob}
use simple_ai_agent.NightShifts.Protocol.{WorkerResult, WorkerTask, from_job}
use simple_ai_agent.NightShifts.Storage.{World, Database, Service}
use simple_ai_agent.NightShifts.Storage.Invariant.{IsFresh, IsValid}
use simple_ai_agent.NightShifts.Service.{require, transition}
use simple_ai_agent.NightShifts.Service.Calls.{perform}
use simple_ai_agent.NightShifts.Service.Trace.{Rules, IsLawful}
use simple_ai_agent.NightShifts.Service.Refinement.{
  Refines, Refines-refl, Refines-trans, transition-Refines, perform-Refines,
}
use simple_ai_agent.NightShifts.Service.Local.{
  Behaviour, Backend, returns, raises, polls, meanwhile, Texts, result_payload, target_of,
  blocked_result, finish, attend, settle, own_result, start, refuse_budget, cancel_waiting,
  run_provisioned, run_worker, run_local,
}

-- The rules allow what `run_local` writes itself.
pub record AllowsResults (rules : Rules) : Type 0 where
  pub allows_none : rules.AllowedPayload []
  pub allows_result : (r : WorkerResult) → rules.AllowedPayload (result_payload r)

-- Every call that other actors make while the backend runs keeps to the rules.
abbrev pub IsOrderly : Rules → Behaviour → Type 0
IsOrderly rules (returns r) = Unit
IsOrderly rules (raises e) = Unit
IsOrderly rules (polls k) = (b : Bool) → IsOrderly rules (k b)
IsOrderly rules (meanwhile c b) = IsLawful rules c × IsOrderly rules b

module _ (w : World) (fresh : IsFresh w) (texts : Texts) (rules : Rules) where
  pub attend-Refines :
      (id : String) (b : Behaviour) (db : Database)
      → IsOrderly rules b
      → IsValid w db
      → Refines w fresh rules db (attend w texts id b db).1
  unfolding attend
  attend-Refines id (returns r) db orderly valid = Refines-refl w fresh rules valid
  attend-Refines id (raises e) db orderly valid = Refines-refl w fresh rules valid
  attend-Refines id (polls k) db orderly valid = elim (Result-cases (require id db).0) [
    | inl (job, e) ↦
        rw (e, attend)
          (attend-Refines id (k job.cancellation_requested) db (orderly job.cancellation_requested)
            valid)
    | inr (_, e) ↦ rw (e, attend) (Refines-refl w fresh rules valid)
  ]
  attend-Refines id (meanwhile c b) db orderly valid =
      let first = perform-Refines w fresh rules c db valid orderly.0 in
      Refines-trans w fresh rules first (attend-Refines id b (perform w c db) orderly.1 first.valid)

  -- An action refines, whatever valid database it starts from.
  abbrev Keeps : {A : Type 0} → Service A → Type 0
  Keeps m = (db : Database) → IsValid w db → Refines w fresh rules db (m db).1

  pure-Keeps : {A : Type 0} (a : A) → Keeps (pure a)
  pure-Keeps a db valid = Refines-refl w fresh rules valid

  bind-Keeps :
      {A B : Type 0} (m : Service A) (f : A → Service B)
      → Keeps m
      → ((a : A) → Keeps (f a))
      → Keeps (m >>= f)
  bind-Keeps m f keep_m keep_f db valid = elim (Result-cases (m db).0) [
    | inl (a, e) ↦
        rw (e, ◌>>=◌)
          (Refines-trans w fresh rules (keep_m db valid)
            (keep_f a (m db).1 (keep_m db valid).valid))
    | inr (x, e) ↦ rw (e, ◌>>=◌) (keep_m db valid)
  ]

  settle-Keeps :
      (id : String) (r : WorkerResult) → AllowsResults rules → Keeps (settle w texts id r)
  unfolding settle
  settle-Keeps id r allows db valid = ground (
    arith,
    transition-Refines w fresh rules id (target_of r.outcome) "orchestrator"
        (some (result_payload r)) (some r.summary) db valid (allows.allows_result r),
  )

  refuse_budget-Keeps : (id : String) → AllowsResults rules → Keeps (refuse_budget w texts id)
  unfolding refuse_budget
  refuse_budget-Keeps id allows db valid = ground (
    arith,
    transition-Refines w fresh rules id JobStatus.failed "orchestrator"
        (some (result_payload (blocked_result id))) (some (blocked_result id).summary) db valid
        (allows.allows_result (blocked_result id)),
  )

  bare_transition-Keeps :
      (id : String) (target : JobStatus)
      → AllowsResults rules
      → Keeps (transition w id target "orchestrator" none none)
  bare_transition-Keeps id target allows db valid =
      transition-Refines w fresh rules id target "orchestrator" none none db valid
        allows.allows_none

  cancel_waiting-Keeps : (id : String) → AllowsResults rules → Keeps (cancel_waiting w texts id)
  unfolding cancel_waiting
  cancel_waiting-Keeps id allows db valid =
      ground (arith, bare_transition-Keeps id JobStatus.cancelled allows db valid)

  finish-Keeps :
      (id : String) (b : Behaviour)
      → AllowsResults rules
      → IsOrderly rules b
      → Keeps (finish w texts id b)
  unfolding finish
  finish-Keeps id b allows orderly =
      bind-Keeps (attend w texts id b) (λ r. settle w texts id (own_result w texts id r))
        (λ db valid. attend-Refines id b db orderly valid)
        λ r. settle-Keeps id (own_result w texts id r) allows

  -- Whatever task and time limit the backend is given, the others keep to the rules.
  abbrev pub IsOrderlyBackend : Backend → Type 0
  IsOrderlyBackend backend =
      (task : WorkerTask) (seconds : ℤ) → IsOrderly rules (backend task seconds)

  run_provisioned-Keeps :
      (id : String) (backend : Backend)
      → AllowsResults rules
      → IsOrderlyBackend backend
      → Keeps (run_provisioned w texts id backend)
  unfolding run_provisioned
  run_provisioned-Keeps id backend allows orderly =
      bind-Keeps (transition w id JobStatus.running "orchestrator" none none)
        (λ running. finish w texts id (backend (from_job running) running.budget.timeout_seconds))
        (bare_transition-Keeps id JobStatus.running allows)
        λ running. finish-Keeps id _ allows (orderly _ _)

  run_worker-Keeps :
      (id : String) (backend : Backend)
      → AllowsResults rules
      → IsOrderlyBackend backend
      → Keeps (run_worker w texts id backend)
  unfolding run_worker
  run_worker-Keeps id backend allows orderly =
      bind-Keeps (transition w id JobStatus.provisioning "orchestrator" none none)
        (λ _. run_provisioned w texts id backend)
        (bare_transition-Keeps id JobStatus.provisioning allows)
        λ _. run_provisioned-Keeps id backend allows orderly

  require-Keeps : (id : String) → Keeps (require id)
  unfolding require
  require-Keeps id db valid = ground (arith, Refines-refl w fresh rules valid)

  start-Keeps :
      (id : String) (backend : Backend) (job : NightShiftJob)
      → AllowsResults rules
      → IsOrderlyBackend backend
      → Keeps (start w texts id backend job)
  unfolding start
  start-Keeps id backend job allows orderly db valid = ground (
    arith,
    cancel_waiting-Keeps id allows db valid,
    refuse_budget-Keeps id allows db valid,
    run_worker-Keeps id backend allows orderly db valid,
  )

  pub run_local-Refines :
      (id : String) (backend : Backend) (db : Database)
      → AllowsResults rules
      → IsOrderlyBackend backend
      → IsValid w db
      → Refines w fresh rules db (run_local w texts id backend db).1
  unfolding run_local
  run_local-Refines id backend db allows orderly valid =
      bind-Keeps (require id) (start w texts id backend) (require-Keeps id)
        (λ job. start-Keeps id backend job allows orderly) db valid
