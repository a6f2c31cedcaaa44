-- ===== src/NightShifts/Tests.antt =====
-- Concrete databases, and the theorems on them.
use simple_ai_agent.Common.{
  ℕ, zero, suc, ◌≡◌, refl, ap, String, Bool, not, err, true, false, Option, none, some, List, [],
  ◌∷◌, ok, any,
}
use mathlib.Core.Option
use package.text.Mathlib.TextLemmas.{nil≢cons, cons≢nil, tail-eq_of_cons-eq}
use simple_ai_agent.NightShifts.StateMachine.{is_allowed}
use simple_ai_agent.NightShifts.Storage.Table.{select_row}
use simple_ai_agent.NightShifts.Service.{
  is_terminal, commit_transition, transition, request_cancellation,
}
use simple_ai_agent.NightShifts.Service.Effects
use simple_ai_agent.NightShifts.Service.Unlogged.{transition_moves_unlogged}
use simple_ai_agent.NightShifts.Service.Race.{commit_transition_loses_cancellation}
use simple_ai_agent.NightShifts.Service.History.Jobs.{Evolves, act_all-Evolves, act_all-terminal}
use simple_ai_agent.NightShifts.Service.History.Trail.{entry, replay, replay-act_all}
use simple_ai_agent.NightShifts.Service.History.Approval.{
  tells_approval, is_past_review, act_all-approval,
}
use simple_ai_agent.Common.Int.{pos}
use simple_ai_agent.NightShifts.Models.{
  JobStatus, NightShiftJob, JobBudget, AgentPlan, Value, null, text, python_object,
}
use simple_ai_agent.NightShifts.Protocol.{WorkerOutcome, plain_result}
use simple_ai_agent.NightShifts.Storage.{World, Database, get_job, not_storable}
use simple_ai_agent.NightShifts.Storage.Invariant.{IsValid, IsFresh}
use simple_ai_agent.NightShifts.Service.Calls.{creates, transitions, cancels}
use simple_ai_agent.NightShifts.Service.Local.{Backend, Texts, returns, polls, meanwhile}
use simple_ai_agent.NightShifts.Service.History.{Act, calls, runs, act_all, empty}

-- Identifiers that never repeat: the n-th is n times the letter u.
identifier : ℕ → String
identifier zero = String.[]
identifier (suc n) = String.◌∷◌ "u" (identifier n)

identifier_injective : (m n : ℕ) → identifier m ≡ identifier n → m ≡ n
unfolding identifier
identifier_injective zero zero e = refl
identifier_injective zero (suc n) e = absurd (nil≢cons e)
identifier_injective (suc m) zero e = absurd (cons≢nil e)
identifier_injective (suc m) (suc n) e = ap suc (identifier_injective m n (tail-eq_of_cons-eq e))

abbrev world : World
world = record { uuid4 = identifier; utc_now = λ n. n; storable = λ event. true }

world-IsFresh : IsFresh world
world-IsFresh = record { distinct = identifier_injective; stores = λ event. refl }

is_object : String × Value → Bool
is_object (key, python_object n) = true
is_object (key, null) = false
is_object (key, text t) = false

abbrev texts : Texts
texts = record { unknown_job_text = λ id. id; mismatch_text = λ a b. b }

abbrev budget : JobBudget
budget = record {
  timeout_seconds = pos 14_400;
  max_tool_calls = pos 500;
  max_cost_usd = none;
  max_model_requests = pos 24;
  max_input_bytes = pos 524_288;
  max_output_bytes = pos 131_072;
  max_output_tokens = pos 4_096;
  max_command_seconds = pos 300;
}

abbrev job : NightShiftJob
job = record {
  title = "Tidy the parser";
  objective = "Remove dead branches";
  worker_profile = "coding-worker";
  repository_id = some "repo";
  starting_revision = some "abc";
  acceptance_criteria = [];
  budget = budget;
  plan = AgentPlan.flex;
  job_id = "job";
  status = JobStatus.draft;
  created_at = 0;
  updated_at = 0;
  cancellation_requested = false;
  result_summary = none;
}

abbrev queued_job : NightShiftJob
queued_job = record job { status = JobStatus.queued }

abbrev one_job : NightShiftJob → Database
one_job j = record { jobs = j ∷ []; events = []; draws = 0; readings = 0 }

one_job-IsValid : (j : NightShiftJob) → IsValid world (one_job j)
unfolding select_row
one_job-IsValid j = record { keyed = (refl, tt); unused = λ n h. refl; stores = λ event. refl }

one_job_found : get_job "job" (one_job queued_job) ≡ some queued_job
unfolding get_job
one_job_found = refl

-- A worker that polls, is asked to stop by another actor, polls again, and submits its work.
abbrev polite : Backend
polite task seconds = polls λ first. meanwhile (cancels "job" "head") (
    polls
      λ second. returns (plain_result "job" WorkerOutcome.submitted "Removed two branches." none))

-- The life of a job from its draft to its merge, with a local run in it.
abbrev whole_life : List Act
whole_life =
    calls (creates job "head")
    ∷ calls (transitions "job" JobStatus.queued "head" none none)
    ∷ runs "job" polite
    ∷ calls (transitions "job" JobStatus.awaiting_review "head" none none)
    ∷ calls (transitions "job" JobStatus.approved "head" none none)
    ∷ calls (transitions "job" JobStatus.published "head" none none)
    ∷ calls (transitions "job" JobStatus.merged "head" none none)
    ∷ []

final_status : Database → Option JobStatus
final_status db = Option.map (λ (j : NightShiftJob). j.status) (get_job "job" db)

whole_life_merges : final_status (act_all world texts whole_life empty) ≡ some JobStatus.merged
unfolding final_status act_all identifier get_job
whole_life_merges = refl

act_all-Evolves_example :
    (new : NightShiftJob) × (get_job "job" (act_all world texts whole_life (one_job queued_job))
      ≡ some new)
    × Evolves queued_job new
act_all-Evolves_example =
    act_all-Evolves world texts whole_life (one_job queued_job) "job" {old = queued_job}
      world-IsFresh (one_job-IsValid queued_job) one_job_found

abbrev failed_job : NightShiftJob
failed_job = record job { status = JobStatus.failed }

act_all-terminal_example :
    (new : NightShiftJob) × (get_job "job" (act_all world texts whole_life (one_job failed_job))
      ≡ some new)
    × (new.status ≡ JobStatus.failed)
unfolding get_job is_terminal
act_all-terminal_example =
    act_all-terminal world texts whole_life (one_job failed_job) "job" {old = failed_job}
      world-IsFresh (one_job-IsValid failed_job) refl refl

replay-act_all_example :
    let db = act_all world texts whole_life empty in
    replay "job" none db.events ≡ Option.map (λ (j : NightShiftJob). j.status) (get_job "job" db)
unfolding entry
replay-act_all_example =
    replay-act_all world texts whole_life "job" world-IsFresh
      (tt, (refl, ((λ task seconds first. (tt, λ second. tt)), (refl, (refl, (refl, (refl, tt)))))))

abbrev move_to : JobStatus → Act
move_to target = calls (transitions "job" target "head" none none)

-- A job that reaches its approval.
abbrev reviewed_life : List Act
reviewed_life =
    calls (creates job "head")
    ∷ move_to JobStatus.queued
    ∷ move_to JobStatus.provisioning
    ∷ move_to JobStatus.running
    ∷ move_to JobStatus.completed
    ∷ move_to JobStatus.awaiting_review
    ∷ move_to JobStatus.approved
    ∷ []

abbrev approved_row : NightShiftJob
approved_row = record job { status = JobStatus.approved; updated_at = 11 }

reviewed_row : get_job "job" (act_all world texts reviewed_life empty) ≡ some approved_row
unfolding act_all identifier get_job
reviewed_row = refl

act_all-approval_example :
    any (tells_approval "job") (act_all world texts reviewed_life empty).events ≡ true
unfolding entry is_past_review
act_all-approval_example =
    act_all-approval world texts reviewed_life "job" {job = approved_row} world-IsFresh
      (refl, (refl, (refl, (refl, (refl, (refl, (refl, tt))))))) reviewed_row refl

-- The event of a move whose payload holds an object that cannot be written as JSON.
abbrev strict : World
strict = record world { storable = λ event. not (any is_object event.payload) }

transition_moves_unlogged_example :
    let (r, t) =
      transition strict "job" JobStatus.cancelled "user"
        (some (("why", python_object 0) ∷ []))
        none
        (one_job queued_job) in
    (r ≡ err not_storable)
    × (get_job "job" t ≡ some (Effects.moved strict queued_job JobStatus.cancelled none 0))
    × (t.events ≡ [])
unfolding transition get_job is_allowed is_object
transition_moves_unlogged_example =
    transition_moves_unlogged strict "job" JobStatus.cancelled "user"
      (some (("why", python_object 0) ∷ [])) none (one_job queued_job) queued_job
      (one_job-IsValid queued_job).keyed one_job_found refl refl

abbrev busy_job : NightShiftJob
busy_job = record job { status = JobStatus.running }

commit_transition_loses_cancellation_example :
    let (asked, db') = request_cancellation world "job" "head" (one_job busy_job) in
    let (moved, db'') =
      commit_transition world "job" busy_job JobStatus.paused "orchestrator" none none db' in
    (asked ≡ ok (Effects.flagged world busy_job 0))
    × (moved ≡ ok (Effects.moved world busy_job JobStatus.paused none db'.readings))
    × (get_job "job" db'' ≡ some (Effects.moved world busy_job JobStatus.paused none db'.readings))
    × ((Effects.moved world busy_job JobStatus.paused none db'.readings).cancellation_requested
        ≡ false)
unfolding get_job is_terminal is_allowed
commit_transition_loses_cancellation_example =
    commit_transition_loses_cancellation world "job" JobStatus.paused "orchestrator" "head" none
      none (one_job busy_job) busy_job world-IsFresh (one_job-IsValid busy_job) refl refl refl refl
