-- ===== src/NightShifts/Models.antt =====
-- night_shifts/models.py: statuses, budgets and jobs, and the worker messages of
-- night_shifts/protocol.py. A datetime is a number of microseconds; a USD amount is a number of
-- millionths, or a float that is not finite.
use simple_ai_agent.Common.{
  ℕ, ◌≡◌, refl, String, ◌==◌, Bool, ◌&&◌, Option, none, some, List, [], ◌∷◌, Result, ok, err,
  if◌then◌else◌,
}
use simple_ai_agent.Common.Int.{ℤ, pos, leb_ℤ}

pub data JobStatus : Type 0 where
  draft queued provisioning running waiting_for_input paused failed cancelled : JobStatus
  completed awaiting_review revision_requested rejected approved published merged : JobStatus

-- The text that the store and the events carry.
unfoldable pub status_value : JobStatus → String
status_value JobStatus.draft = "draft"
status_value JobStatus.queued = "queued"
status_value JobStatus.provisioning = "provisioning"
status_value JobStatus.running = "running"
status_value JobStatus.waiting_for_input = "waiting_for_input"
status_value JobStatus.paused = "paused"
status_value JobStatus.failed = "failed"
status_value JobStatus.cancelled = "cancelled"
status_value JobStatus.completed = "completed"
status_value JobStatus.awaiting_review = "awaiting_review"
status_value JobStatus.revision_requested = "revision_requested"
status_value JobStatus.rejected = "rejected"
status_value JobStatus.approved = "approved"
status_value JobStatus.published = "published"
status_value JobStatus.merged = "merged"

abbrev all_statuses : List JobStatus
all_statuses =
    JobStatus.draft ∷ JobStatus.queued ∷ JobStatus.provisioning ∷ JobStatus.running
    ∷ JobStatus.waiting_for_input ∷ JobStatus.paused ∷ JobStatus.failed ∷ JobStatus.cancelled
    ∷ JobStatus.completed ∷ JobStatus.awaiting_review ∷ JobStatus.revision_requested
    ∷ JobStatus.rejected ∷ JobStatus.approved ∷ JobStatus.published ∷ JobStatus.merged ∷ []

find_status : String → List JobStatus → Option JobStatus
find_status v [] = none
find_status v (s ∷ rest) = if status_value s == v then some s else find_status v rest

-- `JobStatus(v)`, which finds the member with that value.
unfoldable pub status_of_value : String → Option JobStatus
unfolding find_status status_value
status_of_value v = find_status v all_statuses

-- Every status is read back from its own text.
pub status_of_value-status_value : (s : JobStatus) → status_of_value (status_value s) ≡ some s
unfolding status_of_value status_value
status_of_value-status_value JobStatus.draft = refl
status_of_value-status_value _ = refl

-- Members of a `str` enumeration are equal when their texts are.
unfoldable pub same_status : JobStatus → JobStatus → Bool
unfolding status_value
same_status s t = status_value s == status_value t

pub data AgentPlan : Type 0 where
  flex normal : AgentPlan

-- A float of the budget: finite, in millionths of a dollar, or infinite or not a number.
pub data Cost : Type 0 where
  finite : ℤ → Cost
  not_finite : Cost

pub record JobBudget : Type 0 where
  pub timeout_seconds : ℤ
  pub max_tool_calls : ℤ
  pub max_cost_usd : Option Cost
  pub max_model_requests : ℤ
  pub max_input_bytes : ℤ
  pub max_output_bytes : ℤ
  pub max_output_tokens : ℤ
  pub max_command_seconds : ℤ

pub data BudgetError : Type 0 where
  out_of_range : String → ℤ → BudgetError
  bad_cost : BudgetError

unfoldable pub budget_bounds : JobBudget → List (String × ℤ × ℤ)
budget_bounds b =
    ("timeout_seconds", b.timeout_seconds, pos 86_400)
    ∷ ("max_tool_calls", b.max_tool_calls, pos 500)
    ∷ ("max_model_requests", b.max_model_requests, pos 128)
    ∷ ("max_input_bytes", b.max_input_bytes, pos 4_194_304)
    ∷ ("max_output_bytes", b.max_output_bytes, pos 1_048_576)
    ∷ ("max_output_tokens", b.max_output_tokens, pos 16_384)
    ∷ ("max_command_seconds", b.max_command_seconds, pos 3_600)
    ∷ []

-- The first field out of its range is the one that the error names.
unfoldable pub check_bounds : List (String × ℤ × ℤ) → Result BudgetError (Unit {0})
check_bounds [] = ok tt
check_bounds ((name, value, maximum) ∷ rest) =
    if leb_ℤ (pos 1) value && leb_ℤ value maximum
    then check_bounds rest
    else err (out_of_range name maximum)

unfoldable pub check_cost : Option Cost → Result BudgetError (Unit {0})
check_cost none = ok tt
check_cost (some not_finite) = err bad_cost
check_cost (some (finite amount)) = if leb_ℤ (pos 0) amount then ok tt else err bad_cost

-- `JobBudget.__post_init__`
unfoldable pub check_budget : JobBudget → Result BudgetError (Unit {0})
unfolding budget_bounds check_bounds check_cost
check_budget b = elim (check_bounds (budget_bounds b)) [
  | ok _ ↦ check_cost b.max_cost_usd
  | err e ↦ err e
]

pub record NightShiftJob : Type 0 where
  pub title : String
  pub objective : String
  pub worker_profile : String
  pub repository_id : Option String
  pub starting_revision : Option String
  pub acceptance_criteria : List String
  pub budget : JobBudget
  pub plan : AgentPlan
  pub job_id : String
  pub status : JobStatus
  pub created_at : ℕ
  pub updated_at : ℕ
  pub cancellation_requested : Bool
  pub result_summary : Option String

unfoldable pub plan_value : AgentPlan → String
plan_value AgentPlan.flex = "flex"
plan_value AgentPlan.normal = "normal"

-- A value of an event's payload: one that the service writes, or any other object of a caller.
pub data Value : Type 0 where
  null : Value
  text : String → Value
  python_object : ℕ → Value

abbrev pub Payload : Type 0
Payload = List (String × Value)

pub record NightShiftEvent : Type 0 where
  pub event_type : String
  pub actor : String
  pub payload : Payload
  pub event_job_id : Option String
  pub event_id : String
  pub event_created_at : ℕ
