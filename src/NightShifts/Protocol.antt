-- ===== src/NightShifts/Protocol.antt =====
-- night_shifts/protocol.py: what a worker is given and what it answers.
use simple_ai_agent.Common.{ℕ, String, Option, none, List, []}
use simple_ai_agent.NightShifts.Models.{AgentPlan, NightShiftJob, Payload}

pub data WorkerOutcome : Type 0 where
  success submitted blocked failed cancelled timed_out : WorkerOutcome

pub data CheckStatus : Type 0 where
  not_run passed failed incomplete : CheckStatus

pub data ReviewStatus : Type 0 where
  not_reviewed approved rejected : ReviewStatus

pub data CleanupStatus : Type 0 where
  unknown clean failed : CleanupStatus

pub record WorkerTask : Type 0 where
  pub job_id : String
  pub objective : String
  pub worker_profile : String
  pub acceptance_criteria : List String
  pub repository_id : Option String
  pub starting_revision : Option String
  pub plan : AgentPlan

-- `WorkerTask.from_job`
unfoldable pub from_job : NightShiftJob → WorkerTask
from_job job = record {
  job_id = job.job_id;
  objective = job.objective;
  worker_profile = job.worker_profile;
  acceptance_criteria = job.acceptance_criteria;
  repository_id = job.repository_id;
  starting_revision = job.starting_revision;
  plan = job.plan;
}

-- The entries of `metrics` that the model loop reports: a token total is `none` where a request
-- did not report it.
pub record Metrics : Type 0 where
  pub inference_turns : ℕ
  pub tool_calls : ℕ
  pub tool_errors : ℕ
  pub input_tokens : Option ℕ
  pub output_tokens : Option ℕ
  pub cached_input_tokens : Option ℕ
  pub reasoning_output_tokens : Option ℕ
  pub unknown_requests : ℕ

pub record WorkerResult : Type 0 where
  pub job_id : String
  pub outcome : WorkerOutcome
  pub summary : String
  pub error : Option String
  pub checks : List Payload
  pub artifacts : List String
  pub metrics : Option Metrics
  pub check_status : CheckStatus
  pub review_status : ReviewStatus
  pub cleanup_status : CleanupStatus

unfoldable pub outcome_value : WorkerOutcome → String
outcome_value WorkerOutcome.success = "success"
outcome_value WorkerOutcome.submitted = "submitted"
outcome_value WorkerOutcome.blocked = "blocked"
outcome_value WorkerOutcome.failed = "failed"
outcome_value WorkerOutcome.cancelled = "cancelled"
outcome_value WorkerOutcome.timed_out = "timed_out"

unfoldable pub check_value : CheckStatus → String
check_value CheckStatus.not_run = "not_run"
check_value CheckStatus.passed = "passed"
check_value CheckStatus.failed = "failed"
check_value CheckStatus.incomplete = "incomplete"

unfoldable pub review_value : ReviewStatus → String
review_value ReviewStatus.not_reviewed = "not_reviewed"
review_value ReviewStatus.approved = "approved"
review_value ReviewStatus.rejected = "rejected"

unfoldable pub cleanup_value : CleanupStatus → String
cleanup_value CleanupStatus.unknown = "unknown"
cleanup_value CleanupStatus.clean = "clean"
cleanup_value CleanupStatus.failed = "failed"

-- A result with the defaults of the data class.
unfoldable pub plain_result : String → WorkerOutcome → String → Option String → WorkerResult
plain_result id outcome summary error = record {
  job_id = id;
  outcome = outcome;
  summary = summary;
  error = error;
  checks = [];
  artifacts = [];
  metrics = none;
  check_status = CheckStatus.not_run;
  review_status = ReviewStatus.not_reviewed;
  cleanup_status = CleanupStatus.unknown;
}
