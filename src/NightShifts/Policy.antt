-- ===== src/NightShifts/Policy.antt =====
-- The limits that a job's budget gives a worker: `executor_limits` and `inference_limits` of
-- night_shifts/execution_policy.py, and the classes that they fill.
pub mod Limits
mod Tests
use simple_ai_agent.Common.{
  ℕ, ◌≤◌, ◌≡◌, refl, ap, ◌∙◌, Bool, true, false, ◌&&◌, ◌||◌, Result, ok, err, List, arith, ◌∷◌,
  String, not, if◌then◌else◌,
}
use simple_ai_agent.Common.Int.{ℤ, pos, negsuc, ◌≤ℤ◌, leb_ℤ, min_ℤ}
use simple_ai_agent.NightShifts.Models.{
  JobBudget, check_bounds, check_budget, check_cost, budget_bounds,
}

pub record ModelExecutorLimits : Type 0 where
  pub max_turns : ℤ
  pub max_tool_calls : ℤ
  pub max_summary_bytes : ℤ

pub record InferenceLimits : Type 0 where
  pub max_requests : ℤ
  pub max_messages : ℤ
  pub max_input_bytes : ℤ
  pub max_output_bytes : ℤ
  pub max_tool_calls_per_response : ℤ
  pub max_tool_schema_bytes : ℤ
  pub ttl_seconds : ℤ

-- The field that the exception names.
pub data LimitError : Type 0 where
  bad_turns bad_tool_calls bad_summary_bytes : LimitError
  bad_requests bad_messages bad_input_bytes bad_output_bytes : LimitError
  bad_tool_calls_per_response bad_tool_schema_bytes bad_ttl : LimitError

-- `value <= 0 or value > maximum`
unfoldable pub is_outside : ℤ → ℕ → Bool
is_outside value maximum = not (leb_ℤ (pos 1) value) || not (leb_ℤ value (pos maximum))

-- `ModelExecutorLimits.__post_init__`
unfoldable pub check_executor_limits : ModelExecutorLimits → Result LimitError ModelExecutorLimits
unfolding is_outside
check_executor_limits l =
    if is_outside l.max_turns 128
    then err bad_turns
    else if is_outside l.max_tool_calls 256
    then err bad_tool_calls
    else if is_outside l.max_summary_bytes 262_144
    then err bad_summary_bytes
    else ok l

-- `InferenceLimits.__post_init__`
unfoldable pub check_inference_limits : InferenceLimits → Result LimitError InferenceLimits
unfolding is_outside
check_inference_limits l =
    if is_outside l.max_requests 256
    then err bad_requests
    else if is_outside l.max_messages 512
    then err bad_messages
    else if is_outside l.max_input_bytes 4_194_304
    then err bad_input_bytes
    else if is_outside l.max_output_bytes 1_048_576
    then err bad_output_bytes
    else if is_outside l.max_tool_calls_per_response 32
    then err bad_tool_calls_per_response
    else if is_outside l.max_tool_schema_bytes 262_144
    then err bad_tool_schema_bytes
    else if is_outside l.ttl_seconds 86_400
    then err bad_ttl
    else ok l

unfoldable pub executor_limits : JobBudget → Result LimitError ModelExecutorLimits
unfolding check_executor_limits
executor_limits b = check_executor_limits (record {
  max_turns = b.max_model_requests;
  max_tool_calls = min_ℤ b.max_tool_calls (pos 256);
  max_summary_bytes = min_ℤ b.max_output_bytes (pos 262_144);
})

unfoldable pub inference_limits : JobBudget → Result LimitError InferenceLimits
unfolding check_inference_limits
inference_limits b = check_inference_limits (record {
  max_requests = b.max_model_requests;
  max_messages = pos 96;
  max_input_bytes = b.max_input_bytes;
  max_output_bytes = b.max_output_bytes;
  max_tool_calls_per_response = pos 8;
  max_tool_schema_bytes = pos 65_536;
  ttl_seconds = min_ℤ b.timeout_seconds (pos 86_400);
})
