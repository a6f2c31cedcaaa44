-- ===== src/NightShifts/Policy/Tests.antt =====
-- The default budget, and the theorem on it.
use simple_ai_agent.Common.{◌≡◌, refl, none, ok}
use simple_ai_agent.Common.Int.{pos}
use simple_ai_agent.NightShifts.Models.{JobBudget, check_budget}
use simple_ai_agent.NightShifts.Policy.{
  ModelExecutorLimits, InferenceLimits, executor_limits, inference_limits,
}
use simple_ai_agent.NightShifts.Policy.Limits.{StaysWithin, check_budget-limits}

abbrev default_budget : JobBudget
default_budget = record {
  timeout_seconds = pos 14_400;
  max_tool_calls = pos 500;
  max_cost_usd = none;
  max_model_requests = pos 24;
  max_input_bytes = pos 524_288;
  max_output_bytes = pos 131_072;
  max_output_tokens = pos 4_096;
  max_command_seconds = pos 300;
}

check_budget-limits_example :
    (e : ModelExecutorLimits) × (i : InferenceLimits) × (executor_limits default_budget ≡ ok e)
    × (inference_limits default_budget ≡ ok i)
    × StaysWithin default_budget e i
unfolding check_budget
check_budget-limits_example = check_budget-limits default_budget refl
