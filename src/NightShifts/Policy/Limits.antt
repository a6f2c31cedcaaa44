-- ===== src/NightShifts/Policy/Limits.antt =====
-- A valid budget gives valid limits, which stay within it.
use simple_ai_agent.Common.{
  ℕ, ◌≤◌, ◌≡◌, refl, String, true, false, ok, List, [], ◌∷◌, arith, inl, inr, Result-cases,
}
use simple_ai_agent.Common.Int.{ℤ, pos, negsuc, ◌≤ℤ◌, leb_ℤ, min_ℤ}
use simple_ai_agent.NightShifts.Models.{JobBudget, check_bounds, check_budget, budget_bounds}
use simple_ai_agent.NightShifts.Policy.{
  ModelExecutorLimits, InferenceLimits, is_outside, check_executor_limits, check_inference_limits,
  executor_limits, inference_limits,
}

-- The bounds of the list hold one by one.
unfoldable pub AllWithin : List (String × ℤ × ℤ) → Type 0
AllWithin [] = Unit
AllWithin ((name, value, maximum) ∷ rest) =
    (leb_ℤ (pos 1) value ≡ true) × (leb_ℤ value maximum ≡ true) × AllWithin rest

check_bounds-AllWithin :
    (bounds : List (String × ℤ × ℤ)) → check_bounds bounds ≡ ok tt → AllWithin bounds
unfolding check_bounds AllWithin
check_bounds-AllWithin [] h = tt
check_bounds-AllWithin ((name, value, maximum) ∷ rest) h =
    let (low, high, later) = parts in (low, high, check_bounds-AllWithin rest later)
  where
    parts :
        (leb_ℤ (pos 1) value ≡ true) × (leb_ℤ value maximum ≡ true) × (check_bounds rest ≡ ok tt)
    parts = ground (arith, h)

check_budget-AllWithin : (b : JobBudget) → check_budget b ≡ ok tt → AllWithin (budget_bounds b)
unfolding check_budget
check_budget-AllWithin b h = elim (Result-cases (check_bounds (budget_bounds b))) [
  | inl (tt, fine) ↦ check_bounds-AllWithin (budget_bounds b) fine
  | inr (e, bad) ↦ absurd (cc (h, bad))
]

inside :
    (value : ℤ) (maximum : ℕ)
    → leb_ℤ (pos 1) value ≡ true
    → leb_ℤ value (pos maximum) ≡ true
    → is_outside value maximum ≡ false
unfolding is_outside
inside value maximum low high = ground (arith, low, high)

capped_inside :
    (value : ℤ) (cap : ℕ)
    → leb_ℤ (pos 1) value ≡ true
    → 1 ≤ cap
    → is_outside (min_ℤ value (pos cap)) cap ≡ false
unfolding is_outside
capped_inside (pos n) cap low high = ground (arith, low, high)
capped_inside (negsuc n) cap low high = ground (arith, low, high)

capped_below : (value : ℤ) (cap : ℕ) → min_ℤ value (pos cap) ≤ℤ value
capped_below (pos n) cap = ground arith
capped_below (negsuc n) cap = ground arith

within_256 : (value : ℤ) → is_outside value 128 ≡ false → is_outside value 256 ≡ false
unfolding is_outside
within_256 (pos n) h = ground (arith, h)
within_256 (negsuc n) h = ground (arith, h)

-- What the limits that were made promise about the budget.
pub record StaysWithin (b : JobBudget) (e : ModelExecutorLimits) (i : InferenceLimits)
    : Type 0 where
  pub turns : e.max_turns ≤ℤ b.max_model_requests
  pub tool_calls : e.max_tool_calls ≤ℤ b.max_tool_calls
  pub summary_bytes : e.max_summary_bytes ≤ℤ b.max_output_bytes
  pub requests : i.max_requests ≤ℤ b.max_model_requests
  pub input_bytes : i.max_input_bytes ≤ℤ b.max_input_bytes
  pub output_bytes : i.max_output_bytes ≤ℤ b.max_output_bytes
  pub ttl : i.ttl_seconds ≤ℤ b.timeout_seconds

-- For a budget that passes its validation, neither the limits of the executor nor those of the
-- inference session raise, and no limit is above the field of the budget that it stands for.
pub check_budget-limits :
    (b : JobBudget)
    → check_budget b ≡ ok tt
    → (e : ModelExecutorLimits) × (i : InferenceLimits) × (executor_limits b ≡ ok e)
      × (inference_limits b ≡ ok i)
      × StaysWithin b e i
unfolding executor_limits inference_limits check_executor_limits check_inference_limits AllWithin
    budget_bounds
check_budget-limits b h =
    let (t₁, t₂, after_timeout) = check_budget-AllWithin b h in
    let (c₁, c₂, after_calls) = after_timeout in
    let (r₁, r₂, after_requests) = after_calls in
    let (i₁, i₂, after_input) = after_requests in
    let (o₁, o₂, after_output) = after_input in
    let requests = inside b.max_model_requests 128 r₁ r₂ in
    let e : ModelExecutorLimits = record {
      max_turns = b.max_model_requests;
      max_tool_calls = min_ℤ b.max_tool_calls (pos 256);
      max_summary_bytes = min_ℤ b.max_output_bytes (pos 262_144);
    } in
    let i : InferenceLimits = record {
      max_requests = b.max_model_requests;
      max_messages = pos 96;
      max_input_bytes = b.max_input_bytes;
      max_output_bytes = b.max_output_bytes;
      max_tool_calls_per_response = pos 8;
      max_tool_schema_bytes = pos 65_536;
      ttl_seconds = min_ℤ b.timeout_seconds (pos 86_400);
    } in
    (
      e,
      i,
      rw
          (
            requests,
            capped_inside b.max_tool_calls 256 c₁ (omega arith),
            capped_inside b.max_output_bytes 262_144 o₁ (omega arith),
          )
          refl,
      rw
          (
            within_256 b.max_model_requests requests,
            inside b.max_input_bytes 4_194_304 i₁ i₂,
            inside b.max_output_bytes 1_048_576 o₁ o₂,
            capped_inside b.timeout_seconds 86_400 t₁ (omega arith),
          )
          refl,
      record {
        turns = omega arith;
        tool_calls = capped_below b.max_tool_calls 256;
        summary_bytes = capped_below b.max_output_bytes 262_144;
        requests = omega arith;
        input_bytes = omega arith;
        output_bytes = omega arith;
        ttl = capped_below b.timeout_seconds 86_400;
      },
    )
