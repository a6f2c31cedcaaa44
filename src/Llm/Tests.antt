-- ===== src/Llm/Tests.antt =====
-- A client that refuses a request once, and the theorems on it.
use simple_ai_agent.Common.{
  ℕ, zero, suc, ◌+◌, ◌≤◌, ◌≡◌, ◌≢◌, refl, true, false, ◌&&◌, none, some, [], ◌∷◌, map, length,
  if◌then◌else◌,
}
use simple_ai_agent.Llm.Flex.{RateLimitError, number}
use simple_ai_agent.Llm.Flex.Request.{
  Client, Options, Run, loop_exhausted, returned, responds, limits, wants_flex,
  create_openai_request,
}
use simple_ai_agent.Llm.Flex.Budget.{sum, create_openai_request-bounds}
use simple_ai_agent.Llm.Flex.Answer.{reply_of, reply_to, IsPatient, create_openai_request-answers}

-- The server asks for a second and a half.
abbrev busy : RateLimitError
busy = record {
  code = some "flex_unavailable";
  type = none;
  should_retry = none;
  retry_after_ms = some (number 1_500);
  retry_after = none;
}

abbrev busy_once : Client ℕ ℕ
busy_once = record {
  send = λ own n. elim n [ zero ↦ limits busy | suc m ↦ responds m ];
  factor = λ n. 1_000;
  lower = λ s. s;
}

abbrev flex_options : Options
flex_options = record { service_tier = some "flex"; allow_flex_retries = true }

abbrev run : Run ℕ ℕ
run = create_openai_request busy_once flex_options

one_retry : run ≡ record { calls = true ∷ false ∷ []; sleeps = 5_000 ∷ []; ending = returned 0 }
unfolding create_openai_request wants_flex
one_retry = refl

create_openai_request-bounds_example :
    (run.ending ≢ loop_exhausted)
    × (length run.calls ≡ length run.sleeps + 1)
    × (length run.sleeps
        ≤ (if flex_options.allow_flex_retries && wants_flex flex_options then 5 else 0))
    × (sum run.sleeps ≤ 300_000)
create_openai_request-bounds_example = create_openai_request-bounds busy_once flex_options

create_openai_request-answers_example :
    (reply_of run.ending ≡ some (reply_to busy_once (length run.sleeps)))
    × IsPatient busy_once 0 run.sleeps
    × (run.calls ≡ true ∷ map (λ (d : ℕ). false) run.sleeps)
create_openai_request-answers_example = create_openai_request-answers busy_once flex_options
