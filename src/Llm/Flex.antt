-- ===== src/Llm/Flex.antt =====
-- llm/openai_flex.py: the retries of a request that the Flex tier has no capacity for. Durations
-- are whole milliseconds; the client, the random factor and the readings of header values are
-- parameters; log lines and the note on an exception are not modelled.
pub mod Request
pub mod Budget
pub mod Answer
use simple_ai_agent.Common.{
  ℕ, zero, suc, ◌+◌, ◌-◌, ◌*◌, ◌/◌, ◌^◌, min, max, Bool, true, false, not, ◌&&◌, ◌||◌, Option, none,
  some, List, [], ◌∷◌, String, ◌==◌, arith, eqb, ltb, leb, if◌then◌else◌,
}

abbrev pub max_capacity_retries : ℕ
max_capacity_retries = 5

abbrev pub initial_retry_delay : ℕ
initial_retry_delay = 5_000

abbrev pub max_retry_delay : ℕ
max_retry_delay = 60_000

abbrev pub max_server_retry_delay : ℕ
max_server_retry_delay = 300_000

abbrev pub max_extra_backoff : ℕ
max_extra_backoff = 300_000

-- What `float` and `parsedate_to_datetime` make of a header's value: a duration, from now for a
-- date, where 0 stands for one that is not positive or not finite.
pub data Reading : Type 0 where
  number date : ℕ → Reading
  unreadable : Reading

-- A `RateLimitError`, with the headers that the code reads.
pub record RateLimitError : Type 0 where
  pub code : Option String
  pub type : Option String
  pub should_retry : Option String
  pub retry_after_ms : Option Reading
  pub retry_after : Option Reading

positive : ℕ → Option ℕ
positive zero = none
positive (suc n) = some (suc n)

-- The second turn of the loop, on `retry-after`.
delay_of_retry_after : Option Reading → Option ℕ
unfolding positive
delay_of_retry_after (some (number d)) = positive d
delay_of_retry_after (some (date d)) = positive d
delay_of_retry_after _ = none

-- `_server_retry_delay_seconds`
unfoldable pub server_retry_delay : RateLimitError → Option ℕ
unfolding delay_of_retry_after
server_retry_delay error = elim error.retry_after_ms [
  | some (number (suc d)) ↦ some (suc d)
  | _ ↦ delay_of_retry_after error.retry_after
]

pub data Stop : Type 0 where
  not_flex_capacity server_x_should_retry_false server_retry_after_exceeds : Stop
  extra_backoff_budget_exhausted retry_budget_exhausted : Stop
  extra_retries_disabled flex_not_explicitly_requested : Stop

pub data Decision : Type 0 where
  stop : Stop → Decision
  retry : ℕ → Decision

unfoldable pub is_text : Option String → String → Bool
is_text none s = false
is_text (some t) s = t == s

is_none : Option String → Bool
is_none none = true
is_none (some t) = false

-- `error.code == "flex_unavailable" or error.code is None and …`
unfoldable pub is_capacity : RateLimitError → Bool
unfolding is_text is_none
is_capacity error =
    is_text error.code "flex_unavailable"
    || is_none error.code && is_text error.type "resource_unavailable"

-- `server_delay is not None and server_delay > …`
exceeds : Option ℕ → ℕ → Bool
exceeds none n = false
exceeds (some d) n = ltb n d

at_least : Option ℕ → ℕ → ℕ
at_least none n = n
at_least (some d) n = max d n

-- The delay of an attempt: `factor` is the random factor, in thousandths.
unfoldable pub backoff_delay : ℕ → Option ℕ → ℕ → ℕ
unfolding at_least
backoff_delay factor server_delay attempt =
    at_least server_delay (
      min (min max_retry_delay (initial_retry_delay * 2 ^ attempt) * factor / 1_000)
        max_retry_delay)

-- `_capacity_retry_decision`; `lower` is `str.lower`.
unfoldable pub capacity_retry_decision : (String → String) → ℕ → RateLimitError → ℕ → ℕ → Decision
unfolding is_capacity is_text server_retry_delay exceeds backoff_delay
capacity_retry_decision lower factor error attempt remaining =
    let refused : Bool = elim error.should_retry [ none ↦ false | some s ↦ lower s == "false" ] in
    let server_delay = server_retry_delay error in
    let delay = backoff_delay factor server_delay attempt in
    if not (is_capacity error)
    then stop not_flex_capacity
    else if refused
    then stop server_x_should_retry_false
    else if exceeds server_delay max_server_retry_delay
    then stop server_retry_after_exceeds
    else if ltb remaining delay
    then stop extra_backoff_budget_exhausted
    else retry delay
