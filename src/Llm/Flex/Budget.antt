-- ===== src/Llm/Flex/Budget.antt =====
-- The bounds of the retries: their number, each sleep, and all sleeps together.
use simple_ai_agent.Common.{
  ℕ, zero, suc, ◌+◌, ◌-◌, ◌≤◌, ◌<◌, ◌≡◌, ◌≢◌, refl, Bool, true, ◌&&◌, List, [], ◌∷◌, String, arith,
  length, if◌then◌else◌,
}
use simple_ai_agent.Llm.Flex.{
  RateLimitError, Decision, stop, retry, max_extra_backoff, is_capacity, server_retry_delay,
  backoff_delay, capacity_retry_decision,
}
use simple_ai_agent.Llm.Flex.Request.{
  Reply, responds, limits, fails, Client, loop_exhausted, Run, Options, wants_flex, retry_budget,
  bounded_decision, decide, after_refusal, after_reply, attempts, create_openai_request,
}

abbrev pub sum : List ℕ → ℕ
sum [] = 0
sum (n ∷ ns) = n + sum ns

pub capacity_retry_decision-retry :
    (lower : String → String) (factor : ℕ) (error : RateLimitError) (attempt remaining : ℕ)
    {delay : ℕ}
    → capacity_retry_decision lower factor error attempt remaining ≡ retry delay
    → (is_capacity error ≡ true)
      × (delay ≤ remaining)
      × (delay ≡ backoff_delay factor (server_retry_delay error) attempt)
unfolding capacity_retry_decision
capacity_retry_decision-retry lower factor error attempt remaining h = ground (arith, h)

pub bounded_decision-retry :
    (options : Options) (attempt : ℕ) (d : Decision) {delay : ℕ}
    → bounded_decision options attempt d ≡ retry delay
    → (d ≡ retry delay) × (attempt < retry_budget options)
unfolding bounded_decision
bounded_decision-retry options attempt (stop reason) h = ground (arith, h)
bounded_decision-retry options attempt (retry t) h = ground (arith, h)

module _ {R X : Type 0} (client : Client R X) (options : Options) where
  -- What holds of the attempts from number `attempt` on, after sleeping for `extra_backoff`.
  record IsWithin (attempt extra_backoff : ℕ) (run : Run R X) : Type 0 where
    pub few : length run.sleeps + attempt ≤ retry_budget options
    pub short : sum run.sleeps + extra_backoff ≤ max_extra_backoff
    pub one_more : length run.calls ≡ length run.sleeps + 1
    pub ends : run.ending ≢ loop_exhausted

  decide-retry :
      (error : RateLimitError) (attempt extra_backoff : ℕ) {delay : ℕ}
      → decide client options error attempt extra_backoff ≡ retry delay
      → extra_backoff ≤ max_extra_backoff
      → (attempt < retry_budget options) × (extra_backoff + delay ≤ max_extra_backoff)
  unfolding decide
  decide-retry error attempt extra_backoff h small =
      let (chosen, more) = bounded_decision-retry options attempt _ h in
      let (capacity, fits, same) =
        capacity_retry_decision-retry client.lower (client.factor attempt) error attempt
          (max_extra_backoff - extra_backoff) chosen in
      (more, omega (arith, fits, small))

  after_refusal-IsWithin :
      (attempt extra_backoff : ℕ) (own : Bool) (error : RateLimitError) (next : ℕ → Run R X)
      (d : Decision)
      → attempt ≤ retry_budget options
      → extra_backoff ≤ max_extra_backoff
      → ((delay : ℕ)
          → d ≡ retry delay
          → IsWithin (attempt + 1) (extra_backoff + delay) (next delay))
      → IsWithin attempt extra_backoff (after_refusal client options own error next d)
  unfolding after_refusal
  after_refusal-IsWithin attempt extra_backoff own error next (stop reason) few short later =
      record {
        few = omega (arith, few);
        short = omega (arith, short);
        one_more = omega arith;
        ends = λ e. cc;
      }
  after_refusal-IsWithin attempt extra_backoff own error next (retry delay) few short later =
      let rest = later delay refl in
      record {
        few = omega (arith, rest.few);
        short = omega (arith, rest.short);
        one_more = omega (arith, rest.one_more);
        ends = rest.ends;
      }

  after_reply-IsWithin :
      (attempt extra_backoff : ℕ) (own : Bool) (next : ℕ → Run R X) (reply : Reply R X)
      → attempt ≤ retry_budget options
      → extra_backoff ≤ max_extra_backoff
      → ((delay : ℕ)
          → attempt < retry_budget options
          → extra_backoff + delay ≤ max_extra_backoff
          → IsWithin (attempt + 1) (extra_backoff + delay) (next delay))
      → IsWithin attempt extra_backoff
          (after_reply client options attempt extra_backoff own next reply)
  unfolding after_reply
  after_reply-IsWithin attempt extra_backoff own next (responds r) few short later = record {
    few = omega (arith, few);
    short = omega (arith, short);
    one_more = omega arith;
    ends = λ e. cc;
  }
  after_reply-IsWithin attempt extra_backoff own next (fails x) few short later = record {
    few = omega (arith, few);
    short = omega (arith, short);
    one_more = omega arith;
    ends = λ e. cc;
  }
  after_reply-IsWithin attempt extra_backoff own next (limits error) few short later =
      after_refusal-IsWithin attempt extra_backoff own error next
        (decide client options error attempt extra_backoff) few short
        (λ delay h.
          let (more, fits) = decide-retry error attempt extra_backoff h short in
          later delay more fits)

  attempts-IsWithin :
      (left attempt extra_backoff : ℕ) (own : Bool)
      → left + attempt ≡ retry_budget options + 1
      → attempt ≤ retry_budget options
      → extra_backoff ≤ max_extra_backoff
      → IsWithin attempt extra_backoff (attempts client options left attempt extra_backoff own)
  unfolding attempts
  attempts-IsWithin zero attempt extra_backoff own enough few short =
      absurd (omega (arith, enough, few))
  attempts-IsWithin (suc left) attempt extra_backoff own enough few short =
      after_reply-IsWithin attempt extra_backoff own _ (client.send own attempt) few short
        (λ delay more fits.
          attempts-IsWithin left (attempt + 1) (extra_backoff + delay) _ (omega (arith, enough))
            (omega (arith, more)) fits)

-- A request ends, whatever the client answers: the assertion behind the loop is never reached,
-- there is one call more than there are sleeps, at most as many sleeps as the options allow, which
-- is five at most and none for a worker or a request that does not ask for the Flex tier, and the
-- sleeps take 300 seconds together at most.
pub create_openai_request-bounds :
    {R X : Type 0} (client : Client R X) (options : Options)
    → let run = create_openai_request client options in
      (run.ending ≢ loop_exhausted)
      × (length run.calls ≡ length run.sleeps + 1)
      × (length run.sleeps ≤ (if options.allow_flex_retries && wants_flex options then 5 else 0))
      × (sum run.sleeps ≤ 300_000)
unfolding create_openai_request retry_budget
create_openai_request-bounds client options =
    let within =
      attempts-IsWithin client options (retry_budget options + 1) 0 0 true (omega arith)
        (omega arith) (omega arith) in
    (within.ends, within.one_more, omega (arith, within.few), omega (arith, within.short))
