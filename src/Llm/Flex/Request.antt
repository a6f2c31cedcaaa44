-- ===== src/Llm/Flex/Request.antt =====
-- `create_openai_request`: the loop over the attempts, with the calls that it makes and the times
-- that it sleeps. An `api_type` is one of the two that its annotation names.
use simple_ai_agent.Common.{
  ℕ, zero, suc, ◌+◌, ◌-◌, Bool, true, false, not, ◌&&◌, Option, List, [], ◌∷◌, String, eqb, leb,
  if◌then◌else◌,
}
use simple_ai_agent.Llm.Flex.{
  RateLimitError, Stop, not_flex_capacity, retry_budget_exhausted, extra_retries_disabled,
  flex_not_explicitly_requested, Decision, stop, retry, max_capacity_retries, max_extra_backoff,
  is_text, capacity_retry_decision,
}

-- What a call of the client gives: a response, a `RateLimitError`, or another exception.
pub data Reply (R X : Type 0) : Type 0 where
  responds : R → Reply R X
  limits : RateLimitError → Reply R X
  fails : X → Reply R X

-- `send` is the call that `api_type` selects, with the client's own retries on or off, and the
-- number of the attempt; `factor` has the random factors that are drawn.
pub record Client (R X : Type 0) : Type 0 where
  pub send : Bool → ℕ → Reply R X
  pub factor : ℕ → ℕ
  pub lower : String → String

pub data Ending (R X : Type 0) : Type 0 where
  returned : R → Ending R X
  refused : RateLimitError → Stop → Ending R X
  raised : X → Ending R X
  loop_exhausted : Ending R X

-- The calls that were made, each with whether the client's own retries were on, the times slept,
-- and the end.
pub record Run (R X : Type 0) : Type 0 where
  pub calls : List Bool
  pub sleeps : List ℕ
  pub ending : Ending R X

pub record Options : Type 0 where
  pub service_tier : Option String
  pub allow_flex_retries : Bool

unfoldable pub wants_flex : Options → Bool
unfolding is_text
wants_flex options = is_text options.service_tier "flex"

unfoldable pub retry_budget : Options → ℕ
unfolding wants_flex
retry_budget options =
    if options.allow_flex_retries && wants_flex options then max_capacity_retries else 0

-- The reason that is noted when no attempt is left.
unfoldable pub last_reason : Options → Stop
unfolding wants_flex
last_reason options =
    if not options.allow_flex_retries
    then extra_retries_disabled
    else if not (wants_flex options)
    then flex_not_explicitly_requested
    else retry_budget_exhausted

-- The decision, with the test of the attempts that are left.
unfoldable pub bounded_decision : Options → ℕ → Decision → Decision
unfolding retry_budget last_reason
bounded_decision options attempt (stop not_flex_capacity) = stop not_flex_capacity
bounded_decision options attempt d =
    if leb (retry_budget options) attempt then stop (last_reason options) else d

module _ {R X : Type 0} (client : Client R X) (options : Options) where
  -- What the code makes of a refusal.
  unfoldable pub decide : RateLimitError → ℕ → ℕ → Decision
  unfolding capacity_retry_decision bounded_decision
  decide error attempt extra_backoff = bounded_decision options attempt (
      capacity_retry_decision client.lower (client.factor attempt) error attempt
        (max_extra_backoff - extra_backoff))

  -- The end of an attempt that was refused, where `next` has the attempts after a sleep.
  unfoldable pub after_refusal : Bool → RateLimitError → (ℕ → Run R X) → Decision → Run R X
  after_refusal own_retries error next (stop reason) = record {
    calls = own_retries ∷ [];
    sleeps = [];
    ending = refused error reason;
  }
  after_refusal own_retries error next (retry delay) =
      let rest = next delay in
      record {
        calls = own_retries ∷ rest.calls;
        sleeps = delay ∷ rest.sleeps;
        ending = rest.ending;
      }

  -- The end of an attempt.
  unfoldable pub after_reply : ℕ → ℕ → Bool → (ℕ → Run R X) → Reply R X → Run R X
  unfolding decide after_refusal
  after_reply attempt extra_backoff own_retries next (responds r) = record {
    calls = own_retries ∷ [];
    sleeps = [];
    ending = returned r;
  }
  after_reply attempt extra_backoff own_retries next (fails x) = record {
    calls = own_retries ∷ [];
    sleeps = [];
    ending = raised x;
  }
  after_reply attempt extra_backoff own_retries next (limits error) =
      after_refusal own_retries error next (decide error attempt extra_backoff)

  -- The attempts that `range` has left, from number `attempt` on; the client's own retries are
  -- off after the first refusal.
  unfoldable pub attempts : ℕ → ℕ → ℕ → Bool → Run R X
  unfolding after_reply
  attempts zero attempt extra_backoff own_retries = record {
    calls = [];
    sleeps = [];
    ending = loop_exhausted;
  }
  attempts (suc left) attempt extra_backoff own_retries =
      after_reply attempt extra_backoff own_retries
        (λ delay.
          attempts left (attempt + 1) (extra_backoff + delay)
            (if eqb attempt 0 then false else own_retries))
        (client.send own_retries attempt)

  -- `create_openai_request`
  unfoldable pub create_openai_request : Run R X
  unfolding retry_budget attempts
  create_openai_request = attempts (retry_budget options + 1) 0 0 true
