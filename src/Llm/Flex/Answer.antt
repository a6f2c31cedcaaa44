-- ===== src/Llm/Flex/Answer.antt =====
-- What a request answers with, and what it waits for.
use simple_ai_agent.Common.{
  ℕ, zero, suc, ◌+◌, ◌-◌, ◌≤◌, ◌<◌, ◌≡◌, refl, sym, ap, subst, ◌∙◌, Bool, true, false, Option, none,
  some, List, [], ◌∷◌, map, arith, length, eqb, if◌then◌else◌,
}
use simple_ai_agent.Llm.Flex.{
  RateLimitError, Decision, stop, retry, max_extra_backoff, is_capacity, server_retry_delay,
  backoff_delay,
}
use simple_ai_agent.Llm.Flex.Request.{
  Reply, responds, limits, fails, Client, Ending, returned, refused, raised, loop_exhausted, Run,
  Options, retry_budget, decide, after_refusal, after_reply, attempts, create_openai_request,
}
use simple_ai_agent.Llm.Flex.Budget.{capacity_retry_decision-retry, bounded_decision-retry}

-- The reply that an ending passes on.
abbrev pub reply_of : {R X : Type 0} → Ending R X → Option (Reply R X)
reply_of (returned r) = some (responds r)
reply_of (refused error reason) = some (limits error)
reply_of (raised x) = some (fails x)
reply_of loop_exhausted = none

-- A wait is no shorter than the server asks for, and no longer than a minute if it asks for none.
unfoldable pub Respects : Option ℕ → ℕ → Type 0
Respects none wait = wait ≤ 60_000
Respects (some least) wait = least ≤ wait

backoff_delay-Respects :
    (factor : ℕ) (server_delay : Option ℕ) (attempt : ℕ)
    → Respects server_delay (backoff_delay factor server_delay attempt)
unfolding backoff_delay Respects
backoff_delay-Respects factor none attempt = omega arith
backoff_delay-Respects factor (some d) attempt = omega arith

module _ {R X : Type 0} (client : Client R X) where
  -- The reply to an attempt: the client's own retries are on for the first one only.
  abbrev pub reply_to : ℕ → Reply R X
  reply_to n = client.send (eqb n 0) n

  -- Before each sleep the attempt was refused for want of capacity, and the sleep respects what
  -- the server asks for.
  unfoldable pub IsPatient : ℕ → List ℕ → Type 0
  unfolding Respects
  IsPatient n [] = Unit
  IsPatient n (delay ∷ delays) =
      ((error : RateLimitError) × (reply_to n ≡ limits error)
        × (is_capacity error ≡ true)
        × Respects (server_retry_delay error) delay)
      × IsPatient (n + 1) delays

  module _ (options : Options) where
    record IsAnswered (attempt : ℕ) (own : Bool) (run : Run R X) : Type 0 where
      pub tells : reply_of run.ending ≡ some (reply_to (length run.sleeps + attempt))
      pub patient : IsPatient attempt run.sleeps
      pub quiet : run.calls ≡ own ∷ map (λ (d : ℕ). false) run.sleeps

    decide-retry :
        (error : RateLimitError) (attempt extra_backoff : ℕ) {delay : ℕ}
        → decide client options error attempt extra_backoff ≡ retry delay
        → (attempt < retry_budget options)
          × (is_capacity error ≡ true)
          × Respects (server_retry_delay error) delay
    unfolding decide
    decide-retry error attempt extra_backoff h =
        let (chosen, more) = bounded_decision-retry options attempt _ h in
        let (capacity, fits, same) =
          capacity_retry_decision-retry client.lower (client.factor attempt) error attempt
            (max_extra_backoff - extra_backoff) chosen in
        (
          more,
          capacity,
          subst (Respects (server_retry_delay error)) (sym same)
              (backoff_delay-Respects (client.factor attempt) (server_retry_delay error) attempt),
        )

    after_refusal-IsAnswered :
        (attempt : ℕ) (own : Bool) (error : RateLimitError) (next : ℕ → Run R X) (d : Decision)
        → reply_to attempt ≡ limits error
        → ((delay : ℕ)
            → d ≡ retry delay
            → (is_capacity error ≡ true)
              × Respects (server_retry_delay error) delay
              × IsAnswered (attempt + 1) false (next delay))
        → IsAnswered attempt own (after_refusal client options own error next d)
    unfolding after_refusal IsPatient
    after_refusal-IsAnswered attempt own error next (stop reason) replied later = record {
      tells = ap some (sym replied) ∙ ap (λ n. some (reply_to n)) (omega arith);
      patient = tt;
      quiet = refl;
    }
    after_refusal-IsAnswered attempt own error next (retry delay) replied later =
        let (capacity, respects, rest) = later delay refl in
        record {
          tells = rest.tells ∙ ap (λ n. some (reply_to n)) (omega arith);
          patient = ((error, replied, capacity, respects), rest.patient);
          quiet = ap (λ calls. own ∷ calls) rest.quiet;
        }

    after_reply-IsAnswered :
        (attempt extra_backoff : ℕ) (own : Bool) (next : ℕ → Run R X) (reply : Reply R X)
        → reply_to attempt ≡ reply
        → ((delay : ℕ)
            → attempt < retry_budget options
            → IsAnswered (attempt + 1) false (next delay))
        → IsAnswered attempt own (after_reply client options attempt extra_backoff own next reply)
    unfolding after_reply IsPatient
    after_reply-IsAnswered attempt extra_backoff own next (responds r) replied later = record {
      tells = ap some (sym replied) ∙ ap (λ n. some (reply_to n)) (omega arith);
      patient = tt;
      quiet = refl;
    }
    after_reply-IsAnswered attempt extra_backoff own next (fails x) replied later = record {
      tells = ap some (sym replied) ∙ ap (λ n. some (reply_to n)) (omega arith);
      patient = tt;
      quiet = refl;
    }
    after_reply-IsAnswered attempt extra_backoff own next (limits error) replied later =
        after_refusal-IsAnswered attempt own error next
          (decide client options error attempt extra_backoff) replied
          (λ delay h.
            let (more, capacity, respects) = decide-retry error attempt extra_backoff h in
            (capacity, respects, later delay more))

    attempts-IsAnswered :
        (left attempt extra_backoff : ℕ) (own : Bool)
        → left + attempt ≡ retry_budget options + 1
        → attempt ≤ retry_budget options
        → own ≡ eqb attempt 0
        → IsAnswered attempt own (attempts client options left attempt extra_backoff own)
    unfolding attempts
    attempts-IsAnswered zero attempt extra_backoff own enough few first =
        absurd (omega (arith, enough, few))
    attempts-IsAnswered (suc left) attempt extra_backoff own enough few first =
        after_reply-IsAnswered attempt extra_backoff own _ (client.send own attempt)
          (ap (λ b. client.send b attempt) (sym first))
          (λ delay more.
            let later : Bool = if eqb attempt 0 then false else own in
            let off : later ≡ false = ground (arith, first) in
            let rest = attempts client options left (attempt + 1) (extra_backoff + delay) later in
            subst (λ b. IsAnswered (attempt + 1) b rest) off
              (attempts-IsAnswered left (attempt + 1) (extra_backoff + delay) later
                (omega (arith, enough)) (omega (arith, more)) (ground (arith, first))))

-- A request answers with the reply to its last call, whether that is a response, a refusal, or
-- another exception. Every reply before it was a refusal for want of Flex capacity, and
-- after each the request waited as long as the server asks for, or for a minute at most if it asks
-- for nothing. The client's own retries are on for the first call and off for all others.
pub create_openai_request-answers :
    {R X : Type 0} (client : Client R X) (options : Options)
    → let run = create_openai_request client options in
      (reply_of run.ending ≡ some (reply_to client (length run.sleeps)))
      × IsPatient client 0 run.sleeps
      × (run.calls ≡ true ∷ map (λ (d : ℕ). false) run.sleeps)
unfolding create_openai_request
create_openai_request-answers client options =
    let answered =
      attempts-IsAnswered client options (retry_budget options + 1) 0 0 true (omega arith)
        (omega arith) refl in
    (
      answered.tells ∙ ap (λ n. some (reply_to client n)) (omega arith),
      answered.patient,
      answered.quiet,
    )
