-- ===== src/Core/Agent/Turn.antt =====
-- The calls that one turn of `_step` is made of, and what they do to the agent.
use simple_ai_agent.Common.{
  ℕ, ◌-◌, ◌≡◌, refl, sym, ap, subst, Bool, true, false, not, ◌&&◌, ◌==◌, contains, ltb, eqb, [],
  ◌∷◌, ◌++◌, arith, length, length-append, raise_if, ◌>>◌, Ensures, Bool-cases, Result-cases, inl,
  inr,
}
use simple_ai_agent.Core.Protocol.{Reader}
use simple_ai_agent.Core.Agent.{
  Role, Content, finish_now, retry_empty, Message, said, Request, chat_request, output_request,
  Tools, Llm, Agent, configuration_mismatch, unsupported_api_type, Exit, finished, escaped, Work,
  max_steps, max_empty_retries,
}
use simple_ai_agent.Core.Agent.Transcript.{
  IsTranscript, Awaiting, Awaiting-append, IsAcceptable, messages_with_context-IsTranscript,
}
use simple_ai_agent.Core.Agent.Change.{
  Added, Added-none, Added-one, IsKnown, IsExpected, Change, Change-trans, Turned, Turned-bind,
}
use simple_ai_agent.Core.Agent.Reading.{is_nil, messages_with_context, outputs_of}
use simple_ai_agent.Core.Agent.Loop.{
  add_message, stop, submit_outputs, chat, ask, check_client, remind, retry_if_empty,
}

module _ (tools : Tools) where
  -- A change of the fields that neither requests nor calls stand in.
  pub still :
      (a b : Agent)
      → b.requests ≡ a.requests
      → b.executed ≡ a.executed
      → (IsTranscript a.messages → IsTranscript b.messages)
      → Change tools 0 0 a b
  still a b requests executed kept = record {
    asked = λ start. (
      subst (Added IsAcceptable 0 a.requests) (sym requests) (Added-none IsAcceptable a.requests),
      kept start,
    );
    ran =
        subst (Added (IsKnown tools) 0 a.executed) (sym executed)
          (Added-none (IsKnown tools) a.executed);
    few = omega (arith, ap length requests);
    kept = omega (arith, ap length requests);
  }

  pub add_message-Turned :
      (m : Message) (a : Agent) → IsTranscript (m ∷ []) → Turned tools 0 0 a (add_message m a)
  unfolding add_message Turned Ensures IsTranscript
  add_message-Turned m a fits =
      still a _ refl refl (λ start. Awaiting-append [] a.messages (m ∷ []) start fits)

  pub said-Turned :
      (r : Role) (c : Content) (a : Agent) → Turned tools 0 0 a (add_message (said r c) a)
  unfolding IsTranscript Awaiting
  said-Turned r c a = add_message-Turned (said r c) a tt

  -- A guard that leaves with an expected result.
  guard-Turned :
      (b : Bool) (e : Exit) (a : Agent) → IsExpected e → Turned tools 0 0 a (raise_if b e a)
  unfolding Turned Ensures
  guard-Turned true e a expected = (still a a refl refl (λ start. start), expected)
  guard-Turned false e a expected = still a a refl refl (λ start. start)

  module _ (reader : Reader) (llm : Llm) where
    pub remind-Turned : (n : ℕ) (a : Agent) → Turned tools 0 0 a (remind reader llm tools n a)
    unfolding remind Turned Ensures
    remind-Turned n a = elim (Bool-cases (eqb n (max_steps - 1))) [
      | inl last ↦ rw (remind, last) (said-Turned Role.user (finish_now n) a)
      | inr other ↦ rw (remind, other) (still a a refl refl (λ start. start))
    ]

    pub check_client-Turned : (a : Agent) → Turned tools 0 0 a (check_client reader llm tools a)
    unfolding check_client IsExpected
    check_client-Turned a =
        let api : Work (Unit {0}) =
          raise_if (not (llm.state_api_type == llm.api_type)) (finished configuration_mismatch) in
        let known : Work (Unit {0}) =
          raise_if
            (llm.supports_native_tools
              && not (contains llm.api_type ("chat_completions" ∷ "responses" ∷ [])))
            (finished unsupported_api_type) in
        let fit : Work (Unit {0}) =
          raise_if (llm.supports_native_tools && not llm.tools_fit) escaped in
        Turned-bind tools 0 0 0 0 a api (λ _. known >> fit)
          (guard-Turned (not (llm.state_api_type == llm.api_type)) (finished configuration_mismatch)
            a tt)
          (λ v b c.
            Turned-bind tools 0 0 0 0 b known (λ _. fit)
              (guard-Turned _ (finished unsupported_api_type) b tt)
              (λ w d e. guard-Turned _ escaped d tt))

    -- A request.
    requested :
        (r : Request) (a b : Agent)
        → (IsTranscript a.messages → IsAcceptable r)
        → b.messages ≡ a.messages
        → b.executed ≡ a.executed
        → b.requests ≡ a.requests ++ r ∷ []
        → Change tools 1 0 a b
    requested r a b fits messages executed requests = record {
      asked = λ start. (
        subst (Added IsAcceptable 1 a.requests) (sym requests)
            (Added-one IsAcceptable a.requests r (fits start)),
        subst IsTranscript (sym messages) start,
      );
      ran =
          subst (Added (IsKnown tools) 0 a.executed) (sym executed)
            (Added-none (IsKnown tools) a.executed);
      few = omega (arith, ap length requests, length-append a.requests (r ∷ []));
      kept = omega (arith, ap length requests, length-append a.requests (r ∷ []));
    }

    chat-Turned : (a : Agent) → Turned tools 1 0 a (chat reader llm tools a)
    unfolding chat stop Turned Ensures IsAcceptable IsExpected
    chat-Turned a =
        let n = length a.requests in
        let sent = messages_with_context (llm.runtime_context n) a.messages in
        let done : Change tools 1 0 a
            (record a { requests = a.requests ++ chat_request sent ∷ [] }) =
          requested (chat_request sent) a _
            (messages_with_context-IsTranscript (llm.runtime_context n) a.messages) refl refl
            refl in
        elim (Result-cases (llm.chat n sent)) [
          | inl (reply, fine) ↦ rw (chat, fine) done
          | inr (e, fails) ↦ rw (chat, fails) (done, tt)
        ]

    submit-Turned : (a : Agent) → Turned tools 1 0 a (submit_outputs reader llm tools a)
    unfolding submit_outputs stop Turned Ensures IsAcceptable IsExpected
    submit-Turned a =
        let n = length a.requests in
        let sent = outputs_of a.pending in
        elim (Result-cases (llm.submit_tool_outputs n sent)) [
          | inl (reply, fine) ↦
              rw (submit_outputs, fine)
                (requested (output_request sent) a _ (λ _. tt) refl refl refl)
          | inr (e, fails) ↦
              rw (submit_outputs, fails)
                (requested (output_request sent) a _ (λ _. tt) refl refl refl, tt)
        ]

    pub ask-Turned : (a : Agent) → Turned tools 1 0 a (ask reader llm tools a)
    unfolding ask Turned Ensures
    ask-Turned a = elim (Bool-cases (not (is_nil a.pending) && llm.supports_native_tool_outputs)) [
      | inl outputs ↦ rw (ask, outputs) (submit-Turned a)
      | inr nothing ↦ rw (ask, nothing) (chat-Turned a)
    ]

    -- An empty response.
    pub retry_if_empty-Turned : (a : Agent) → Turned tools 0 0 a (retry_if_empty reader llm tools a)
    unfolding retry_if_empty Turned Ensures IsExpected
    retry_if_empty-Turned a = elim (Bool-cases (ltb a.empty_retry_count max_empty_retries)) [
      | inl again ↦
          rw (retry_if_empty, again)
            (Change-trans tools (said-Turned Role.user (retry_empty llm.supports_native_tools) a)
              (still _ _ refl refl (λ start. start)))
      | inr enough ↦ rw (retry_if_empty, enough) (still a a refl refl (λ start. start), tt)
    ]
