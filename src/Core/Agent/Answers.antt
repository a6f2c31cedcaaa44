-- ===== src/Core/Agent/Answers.antt =====
-- A model that asks for tools less than ten times and then answers.
mod Passes
use simple_ai_agent.Common.{
  ℕ, zero, suc, ◌+◌, ◌-◌, ◌<◌, ◌≤◌, ◌≡◌, refl, sym, ap, subst, ◌∙◌, String, Bool, true, false, not,
  ◌&&◌, ◌==◌, contains, eqb, Option, none, some, List, [], ◌∷◌, ◌++◌, arith, length, length-append,
  Result, ok, err, Action, pure, raise, modify, ◌>>=◌, ◌>>◌, bind_passes, Ensures, Bool-cases, inl,
  inr, if◌then◌else◌,
}
use simple_ai_agent.Core.Protocol.{Reader, ToolCall, Kind, ParsedResponse, is_empty}
use simple_ai_agent.Core.Agent.{
  NativeToolOutput, Reply, BatchToolRecord, Role, no_calls_provided, Message, said, Tools, Llm,
  Agent, answered, Exit, finished, escaped, Work, max_steps,
}
use simple_ai_agent.Core.Agent.Change.{Change, Turned}
use simple_ai_agent.Core.Agent.Calls.{IsPaired, use_tools-Turned}
use simple_ai_agent.Core.Agent.Bounds.{Pairs, interpret-Pairs, react-Turned}
use simple_ai_agent.Core.Agent.Reading.{is_nil, Interpreted, interpret, is_effectively_empty}
use simple_ai_agent.Core.Agent.Loop.{
  is_chat, remember_request, remember_results, call_tools, execute_calls, add_message, use_tools,
  respond, react, react_to, remind, check_client, ask, submit_outputs, chat, run_turn, turns, begin,
  step,
}
use simple_ai_agent.Core.Agent.Answers.Passes.{react-Passes, react-ends}

-- The client fits the configuration, and the reply to the n-th request is `reply n`.
pub record IsServed (llm : Llm) (reply : ℕ → Reply) : Type 0 where
  pub same : (llm.state_api_type == llm.api_type) ≡ true
  pub known :
      (llm.supports_native_tools
        && not (contains llm.api_type ("chat_completions" ∷ "responses" ∷ [])))
      ≡ false
  pub fit : (llm.supports_native_tools && not llm.tools_fit) ≡ false
  pub chat : (n : ℕ) (ms : List Message) → llm.chat n ms ≡ ok (reply n)
  pub outputs :
      (n : ℕ) (outs : List NativeToolOutput) → llm.submit_tool_outputs n outs ≡ ok (reply n)

-- A reply that is taken as a request for tools, and one that is taken as the answer `s`.
unfoldable pub Wants : Reader → Reply → Type 0
unfolding interpret is_effectively_empty
Wants reader r =
    (i : Interpreted) × (interpret reader r ≡ some i)
    × (i.parsed.kind ≡ Kind.tool)
    × (is_effectively_empty i.parsed ≡ false)

unfoldable pub Gives : Reader → String → Reply → Type 0
unfolding interpret is_effectively_empty
Gives reader s r =
    (i : Interpreted) × (interpret reader r ≡ some i)
    × (i.parsed.kind ≡ Kind.final)
    × (i.parsed.final ≡ some s)
    × (is_effectively_empty i.parsed ≡ false)

module _ (reader : Reader) (llm : Llm) (tools : Tools) (reply : ℕ → Reply)
    (served : IsServed llm reply) where
  remind-Passes :
      (n : ℕ) (a : Agent)
      → (b : Agent) × (remind reader llm tools n a ≡ (ok tt, b)) × (b.requests ≡ a.requests)
  unfolding remind add_message
  remind-Passes n a = elim (Bool-cases (eqb n (max_steps - 1))) [
    | inl last ↦ rw (remind, last) (_, refl, refl)
    | inr other ↦ rw (remind, other) (_, refl, refl)
  ]

  check_client-Passes : (a : Agent) → check_client reader llm tools a ≡ (ok tt, a)
  unfolding check_client
  check_client-Passes a = rw (check_client, served.same, served.known, served.fit) refl

  ask-replies :
      (a : Agent)
      → (b : Agent) × (ask reader llm tools a ≡ (ok (reply (length a.requests)), b))
        × (length b.requests ≡ 1 + length a.requests)
  unfolding ask submit_outputs chat
  ask-replies a = elim (Bool-cases (not (is_nil a.pending) && llm.supports_native_tool_outputs)) [
    | inl outputs ↦
        rw (ask, outputs, submit_outputs, served.outputs (length a.requests) _)
          (_, refl, length-append a.requests _ ∙ omega arith)
    | inr nothing ↦
        rw (ask, nothing, chat, served.chat (length a.requests) _)
          (_, refl, length-append a.requests _ ∙ omega arith)
  ]

  -- A turn up to the reply.
  run_turn-replies :
      (n : ℕ) (a : Agent)
      → (b : Agent) × (run_turn reader llm tools n a
          ≡ react_to reader llm tools (interpret reader (reply (length a.requests))) b)
        × (length b.requests ≡ 1 + length a.requests)
  unfolding run_turn
  run_turn-replies n a =
      let (b, reminded, same) = remind-Passes n a in
      let (c, asked, one) = ask-replies b in
      let go : Reply → Work (Unit {0}) = λ r. react_to reader llm tools (interpret reader r) in
      (
        c,
        bind_passes (remind reader llm tools n)
              (λ _. check_client reader llm tools >> (ask reader llm tools >>= go)) a reminded
            ∙ bind_passes (check_client reader llm tools) (λ _. ask reader llm tools >>= go) b
                (check_client-Passes b)
            ∙ bind_passes (ask reader llm tools) go b asked
            ∙ ap (λ rs. go (reply (length rs)) c) same,
        one ∙ ap (λ rs. 1 + length rs) same,
      )

  -- A turn in which the model asks for tools is followed by another one.
  goes_on :
      (n : ℕ) (a : Agent)
      → Wants reader (reply (length a.requests))
      → (b : Agent) × (run_turn reader llm tools n a ≡ (ok tt, b))
        × (length b.requests ≡ 1 + length a.requests)
  unfolding Wants react_to Turned Ensures Pairs
  goes_on n a (i, is, wants, full) =
      let (b, replied, one) = run_turn-replies n a in
      let (c, passes) = react-Passes reader llm tools i b wants full in
      let paired : IsPaired reader llm tools i =
        subst (Pairs reader llm tools) is
          (interpret-Pairs reader llm tools (reply (length a.requests))) in
      let change : Change tools 0 10 b c =
        subst (Turned tools 0 10 b) passes (react-Turned reader llm tools i b paired) in
      (
        c,
        replied ∙ ap (λ o. react_to reader llm tools o b) is ∙ passes,
        omega (arith, change.few, change.kept, one),
      )

  -- A turn in which it answers is the last.
  ends :
      (n : ℕ) (a : Agent) (s : String)
      → Gives reader s (reply (length a.requests))
      → (run_turn reader llm tools n a).0 ≡ err (finished (answered (some s)))
  unfolding Gives react_to
  ends n a s (i, is, gives, answer, full) =
      let (b, replied, one) = run_turn-replies n a in
      ap (λ r. r.0) (replied ∙ ap (λ o. react_to reader llm tools o b) is)
      ∙ react-ends reader llm tools i b s gives answer full

  turns-answers :
      (k left n : ℕ) (a : Agent) (s : String)
      → k < left
      → ((j : ℕ) → j < k → Wants reader (reply (length a.requests + j)))
      → Gives reader s (reply (length a.requests + k))
      → (turns reader llm tools left n a).0 ≡ finished (answered (some s))
  unfolding turns
  turns-answers zero zero n a s less wants gives = absurd (omega arith)
  turns-answers (suc k) zero n a s less wants gives = absurd (omega arith)
  turns-answers zero (suc left) n a s less wants gives =
      let last = ends n a s (subst (λ m. Gives reader s (reply m)) (omega arith) gives) in
      rw (turns, last) refl
  turns-answers (suc k) (suc left) n a s less wants gives =
      let (b, next, one) =
        goes_on n a (subst (λ m. Wants reader (reply m)) (omega arith) (wants 0 (omega arith))) in
      ap
        (λ r.
          (elim r.0 as (λ _. Exit × Agent) [
            | ok u ↦ turns reader llm tools left (n + 1) r.1
            | err e ↦ (e, r.1)
          ]).0)
        next
      ∙ (turns-answers k left (n + 1) b s (omega arith)
          (λ j few.
            subst (λ m. Wants reader (reply m)) (omega (arith, one)) (wants (suc j) (omega arith)))
          (subst (λ m. Gives reader s (reply m)) (omega (arith, one)) gives))

  -- The client fits the configuration, and each request is replied to: if the first `k` replies,
  -- `k` below ten, ask for tools, and the next one answers `s`, then `_step` returns `s`.
  pub step-answers :
      (input : String) (a : Agent) (k : ℕ) (s : String)
      → k < max_steps
      → ((j : ℕ) → j < k → Wants reader (reply (length a.requests + j)))
      → Gives reader s (reply (length a.requests + k))
      → (step reader llm tools input a).0 ≡ finished (answered (some s))
  unfolding step begin
  step-answers input a k s less wants gives =
      turns-answers k max_steps 1 (begin input a) s less wants gives
