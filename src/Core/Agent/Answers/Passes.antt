-- ===== src/Core/Agent/Answers/Passes.antt =====
-- The calls of `_step` that always return, and the one with which it ends.
use simple_ai_agent.Common.{
  ◌≡◌, refl, ◌∙◌, String, false, not, ◌&&◌, some, List, [], ◌∷◌, ok, err, bind_passes, Bool-cases,
  inl, inr,
}
use simple_ai_agent.Core.Protocol.{Reader, ToolCall, Kind, is_empty}
use simple_ai_agent.Core.Agent.{
  BatchToolRecord, Message, Tools, Llm, Agent, answered, finished, Work,
}
use simple_ai_agent.Core.Agent.Reading.{is_nil, Interpreted, is_effectively_empty}
use simple_ai_agent.Core.Agent.Loop.{
  is_chat, remember_request, remember_results, call_tools, execute_calls, add_message, use_tools,
  respond, react, chat,
}

-- A call that returns.
abbrev pub Passes : Work (Unit {0}) → Agent → Type 0
Passes m a = (b : Agent) × (m a ≡ (ok tt, b))

add-Passes : (m : Message) (a : Agent) → Passes (add_message m) a
unfolding add_message
add-Passes m a = (_, refl)

module _ (reader : Reader) (llm : Llm) (tools : Tools) where
  remember_request-Passes :
      (i : Interpreted) (a : Agent) → Passes (remember_request reader llm tools i) a
  unfolding remember_request
  remember_request-Passes i a = elim (Bool-cases (is_nil i.native)) [
    | inl empty ↦ elim (Bool-cases i.parsed.consumed_tool_call_markup) [
      | inl consumed ↦ elim (Bool-cases (is_empty (reader.strip i.parsed.assistant_text))) [
        | inl blank ↦ rw (remember_request, empty, consumed, blank) (_, refl)
        | inr shown ↦ rw (remember_request, empty, consumed, shown) (add-Passes _ a)
      ]
      | inr kept ↦ rw (remember_request, empty, kept) (add-Passes _ a)
    ]
    | inr native ↦ elim (Bool-cases (is_chat reader llm tools)) [
      | inl chat ↦ rw (remember_request, native, chat) (add-Passes _ a)
      | inr other ↦ elim (Bool-cases llm.supports_native_tool_outputs) [
        | inl outputs ↦ rw (remember_request, native, other, outputs) (_, refl)
        | inr words ↦ rw (remember_request, native, other, words) (add-Passes _ a)
      ]
    ]
  ]

  remember_results-Passes :
      (i : Interpreted) (records : List BatchToolRecord) (a : Agent)
      → Passes (remember_results reader llm tools i records) a
  unfolding remember_results
  remember_results-Passes i records a =
      elim (Bool-cases (not (is_nil i.native) && is_chat reader llm tools)) [
        | inl chat ↦ rw (remember_results, chat) (_, refl)
        | inr other ↦
            elim (Bool-cases (not (is_nil i.native) && llm.supports_native_tool_outputs)) [
              | inl outputs ↦ rw (remember_results, other, outputs) (_, refl)
              | inr words ↦ rw (remember_results, other, words) (add-Passes _ a)
            ]
      ]

  answer-Passes :
      (i : Interpreted) (calls : List ToolCall) (a : Agent)
      → Passes (execute_calls reader llm tools i calls) a
  unfolding execute_calls call_tools
  answer-Passes i [] a = add-Passes _ a
  answer-Passes i (call ∷ rest) a = remember_results-Passes i _ _

  use_tools-Passes : (i : Interpreted) (a : Agent) → Passes (use_tools reader llm tools i) a
  unfolding use_tools
  use_tools-Passes i a =
      let (b, kept) = remember_request-Passes i a in
      let (c, done) = answer-Passes i i.parsed.tool_calls b in
      (
        c,
        bind_passes (remember_request reader llm tools i)
              (λ _. execute_calls reader llm tools i i.parsed.tool_calls) a kept
            ∙ done,
      )

  -- A request for tools is followed by another turn, with no request in between.
  pub react-Passes :
      (i : Interpreted) (a : Agent)
      → i.parsed.kind ≡ Kind.tool
      → is_effectively_empty i.parsed ≡ false
      → Passes (react reader llm tools i) a
  unfolding react respond
  react-Passes i a wants full = rw (react, full, respond, wants) (use_tools-Passes i _)

  -- An answer ends the step.
  pub react-ends :
      (i : Interpreted) (a : Agent) (s : String)
      → i.parsed.kind ≡ Kind.final
      → i.parsed.final ≡ some s
      → is_effectively_empty i.parsed ≡ false
      → (react reader llm tools i a).0 ≡ err (finished (answered (some s)))
  unfolding react respond
  react-ends i a s gives answer full = rw (react, full, respond, gives, answer) refl
