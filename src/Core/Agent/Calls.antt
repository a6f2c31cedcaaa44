-- ===== src/Core/Agent/Calls.antt =====
-- The end of one turn of `_step`: the branch of calls.
use simple_ai_agent.Common.{
  ℕ, ◌+◌, ◌≡◌, refl, sym, ap, subst, ◌∙◌, String, true, false, not, ◌&&◌, Option, none, some, List,
  [], ◌∷◌, ◌++◌, append_assoc, arith, length, ok, ◌>>=◌, Ensures, Bool-cases, inl, inr,
}
use simple_ai_agent.Core.Json.{Members}
use simple_ai_agent.Core.Protocol.{Reader, ToolCall, is_empty}
use simple_ai_agent.Core.Agent.{
  NativeToolCall, BatchToolRecord, Role, no_calls_provided, said, asks, Tools, Llm, Agent,
  max_batch_tool_calls,
}
use simple_ai_agent.Core.Agent.Batch.{execute_limited}
use simple_ai_agent.Core.Agent.Batch.Order.{execute_limited-IsBatch, IsBatch-length}
use simple_ai_agent.Core.Agent.Batch.Ran.{execute_limited-Ran}
use simple_ai_agent.Core.Agent.Transcript.{
  IsTranscript, IsAcceptable, Awaiting, Awaiting-append, results_of-Awaiting,
}
use simple_ai_agent.Core.Agent.Change.{Added, Added-none, Turned, Turned-weaken, Turned-bind}
use simple_ai_agent.Core.Agent.Turn.{still, add_message-Turned, said-Turned}
use simple_ai_agent.Core.Agent.Reading.{
  is_nil, zip, Interpreted, add_normal, normalize, results_of, memory_of,
}
use simple_ai_agent.Core.Agent.Loop.{
  add_message, is_chat, remember_request, remember_results, call_tools, execute_calls, use_tools,
}

none_native : (native : List NativeToolCall) → 0 ≡ length native → is_nil native ≡ false → ⊥
unfolding is_nil
none_native [] h k = ground (arith, k)
none_native (c ∷ cs) h k = omega arith

module _ (reader : Reader) (llm : Llm) (tools : Tools) where
  add_normal-length :
      (name : String) (m : Option Members) (rest : Option (List ToolCall)) (calls : List ToolCall)
      (n : ℕ)
      → ((more : List ToolCall) → rest ≡ some more → length more ≡ n)
      → add_normal reader name m rest ≡ some calls
      → length calls ≡ 1 + n
  unfolding add_normal
  add_normal-length name (some m) (some more) calls n each h =
      let count = each more refl in ground (arith, h, count)
  add_normal-length name (some m) none calls n each h = ground (arith, h)
  add_normal-length name none (some more) calls n each h = ground (arith, h)
  add_normal-length name none none calls n each h = ground (arith, h)

  pub normalize-length :
      (native : List NativeToolCall) (calls : List ToolCall)
      → normalize reader native ≡ some calls
      → length calls ≡ length native
  unfolding normalize
  normalize-length [] calls h = ground (arith, h)
  normalize-length (tc ∷ rest) calls h =
      add_normal-length tc.name _ (normalize reader rest) calls (length rest)
        (λ more got. normalize-length rest more got) h
      ∙ omega arith

  -- Native calls are those of the response, one for one.
  unfoldable pub IsPaired : Interpreted → Type 0
  IsPaired i = is_nil i.native ≡ false → length i.parsed.tool_calls ≡ length i.native

  -- What a batch and its answers, in one message each, do after the message that asks.
  answer_calls :
      (i : Interpreted) (calls : List ToolCall) (a : Agent)
      → length calls ≡ length i.native
      → Turned tools 0 10 a (
        ok tt,
        (let asking : Agent = record a { messages = a.messages ++ asks i.reply i.native ∷ [] } in
            let (records, b) = execute_limited tools calls asking in
            record b { messages = b.messages ++ results_of (zip records i.native) }),
      )
  unfolding Turned Ensures IsTranscript Awaiting
  answer_calls i calls a paired =
      let asking : Agent = record a { messages = a.messages ++ asks i.reply i.native ∷ [] } in
      let after = execute_limited-Ran tools calls asking in
      let records = (execute_limited tools calls asking).0 in
      let all =
        IsBatch-length false max_batch_tool_calls 1 (length calls) calls records
          (execute_limited-IsBatch tools calls asking) in
      let given = results_of-Awaiting records i.native (all ∙ paired) in
      record {
        asked = λ start. (
          subst (Added IsAcceptable 0 a.requests) (sym after.requests)
              (Added-none IsAcceptable a.requests),
          subst (λ ms. IsTranscript (ms ++ results_of (zip records i.native))) (sym after.messages)
              (subst IsTranscript
                (sym (
                  append_assoc a.messages (asks i.reply i.native ∷ [])
                    (results_of (zip records i.native))))
                (Awaiting-append [] a.messages _ start given)),
        );
        ran = after.ran;
        few = omega (arith, ap length after.requests);
        kept = omega (arith, ap length after.requests);
      }

  answered-calls :
      (i : Interpreted) (calls : List ToolCall) (a : Agent)
      → length calls ≡ length i.native
      → is_nil i.native ≡ false
      → is_chat reader llm tools ≡ true
      → Turned tools 0 10 a
          ((remember_request reader llm tools i >>= λ _. execute_calls reader llm tools i calls) a)
  unfolding remember_request remember_results call_tools execute_calls add_message
  answered-calls i [] a paired native chat = absurd (none_native i.native paired native)
  answered-calls i (call ∷ rest) a paired native chat =
      rw (remember_request, execute_calls, remember_results, call_tools, native, chat)
        (answer_calls i (call ∷ rest) a paired)

  -- The calls of another response are kept as texts, or are pending.
  remember_request-Turned :
      (i : Interpreted) (a : Agent)
      → (not (is_nil i.native) && is_chat reader llm tools) ≡ false
      → Turned tools 0 0 a (remember_request reader llm tools i a)
  unfolding remember_request Turned Ensures
  remember_request-Turned i a h = elim (Bool-cases (is_nil i.native)) [
    | inl empty ↦ elim (Bool-cases i.parsed.consumed_tool_call_markup) [
      | inl consumed ↦ elim (Bool-cases (is_empty (reader.strip i.parsed.assistant_text))) [
        | inl blank ↦
            rw (remember_request, empty, consumed, blank)
              (still tools a a refl refl (λ start. start))
        | inr shown ↦
            rw (remember_request, empty, consumed, shown) (said-Turned tools Role.assistant _ a)
      ]
      | inr kept ↦ rw (remember_request, empty, kept) (said-Turned tools Role.assistant _ a)
    ]
    | inr native ↦
        let other : is_chat reader llm tools ≡ false = ground (arith, h, native) in
        elim (Bool-cases llm.supports_native_tool_outputs) [
          | inl outputs ↦
              rw (remember_request, native, other, outputs)
                (still tools a a refl refl (λ start. start))
          | inr none_of ↦
              rw (remember_request, native, other, none_of) (said-Turned tools Role.assistant _ a)
        ]
  ]

  memory_of-said : (records : List BatchToolRecord) → IsTranscript (memory_of records ∷ [])
  unfolding memory_of IsTranscript Awaiting
  memory_of-said [] = tt
  memory_of-said (r ∷ []) = tt
  memory_of-said (r ∷ s ∷ rs) = tt

  remember_results-Turned :
      (i : Interpreted) (records : List BatchToolRecord) (a : Agent)
      → (not (is_nil i.native) && is_chat reader llm tools) ≡ false
      → Turned tools 0 0 a (remember_results reader llm tools i records a)
  unfolding remember_results Turned Ensures
  remember_results-Turned i records a h =
      elim (Bool-cases (not (is_nil i.native) && llm.supports_native_tool_outputs)) [
        | inl pending ↦
            rw (remember_results, h, pending) (still tools a _ refl refl (λ start. start))
        | inr memory ↦
            rw (remember_results, h, memory)
              (add_message-Turned tools (memory_of records) a (memory_of-said records))
      ]

  call_tools-Turned :
      (calls : List ToolCall) (a : Agent)
      → Turned tools 0 10 a (call_tools reader llm tools calls a)
  unfolding call_tools Turned Ensures
  call_tools-Turned calls a =
      let after = execute_limited-Ran tools calls a in
      record {
        asked = λ start. (
          subst (Added IsAcceptable 0 a.requests) (sym after.requests)
              (Added-none IsAcceptable a.requests),
          subst IsTranscript (sym after.messages) start,
        );
        ran = after.ran;
        few = omega (arith, ap length after.requests);
        kept = omega (arith, ap length after.requests);
      }

  kept-calls :
      (i : Interpreted) (calls : List ToolCall) (a : Agent)
      → (not (is_nil i.native) && is_chat reader llm tools) ≡ false
      → Turned tools 0 10 a
          ((remember_request reader llm tools i >>= λ _. execute_calls reader llm tools i calls) a)
  unfolding execute_calls add_message
  kept-calls i [] a h = Turned-weaken tools 0 0 0 10 a _ (omega arith) (omega arith) (
      Turned-bind tools 0 0 0 0 a (remember_request reader llm tools i)
        (λ _. add_message (said Role.user no_calls_provided)) (remember_request-Turned i a h)
        (λ v b c. said-Turned tools Role.user no_calls_provided b))
  kept-calls i (call ∷ rest) a h =
      Turned-bind tools 0 0 0 10 a (remember_request reader llm tools i)
        (λ _. call_tools reader llm tools (call ∷ rest) >>= remember_results reader llm tools i)
        (remember_request-Turned i a h)
        (λ v b c.
          Turned-bind tools 0 0 10 0 b (call_tools reader llm tools (call ∷ rest))
            (remember_results reader llm tools i) (call_tools-Turned (call ∷ rest) b)
            (λ records d e. remember_results-Turned i records d h))

  pub use_tools-Turned :
      (i : Interpreted) (a : Agent)
      → IsPaired i
      → Turned tools 0 10 a (use_tools reader llm tools i a)
  unfolding use_tools IsPaired
  use_tools-Turned i a paired = elim (Bool-cases (is_nil i.native)) [
    | inl empty ↦ kept-calls i i.parsed.tool_calls a (ground (arith, empty))
    | inr native ↦ elim (Bool-cases (is_chat reader llm tools)) [
      | inl chat ↦ answered-calls i i.parsed.tool_calls a (paired native) native chat
      | inr other ↦ kept-calls i i.parsed.tool_calls a (ground (arith, other, native))
    ]
  ]
