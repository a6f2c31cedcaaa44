-- ===== src/Core/Agent/Transcript.antt =====
-- The transcript of Chat Completions: a message that asks for tools is followed by their answers.
use simple_ai_agent.Common.{◌≡◌, refl, String, List, [], ◌∷◌, ◌++◌, length, arith}
use simple_ai_agent.Core.Agent.{
  NativeToolCall, BatchToolRecord, Role, words, finish_now, retry_empty, retry_invalid, tool_result,
  batch_result, no_calls_provided, call_summary, Message, said, asks, answers, Request,
  chat_request, output_request,
}
use simple_ai_agent.Core.Agent.Reading.{zip, results_of, messages_with_context}

-- The messages, while the answers to some calls are still to come.
unfoldable pub Awaiting : List NativeToolCall → List Message → Type 0
Awaiting [] [] = Unit
Awaiting [] (said role content ∷ ms) = Awaiting [] ms
Awaiting [] (asks content calls ∷ ms) = Awaiting calls ms
Awaiting [] (answers call output ∷ ms) = ⊥
Awaiting (c ∷ cs) [] = ⊥
Awaiting (c ∷ cs) (said role content ∷ ms) = ⊥
Awaiting (c ∷ cs) (asks content calls ∷ ms) = ⊥
Awaiting (c ∷ cs) (answers call output ∷ ms) = (call ≡ c) × Awaiting cs ms

-- Each message that asks for calls is followed by their answers, in order, and by no others.
unfoldable pub IsTranscript : List Message → Type 0
unfolding Awaiting
IsTranscript ms = Awaiting [] ms

-- A request that sends messages sends a transcript.
unfoldable pub IsAcceptable : Request → Type 0
unfolding IsTranscript
IsAcceptable (chat_request ms) = IsTranscript ms
IsAcceptable (output_request outputs) = Unit

pub Awaiting-append :
    (cs : List NativeToolCall) (xs ys : List Message)
    → Awaiting cs xs
    → Awaiting [] ys
    → Awaiting cs (xs ++ ys)
unfolding Awaiting
Awaiting-append [] [] ys h k = k
Awaiting-append [] (said role content ∷ xs) ys h k = Awaiting-append [] xs ys h k
Awaiting-append [] (asks content calls ∷ xs) ys h k = Awaiting-append calls xs ys h k
Awaiting-append [] (answers call output ∷ xs) ys h k = absurd h
Awaiting-append (c ∷ cs) [] ys h k = absurd h
Awaiting-append (c ∷ cs) (said role content ∷ xs) ys h k = absurd h
Awaiting-append (c ∷ cs) (asks content calls ∷ xs) ys h k = absurd h
Awaiting-append (c ∷ cs) (answers call output ∷ xs) ys (own, h) k =
    (own, Awaiting-append cs xs ys h k)

-- The answers that a batch gives, if it has a record for each call.
pub results_of-Awaiting :
    (records : List BatchToolRecord) (calls : List NativeToolCall)
    → length records ≡ length calls
    → Awaiting calls (results_of (zip records calls))
unfolding Awaiting zip results_of
results_of-Awaiting [] [] same = tt
results_of-Awaiting [] (c ∷ cs) same = absurd (omega arith)
results_of-Awaiting (r ∷ rs) [] same = absurd (omega arith)
results_of-Awaiting (r ∷ rs) (c ∷ cs) same = (refl, results_of-Awaiting rs cs (omega arith))

-- The context of a request leaves a transcript one.
pub messages_with_context-IsTranscript :
    (context : String) (ms : List Message)
    → IsTranscript ms
    → IsTranscript (messages_with_context context ms)
unfolding IsTranscript Awaiting messages_with_context
messages_with_context-IsTranscript context [] h = h
messages_with_context-IsTranscript context (said Role.system (words base) ∷ ms) h = h
messages_with_context-IsTranscript context (said Role.system (finish_now n) ∷ ms) h = h
messages_with_context-IsTranscript context (said Role.system (retry_empty b) ∷ ms) h = h
messages_with_context-IsTranscript context (said Role.system (retry_invalid e) ∷ ms) h = h
messages_with_context-IsTranscript context (said Role.system (tool_result s t) ∷ ms) h = h
messages_with_context-IsTranscript context (said Role.system (batch_result rs) ∷ ms) h = h
messages_with_context-IsTranscript context (said Role.system no_calls_provided ∷ ms) h = h
messages_with_context-IsTranscript context (said Role.system (call_summary cs) ∷ ms) h = h
messages_with_context-IsTranscript context (said Role.user content ∷ ms) h = h
messages_with_context-IsTranscript context (said Role.assistant content ∷ ms) h = h
messages_with_context-IsTranscript context (asks content calls ∷ ms) h = h
messages_with_context-IsTranscript context (answers call output ∷ ms) h = h
