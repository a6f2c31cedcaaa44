-- ===== src/NightShifts/Inference/Transcript.antt =====
-- Transcripts that the gateway accepts, extended by one message.
use Prim.Native.String.{len}
use simple_ai_agent.Common.{
  ℕ, ◌+◌, ◌≡◌, refl, sym, ap, ◌∙◌, String, true, false, ◌||◌, none, some, List, [], ◌∷◌, ◌++◌, ok,
  err, arith, ltb, contains, length, map, append_assoc, append-nil,
}
use simple_ai_agent.Common.Int.{pos_part}
use simple_ai_agent.NightShifts.Policy.{InferenceLimits}
use simple_ai_agent.NightShifts.Inference.{InferenceToolCall, InferenceMessage, InferenceRole}
use simple_ai_agent.NightShifts.Inference.Checks.{
  BoundaryError, duplicate_call, Checked, ◌and_then◌, check_call, call_size, check_calls,
  check_message_calls, check_reference, check_message, check_messages, is_known,
}

abbrev pub ids : List InferenceToolCall → List String
ids calls = map (λ (c : InferenceToolCall). c.call_id) calls

pub contains-append :
    (k : String) (xs ys : List String) → contains k (xs ++ ys) ≡ (contains k xs || contains k ys)
contains-append k [] ys = refl
contains-append k (x ∷ xs) ys = ground (arith, contains-append k xs ys)

-- Each call of the list passes the check.
unfoldable pub AllChecked : List String → List InferenceToolCall → Type 0
unfolding check_call
AllChecked allowed [] = Unit
AllChecked allowed (c ∷ cs) = (check_call allowed c ≡ ok tt) × AllChecked allowed cs

pub check_calls-AllChecked :
    (twice : BoundaryError) (allowed : List String) (calls : List InferenceToolCall)
    (known : List String) (total : ℕ) {counted : List String × ℕ}
    → check_calls twice allowed calls known total ≡ ok counted
    → AllChecked allowed calls
unfolding AllChecked check_calls
check_calls-AllChecked twice allowed [] known total h = tt
check_calls-AllChecked twice allowed (c ∷ cs) known total {counted = counted} h = ground (
  arith,
  h,
  check_calls-AllChecked twice allowed cs (known ++ c.call_id ∷ []) (total + call_size c)
      {counted = counted},
)

-- Identifiers that are new, one after the other.
unfoldable pub AllNew : List String → List InferenceToolCall → Type 0
AllNew known [] = Unit
AllNew known (c ∷ cs) = (contains c.call_id known ≡ false) × AllNew (known ++ c.call_id ∷ []) cs

pub check_calls_ok :
    (twice : BoundaryError) (allowed : List String) (calls : List InferenceToolCall)
    (known : List String) (total : ℕ)
    → AllChecked allowed calls
    → AllNew known calls
    → (after : ℕ) × (check_calls twice allowed calls known total ≡ ok (known ++ ids calls, after))
unfolding AllChecked AllNew check_calls
check_calls_ok twice allowed [] known total checked new =
    (total, ap (λ k. ok (k, total)) (sym (append-nil known)))
check_calls_ok twice allowed (c ∷ cs) known total (fine, checked) (new, later) =
    let (after, rest) =
      check_calls_ok twice allowed cs (known ++ c.call_id ∷ []) (total + call_size c) checked
        later in
    (
      after,
      rw (fine, new)
          (rest ∙ ap (λ k. ok (k, after)) (append_assoc known (c.call_id ∷ []) (ids cs))),
    )

-- How a block of checks that returns goes on.
and_then_ok : {A : Type 0} (r : Checked A) → (r and_then (λ a. ok a)) ≡ r
and_then_ok (ok a) = refl
and_then_ok (err e) = refl

and_then_step :
    {A B C : Type 0} (r : Checked A) (f : A → Checked B) (g : B → Checked C) (h : A → Checked C)
    → ((a : A) → h a ≡ (f a and_then g))
    → (r and_then h) ≡ ((r and_then f) and_then g)
and_then_step (ok a) f g h same = same a
and_then_step (err e) f g h same = refl

module _ (limits : InferenceLimits) (allowed : List String) where
  check_messages-append :
      (messages : List InferenceMessage) (message : InferenceMessage) (counted : List String × ℕ)
      → check_messages limits allowed (messages ++ message ∷ []) counted ≡ (
          check_messages limits allowed messages counted and_then λ next.
          check_message limits allowed message next)
  unfolding check_messages
  check_messages-append [] message counted =
      and_then_ok (check_message limits allowed message counted)
  check_messages-append (m ∷ ms) message counted =
      and_then_step (check_message limits allowed m counted)
        (λ next. check_messages limits allowed ms next)
        (λ next. check_message limits allowed message next)
        (λ next. check_messages limits allowed (ms ++ message ∷ []) next)
        (λ next. check_messages-append ms message next)

  -- A transcript that the rules accept, after which the calls of `known` are known; only the
  -- limits on its length and size are left out.
  unfoldable pub IsTranscript : List String → List InferenceMessage → Type 0
  unfolding check_messages
  IsTranscript known messages =
      (total : ℕ) × (check_messages limits allowed messages ([], 0) ≡ ok (known, total))

  extended :
      (known known' : List String) (messages : List InferenceMessage) (message : InferenceMessage)
      → IsTranscript known messages
      → ((total : ℕ)
          → (total' : ℕ) × (check_message limits allowed message (known, total)
              ≡ ok (known', total')))
      → IsTranscript known' (messages ++ message ∷ [])
  unfolding IsTranscript
  extended known known' messages message (total, fine) one =
      let (total', accepted) = one total in
      (total', check_messages-append messages message ([], 0) ∙ rw fine accepted)

  -- The result of a call that is known may follow.
  pub IsTranscript-tool :
      (known : List String) (messages : List InferenceMessage) (id output : String)
      → contains id known ≡ true
      → IsTranscript known messages
      → IsTranscript known (
          messages
          ++ (record {
            role = InferenceRole.tool;
            content = output;
            tool_calls = [];
            tool_call_id = some id;
          })
            ∷ [])
  unfolding check_message check_message_calls check_reference is_known
  IsTranscript-tool known messages id output found fine =
      extended known known messages _ fine (λ total. (total + len output, rw found refl))

  -- A message with calls that are valid and new may follow.
  pub IsTranscript-assistant :
      (known : List String) (messages : List InferenceMessage) (content : String)
      (calls : List InferenceToolCall)
      → ltb (pos_part limits.max_tool_calls_per_response) (length calls) ≡ false
      → AllChecked allowed calls
      → AllNew known calls
      → IsTranscript known messages
      → IsTranscript (known ++ ids calls) (
          messages
          ++ (record {
            role = InferenceRole.assistant;
            content = content;
            tool_calls = calls;
            tool_call_id = none;
          })
            ∷ [])
  unfolding check_message check_message_calls check_reference
  IsTranscript-assistant known messages content calls few checked new fine =
      extended known (known ++ ids calls) messages _ fine (λ total.
        let (after, counted) =
          check_calls_ok duplicate_call allowed calls known (total + len content) checked new in
        (after, rw (few, counted) refl))
