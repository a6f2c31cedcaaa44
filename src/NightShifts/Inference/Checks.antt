-- ===== src/NightShifts/Inference/Checks.antt =====
-- `TrustedInferenceGateway._validate_request` and `_validate_response` of
-- night_shifts/inference.py.
use Prim.Native.String.{len, count}
use simple_ai_agent.Common.{
  ℕ, ◌+◌, String, Bool, true, false, not, ◌&&◌, ◌||◌, Option, none, some, List, [], ◌∷◌, ◌++◌, ◌==◌,
  Result, ok, err, ltb, eqb, contains, length, map, if◌then◌else◌,
}
use simple_ai_agent.Common.Int.{pos_part}
use simple_ai_agent.NightShifts.Policy.{InferenceLimits}
use simple_ai_agent.NightShifts.Inference.{
  InferenceToolCall, InferenceMessage, InferenceRole, InferenceRequest, InferenceResponse,
  WorkerToolSpec, tools_of, is_call_id, max_argument_bytes,
}

-- The exceptions of the boundary, in the order of the code.
pub data BoundaryError : Type 0 where
  empty_job unknown_profile unknown_model not_owned policy_mismatch no_cancellation unavailable :
      BoundaryError
  expired wrong_job wrong_profile request_limit : BoundaryError
  message_count tools_mismatch bad_schema schema_limit : BoundaryError
  transcript_call_count duplicate_call calls_outside_assistant unmatched_result stray_call_id :
      BoundaryError
  input_limit bad_call_id unauthorized_tool bad_arguments unserializable_arguments : BoundaryError
  argument_limit invalid_response response_call_count output_limit empty_response model_raised :
      BoundaryError

abbrev pub Checked : Type 0 → Type 0
Checked A = Result BoundaryError A

infixl 5 ◌and_then◌
abbrev pub ◌and_then◌ : {A B : Type 0} → Checked A → (A → Checked B) → Checked B
(ok a) and_then f = f a
(err e) and_then f = err e

abbrev pub refuse_if : Bool → BoundaryError → Checked (Unit {0})
refuse_if b e = if b then err e else ok tt

-- `_validate_tool_call`
unfoldable pub check_call : List String → InferenceToolCall → Checked (Unit {0})
check_call allowed call =
    if not (is_call_id call.call_id)
    then err bad_call_id
    else if not (contains call.name allowed)
    then err unauthorized_tool
    else if not call.arguments.is_object
    then err bad_arguments
    else elim call.arguments.sorted_bytes [
      | none ↦ err unserializable_arguments
      | some size ↦ refuse_if (ltb max_argument_bytes size) argument_limit
    ]

-- `_tool_call_size`, of a call that was checked.
unfoldable pub call_size : InferenceToolCall → ℕ
call_size call =
    len call.call_id
    + len call.name
    + elim call.arguments.sorted_bytes [ none ↦ 0 | some size ↦ size ]

-- The loop over the calls of an assistant's message or of a response: `twice` is what it raises on
-- an identifier that it knows; it returns the identifiers known, and the bytes counted.
unfoldable pub check_calls :
    BoundaryError
    → List String
    → List InferenceToolCall
    → List String
    → ℕ
    → Checked (List String × ℕ)
unfolding check_call call_size
check_calls twice allowed [] known total = ok (known, total)
check_calls twice allowed (call ∷ rest) known total =
    let others =
      check_calls twice allowed rest (known ++ call.call_id ∷ []) (total + call_size call) in
    check_call allowed call and_then λ _.
    refuse_if (contains call.call_id known) twice and_then λ _. others

-- `actual_tools != expected_tools`; the expected names are all different.
unfoldable pub same_names : List String → List String → Bool
same_names [] [] = true
same_names (a ∷ as') (b ∷ bs) = a == b && same_names as' bs
same_names _ _ = false

unfoldable pub is_empty : List InferenceToolCall → Bool
is_empty [] = true
is_empty (c ∷ cs) = false

-- `message.tool_call_id` against the calls known, for a message of the role `tool`.
unfoldable pub is_known : Option String → List String → Bool
is_known none known = false
is_known (some id) known = contains id known

is_some : Option String → Bool
is_some none = false
is_some (some id) = true

is_tool : InferenceRole → Bool
is_tool InferenceRole.tool = true
is_tool _ = false

is_assistant : InferenceRole → Bool
is_assistant InferenceRole.assistant = true
is_assistant _ = false

-- The rules on `tool_call_id`.
unfoldable pub check_reference : InferenceMessage → List String → Checked (Unit {0})
unfolding is_known is_some is_tool
check_reference message known =
    if is_tool message.role
    then refuse_if (not (is_known message.tool_call_id known)) unmatched_result
    else refuse_if (is_some message.tool_call_id) stray_call_id

-- The rules on the calls of a message; `total` counts its content already.
unfoldable pub check_message_calls :
    InferenceLimits → List String → InferenceMessage → List String → ℕ → Checked (List String × ℕ)
unfolding is_assistant is_empty check_calls
check_message_calls limits allowed message known total =
    if is_assistant message.role
    then (refuse_if (ltb (pos_part limits.max_tool_calls_per_response) (length message.tool_calls))
          transcript_call_count
        and_then λ _. check_calls duplicate_call allowed message.tool_calls known total)
    else (refuse_if (not (is_empty message.tool_calls)) calls_outside_assistant and_then λ _.
        ok (known, total))

-- The body of the loop over the messages: the calls known and the bytes counted so far. A role is
-- one of the four.
unfoldable pub check_message :
    InferenceLimits → List String → InferenceMessage → List String × ℕ → Checked (List String × ℕ)
unfolding check_message_calls check_reference
check_message limits allowed message (known, total) =
    check_message_calls limits allowed message known (total + len message.content)
    and_then λ counted. check_reference message (counted.0) and_then λ _. ok counted

unfoldable pub check_messages :
    InferenceLimits
    → List String
    → List InferenceMessage
    → List String × ℕ
    → Checked (List String × ℕ)
unfolding check_message
check_messages limits allowed [] counted = ok counted
check_messages limits allowed (message ∷ rest) counted =
    check_message limits allowed message counted and_then λ next.
    check_messages limits allowed rest next

-- `_validate_request`; `schema_bytes` is the size of the dumped schemas, if they can be dumped.
unfoldable pub check_request :
    (List WorkerToolSpec → Option ℕ)
    → InferenceLimits
    → String
    → InferenceRequest
    → Checked (Unit {0})
unfolding check_messages tools_of same_names
check_request schema_bytes limits profile request =
    let names = map (λ (t : WorkerToolSpec). t.name) request.tools in
    let expected = tools_of profile in
    refuse_if
      (eqb (length request.messages) 0
        || ltb (pos_part limits.max_messages) (length request.messages))
      message_count
    and_then λ _. refuse_if (not (same_names names expected)) tools_mismatch and_then λ _.
        elim (schema_bytes request.tools) [
          | none ↦ err bad_schema
          | some size ↦
              refuse_if (ltb (pos_part limits.max_tool_schema_bytes) size) schema_limit
              and_then λ _.
                  check_messages limits expected request.messages ([], 0) and_then λ counted.
                  refuse_if (ltb (pos_part limits.max_input_bytes) (counted.1)) input_limit
        ]

-- `_validate_response`; `none` is an object of another type.
unfoldable pub check_response :
    (String → String) → InferenceLimits → String → Option InferenceResponse → Checked (Unit {0})
unfolding check_calls tools_of is_empty
check_response strip limits profile none = err invalid_response
check_response strip limits profile (some response) =
    let allowed = tools_of profile in
    refuse_if (ltb (pos_part limits.max_tool_calls_per_response) (length response.tool_calls))
      response_call_count
    and_then λ _.
        check_calls duplicate_call allowed response.tool_calls [] (len response.content)
        and_then λ counted.
            refuse_if (ltb (pos_part limits.max_output_bytes) (counted.1)) output_limit
            and_then λ _.
                refuse_if (eqb (count (strip response.content)) 0 && is_empty response.tool_calls)
                  empty_response
