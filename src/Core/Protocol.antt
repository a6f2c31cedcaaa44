-- ===== src/Core/Protocol.antt =====
-- core/protocol.py: from the text that a model answers to a `ParsedResponse`.
mod Values
mod Textual
pub mod Shape
pub mod Bodies
pub mod Parsed
pub mod RoundTrip
mod Tests
use Prim.Native.String.{len, count, slice}
use text.Mathlib.Text.{starts_with, find?}
use simple_ai_agent.Common.{
  ℕ, String, Bool, true, false, not, ◌&&◌, ◌||◌, Option, none, some, List, [], ◌∷◌, ◌++◌, ◌==◌,
  Result, ok, err, ltb, eqb, contains, length, any, get_or, if◌then◌else◌,
}
use simple_ai_agent.Core.Json.{
  Json, null, boolean, number, str, array, object, Items, Members, no_member, member, keys_of,
  find_member, as_text, as_object, as_array,
}
unfoldable pub use Values.{of_calls, of_final, of_error, of_result, only_of, add_call}
pub use Values.{
  max_tool_calls_per_turn, Loaded, loaded, malformed, raises, Reader, ToolCall, BodyError,
  ParseError, Kind, ParsedResponse, is_within, is_empty, bad_json, not_object, unsupported_key,
  bad_recipient, bad_parameters, empty_name, empty_response, not_an_array, no_calls,
  entry_not_object, mixed_root, unsupported_keys, missing_keys, action_not_text, empty_action,
  input_not_object, too_many_calls, too_many_textual_calls, bad_bodies, malformed_markup,
  broken_call, embedded_call,
}
unfoldable pub use Textual.{
  normalize_name, decoded_or, maybe_json_decode, add_parameter, coerce_parameters, read_parameters,
  as_call, coerced_call, object_of, loaded_body, read_body, add_body, parse_body_object, parse_body,
  parse_bodies, after_bodies, extract_textual_tool_calls,
}

module _ (reader : Reader) where
  -- The checks of an object with both keys.
  unfoldable pub validate_fields : Json → Json → Result ParseError ToolCall
  unfolding as_text as_object
  validate_fields action input = elim (as_text action) [
    | none ↦ err action_not_text
    | some name ↦
        if is_empty (reader.strip name) then err empty_action else elim (as_object input) [
          | none ↦ err input_not_object
          | some m ↦ ok (record { action = reader.strip name; tool_input = m })
        ]
  ]

  -- `_validate_single_tool_call_dict`, of an object.
  unfoldable pub validate_single_tool_call_dict : Members → Result ParseError ToolCall
  unfolding only_of keys_of find_member validate_fields
  validate_single_tool_call_dict fields =
      if not (only_of ("action" ∷ "input" ∷ []) (keys_of fields))
      then err unsupported_keys
      else if not (only_of (keys_of fields) ("action" ∷ "input" ∷ []))
      then err missing_keys
      else validate_fields (get_or (find_member "action" fields) null)
          (get_or (find_member "input" fields) null)

  unfoldable pub validate_entry : Json → Result ParseError ToolCall
  unfolding as_object validate_single_tool_call_dict
  validate_entry entry = elim (as_object entry) [
    | none ↦ err entry_not_object
    | some fields ↦ validate_single_tool_call_dict fields
  ]

  -- The loop of `_validate_tool_call_list`.
  unfoldable pub validate_entries : List Json → Result ParseError (List ToolCall)
  unfolding validate_entry add_call
  validate_entries [] = ok []
  validate_entries (entry ∷ rest) = add_call (validate_entry entry) (validate_entries rest)

  unfoldable pub validate_tool_call_list : Json → Result ParseError (List ToolCall)
  unfolding as_array validate_entries
  validate_tool_call_list value = elim (as_array value) [
    | none ↦ err not_an_array
    | some items ↦
        if eqb (length items) 0
        then err no_calls
        else if ltb max_tool_calls_per_turn (length items)
        then err (too_many_calls (length items))
        else validate_entries items
  ]

  -- `_contains_embedded_tool_call`: once both keys are there, its loop and its fallback agree.
  unfoldable pub contains_embedded_tool_call : String → Bool
  contains_embedded_tool_call s = is_within "\"action\"" s && is_within "\"input\"" s

  unfoldable pub looks_like_broken_tool_call : String → Bool
  looks_like_broken_tool_call s =
      let clean = reader.strip s in
      not (is_empty clean)
      && (starts_with clean "```" || starts_with clean "{")
      && is_within "\"action\"" clean

  -- `{"final": …}`, and any other object.
  unfoldable pub parse_final : String → Members → ParsedResponse
  unfolding keys_of find_member as_text of_final
  parse_final s fields = elim (as_text (get_or (find_member "final" fields) null)) [
    | none ↦ of_final s
    | some answer ↦ if eqb (length (keys_of fields)) 1 then of_final answer else of_final s
  ]

  -- `_tool`, or the error.
  unfoldable pub single_response : Result ParseError ToolCall → ParsedResponse
  unfolding of_calls of_error
  single_response (ok call) = of_calls (call ∷ [])
  single_response (err e) = of_error e

  -- The branches on the object that the whole text is.
  unfoldable pub parse_object : String → Members → ParsedResponse
  unfolding keys_of find_member of_error of_result single_response validate_tool_call_list
      validate_single_tool_call_dict parse_final
  parse_object s fields =
      let keys = keys_of fields in
      if contains "tool_calls" keys
      then (if contains "action" keys || contains "input" keys
          then of_error mixed_root
          else of_result (validate_tool_call_list (get_or (find_member "tool_calls" fields) null)))
      else if contains "action" keys || contains "input" keys
      then single_response (validate_single_tool_call_dict fields)
      else parse_final s fields

  -- A text that is not JSON.
  unfoldable pub parse_prose : String → String → ParsedResponse
  unfolding of_final of_error looks_like_broken_tool_call contains_embedded_tool_call
  parse_prose s clean =
      if looks_like_broken_tool_call clean
      then of_error broken_call
      else if contains_embedded_tool_call clean
      then of_error embedded_call
      else of_final s

  unfoldable pub parse_value : String → Json → ParsedResponse
  unfolding as_object of_final parse_object
  parse_value s value = elim (as_object value) [
    | none ↦ of_final s
    | some fields ↦ parse_object s fields
  ]

  -- What `json.loads` did with the text: only JSONDecodeError is caught.
  unfoldable pub parse_loaded : String → String → Loaded → Option ParsedResponse
  unfolding parse_prose parse_value
  parse_loaded s clean malformed = some (parse_prose s clean)
  parse_loaded s clean (loaded j) = some (parse_value s j)
  parse_loaded s clean raises = none

  unfoldable pub parse_json : String → String → Option ParsedResponse
  unfolding parse_loaded
  parse_json s clean = parse_loaded s clean (reader.loads clean)

  -- The rest of `parse`, after the search for textual calls.
  unfoldable pub parse_rest :
      String → String → Option (Option ParsedResponse) → Option ParsedResponse
  unfolding of_error parse_json
  parse_rest s clean none = none
  parse_rest s clean (some (some parsed)) = some parsed
  parse_rest s clean (some none) =
      if is_within "<tool_call>" (reader.lower clean)
        || is_within "</tool_call>" (reader.lower clean)
      then some (of_error malformed_markup)
      else parse_json s clean

  -- `parse`, of a text; `none` for an exception of `json.loads` that escapes it.
  unfoldable pub parse : String → Option ParsedResponse
  unfolding of_error extract_textual_tool_calls parse_rest
  parse s =
      let clean = reader.strip s in
      if is_empty clean
      then some (of_error empty_response)
      else parse_rest s clean (extract_textual_tool_calls reader clean)
