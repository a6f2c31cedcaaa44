-- ===== src/Core/Protocol/Textual.antt =====
-- core/protocol.py: calls in the markup of textual tool calls.
use Prim.Native.String.{len, slice}
use text.Mathlib.Text.{starts_with}
use simple_ai_agent.Common.{
  String, true, not, ◌||◌, Option, none, some, List, [], ◌∷◌, ◌==◌, Result, ok, err, ltb, eqb,
  length, get_or, if◌then◌else◌,
}
use simple_ai_agent.Core.Json.{
  Json, null, Members, no_member, member, keys_of, find_member, as_text, as_object,
}
use simple_ai_agent.Core.Protocol.Values.{
  max_tool_calls_per_turn, Loaded, loaded, malformed, raises, Reader, ToolCall, BodyError,
  ParsedResponse, of_calls, of_error, is_empty, only_of, bad_json, not_object, unsupported_key,
  bad_recipient, bad_parameters, empty_name, too_many_textual_calls, bad_bodies,
}

module _ (reader : Reader) where
  -- `_normalize_textual_recipient_name`
  unfoldable pub normalize_name : String → String
  normalize_name name =
      let clean = reader.strip name in
      if starts_with clean "functions." then slice clean 10 (len clean) else clean

  -- The value that a text is read as: itself if it is malformed; `none` for an exception.
  unfoldable pub decoded_or : Json → Loaded → Option Json
  decoded_or value (loaded j) = some j
  decoded_or value malformed = some value
  decoded_or value raises = none

  -- `_maybe_json_decode_string`; `none` for an exception that escapes it, as below.
  unfoldable pub maybe_json_decode : Json → Option Json
  unfolding as_text decoded_or
  maybe_json_decode value = elim (as_text value) [
    | none ↦ some value
    | some s ↦
        let stripped = reader.strip s in
        if starts_with stripped "{"
          || starts_with stripped "["
          || starts_with stripped "\""
          || stripped == "true"
          || stripped == "false"
          || stripped == "null"
        then decoded_or value (reader.loads stripped)
        else some value
  ]

  unfoldable pub add_parameter : String → Option Json → Option Members → Option Members
  add_parameter key (some j) (some fixed) = some (member key j fixed)
  add_parameter key _ _ = none

  -- `_coerce_textual_parameters`
  unfoldable pub coerce_parameters : Members → Option Members
  unfolding maybe_json_decode add_parameter
  coerce_parameters no_member = some no_member
  coerce_parameters (member key j rest) =
      add_parameter key (maybe_json_decode j) (coerce_parameters rest)

  unfoldable pub object_of : Option Json → Option (Option Members)
  unfolding as_object
  object_of none = none
  object_of (some j) = some (as_object j)

  -- `parameters` as it is read: absent or null is empty, and a text may hold an object, or not.
  unfoldable pub read_parameters : Option Json → Option (Option Members)
  unfolding object_of maybe_json_decode
  read_parameters none = some (some no_member)
  read_parameters (some null) = some (some no_member)
  read_parameters (some j) = object_of (maybe_json_decode j)

  -- The call with its parameters as they were coerced.
  unfoldable pub coerced_call : String → Option Members → Option (Result BodyError ToolCall)
  unfolding normalize_name
  coerced_call name none = none
  coerced_call name (some m) = some (ok (record { action = normalize_name name; tool_input = m }))

  -- What is done with `parameters` once it is read.
  unfoldable pub as_call : String → Option (Option Members) → Option (Result BodyError ToolCall)
  unfolding normalize_name coerce_parameters coerced_call
  as_call name none = none
  as_call name (some none) = some (err bad_parameters)
  as_call name (some (some m)) =
      if is_empty (normalize_name name)
      then some (err empty_name)
      else coerced_call name (coerce_parameters m)

  unfoldable pub read_body : Members → Option (Result BodyError ToolCall)
  unfolding as_text find_member read_parameters as_call
  read_body fields = elim (as_text (get_or (find_member "recipient_name" fields) null)) [
    | none ↦ some (err bad_recipient)
    | some name ↦
        if is_empty (reader.strip name)
        then some (err bad_recipient)
        else as_call name (read_parameters (find_member "parameters" fields))
  ]

  -- The body of a textual call, once it is an object.
  unfoldable pub parse_body_object : Members → Option (Result BodyError ToolCall)
  unfolding only_of keys_of read_body
  parse_body_object fields =
      if not (only_of ("recipient_name" ∷ "parameters" ∷ []) (keys_of fields))
      then some (err unsupported_key)
      else read_body fields

  -- What `json.loads` did with the body.
  unfoldable pub loaded_body : Loaded → Option (Result BodyError ToolCall)
  unfolding as_object parse_body_object
  loaded_body malformed = some (err bad_json)
  loaded_body raises = none
  loaded_body (loaded j) = elim (as_object j) [
    | none ↦ some (err not_object)
    | some fields ↦ parse_body_object fields
  ]

  -- `_parse_textual_tool_call_body`
  unfoldable pub parse_body : String → Option (Result BodyError ToolCall)
  unfolding loaded_body
  parse_body body = loaded_body (reader.loads body)

  -- Errors and calls are gathered apart.
  unfoldable pub add_body :
      Option (Result BodyError ToolCall)
      → Option (List BodyError × List ToolCall)
      → Option (List BodyError × List ToolCall)
  add_body (some (ok call)) (some (errors, calls)) = some (errors, call ∷ calls)
  add_body (some (err e)) (some (errors, calls)) = some (e ∷ errors, calls)
  add_body none others = none
  add_body _ none = none

  -- The loop over the matches: the errors and the calls, each in order.
  unfoldable pub parse_bodies : List String → Option (List BodyError × List ToolCall)
  unfolding parse_body add_body
  parse_bodies [] = some ([], [])
  parse_bodies (body ∷ rest) = add_body (parse_body (reader.strip body)) (parse_bodies rest)

  unfoldable pub after_bodies :
      String → Option (List BodyError × List ToolCall) → Option (Option ParsedResponse)
  unfolding of_calls of_error
  after_bodies s none = none
  after_bodies s (some ([], calls)) = some (
      some (record (of_calls calls) {
        assistant_text = reader.strip (reader.without_bodies s);
        consumed_tool_call_markup = true;
      }))
  after_bodies s (some (e ∷ errors, calls)) = some (some (of_error (bad_bodies (e ∷ errors))))

  -- `_extract_textual_tool_calls`, which returns None for a text without such calls.
  unfoldable pub extract_textual_tool_calls : String → Option (Option ParsedResponse)
  unfolding of_error parse_bodies after_bodies
  extract_textual_tool_calls s =
      let matches = reader.bodies s in
      if eqb (length matches) 0
      then some none
      else if ltb max_tool_calls_per_turn (length matches)
      then some (some (of_error (too_many_textual_calls (length matches))))
      else after_bodies s (parse_bodies matches)
