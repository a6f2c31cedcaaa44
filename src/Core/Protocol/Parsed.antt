-- ===== src/Core/Protocol/Parsed.antt =====
-- What `parse` returns.
use simple_ai_agent.Common.{
  ◌||◌, ◌≡◌, ◌⊎◌, Option, none, some, refl, String, Result, ok, err, arith, eqb, contains, length,
  get_or, Bool-cases, Option-cases, inl, inr,
}
use simple_ai_agent.Core.Json.{
  Json, null, object, Members, keys_of, find_member, as_text, as_object,
}
use simple_ai_agent.Core.Protocol.{
  Reader, Loaded, loaded, malformed, raises, ToolCall, ParsedResponse, ParseError, of_error,
  parse_loaded, parse_rest, of_calls, of_result, validate_single_tool_call_dict,
  extract_textual_tool_calls, parse_final, parse_object, parse_prose, parse_value, parse_json,
  parse, single_response, mixed_root, looks_like_broken_tool_call, contains_embedded_tool_call,
  broken_call, embedded_call, empty_response, malformed_markup,
}
use simple_ai_agent.Core.Protocol.Shape.{
  IsShaped, Shaped, Named, final-Shaped, error-Shaped, result-Shaped,
  validate_tool_call_list-Counted, validate_entry-Named,
}
use simple_ai_agent.Core.Protocol.Bodies.{
  Answers, ShapedIfAny, ReadsBodies, if-Answers, extract-Answers,
}

module _ (reader : Reader) where
  parse_final-Shaped : (s : String) (fields : Members) → Shaped (parse_final reader s fields)
  unfolding parse_final
  parse_final-Shaped s fields =
      elim (Option-cases (as_text (get_or (find_member "final" fields) null))) [
        | inl missing ↦ rw (parse_final, missing) (final-Shaped s)
        | inr (answer, there) ↦ elim (Bool-cases (eqb (length (keys_of fields)) 1)) [
          | inl alone ↦ rw (parse_final, there, alone) (final-Shaped answer)
          | inr more ↦ rw (parse_final, there, more) (final-Shaped s)
        ]
      ]

  single-Shaped : (r : Result ParseError ToolCall) → Named r → Shaped (single_response reader r)
  unfolding single_response of_result of_calls IsShaped
  single-Shaped (err e) named = error-Shaped e
  single-Shaped (ok call) named = (omega arith, omega arith, (named, tt), refl, refl)

  parse_object-Shaped : (s : String) (fields : Members) → Shaped (parse_object reader s fields)
  unfolding parse_object
  parse_object-Shaped s fields =
      let keys = keys_of fields in
      elim (Bool-cases (contains "tool_calls" keys)) [
        | inl batch ↦ elim (Bool-cases (contains "action" keys || contains "input" keys)) [
          | inl mixed ↦ rw (batch, mixed) (error-Shaped mixed_root)
          | inr pure ↦
              rw (batch, pure)
                (result-Shaped _ (
                  validate_tool_call_list-Counted reader
                    (get_or (find_member "tool_calls" fields) null)))
        ]
        | inr no_batch ↦ elim (Bool-cases (contains "action" keys || contains "input" keys)) [
          | inl one ↦
              rw (no_batch, one)
                (single-Shaped (validate_single_tool_call_dict reader fields)
                  (validate_entry-Named reader (object fields)))
          | inr neither ↦ rw (no_batch, neither) (parse_final-Shaped s fields)
        ]
      ]

  parse_prose-Shaped : (s clean : String) → Shaped (parse_prose reader s clean)
  unfolding parse_prose
  parse_prose-Shaped s clean = elim (Bool-cases (looks_like_broken_tool_call reader clean)) [
    | inl broken ↦ rw broken (error-Shaped broken_call)
    | inr whole ↦ elim (Bool-cases (contains_embedded_tool_call reader clean)) [
      | inl inside ↦ rw (whole, inside) (error-Shaped embedded_call)
      | inr plain ↦ rw (whole, plain) (final-Shaped s)
    ]
  ]

  parse_value-Shaped : (s : String) (j : Json) → Shaped (parse_value reader s j)
  unfolding parse_value
  parse_value-Shaped s j = elim (Option-cases (as_object j)) [
    | inl other ↦ rw (parse_value, other) (final-Shaped s)
    | inr (fields, there) ↦ rw (parse_value, there) (parse_object-Shaped s fields)
  ]

  -- The texts that a response gives to `json.loads`: the whole of it, trimmed, and those that are
  -- read in the bodies of its textual calls.
  unfoldable pub Reads : String → String → Type 0
  Reads s t = (t ≡ reader.strip s) ⊎ ReadsBodies reader (reader.bodies (reader.strip s)) t

  loaded-Shaped :
      (s : String) (l : Loaded)
      → reader.loads (reader.strip s) ≡ l
      → Answers reader (Reads s) Shaped (parse_loaded reader s (reader.strip s) l)
  unfolding parse_loaded Reads
  loaded-Shaped s malformed e = parse_prose-Shaped s (reader.strip s)
  loaded-Shaped s (loaded j) e = parse_value-Shaped s j
  loaded-Shaped s raises e = (reader.strip s, inl refl, e)

  rest-Shaped :
      (s : String) (o : Option (Option ParsedResponse))
      → Answers reader (ReadsBodies reader (reader.bodies (reader.strip s))) ShapedIfAny o
      → Answers reader (Reads s) Shaped (parse_rest reader s (reader.strip s) o)
  unfolding parse_rest parse_json Reads
  rest-Shaped s none (t, r, h) = (t, inr r, h)
  rest-Shaped s (some (some parsed)) h = h
  rest-Shaped s (some none) h =
      if-Answers reader (Reads s) Shaped _ (some (of_error malformed_markup))
        (parse_json reader s (reader.strip s)) (error-Shaped malformed_markup)
        (loaded-Shaped s _ refl)

  -- Whatever a model answers, the parser returns a response of one shape (a request of one to ten
  -- calls that all name a tool, an answer, or an error, and of these no two at once), or it raises an
  -- exception, and then `json.loads` raises one that is not JSONDecodeError on the trimmed
  -- response or on a text that is read in one of its textual calls.
  pub parse-IsShaped :
      (s : String) → Answers reader (Reads s) (λ r. IsShaped r.kind r) (parse reader s)
  unfolding parse
  parse-IsShaped s =
      if-Answers reader (Reads s) Shaped _ (some (of_error empty_response))
        (parse_rest reader s (reader.strip s) (extract_textual_tool_calls reader (reader.strip s)))
        (error-Shaped empty_response)
        (rest-Shaped s (extract_textual_tool_calls reader (reader.strip s))
          (extract-Answers reader (reader.strip s)))
