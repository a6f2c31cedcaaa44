-- ===== src/Core/Agent/Reading.antt =====
-- What `Agent._step` reads a reply as, and the texts and messages that it composes.
use Prim.Native.String.{◌++◌ as ◌⧺◌}
use simple_ai_agent.Common.{
  String, Bool, true, false, Option, none, some, List, [], ◌∷◌, eqb, length, if◌then◌else◌,
}
use simple_ai_agent.Core.Json.{Members, no_member, as_object}
use simple_ai_agent.Core.Protocol.{
  Loaded, loaded, Reader, ToolCall, Kind, ParsedResponse, of_calls, parse, is_empty,
}
use simple_ai_agent.Core.Agent.{
  NativeArguments, encoded, decoded, no_arguments, other_arguments, NativeToolCall,
  NativeToolOutput, Reply, plain, response, success, failed, skipped, BatchToolRecord, Role, words,
  tool_result, batch_result, Message, said, answers,
}

unfoldable pub is_nil : {A : Type 0} → List A → Bool
is_nil [] = true
is_nil (x ∷ xs) = false

-- `zip(…, strict=False)`
unfoldable pub zip : {A B : Type 0} → List A → List B → List (A × B)
zip [] ys = []
zip (x ∷ xs) [] = []
zip (x ∷ xs) (y ∷ ys) = (x, y) ∷ zip xs ys

-- `_messages_with_context`: the only messages of the system are its prompts.
unfoldable pub messages_with_context : String → List Message → List Message
messages_with_context context (said Role.system (words base) ∷ rest) =
    said Role.system (words (if is_empty base then context else base ⧺ "\n\n" ⧺ context)) ∷ rest
messages_with_context context messages = said Role.system (words context) ∷ messages

-- `_is_effectively_empty`
unfoldable pub is_effectively_empty : ParsedResponse → Bool
is_effectively_empty parsed = elim parsed.kind [
  | Kind.tool ↦ eqb (length parsed.tool_calls) 0
  | Kind.final ↦ elim parsed.final [ none ↦ true | some s ↦ is_empty s ]
  | Kind.invalid ↦ true
]

-- `a or b` on texts that may be missing.
unfoldable pub text_or : Option String → String → String
text_or none s = s
text_or (some t) s = if is_empty t then s else t

-- The text of a record for the model.
unfoldable pub output_of : BatchToolRecord → String
unfolding text_or
output_of r = elim r.status [
  | success ↦ text_or r.observation ""
  | failed ↦ text_or r.error (text_or r.observation "Tool failed.")
  | skipped ↦ text_or r.observation "Skipped due to earlier failure in fail-fast batch."
]

-- What a reply is taken for: the response, the native calls, and the text.
pub record Interpreted : Type 0 where
  pub parsed : ParsedResponse
  pub native : List NativeToolCall
  pub reply : String

unfoldable pub outputs_of : List (BatchToolRecord × NativeToolCall) → List NativeToolOutput
unfolding output_of
outputs_of [] = []
outputs_of (entry ∷ rest) =
    record { call_id = (entry.1).id; output = output_of (entry.0) } ∷ outputs_of rest

-- `_append_chat_completions_tool_results`
unfoldable pub results_of : List (BatchToolRecord × NativeToolCall) → List Message
unfolding output_of
results_of [] = []
results_of (entry ∷ rest) = answers (entry.1) (output_of (entry.0)) ∷ results_of rest

-- `_append_tool_records_for_local_memory`
unfoldable pub memory_of : List BatchToolRecord → Message
unfolding text_or
memory_of (r ∷ []) =
    said Role.user (tool_result r.action (text_or r.observation (text_or r.error "")))
memory_of records = said Role.user (batch_result records)

module _ (reader : Reader) where
  unfoldable pub loaded_object : Loaded → Option Members
  unfolding as_object
  loaded_object (loaded j) = as_object j
  loaded_object _ = none

  -- The arguments of a native call as a dictionary; `none` for an exception.
  unfoldable pub arguments_of : NativeArguments → Option Members
  unfolding loaded_object
  arguments_of (encoded s) =
      let stripped = reader.strip s in
      if is_empty stripped then some no_member else loaded_object (reader.loads stripped)
  arguments_of (decoded m) = some m
  arguments_of no_arguments = some no_member
  arguments_of other_arguments = none

  unfoldable pub add_normal :
      String → Option Members → Option (List ToolCall) → Option (List ToolCall)
  add_normal name (some m) (some calls) = some (record { action = name; tool_input = m } ∷ calls)
  add_normal name _ _ = none

  -- The loop over the native calls; `none` for an exception.
  unfoldable pub normalize : List NativeToolCall → Option (List ToolCall)
  unfolding arguments_of add_normal
  normalize [] = some []
  normalize (tc ∷ rest) = add_normal tc.name (arguments_of tc.arguments) (normalize rest)

  -- What a text without native calls is taken for; `none` for an exception of `parse`.
  unfoldable pub parsed_text : String → Option ParsedResponse → Option Interpreted
  parsed_text text none = none
  parsed_text text (some r) = some (record { parsed = r; native = []; reply = text })

  unfoldable pub interpret_calls : String → List NativeToolCall → Option Interpreted
  unfolding parse parsed_text normalize of_calls
  interpret_calls text [] = parsed_text text (parse reader text)
  interpret_calls text (tc ∷ rest) = elim (normalize (tc ∷ rest)) [
    | none ↦ none
    | some calls ↦ some (record { parsed = of_calls calls; native = tc ∷ rest; reply = text })
  ]

  unfoldable pub interpret : Reply → Option Interpreted
  unfolding parse parsed_text interpret_calls text_or
  interpret (plain text) = parsed_text text (parse reader text)
  interpret (response content calls) = interpret_calls (text_or content "") calls
