-- ===== src/Core/Protocol/Values.antt =====
-- core/protocol.py: what the parser returns, and what it takes from the standard library.
use Prim.Native.String.{count}
use text.Mathlib.Text.{find?}
use simple_ai_agent.Common.{
  ℕ, String, Bool, true, false, not, Option, none, some, List, [], ◌∷◌, Result, ok, err, eqb,
  contains, any,
}
use simple_ai_agent.Core.Json.{Json, Members}

abbrev pub max_tool_calls_per_turn : ℕ
max_tool_calls_per_turn = 10

-- What `json.loads` does with a text: it returns a value, or it raises JSONDecodeError, or it
-- raises another exception, as it does for a number of too many digits and for values nested too deep.
pub data Loaded : Type 0 where
  loaded : Json → Loaded
  malformed raises : Loaded

-- What the parser takes from the standard library: `str.strip`, `str.lower`, `json.loads`,
-- and of the pattern of textual calls the bodies that `finditer` finds and the
-- text that `sub` leaves.
pub record Reader : Type 0 where
  pub strip : String → String
  pub lower : String → String
  pub loads : String → Loaded
  pub bodies : String → List String
  pub without_bodies : String → String

pub record ToolCall : Type 0 where
  pub action : String
  pub tool_input : Members

-- The messages for the body of a textual call.
pub data BodyError : Type 0 where
  bad_json not_object unsupported_key bad_recipient bad_parameters empty_name : BodyError

-- The messages of `_invalid`.
pub data ParseError : Type 0 where
  empty_response not_an_array no_calls entry_not_object mixed_root : ParseError
  unsupported_keys missing_keys action_not_text empty_action input_not_object : ParseError
  too_many_calls too_many_textual_calls : ℕ → ParseError
  bad_bodies : List BodyError → ParseError
  malformed_markup broken_call embedded_call : ParseError

pub data Kind : Type 0 where
  tool final invalid : Kind

pub record ParsedResponse : Type 0 where
  pub kind : Kind
  pub tool_calls : List ToolCall
  pub final : Option String
  pub error : Option ParseError
  pub assistant_text : String
  pub consumed_tool_call_markup : Bool

-- `_tools` with its defaults, `_final` and `_invalid`
unfoldable pub of_calls : List ToolCall → ParsedResponse
of_calls calls = record {
  kind = Kind.tool;
  tool_calls = calls;
  final = none;
  error = none;
  assistant_text = "";
  consumed_tool_call_markup = false;
}

unfoldable pub of_final : String → ParsedResponse
of_final s = record {
  kind = Kind.final;
  tool_calls = [];
  final = some s;
  error = none;
  assistant_text = "";
  consumed_tool_call_markup = false;
}

unfoldable pub of_error : ParseError → ParsedResponse
of_error e = record {
  kind = Kind.invalid;
  tool_calls = [];
  final = none;
  error = some e;
  assistant_text = "";
  consumed_tool_call_markup = false;
}

unfoldable pub of_result : Result ParseError (List ToolCall) → ParsedResponse
unfolding of_calls of_error
of_result (ok calls) = of_calls calls
of_result (err e) = of_error e

-- `part in whole`
abbrev pub is_within : String → String → Bool
is_within part whole = elim (find? whole part) [ none ↦ false | some i ↦ true ]

abbrev pub is_empty : String → Bool
is_empty s = eqb (count s) 0

-- `keys - allowed`, and `allowed - keys`, as to whether they are empty.
unfoldable pub only_of : List String → List String → Bool
only_of allowed keys = not (any (λ k. not (contains k allowed)) keys)

-- The first error ends the loop.
unfoldable pub add_call :
    Result ParseError ToolCall
    → Result ParseError (List ToolCall)
    → Result ParseError (List ToolCall)
add_call (err e) others = err e
add_call (ok call) (err e) = err e
add_call (ok call) (ok calls) = ok (call ∷ calls)
