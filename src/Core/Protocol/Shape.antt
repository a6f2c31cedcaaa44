-- ===== src/Core/Protocol/Shape.antt =====
-- What a parsed response may be, and the calls that the readers of a list and of textual calls find.
use simple_ai_agent.Common.{
  suc, ◌≤◌, ◌≡◌, refl, ap, String, false, none, some, List, [], ◌∷◌, Result, ok, err, arith, ltb,
  eqb, length, All, get_or, Bool-cases, Option-cases, inl, inr,
}
use simple_ai_agent.Core.Json.{Json, null, keys_of, find_member, as_text, as_object, as_array}
use simple_ai_agent.Core.Protocol.{
  Reader, ToolCall, ParseError, Kind, ParsedResponse, of_calls, of_final, of_error, of_result,
  is_empty, only_of, validate_fields, validate_single_tool_call_dict, validate_entry,
  validate_entries, validate_tool_call_list, add_call,
}

-- A call of a tool has the tool's name.
abbrev pub IsNamed : ToolCall → Type 0
IsNamed call = is_empty call.action ≡ false

-- By its kind: one to ten calls, each with a name; an answer; or an error. Nothing else is set.
unfoldable pub IsShaped : Kind → ParsedResponse → Type 0
IsShaped Kind.tool r =
    (1 ≤ length r.tool_calls)
    × (length r.tool_calls ≤ 10)
    × All IsNamed r.tool_calls
    × (r.final ≡ none)
    × (r.error ≡ none)
IsShaped Kind.final r = (r.tool_calls ≡ []) × ((s : String) × (r.final ≡ some s)) × (r.error ≡ none)
IsShaped Kind.invalid r =
    (r.tool_calls ≡ []) × (r.final ≡ none) × ((e : ParseError) × (r.error ≡ some e))

abbrev pub Shaped : ParsedResponse → Type 0
Shaped r = IsShaped r.kind r

pub final-Shaped : (s : String) → Shaped (of_final s)
unfolding of_final IsShaped
final-Shaped s = (refl, (s, refl), refl)

pub error-Shaped : (e : ParseError) → Shaped (of_error e)
unfolding of_error IsShaped
error-Shaped e = (refl, refl, (e, refl))

-- A result with one to ten calls that have names.
abbrev pub Counted : Result ParseError (List ToolCall) → Type 0
Counted (ok calls) = (1 ≤ length calls) × (length calls ≤ 10) × All IsNamed calls
Counted (err e) = Unit

pub result-Shaped : (r : Result ParseError (List ToolCall)) → Counted r → Shaped (of_result r)
unfolding of_result of_calls IsShaped
result-Shaped (ok calls) (some_call, few, named) = (some_call, few, named, refl, refl)
result-Shaped (err e) u = error-Shaped e

abbrev pub Named : {E : Type 0} → Result E ToolCall → Type 0
Named (ok call) = IsNamed call
Named (err e) = Unit

module _ (reader : Reader) where
  validate_fields-Named : (action input : Json) → Named (validate_fields reader action input)
  unfolding validate_fields
  validate_fields-Named action input = elim (Option-cases (as_text action)) [
    | inl missing ↦ rw (Named, missing) tt
    | inr (name, named) ↦ elim (Bool-cases (is_empty (reader.strip name))) [
      | inl bad ↦ rw (Named, named, bad) tt
      | inr good ↦ elim (Option-cases (as_object input)) [
        | inl missing ↦ rw (Named, named, good, missing) tt
        | inr (m, there) ↦ rw (Named, named, good, there) good
      ]
    ]
  ]

  pub validate_entry-Named : (entry : Json) → Named (validate_entry reader entry)
  unfolding validate_entry validate_single_tool_call_dict
  validate_entry-Named entry = elim (Option-cases (as_object entry)) [
    | inl missing ↦ rw (Named, missing) tt
    | inr (fields, there) ↦ elim (Bool-cases (only_of ("action" ∷ "input" ∷ []) (keys_of fields))) [
      | inr bad ↦ rw (Named, there, bad) tt
      | inl good ↦ elim (Bool-cases (only_of (keys_of fields) ("action" ∷ "input" ∷ []))) [
        | inr bad ↦ rw (Named, there, good, bad) tt
        | inl all ↦
            rw (Named, there, good, all)
              (validate_fields-Named (get_or (find_member "action" fields) null)
                (get_or (find_member "input" fields) null))
      ]
    ]
  ]

  -- As many calls as entries, all with names.
  abbrev Matched : List Json → Result ParseError (List ToolCall) → Type 0
  Matched entries (ok calls) = (length calls ≡ length entries) × All IsNamed calls
  Matched entries (err e) = Unit

  add_call-Matched :
      (entry : Json) (rest : List Json) (r : Result ParseError ToolCall)
      (others : Result ParseError (List ToolCall))
      → Named r
      → Matched rest others
      → Matched (entry ∷ rest) (add_call r others)
  unfolding add_call
  add_call-Matched entry rest (err e) others named matched = tt
  add_call-Matched entry rest (ok call) (err e) named matched = tt
  add_call-Matched entry rest (ok call) (ok calls) named (same, all) = (ap suc same, (named, all))

  validate_entries-Matched :
      (entries : List Json) → Matched entries (validate_entries reader entries)
  unfolding validate_entries
  validate_entries-Matched [] = (refl, tt)
  validate_entries-Matched (entry ∷ rest) =
      add_call-Matched entry rest (validate_entry reader entry) (validate_entries reader rest)
        (validate_entry-Named entry) (validate_entries-Matched rest)

  Matched-Counted :
      (entries : List Json) (r : Result ParseError (List ToolCall))
      → Matched entries r
      → eqb (length entries) 0 ≡ false
      → ltb 10 (length entries) ≡ false
      → Counted r
  Matched-Counted entries (err e) matched some_entry few = tt
  Matched-Counted entries (ok calls) (same, named) some_entry few =
      (ground (arith, same, some_entry), ground (arith, same, few), named)

  pub validate_tool_call_list-Counted :
      (value : Json) → Counted (validate_tool_call_list reader value)
  unfolding validate_tool_call_list
  validate_tool_call_list-Counted value = elim (Option-cases (as_array value)) [
    | inl missing ↦ rw (Counted, missing) tt
    | inr (items, there) ↦ elim (Bool-cases (eqb (length items) 0)) [
      | inl none_there ↦ rw (Counted, there, none_there) tt
      | inr some_there ↦ elim (Bool-cases (ltb 10 (length items))) [
        | inl many ↦ rw (Counted, there, some_there, many) tt
        | inr few ↦
            rw (Counted, there, some_there, few)
              (Matched-Counted items (validate_entries reader items)
                (validate_entries-Matched items) some_there few)
      ]
    ]
  ]
