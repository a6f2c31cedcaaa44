-- ===== src/Core/Protocol/Bodies.antt =====
-- What the reader of textual calls finds, and which texts it gives to `json.loads`.
use simple_ai_agent.Common.{
  ◌+◌, ◌≡◌, ◌⊎◌, inl, inr, refl, String, Bool, true, false, Option, none, some, List, [], ◌∷◌,
  Result, ok, err, arith, ltb, eqb, length, All, get_or, Bool-cases, Option-cases, if◌then◌else◌,
}
use simple_ai_agent.Core.Json.{
  Json, null, boolean, number, str, array, object, Members, no_member, member, find_member, as_text,
  as_object,
}
use simple_ai_agent.Core.Protocol.{
  Loaded, loaded, malformed, raises, Reader, ToolCall, BodyError, ParsedResponse, of_calls,
  is_empty, bad_bodies, too_many_textual_calls, normalize_name, decoded_or, maybe_json_decode,
  add_parameter, coerce_parameters, object_of, read_parameters, coerced_call, as_call, read_body,
  parse_body_object, loaded_body, parse_body, add_body, parse_bodies, after_bodies,
  extract_textual_tool_calls,
}
use simple_ai_agent.Core.Protocol.Shape.{IsNamed, IsShaped, Shaped, Named, error-Shaped}

-- Some element has the property.
abbrev pub Exists : {A : Type 0} → (A → Type 0) → List A → Type 0
Exists P [] = ⊥
Exists P (x ∷ xs) = P x ⊎ Exists P xs

abbrev pub Anything : {A : Type 0} → A → Type 0
Anything a = Unit

-- A response, if one was found, has its shape.
abbrev pub ShapedIfAny : Option ParsedResponse → Type 0
ShapedIfAny none = Unit
ShapedIfAny (some r) = Shaped r

module _ (reader : Reader) where
  -- A result has the property `P`; an exception comes from a text of `R` that `loads` raises on.
  abbrev pub Answers : {A : Type 0} → (String → Type 0) → (A → Type 0) → Option A → Type 0
  Answers R P none = (t : String) × R t × (reader.loads t ≡ raises)
  Answers R P (some a) = P a

  -- The text that is read in a value: the value itself, trimmed.
  abbrev pub ReadsValue : Json → String → Type 0
  ReadsValue j t = (v : String) × (as_text j ≡ some v) × (t ≡ reader.strip v)

  abbrev pub ReadsMembers : Members → String → Type 0
  ReadsMembers no_member t = ⊥
  ReadsMembers (member key j rest) t = ReadsValue j t ⊎ ReadsMembers rest t

  -- The texts that are read in a body: its `parameters`, and the values in these.
  abbrev pub ReadsFields : Members → String → Type 0
  ReadsFields fields t =
      ((j : Json) × (find_member "parameters" fields ≡ some j) × ReadsValue j t)
      ⊎ ((m : Members) × (read_parameters reader (find_member "parameters" fields) ≡ some (some m))
          × ReadsMembers m t)

  abbrev pub ReadsBody : String → String → Type 0
  ReadsBody body t =
      (t ≡ body)
      ⊎ ((j : Json) × (fields : Members) × (reader.loads body ≡ loaded j)
          × (as_object j ≡ some fields)
          × ReadsFields fields t)

  abbrev pub ReadsBodies : List String → String → Type 0
  ReadsBodies bodies t = Exists (λ body. ReadsBody (reader.strip body) t) bodies

  weaken :
      {A : Type 0} (R S : String → Type 0) (P : A → Type 0) (o : Option A)
      → ((t : String) → R t → S t)
      → Answers R P o
      → Answers S P o
  weaken R S P none f (t, r, h) = (t, f t r, h)
  weaken R S P (some a) f h = h

  pub if-Answers :
      {A : Type 0} (R : String → Type 0) (P : A → Type 0) (b : Bool) (x y : Option A)
      → Answers R P x
      → Answers R P y
      → Answers R P (if b then x else y)
  if-Answers R P true x y hx hy = hx
  if-Answers R P false x y hx hy = hy

  decoded_or-Answers :
      (value : Json) (s : String) (l : Loaded)
      → reader.loads s ≡ l
      → Answers (λ t. t ≡ s) Anything (decoded_or reader value l)
  unfolding decoded_or
  decoded_or-Answers value s (loaded j) h = tt
  decoded_or-Answers value s malformed h = tt
  decoded_or-Answers value s raises h = (s, refl, h)

  decode-Answers : (j : Json) → Answers (ReadsValue j) Anything (maybe_json_decode reader j)
  unfolding maybe_json_decode
  decode-Answers j = elim (Option-cases (as_text j)) [
    | inl other ↦ rw (Answers, maybe_json_decode, other) tt
    | inr (v, there) ↦
        rw (maybe_json_decode, there)
          (if-Answers (ReadsValue j) Anything _
            (decoded_or reader j (reader.loads (reader.strip v))) (some j)
            (weaken (λ t. t ≡ reader.strip v) (ReadsValue j) Anything
              (decoded_or reader j (reader.loads (reader.strip v))) (λ t e. (v, there, e))
              (decoded_or-Answers j (reader.strip v) _ refl))
            tt)
  ]

  add_parameter-Answers :
      (key : String) (j : Json) (rest : Members) (o : Option Json) (others : Option Members)
      → Answers (ReadsValue j) Anything o
      → Answers (ReadsMembers rest) Anything others
      → Answers (ReadsMembers (member key j rest)) Anything (add_parameter reader key o others)
  unfolding add_parameter
  add_parameter-Answers key j rest none others (t, r, h) _ = (t, inl r, h)
  add_parameter-Answers key j rest (some v) none _ (t, r, h) = (t, inr r, h)
  add_parameter-Answers key j rest (some v) (some m) _ _ = tt

  coerce-Answers : (m : Members) → Answers (ReadsMembers m) Anything (coerce_parameters reader m)
  unfolding coerce_parameters
  coerce-Answers no_member = tt
  coerce-Answers (member key j rest) =
      add_parameter-Answers key j rest (maybe_json_decode reader j) (coerce_parameters reader rest)
        (decode-Answers j) (coerce-Answers rest)

  object_of-Answers :
      (R : String → Type 0) (o : Option Json)
      → Answers R Anything o
      → Answers R Anything (object_of reader o)
  unfolding object_of
  object_of-Answers R none h = h
  object_of-Answers R (some j) h = tt

  abbrev ReadsParameters : Option Json → String → Type 0
  ReadsParameters o t = (j : Json) × (o ≡ some j) × ReadsValue j t

  decoded-Answers :
      (j : Json)
      → Answers (ReadsParameters (some j)) Anything (object_of reader (maybe_json_decode reader j))
  decoded-Answers j =
      weaken (ReadsValue j) (ReadsParameters (some j)) Anything
        (object_of reader (maybe_json_decode reader j)) (λ t r. (j, refl, r))
        (object_of-Answers (ReadsValue j) (maybe_json_decode reader j) (decode-Answers j))

  read_parameters-Answers :
      (o : Option Json) → Answers (ReadsParameters o) Anything (read_parameters reader o)
  unfolding read_parameters
  read_parameters-Answers none = tt
  read_parameters-Answers (some null) = tt
  read_parameters-Answers (some (boolean b)) = decoded-Answers (boolean b)
  read_parameters-Answers (some (number n)) = decoded-Answers (number n)
  read_parameters-Answers (some (str s)) = decoded-Answers (str s)
  read_parameters-Answers (some (array a)) = decoded-Answers (array a)
  read_parameters-Answers (some (object m)) = decoded-Answers (object m)

  coerced_call-Answers :
      (name : String) (R : String → Type 0) (o : Option Members)
      → is_empty (normalize_name reader name) ≡ false
      → Answers R Anything o
      → Answers R Named (coerced_call reader name o)
  unfolding coerced_call
  coerced_call-Answers name R none named h = h
  coerced_call-Answers name R (some m) named h = named

  as_call-Answers :
      (name : String) (fields : Members) (o : Option (Option Members))
      → read_parameters reader (find_member "parameters" fields) ≡ o
      → Answers (ReadsParameters (find_member "parameters" fields)) Anything o
      → Answers (ReadsFields fields) Named (as_call reader name o)
  unfolding as_call
  as_call-Answers name fields none e (t, r, h) = (t, inl r, h)
  as_call-Answers name fields (some none) e h = tt
  as_call-Answers name fields (some (some m)) e h =
      elim (Bool-cases (is_empty (normalize_name reader name))) [
        | inl empty ↦ rw (as_call, empty) tt
        | inr named ↦
            rw (as_call, named)
              (weaken (ReadsMembers m) (ReadsFields fields) Named
                (coerced_call reader name (coerce_parameters reader m)) (λ t r. inr (m, e, r))
                (coerced_call-Answers name (ReadsMembers m) (coerce_parameters reader m) named
                  (coerce-Answers m)))
      ]

  read_body-Answers :
      (fields : Members) → Answers (ReadsFields fields) Named (read_body reader fields)
  unfolding read_body
  read_body-Answers fields =
      elim (Option-cases (as_text (get_or (find_member "recipient_name" fields) null))) [
        | inl missing ↦ rw (read_body, missing) tt
        | inr (name, there) ↦
            rw (read_body, there)
              (if-Answers (ReadsFields fields) Named _ (some (err _))
                (as_call reader name (read_parameters reader (find_member "parameters" fields))) tt
                (as_call-Answers name fields _ refl
                  (read_parameters-Answers (find_member "parameters" fields))))
      ]

  object-Answers :
      (fields : Members) → Answers (ReadsFields fields) Named (parse_body_object reader fields)
  unfolding parse_body_object
  object-Answers fields =
      if-Answers (ReadsFields fields) Named _ (some (err _)) (read_body reader fields) tt
        (read_body-Answers fields)

  loaded-Answers :
      (body : String) (l : Loaded)
      → reader.loads body ≡ l
      → Answers (ReadsBody body) Named (loaded_body reader l)
  unfolding loaded_body
  loaded-Answers body malformed e = tt
  loaded-Answers body raises e = (body, inl refl, e)
  loaded-Answers body (loaded j) e = elim (Option-cases (as_object j)) [
    | inl other ↦ rw (loaded_body, other) tt
    | inr (fields, there) ↦
        rw (loaded_body, there)
          (weaken (ReadsFields fields) (ReadsBody body) Named (parse_body_object reader fields)
            (λ t r. inr (j, fields, e, there, r)) (object-Answers fields))
  ]

  -- What the loop over the bodies gathered.
  record IsGathered (bodies : List String) (r : List BodyError × List ToolCall) : Type 0 where
    total : length (r.0) + length (r.1) ≡ length bodies
    named : All IsNamed (r.1)

  add_body-Answers :
      (body : String) (rest : List String) (o : Option (Result BodyError ToolCall))
      (others : Option (List BodyError × List ToolCall))
      → Answers (ReadsBody (reader.strip body)) Named o
      → Answers (ReadsBodies rest) (IsGathered rest) others
      → Answers (ReadsBodies (body ∷ rest)) (IsGathered (body ∷ rest)) (add_body reader o others)
  unfolding add_body
  add_body-Answers body rest none others (t, r, h) g = (t, inl r, h)
  add_body-Answers body rest (some (ok call)) none named (t, r, h) = (t, inr r, h)
  add_body-Answers body rest (some (err e)) none named (t, r, h) = (t, inr r, h)
  add_body-Answers body rest (some (ok call)) (some (errors, calls)) named g = record {
    total = ground (arith, g.total);
    named = (named, g.named);
  }
  add_body-Answers body rest (some (err e)) (some (errors, calls)) named g = record {
    total = ground (arith, g.total);
    named = g.named;
  }

  bodies-Answers :
      (bodies : List String)
      → Answers (ReadsBodies bodies) (IsGathered bodies) (parse_bodies reader bodies)
  unfolding parse_bodies parse_body
  bodies-Answers [] = record { total = refl; named = tt }
  bodies-Answers (body ∷ rest) =
      add_body-Answers body rest (parse_body reader (reader.strip body)) (parse_bodies reader rest)
        (loaded-Answers (reader.strip body) _ refl) (bodies-Answers rest)

  after-Answers :
      (s : String) (bodies : List String) (o : Option (List BodyError × List ToolCall))
      → Answers (ReadsBodies bodies) (IsGathered bodies) o
      → eqb (length bodies) 0 ≡ false
      → ltb 10 (length bodies) ≡ false
      → Answers (ReadsBodies bodies) ShapedIfAny (after_bodies reader s o)
  unfolding after_bodies of_calls IsShaped
  after-Answers s bodies none h some_there few = h
  after-Answers s bodies (some ([], calls)) g some_there few =
      (ground (arith, g.total, some_there), ground (arith, g.total, few), g.named, refl, refl)
  after-Answers s bodies (some (e ∷ errors, calls)) g some_there few =
      error-Shaped (bad_bodies (e ∷ errors))

  pub extract-Answers :
      (s : String)
      → Answers (ReadsBodies (reader.bodies s)) ShapedIfAny (extract_textual_tool_calls reader s)
  unfolding extract_textual_tool_calls
  extract-Answers s =
      let found = reader.bodies s in
      elim (Bool-cases (eqb (length found) 0)) [
        | inl none_there ↦ rw (extract_textual_tool_calls, none_there) tt
        | inr some_there ↦ elim (Bool-cases (ltb 10 (length found))) [
          | inl many ↦
              rw (extract_textual_tool_calls, some_there, many)
                (error-Shaped (too_many_textual_calls (length found)))
          | inr few ↦
              rw (extract_textual_tool_calls, some_there, few)
                (after-Answers s found (parse_bodies reader found) (bodies-Answers found) some_there
                  few)
        ]
      ]
