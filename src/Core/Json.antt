-- ===== src/Core/Json.antt =====
-- The values that `json.loads` returns. The keys of an object are all different.
use simple_ai_agent.Common.{String, Bool, Option, none, some, List, [], ◌∷◌, ◌==◌, if◌then◌else◌}

mutual
  pub data Json : Type 0 where
    null : Json
    boolean : Bool → Json
    number : String → Json
    str : String → Json
    array : Items → Json
    object : Members → Json

  pub data Items : Type 0 where
    no_item : Items
    item : Json → Items → Items

  pub data Members : Type 0 where
    no_member : Members
    member : String → Json → Members → Members

-- The list that an array is.
unfoldable pub items_of : Items → List Json
items_of no_item = []
items_of (item j rest) = j ∷ items_of rest

unfoldable pub array_of : List Json → Items
array_of [] = no_item
array_of (j ∷ rest) = item j (array_of rest)

-- `data.keys()`, `data.get(key)`
unfoldable pub keys_of : Members → List String
keys_of no_member = []
keys_of (member key j rest) = key ∷ keys_of rest

unfoldable pub find_member : String → Members → Option Json
find_member key no_member = none
find_member key (member k j rest) = if k == key then some j else find_member key rest

-- `isinstance(value, str)`, `isinstance(value, dict)` and `isinstance(value, list)`, with the value.
unfoldable pub as_text : Json → Option String
as_text (str s) = some s
as_text _ = none

unfoldable pub as_object : Json → Option Members
as_object (object m) = some m
as_object _ = none

unfoldable pub as_array : Json → Option (List Json)
unfolding items_of
as_array (array items) = some (items_of items)
as_array _ = none
