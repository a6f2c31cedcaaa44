-- ===== src/Core/Registry.antt =====
-- core/tool_registry.py: `ToolRegistry`, as a dictionary of specifications by name.
pub mod Select
mod Tests
use simple_ai_agent.Common.{
  ℕ, ◌≡◌, ◌≢◌, refl, ap, sym, ◌∙◌, String, Bool, true, false, not, Option, none, some, List, [],
  ◌∷◌, ◌++◌, ◌==◌, Result, ok, err, arith, contains, map, lookup, insert, eq_iff, Bool-cases,
  Option-cases, inl, inr, if◌then◌else◌,
}

-- `ToolSpec`, of a function that is known by its number; the schema of the parameters and the example
-- are left out.
pub record ToolSpec : Type 0 where
  pub name : String
  pub function : ℕ
  pub description : String
  pub requires_state : Bool

pub data RegistryError : Type 0 where
  already_registered : String → RegistryError
  unknown_tools : List String → RegistryError

abbrev pub ToolRegistry : Type 0
ToolRegistry = List (String × ToolSpec)

unfoldable pub names : ToolRegistry → List String
names [] = []
names (entry ∷ rest) = entry.0 ∷ names rest

-- `name in self._tools`
unfoldable pub has_tool : ToolRegistry → String → Bool
unfolding names
has_tool registry name = contains name (names registry)

unfoldable pub register : ToolRegistry → ToolSpec → Result RegistryError ToolRegistry
unfolding has_tool
register registry spec =
    if has_tool registry spec.name
    then err (already_registered spec.name)
    else ok (registry ++ (spec.name, spec) ∷ [])

-- The loop of `select`: what is selected, and the missing names.
unfoldable pub select_from :
    ToolRegistry
    → List String
    → ToolRegistry
    → List String
    → Result RegistryError (ToolRegistry × List String)
unfolding lookup register
select_from source [] selected missing = ok (selected, missing)
select_from source (name ∷ rest) selected missing = elim (lookup name source) [
  | none ↦ select_from source rest selected (missing ++ name ∷ [])
  | some spec ↦ elim (register selected spec) [
    | err e ↦ err e
    | ok more ↦ select_from source rest more missing
  ]
]

unfoldable pub finish_select :
    Bool → Result RegistryError (ToolRegistry × List String) → Result RegistryError ToolRegistry
finish_select strict (err e) = err e
finish_select strict (ok (selected, [])) = ok selected
finish_select strict (ok (selected, name ∷ rest)) =
    if strict then err (unknown_tools (name ∷ rest)) else ok selected

unfoldable pub select : ToolRegistry → List String → Bool → Result RegistryError ToolRegistry
unfolding select_from finish_select
select source wanted strict = finish_select strict (select_from source wanted [] [])

-- The entries are under the names of their specifications.
unfoldable pub IsKeyed : ToolRegistry → Type 0
IsKeyed [] = Unit
IsKeyed (entry ∷ rest) = (entry.0 ≡ (entry.1).name) × IsKeyed rest

-- Each name is the source's.
unfoldable pub IsFrom : ToolRegistry → List String → ToolRegistry → Type 0
unfolding lookup
IsFrom source [] [] = Unit
IsFrom source (name ∷ wanted) (entry ∷ selected) =
    (entry.0 ≡ name) × (lookup name source ≡ some (entry.1)) × IsFrom source wanted selected
IsFrom source _ _ = ⊥
