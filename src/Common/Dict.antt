-- ===== src/Common/Dict.antt =====
-- A dictionary keyed by text, as an association list with one entry for a key.
use Prim.Native.String.{String}
use mathlib.Core.Path.{◌≡◌}
use mathlib.Core.Option.{Option, none, some}
use mathlib.Core.List.{List, [], ◌∷◌}
use native.Mathlib.Omega.{arith}
use text.Mathlib.Text.{◌==◌}
use text.Mathlib.TextEquality.{eq_iff}
use simple_ai_agent.Common.Tests.{if◌then◌else◌}

abbrev pub Dict {ℓ} : Type ℓ → Type ℓ
Dict V = List (String × V)

-- `get(key)`
unfoldable pub lookup {ℓ} : {V : Type ℓ} → String → Dict V → Option V
lookup key [] = none
lookup key (entry ∷ rest) = if key == entry.0 then some (entry.1) else lookup key rest

-- An assignment to a key: the entry keeps its place, and a new one comes last.
unfoldable pub insert {ℓ} : {V : Type ℓ} → String → V → Dict V → Dict V
insert key value [] = (key, value) ∷ []
insert key value (entry ∷ rest) =
    if key == entry.0 then (key, value) ∷ rest else entry ∷ insert key value rest

-- `pop(key, None)`
unfoldable pub erase {ℓ} : {V : Type ℓ} → String → Dict V → Dict V
erase key [] = []
erase key (entry ∷ rest) =
    let others = erase key rest in if key == entry.0 then others else entry ∷ others

pub lookup-insert {ℓ} :
    {V : Type ℓ} (key other : String) (value : V) (dict : Dict V)
    → lookup other (insert key value dict)
      ≡ (if key == other then some value else lookup other dict)
unfolding lookup insert
lookup-insert key other value [] = ground (arith, eq_iff key other, eq_iff other key)
lookup-insert key other value (entry ∷ rest) = ground (
  arith,
  lookup-insert key other value rest,
  eq_iff key (entry.0),
  eq_iff other (entry.0),
  eq_iff key other,
  eq_iff other key,
)

pub lookup-erase {ℓ} :
    {V : Type ℓ} (key other : String) (dict : Dict V)
    → lookup other (erase key dict) ≡ (if key == other then none else lookup other dict)
unfolding lookup erase
lookup-erase key other [] = ground arith
lookup-erase key other (entry ∷ rest) = ground (
  arith,
  lookup-erase key other rest,
  eq_iff key (entry.0),
  eq_iff other (entry.0),
  eq_iff key other,
)
