-- ===== src/Common.antt =====
-- Names that the other modules share: the libraries', passed on, and those of the children.
-- Nothing here models code of the repository.
mod Tests
mod Lists
mod Effects
mod Contracts
mod Dict
pub mod Int
pub use Tests.*
pub use Lists.*
pub use Effects.*
unfoldable pub use Dict.{lookup, insert, erase}
pub use Dict.{lookup-insert, lookup-erase}
unfoldable pub use Contracts.{Ensures}
pub use Contracts.{Ensures-bind, Ensures-weaken, Ensures-guard}
pub use Prim.Native.Nat.{ℕ, zero, suc, ◌+◌, ◌-◌, ◌*◌, ◌/◌, ◌%◌, ◌^◌, ◌≤◌, ◌<◌, min, max}
pub use Prim.Native.String.{String}
pub use mathlib.Core.Path.{◌≡◌, refl, sym, ap, ap₂, subst, ◌∙◌, ◌≡⟨◌⟩◌, ◌∎}
pub use mathlib.Core.Logic.{◌≢◌, ◌↔◌, ◌⊎◌, inl, inr}
pub use mathlib.Core.Bool.{Bool, true, false, not, ◌&&◌, ◌||◌}
pub use mathlib.Core.Option.{Option, none, some}
pub use mathlib.Core.List.{List, [], ◌∷◌, ◌++◌, map, append-nil, append_assoc}
pub use native.Mathlib.Omega.{arith}
pub use text.Mathlib.Text.{◌==◌}
pub use text.Mathlib.TextEquality.{eq_iff}
pub use text.Mathlib.TextPositions.{eq_refl}
