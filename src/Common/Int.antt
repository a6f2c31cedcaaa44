-- ===== src/Common/Int.antt =====
-- Signed integers over the native numbers: what the code compares, never adds.
use Prim.Native.Nat.{ℕ, suc, ◌+◌, ◌≤◌}
use mathlib.Core.Path.{◌≡◌}
use mathlib.Core.Bool.{Bool, true}
use native.Mathlib.Omega.{arith}
use simple_ai_agent.Common.Tests.{leb, if◌then◌else◌}

-- `negsuc n` is -(n + 1).
pub data ℤ : Type 0 where
  pos : ℕ → ℤ
  negsuc : ℕ → ℤ

abbrev pub pos_part : ℤ → ℕ
pos_part (pos n) = n
pos_part (negsuc n) = 0

abbrev pub neg_part : ℤ → ℕ
neg_part (pos n) = 0
neg_part (negsuc n) = suc n

infix 50 ◌≤ℤ◌
abbrev pub ◌≤ℤ◌ : ℤ → ℤ → Type 0
a ≤ℤ b = pos_part a + neg_part b ≤ pos_part b + neg_part a

abbrev pub leb_ℤ : ℤ → ℤ → Bool
leb_ℤ a b = leb (pos_part a + neg_part b) (pos_part b + neg_part a)

abbrev pub min_ℤ : ℤ → ℤ → ℤ
min_ℤ a b = if leb_ℤ a b then a else b

pub leb_ℤ→≤ℤ : (a b : ℤ) → leb_ℤ a b ≡ true → a ≤ℤ b
leb_ℤ→≤ℤ a b h = ground arith
