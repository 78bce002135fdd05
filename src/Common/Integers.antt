-- ===== src/Common/Integers.antt =====
-- Integers over the native numbers, for numbers that may be negative.
use Prim.Native.Nat.{ℕ, suc, ◌+◌, ◌-◌}
use mathlib.Core.Bool.{Bool, true, false}
use chimp_maera.Common.Tests.{ltb, if◌then◌else◌}

-- `negsuc n` is -(n + 1)
pub data ℤ : Type 0 where
  pos negsuc : ℕ → ℤ

abbrev pub is_negative : ℤ → Bool
is_negative (pos n) = false
is_negative (negsuc n) = true

infixl 20 ◌+ℤ◌
unfoldable pub ◌+ℤ◌ : ℤ → ℤ → ℤ
pos a +ℤ pos b = pos (a + b)
pos a +ℤ negsuc b = if ltb b a then pos (a - suc b) else negsuc (b - a)
negsuc a +ℤ pos b = if ltb a b then pos (b - suc a) else negsuc (a - b)
negsuc a +ℤ negsuc b = negsuc (suc (a + b))
