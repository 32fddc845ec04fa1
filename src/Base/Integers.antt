-- ===== src/Base/Integers.antt =====
-- Integers over the native numbers.
use Prim.Native.Nat.{ℕ}
use mathlib.Core.Bool.{Bool, true}
use go_iec.Base.Tests.{ltb}

-- The numbers n, and -(n + 1).
pub data ℤ : Type 0 where
  pos negsuc : ℕ → ℤ

-- `n > k`
abbrev pub above : ℕ → ℤ → Bool
above n (pos k) = ltb k n
above n (negsuc k) = true
