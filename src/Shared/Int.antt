-- ===== src/Shared/Int.antt =====
-- Signed integers, and the cast of a u32 to an i32.
use Prim.Native.Nat.{ℕ, ◌-◌, ◌%◌, ◌<◌}
use mathlib.Core.Path.{◌≡◌}
use native.Mathlib.Omega.{arith}
use petty.Shared.Tests.{ltb, if◌then◌else◌}

-- `negsuc n` is -(n + 1).
pub data ℤ : Type 0 where
  pos : ℕ → ℤ
  negsuc : ℕ → ℤ

-- `x as i32` of a u32: the same 32 bits.
unfoldable pub as_i32 : ℕ → ℤ
as_i32 n = if ltb n 2147483648 then pos n else negsuc (4294967295 - n)

-- `x as i32` of an i64: its low 32 bits.
unfoldable pub wrap_i32 : ℤ → ℤ
unfolding as_i32
wrap_i32 (pos n) = as_i32 (n % 4294967296)
wrap_i32 (negsuc n) = as_i32 (4294967295 - n % 4294967296)

-- The cast keeps every value below 2 ^ 31.
pub as_i32_small : (n : ℕ) → n < 2147483648 → as_i32 n ≡ pos n
unfolding as_i32
as_i32_small n h = ground arith
