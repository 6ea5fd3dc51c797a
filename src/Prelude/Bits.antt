-- ===== src/Prelude/Bits.antt =====
-- One bit of a u32, named by its value (a power of two), as in `flags & BIT(n)`.
use Prim.Native.Nat.{ℕ, ◌+◌, ◌-◌, ◌/◌, ◌%◌, ◌^◌}
use mathlib.Core.Bool.{Bool}
use kbus.Prelude.Tests.{◌==◌, if◌then◌else◌}

-- `f & bit`
abbrev pub has_bit : ℕ → ℕ → Bool
has_bit bit f = f / bit % 2 == 1

-- `f | bit`
abbrev pub set_bit : ℕ → ℕ → ℕ
set_bit bit f = if has_bit bit f then f else f + bit

-- `f & ~bit`
abbrev pub clear_bit : ℕ → ℕ → ℕ
clear_bit bit f = if has_bit bit f then f - bit else f

-- Unsigned 32-bit arithmetic, with its wrap-around.
abbrev pub u32_mod : ℕ
u32_mod = 2 ^ 32

abbrev pub add_u32 : ℕ → ℕ → ℕ
add_u32 a b = (a + b) % u32_mod

abbrev pub sub_u32 : ℕ → ℕ → ℕ
sub_u32 a b = (a + u32_mod - b % u32_mod) % u32_mod
