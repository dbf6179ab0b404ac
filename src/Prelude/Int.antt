-- ===== src/Prelude/Int.antt =====
-- Signed integers of 64 bits, over the native numbers.
use Prim.Native.Nat.{ℕ, ◌-◌, ◌%◌, ◌^◌}
use cicd_tools.Prelude.Tests.{if◌then◌else◌, ltb}

-- `negsuc n` is -(n + 1).
pub data ℤ : Type 0 where
  pos : ℕ → ℤ
  negsuc : ℕ → ℤ

-- The value of a bit pattern of 64 bits in two's complement, of which `n` is taken modulo 2 ^ 64.
abbrev pub to_int64 : ℕ → ℤ
to_int64 n =
    let bits = n % 2 ^ 64 in if ltb bits (2 ^ 63) then pos bits else negsuc (2 ^ 64 - 1 - bits)
