-- ===== src/Common/Words.antt =====
-- Go's integers: `int` and `time.Duration` as ℤ, and the conversion to `uint32`.
use Prim.Native.Nat.{ℕ, ◌-◌, ◌%◌, ◌^◌}

-- `negsuc n` is - (n + 1).
pub data ℤ : Type 0 where
  pos negsuc : ℕ → ℤ

-- `uint32(x)`, which keeps the low 32 bits of the two's complement
unfoldable pub uint32 : ℤ → ℕ
uint32 (pos n) = n % 2 ^ 32
uint32 (negsuc n) = 2 ^ 32 - 1 - n % 2 ^ 32
