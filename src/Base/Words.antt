-- ===== src/Base/Words.antt =====
-- Machine words as native numbers: a w-bit word is below 2 ^ w, and casts and sums wrap by `%`.
use Prim.Native.Nat.{ℕ, ◌%◌, ◌^◌}
use mathlib.Core.Bool.{Bool}
use r_compatible_driver_v.Base.Tests.{ltb}

-- The casts to uint8_t, uint16_t, uint32_t and uint64_t.
abbrev pub u8 : ℕ → ℕ
u8 n = n % 256

abbrev pub u16 : ℕ → ℕ
u16 n = n % 2 ^ 16

abbrev pub u32 : ℕ → ℕ
u32 n = n % 2 ^ 32

abbrev pub u64 : ℕ → ℕ
u64 n = n % 2 ^ 64

-- An int32_t is kept as its bit pattern, below 2 ^ 32. Its sign is the top bit.
abbrev pub is_nonneg : ℕ → Bool
is_nonneg w = ltb w (2 ^ 31)
