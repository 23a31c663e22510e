-- ===== src/Base/Words.antt =====
-- Fixed-width unsigned integers as native numbers: casts and counters that wrap.
use Prim.Native.Nat.{ℕ, ◌+◌, ◌%◌, ◌^◌}

abbrev pub u8 : ℕ → ℕ
u8 n = n % 2 ^ 8

abbrev pub u16 : ℕ → ℕ
u16 n = n % 2 ^ 16

abbrev pub u32 : ℕ → ℕ
u32 n = n % 2 ^ 32

-- `counter++` on a uint32_t.
abbrev pub inc32 : ℕ → ℕ
inc32 n = u32 (n + 1)
