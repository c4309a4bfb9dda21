-- ===== src/Common/Words.antt =====
-- Machine words as native numbers, wrapped at their width, and little-endian fields of a buffer.
use Prim.Native.Nat.{ℕ, ◌+◌, ◌-◌, ◌*◌, ◌%◌, ◌^◌}
use mathlib.Core.List.{List}
use data_recovery_tool.Common.Lists.{get_or, take, drop}

-- `uint32_t` sum, difference and product.
abbrev pub add32 : ℕ → ℕ → ℕ
add32 a b = (a + b) % 2 ^ 32

abbrev pub sub32 : ℕ → ℕ → ℕ
sub32 a b = (a + 2 ^ 32 - b) % 2 ^ 32

abbrev pub mul32 : ℕ → ℕ → ℕ
mul32 a b = (a * b) % 2 ^ 32

-- `uint64_t` sum, difference and product.
abbrev pub add64 : ℕ → ℕ → ℕ
add64 a b = (a + b) % 2 ^ 64

abbrev pub sub64 : ℕ → ℕ → ℕ
sub64 a b = (a + 2 ^ 64 - b) % 2 ^ 64

abbrev pub mul64 : ℕ → ℕ → ℕ
mul64 a b = (a * b) % 2 ^ 64

-- The fields of a packed structure that lies at an offset of a buffer. Whoever reads one checks
-- that the structure lies within the buffer, or shows it.
unfoldable pub byte_at : List ℕ → ℕ → ℕ
byte_at buffer i = get_or buffer i 0

unfoldable pub u16_at : List ℕ → ℕ → ℕ
unfolding byte_at
u16_at buffer i = byte_at buffer i + 256 * byte_at buffer (i + 1)

unfoldable pub u32_at : List ℕ → ℕ → ℕ
unfolding u16_at
u32_at buffer i = u16_at buffer i + 2 ^ 16 * u16_at buffer (i + 2)

unfoldable pub u64_at : List ℕ → ℕ → ℕ
unfolding u32_at
u64_at buffer i = u32_at buffer i + 2 ^ 32 * u32_at buffer (i + 4)

abbrev pub bytes_at : List ℕ → ℕ → ℕ → List ℕ
bytes_at buffer i n = take n (drop i buffer)
