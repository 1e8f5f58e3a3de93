-- ===== src/Base/Words.antt =====
-- Go's unsigned machine integers: a value is its number, and each operation wraps.
use Prim.Native.Nat.{ℕ, ◌+◌, ◌-◌, ◌%◌, ◌^◌}

-- `uint64` addition and subtraction. `-` on ℕ stops at 0, so the modulus is added first.
abbrev pub add64 : ℕ → ℕ → ℕ
add64 a b = (a + b) % 2 ^ 64

abbrev pub sub64 : ℕ → ℕ → ℕ
sub64 a b = (a + 2 ^ 64 - b) % 2 ^ 64

-- The same for `uint32`.
abbrev pub add32 : ℕ → ℕ → ℕ
add32 a b = (a + b) % 2 ^ 32

abbrev pub sub32 : ℕ → ℕ → ℕ
sub32 a b = (a + 2 ^ 32 - b) % 2 ^ 32

-- The conversions `uint16(x)` and `uint32(x)`.
abbrev pub to16 : ℕ → ℕ
to16 x = x % 2 ^ 16

abbrev pub to32 : ℕ → ℕ
to32 x = x % 2 ^ 32
