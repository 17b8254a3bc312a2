-- ===== src/Common/Words.antt =====
-- C's unsigned integers as native numbers, with the wrap-around written out.
use Prim.Native.Nat.{ℕ, ◌+◌, ◌-◌, ◌*◌, ◌/◌, ◌%◌, ◌^◌}

abbrev pub u64_mod : ℕ
u64_mod = 2 ^ 64

-- `uint64_t` addition, subtraction, product and left shift.
abbrev pub add64 : ℕ → ℕ → ℕ
add64 a b = (a + b) % u64_mod

abbrev pub sub64 : ℕ → ℕ → ℕ
sub64 a b = (a + u64_mod - b) % u64_mod

abbrev pub mul64 : ℕ → ℕ → ℕ
mul64 a b = a * b % u64_mod

abbrev pub shl64 : ℕ → ℕ → ℕ
shl64 a k = a * 2 ^ k % u64_mod

-- x >> k
abbrev pub shr : ℕ → ℕ → ℕ
shr x k = x / 2 ^ k

-- A value kept in a `uint8_t` or a `uint32_t`.
abbrev pub u8 : ℕ → ℕ
u8 x = x % 2 ^ 8

abbrev pub u32 : ℕ → ℕ
u32 x = x % 2 ^ 32

-- `uint32_t` subtraction.
abbrev pub sub32 : ℕ → ℕ → ℕ
sub32 a b = (a + 2 ^ 32 - b) % 2 ^ 32

-- `uint32_t` product and left shift.
abbrev pub mul32 : ℕ → ℕ → ℕ
mul32 a b = a * b % 2 ^ 32

abbrev pub shl32 : ℕ → ℕ → ℕ
shl32 a k = a * 2 ^ k % 2 ^ 32

-- The left shift of a small `int`, taken into a `uint64_t`. C does not define it where it overflows; here the
-- 32 bits are kept, and the sign is extended.
abbrev pub shl_int : ℕ → ℕ → ℕ
shl_int a k = ((a * 2 ^ k + 2 ^ 31) % 2 ^ 32 + (2 ^ 64 - 2 ^ 31)) % 2 ^ 64
