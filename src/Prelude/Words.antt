-- ===== src/Prelude/Words.antt =====
-- Machine integers: a value is a number below the modulus, and each operation wraps.
use Prim.Native.Nat.{ℕ, ◌+◌, ◌-◌, ◌%◌, ◌^◌, ◌<◌}
use mathlib.Core.Path.{◌≡◌}
use native.Mathlib.Omega.{arith}
use dlslime.Prelude.Tests.{ltb, if◌then◌else◌}

abbrev pub u8_mod : ℕ
u8_mod = 2 ^ 8

abbrev pub u16_mod : ℕ
u16_mod = 2 ^ 16

abbrev pub u32_mod : ℕ
u32_mod = 2 ^ 32

abbrev pub u64_mod : ℕ
u64_mod = 2 ^ 64

-- The conversions to `uint8_t`, `uint16_t`, `uint32_t` and `uint64_t`.
abbrev pub u8 : ℕ → ℕ
u8 n = n % 2 ^ 8

abbrev pub u16 : ℕ → ℕ
u16 n = n % 2 ^ 16

abbrev pub u32 : ℕ → ℕ
u32 n = n % 2 ^ 32

abbrev pub u64 : ℕ → ℕ
u64 n = n % 2 ^ 64

-- `fetch_add` and `fetch_sub` on a `std::atomic<int>`, as bit patterns of 32 bits.
abbrev pub add32 : ℕ → ℕ → ℕ
add32 a n = (a + n) % 2 ^ 32

abbrev pub sub32 : ℕ → ℕ → ℕ
sub32 a n = (a + 2 ^ 32 - n % 2 ^ 32) % 2 ^ 32

-- `int` converted to `size_t`: the sign bit is extended.
abbrev pub size_of_int : ℕ → ℕ
size_of_int a = if ltb a (2 ^ 31) then a else a + (2 ^ 64 - 2 ^ 32)

abbrev pub add64 : ℕ → ℕ → ℕ
add64 a b = (a + b) % 2 ^ 64

pub sub32-add32 : (a n : ℕ) → a < 2 ^ 32 → n < 2 ^ 32 → sub32 (add32 a n) n ≡ a
sub32-add32 a n h k = omega arith
