-- ===== src/Bits.antt =====
-- Shifts, masks and 64-bit words. A word is a number below 2 ^ 64; what C++ wraps is written out.
pub mod Step
pub mod Table
use gravtree.Prelude.{ℕ, ◌+◌, ◌-◌, ◌*◌, ◌/◌, ◌%◌, ◌^◌, bit_or}

abbrev pub u64 : ℕ → ℕ
u64 x = x % 2 ^ 64

infixl 60 ◌>>>◌
abbrev pub ◌>>>◌ : ℕ → ℕ → ℕ
x >>> k = x / 2 ^ k

abbrev pub shl64 : ℕ → ℕ → ℕ
shl64 x k = u64 (x * 2 ^ k)

abbrev pub add64 : ℕ → ℕ → ℕ
add64 a b = u64 (a + b)

abbrev pub mul64 : ℕ → ℕ → ℕ
mul64 a b = u64 (a * b)

-- `(x << k) | (x >> (64 - k))`
abbrev pub rotl64 : ℕ → ℕ → ℕ
rotl64 x k = bit_or (shl64 x k) (x >>> (64 - k))
