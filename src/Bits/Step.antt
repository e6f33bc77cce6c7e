-- ===== src/Bits/Step.antt =====
-- The lowest digit of `bit_and` and `bit_xor`, and what follows for masks and bounds. The tactics
-- take a call of these operations at variables for an unknown.
use Prim.Native.Nat.{digits, differ, bit_and-bitwise, bit_xor-bitwise}
use native.Mathlib.Nat.{pow-suc}
use gravtree.Prelude.{
  ℕ, zero, suc, ◌+◌, ◌*◌, ◌/◌, ◌%◌, ◌^◌, ◌≤◌, ◌<◌, min, bit_and, bit_xor, ◌≡◌, refl, arith, ap,
}

-- Two counts of digits that both suffice give the same number.
module _ (z : ℕ → ℕ) (f : ℕ → ℕ → ℕ) where
  same_digits : (a b : ℕ) (n m : ℕ) → a ≤ n → a ≤ m → digits z f n a b ≡ digits z f m a b
  same_digits zero b zero zero p q = refl
  same_digits zero b zero (suc m) p q = refl
  same_digits zero b (suc n) zero p q = refl
  same_digits zero b (suc n) (suc m) p q = refl
  same_digits (suc a) b zero m p q = absurd (omega arith)
  same_digits (suc a) b (suc n) zero p q = absurd (omega arith)
  same_digits (suc a) b (suc n) (suc m) p q =
      ap (λ (d : ℕ). d * 2 + f (suc a % 2) (b % 2))
        (same_digits (suc a / 2) (b / 2) n m (omega arith) (omega arith))

  digits-suc :
      (a b : ℕ)
      → digits z f (suc a) (suc a) b
        ≡ digits z f (suc a / 2) (suc a / 2) (b / 2) * 2 + f (suc a % 2) (b % 2)
  digits-suc a b =
      ap (λ (d : ℕ). d * 2 + f (suc a % 2) (b % 2))
        (same_digits (suc a / 2) (b / 2) a (suc a / 2) (omega arith) (omega arith))

-- `&` digit by digit
bit_and-halves : (a b : ℕ) → bit_and a b ≡ min (a % 2) (b % 2) + 2 * bit_and (a / 2) (b / 2)
bit_and-halves zero b = simp bit_and-bitwise (omega arith)
bit_and-halves (suc a) b = simp bit_and-bitwise (omega (arith, digits-suc (λ _. 0) min a b))

-- `^` digit by digit
bit_xor-halves : (a b : ℕ) → bit_xor a b ≡ differ (a % 2) (b % 2) + 2 * bit_xor (a / 2) (b / 2)
bit_xor-halves zero b = simp bit_xor-bitwise (omega arith)
bit_xor-halves (suc a) b = simp bit_xor-bitwise (omega (arith, digits-suc (λ d. d) differ a b))

differ_bit : (x y : ℕ) → x < 2 → y < 2 → differ x y < 2
differ_bit zero y h k = k
differ_bit (suc zero) zero h k = omega arith
differ_bit (suc zero) (suc y) h k = omega arith
differ_bit (suc (suc x)) y h k = absurd (omega arith)

-- Exclusive or stays within the width of its arguments.
pub bit_xor-lt : (w a b : ℕ) → a < 2 ^ w → b < 2 ^ w → bit_xor a b < 2 ^ w
bit_xor-lt zero a b h k = omega (arith, bit_xor_zero a b (omega arith) (omega arith))
  where
    bit_xor_zero : (x y : ℕ) → x ≡ 0 → y ≡ 0 → bit_xor x y ≡ 0
    bit_xor_zero x y p q = rw (p, q)
bit_xor-lt (suc w) a b h k = omega (
  arith,
  pow-suc 2 w,
  bit_xor-halves a b,
  differ_bit (a % 2) (b % 2) (omega arith) (omega arith),
  bit_xor-lt w (a / 2) (b / 2) (omega (arith, pow-suc 2 w)) (omega (arith, pow-suc 2 w)),
)

bit_and-zero : (n a : ℕ) → a ≤ n → bit_and a 0 ≡ 0
bit_and-zero n zero h = refl
bit_and-zero zero (suc a) h = absurd (omega arith)
bit_and-zero (suc n) (suc a) h =
    omega (arith, bit_and-halves (suc a) 0, bit_and-zero n (suc a / 2) (omega arith))

-- `x & 1` and `x & 7`
pub bit_and_one : (a : ℕ) → bit_and a 1 ≡ a % 2
bit_and_one a = omega (arith, bit_and-halves a 1, bit_and-zero (a / 2) (a / 2) (omega arith))

pub bit_and_seven : (a : ℕ) → bit_and a 7 ≡ a % 8
bit_and_seven a =
    omega (arith, bit_and_one (a / 2 / 2), bit_and-halves (a / 2) 3, bit_and-halves a 7)
