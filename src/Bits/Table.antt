-- ===== src/Bits/Table.antt =====
-- Facts about one byte, checked for every value by evaluation.
use gravtree.Prelude.{
  ℕ, zero, suc, ◌%◌, ◌^◌, ◌<◌, bit_or, Bool, true, ◌&&◌, ◌||◌, not, ◌≡◌, refl, ltb, ◌==◌, arith,
}
use gravtree.Bits.{◌>>>◌}

-- Whether a test holds of every number below a bound, from 0 up.
unfoldable pub each_below : (ℕ → Bool) → ℕ → Bool
each_below test zero = true
each_below test (suc n) = test 0 && each_below (λ i. test (suc i)) n

pub each_below_holds :
    (test : ℕ → Bool) (n i : ℕ) → i < n → each_below test n ≡ true → test i ≡ true
unfolding each_below
each_below_holds test zero i lt all = absurd (omega arith)
each_below_holds test (suc n) zero lt all = ground arith
each_below_holds test (suc n) (suc i) lt all =
    each_below_holds (λ j. test (suc j)) n i (omega arith) (ground arith)

abbrev pub bit : ℕ → ℕ → Bool
bit b i = (b >>> i) % 2 == 1

-- Setting bit `i` keeps a byte a byte, sets the bit, and clears no bit `j`.
abbrev set_law : ℕ → ℕ → ℕ → Bool
set_law b i j =
    ltb (bit_or b (2 ^ i)) 256
    && (bit (bit_or b (2 ^ i)) i && (not (bit b j) || bit (bit_or b (2 ^ i)) j))

set_table : each_below (λ b. each_below (λ i. each_below (λ j. set_law b i j) 8) 8) 256 ≡ true
unfolding each_below
set_table = refl

set_law_holds : (b i j : ℕ) → b < 256 → i < 8 → j < 8 → set_law b i j ≡ true
set_law_holds b i j hb hi hj =
    each_below_holds (λ y. set_law b i y) 8 j hj
      (each_below_holds (λ x. each_below (λ y. set_law b x y) 8) 8 i hi
        (each_below_holds _ 256 b hb set_table))

pub bit_or-lt : (b i : ℕ) → b < 256 → i < 8 → bit_or b (2 ^ i) < 256
bit_or-lt b i hb hi = ground (arith, set_law_holds b i 0)

pub bit-bit_or_self : (b i : ℕ) → b < 256 → i < 8 → bit (bit_or b (2 ^ i)) i ≡ true
bit-bit_or_self b i hb hi = ground (arith, set_law_holds b i 0)

pub bit-bit_or :
    (b i j : ℕ) → b < 256 → i < 8 → j < 8 → bit b j ≡ true → bit (bit_or b (2 ^ i)) j ≡ true
bit-bit_or b i j hb hi hj h = ground (arith, set_law_holds b i j)
