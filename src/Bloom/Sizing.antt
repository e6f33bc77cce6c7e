-- ===== src/Bloom/Sizing.antt =====
-- The constructor `BloomFilter(expected_entries, fpr)`. antt has no floating-point numbers, so the
-- type `double` and the operations that the constructor calls are an interface.
use gravtree.Prelude.{
  ◌^◌, ℕ, ◌+◌, ◌*◌, ◌/◌, ◌%◌, ◌≤◌, ◌<◌, ◌≡◌, ltb, ◌==◌, if◌then◌else◌, arith, replicate,
  length-replicate, All, All-replicate,
}
use gravtree.Bits.{u64}
use gravtree.Bloom.{Bloom, bit_count}

pub record Doubles : Type 1 where
  pub Double : Type 0
  pub of_size : ℕ → Double
  pub neg : Double → Double
  pub plus : Double → Double → Double
  pub times : Double → Double → Double
  pub over : Double → Double → Double
  pub log : Double → Double
  pub truncate : Double → ℕ
  -- the literals 2.0, 0.5 and 0.01
  pub two : Double
  pub half : Double
  pub one_percent : Double

-- `m` rounded up to whole 64-bit words
round_up : ℕ → ℕ
round_up m = u64 (m + 63) / 64 * 64

clamp_hash_funcs : ℕ → ℕ
clamp_hash_funcs k = let k' = if ltb k 1 then 1 else k in if ltb 20 k' then 20 else k'

at_least_one : ℕ → ℕ
at_least_one n = if n == 0 then 1 else n

clamp_hash_funcs_bounds : (k : ℕ) → (1 ≤ clamp_hash_funcs k) × (clamp_hash_funcs k ≤ 20)
unfolding clamp_hash_funcs
clamp_hash_funcs_bounds k = ground arith

round_up_bounds :
    (m : ℕ)
    → m < 2 ^ 63
    → (m ≤ round_up m)
      × (round_up m < m + 64)
      × (round_up m / 8 * 8 ≡ round_up m)
      × (round_up m % 64 ≡ 0)
unfolding round_up
round_up_bounds m h = omega arith

module _ ⦃fl : Doubles⦄ where
  open fl use {Double, of_size, neg, plus, times, over, log, truncate, two, half}

  -- `static_cast<size_t>(m_d)`
  unfoldable pub wanted_bits : ℕ → Double → ℕ
  unfolding at_least_one
  wanted_bits expected fpr =
      let n = at_least_one expected in
      truncate (over (times (neg (of_size n)) (log fpr)) (times (log two) (log two)))

  -- `static_cast<size_t>((m / n) * ln2 + 0.5)`
  wanted_funcs : ℕ → ℕ → ℕ
  unfolding at_least_one
  wanted_funcs m expected =
      truncate (plus (times (over (of_size m) (of_size (at_least_one expected))) (log two)) half)

  unfoldable pub new : ℕ → Double → Bloom
  unfolding wanted_bits wanted_funcs round_up clamp_hash_funcs
  new expected fpr =
      let m = round_up (wanted_bits expected fpr) in
      record {
        bits = replicate (m / 8) 0;
        num_hash_funcs = clamp_hash_funcs (wanted_funcs m expected);
      }

  -- Where fewer than 2 ^ 63 bits are wanted, a new filter has between 1 and 20 hash functions, at
  -- least as many bits as wanted and fewer than 64 more, and a multiple of 64 of them.
  pub new_bounds :
      (n : ℕ) (fpr : Double)
      → wanted_bits n fpr < 2 ^ 63
      → (1 ≤ (new n fpr).num_hash_funcs)
        × ((new n fpr).num_hash_funcs ≤ 20)
        × (wanted_bits n fpr ≤ bit_count (new n fpr))
        × (bit_count (new n fpr) < wanted_bits n fpr + 64)
        × (bit_count (new n fpr) % 64 ≡ 0)
  new_bounds n fpr h =
      let m = round_up (wanted_bits n fpr) in
      unfold new bit_count in
      (
        (clamp_hash_funcs_bounds (wanted_funcs m n)).0,
        (clamp_hash_funcs_bounds (wanted_funcs m n)).1,
        rw length-replicate (omega (arith, round_up_bounds (wanted_bits n fpr) h)),
        rw length-replicate (omega (arith, round_up_bounds (wanted_bits n fpr) h)),
        rw length-replicate (omega (arith, round_up_bounds (wanted_bits n fpr) h)),
      )

  -- A new filter has no byte out of range.
  pub new-IsBytes : (n : ℕ) (fpr : Double) → All (λ b. b < 256) (new n fpr).bits
  new-IsBytes n fpr =
      unfold new in All-replicate (λ b. b < 256) (round_up (wanted_bits n fpr) / 8) 0 (omega arith)
