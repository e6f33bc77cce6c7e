-- ===== src/Crc.antt =====
-- src/node.cpp: `crc64`, the checksum of a node file.
use gravtree.Prelude.{
  ℕ, zero, suc, ◌^◌, ◌<◌, List, [], ◌∷◌, bit_and, bit_xor, not, ◌==◌, if◌then◌else◌, arith,
}
use gravtree.Bits.{shl64}
use gravtree.Bits.Step.{bit_xor-lt}

abbrev poly : ℕ
poly = 0xad93d23594c935a9

abbrev all_ones : ℕ
all_ones = 0xffff_ffff_ffff_ffff

unfoldable pub crc_bit : ℕ → ℕ
crc_bit crc = if not (bit_and crc (2 ^ 63) == 0) then bit_xor (shl64 crc 1) poly else shl64 crc 1

unfoldable pub crc_bits : ℕ → ℕ → ℕ
unfolding crc_bit
crc_bits zero crc = crc
crc_bits (suc b) crc = crc_bits b (crc_bit crc)

-- the loop over the bytes
unfoldable pub crc_loop : List ℕ → ℕ → ℕ
unfolding crc_bits
crc_loop [] crc = crc
crc_loop (b ∷ bytes) crc = crc_loop bytes (crc_bits 8 (bit_xor crc (shl64 b 56)))

unfoldable pub crc64 : List ℕ → ℕ
unfolding crc_loop
crc64 bytes = bit_xor (crc_loop bytes all_ones) all_ones

crc_bit-lt : (crc : ℕ) → crc_bit crc < 2 ^ 64
unfolding crc_bit
crc_bit-lt crc = ground (arith, bit_xor-lt 64 (shl64 crc 1) poly (omega arith) (omega arith))

crc_bits-lt : (n crc : ℕ) → crc < 2 ^ 64 → crc_bits n crc < 2 ^ 64
unfolding crc_bits
crc_bits-lt zero crc h = h
crc_bits-lt (suc n) crc h = crc_bits-lt n (crc_bit crc) (crc_bit-lt crc)

crc_loop-lt : (bytes : List ℕ) (crc : ℕ) → crc < 2 ^ 64 → crc_loop bytes crc < 2 ^ 64
unfolding crc_loop
crc_loop-lt [] crc h = h
crc_loop-lt (b ∷ bytes) crc h =
    crc_loop-lt bytes (crc_bits 8 (bit_xor crc (shl64 b 56)))
      (crc_bits-lt 8 (bit_xor crc (shl64 b 56)) (bit_xor-lt 64 crc (shl64 b 56) h (omega arith)))

-- The checksum of any bytes fits 64 bits.
pub crc64-lt : (bytes : List ℕ) → crc64 bytes < 2 ^ 64
unfolding crc64
crc64-lt bytes =
    bit_xor-lt 64 (crc_loop bytes all_ones) all_ones (crc_loop-lt bytes all_ones (omega arith))
      (omega arith)
