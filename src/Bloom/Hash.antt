-- ===== src/Bloom/Hash.antt =====
-- `fmix64` and `BloomFilter::base_hashes` of src/bloom.cpp.
use gravtree.Prelude.{
  ℕ, zero, suc, ◌+◌, ◌-◌, ◌*◌, ◌/◌, min, List, bit_and, bit_xor, ltb, if◌then◌else◌, length, get_or,
  take, drop,
}
use gravtree.Key.{Str}
use gravtree.Bits.{◌>>>◌, shl64, add64, mul64, rotl64}
use gravtree.Bytes.{le_value}

fmix64 : ℕ → ℕ
fmix64 k =
    let k₁ = mul64 (bit_xor k (k >>> 33)) 0xff51afd7ed558ccd in
    let k₂ = mul64 (bit_xor k₁ (k₁ >>> 33)) 0xc4ceb9fe1a85ec53 in bit_xor k₂ (k₂ >>> 33)

abbrev c1 : ℕ
c1 = 0x87c37b91114253d5

abbrev c2 : ℕ
c2 = 0x4cf5ad432745937f

mix_k1 : ℕ → ℕ
mix_k1 k = mul64 (rotl64 (mul64 k c1) 31) c2

mix_k2 : ℕ → ℕ
mix_k2 k = mul64 (rotl64 (mul64 k c2) 33) c1

-- one round of the loop over the blocks, on the 16 bytes at its offset
block_round : List ℕ → ℕ × ℕ → ℕ × ℕ
unfolding mix_k1 mix_k2
block_round block (h1, h2) =
    let a = bit_xor h1 (mix_k1 (le_value (take 8 block))) in
    let h1' = add64 (mul64 (add64 (rotl64 a 27) h2) 5) 0x52dce729 in
    let b = bit_xor h2 (mix_k2 (le_value (take 8 (drop 8 block)))) in
    let h2' = add64 (mul64 (add64 (rotl64 b 31) h1') 5) 0x38495ab5 in (h1', h2')

blocks_from : ℕ → List ℕ → ℕ × ℕ → ℕ × ℕ
unfolding block_round
blocks_from zero bytes h = h
blocks_from (suc n) bytes h = blocks_from n (drop 16 bytes) (block_round bytes h)

-- the cases `base + n` down to `base + 1` of the switch, each falling through to the next
fall_through : List ℕ → ℕ → ℕ → ℕ → ℕ
fall_through tail base zero k = k
fall_through tail base (suc n) k =
    fall_through tail base n (bit_xor k (shl64 (get_or tail (base + n) 0) (8 * n)))

-- the switch over `len & 15`
tail_switch : List ℕ → ℕ → ℕ × ℕ → ℕ × ℕ
unfolding fall_through mix_k1 mix_k2
tail_switch tail rem (h1, h2) =
    let h2' = if ltb 8 rem then bit_xor h2 (mix_k2 (fall_through tail 8 (rem - 8) 0)) else h2 in
    let h1' = if ltb 0 rem then bit_xor h1 (mix_k1 (fall_through tail 0 (min rem 8) 0)) else h1 in
    (h1', h2')

-- both hashes of a key
unfoldable pub base_hashes : Str → ℕ × ℕ
unfolding fmix64 blocks_from tail_switch
base_hashes key =
    let len = length key in
    let nblocks = len / 16 in
    let (a, b) = blocks_from nblocks key (0x9368f2a5c3b1d4e7, 0x1a2b3c4d5e6f7890) in
    let (c, d) = tail_switch (drop (nblocks * 16) key) (bit_and len 15) (a, b) in
    let e = bit_xor c len in
    let f = bit_xor d len in
    let e' = add64 e f in
    let f' = add64 f e' in
    let g = fmix64 e' in let h = fmix64 f' in let g' = add64 g h in (g', add64 h g')
