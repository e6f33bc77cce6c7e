-- ===== src/Bloom.antt =====
-- src/bloom.cpp and include/gravtree/bloom.h: the filter, its operations and its bytes.
mod Hash
pub mod Sizing
pub mod SetBit
pub mod Members
pub mod Codec
unfoldable pub use Hash.{base_hashes}
use gravtree.Prelude.{
  ℕ, zero, suc, ◌+◌, ◌*◌, ◌/◌, ◌%◌, ◌^◌, Bool, true, false, not, List, [], ◌∷◌, ◌++◌, ltb, ◌==◌,
  if◌then◌else◌, bit_and, bit_or, length, get_or, set, take, drop,
}
use gravtree.Key.{Str}
use gravtree.Bits.{u64, ◌>>>◌, add64, mul64}
use gravtree.Bytes.{le_bytes, le_value}
use gravtree.Result.{Result, ok, err, bloom_too_small, bloom_truncated}

pub record Bloom : Type 0 where
  pub bits : List ℕ
  pub num_hash_funcs : ℕ

unfoldable pub bit_count : Bloom → ℕ
bit_count f = length f.bits * 8

-- `(h1 + i * h2) % bit_count()`
unfoldable pub nth_hash : Bloom → ℕ → ℕ → ℕ → ℕ
unfolding bit_count
nth_hash f h1 h2 i = add64 h1 (mul64 i h2) % bit_count f

unfoldable pub set_bit : Bloom → ℕ → Bloom
set_bit f pos =
    let byte = bit_or (get_or f.bits (pos >>> 3) 0) (2 ^ bit_and pos 7 % 256) in
    record f { bits = set f.bits (pos >>> 3) byte }

unfoldable pub get_bit : Bloom → ℕ → Bool
get_bit f pos = not (bit_and (get_or f.bits (pos >>> 3) 0 >>> bit_and pos 7) 1 == 0)

-- the loop of `add` at `i`, with `n` rounds left
unfoldable pub add_from : ℕ → ℕ → ℕ → ℕ → Bloom → Bloom
add_from h1 h2 zero i f = f
add_from h1 h2 (suc n) i f = add_from h1 h2 n (i + 1) (set_bit f (nth_hash f h1 h2 i))

unfoldable pub add : Bloom → Str → Bloom
unfolding add_from
add f key = let (h1, h2) = base_hashes key in add_from h1 h2 f.num_hash_funcs 0 f

-- the loop of `might_contain`
unfoldable pub probe_from : ℕ → ℕ → ℕ → ℕ → Bloom → Bool
probe_from h1 h2 zero i f = true
probe_from h1 h2 (suc n) i f =
    if not (get_bit f (nth_hash f h1 h2 i)) then false else probe_from h1 h2 n (i + 1) f

unfoldable pub might_contain : Bloom → Str → Bool
unfolding probe_from
might_contain f key = let (h1, h2) = base_hashes key in probe_from h1 h2 f.num_hash_funcs 0 f

unfoldable pub serialize : Bloom → List ℕ
serialize f =
    le_bytes 4 (f.num_hash_funcs % 2 ^ 32) ++ (le_bytes 8 (u64 (length f.bits * 8)) ++ f.bits)

-- `deserialize(data, size)`: `size` is the caller's word, and `data` may go on behind it.
unfoldable pub deserialize : List ℕ → ℕ → Result Bloom
deserialize bytes size =
    if ltb size 12
    then err bloom_too_small
    else let byte_count = le_value (take 8 (drop 4 bytes)) / 8 in
      if ltb size (12 + byte_count)
      then err bloom_truncated
      else ok (record {
        bits = take byte_count (drop 12 bytes);
        num_hash_funcs = le_value (take 4 bytes);
      })
