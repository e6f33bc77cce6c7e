-- ===== src/Bloom/Codec.antt =====
-- `serialize` and `deserialize`.
use gravtree.Prelude.{
  ℕ, ◌+◌, ◌*◌, ◌/◌, ◌%◌, ◌^◌, ◌<◌, ◌≡◌, ap, sym, ◌∙◌, List, ◌++◌, length, take, drop, arith,
  length-append, take-append, take_front, drop_front,
}
use mathlib.Core.List.{append_assoc}
use gravtree.Bytes.{le_bytes, length-le_bytes, le_value-le_bytes}
use gravtree.Result.{ok}
use gravtree.Bloom.{Bloom, serialize, deserialize}

-- What the two length fields of the format can hold.
pub record Fits (f : Bloom) : Type 0 where
  pub funcs : f.num_hash_funcs < 2 ^ 32
  pub bits : length f.bits * 8 < 2 ^ 64

pub length-serialize : (f : Bloom) → length (serialize f) ≡ 12 + length f.bits
unfolding serialize
length-serialize f =
    rw (length-append, length-append, length-le_bytes, length-le_bytes) (omega arith)

-- the bytes, where nothing is cut off
serialize-Fits :
    (f : Bloom)
    → Fits f
    → serialize f ≡ le_bytes 4 f.num_hash_funcs ++ (le_bytes 8 (length f.bits * 8) ++ f.bits)
unfolding serialize
serialize-Fits f v =
    let funcs : f.num_hash_funcs % 2 ^ 32 ≡ f.num_hash_funcs = omega (arith, v.funcs) in
    let bits : length f.bits * 8 % 2 ^ 64 ≡ length f.bits * 8 = omega (arith, v.bits) in
    rw (funcs, bits)

-- the three parts of the format
layout :
    (a b c : List ℕ)
    → length a ≡ 4
    → length b ≡ 8
    → (take 4 (a ++ (b ++ c)) ≡ a)
      × (take 8 (drop 4 (a ++ (b ++ c))) ≡ b)
      × (drop 12 (a ++ (b ++ c)) ≡ c)
layout a b c ha hb =
    let twelve : length (a ++ b) ≡ 12 = omega (arith, length-append a b) in
    let skip : drop 4 (a ++ (b ++ c)) ≡ b ++ c = drop_front 4 a (b ++ c) ha in
    (
      take_front 4 a (b ++ c) ha,
      ap (take 8) skip ∙ take_front 8 b c hb,
      ap (drop 12) (sym (append_assoc a b c)) ∙ drop_front 12 (a ++ b) c twelve,
    )

-- A filter whose two counts fit their fields is read back from its bytes, whatever stands behind
-- them.
pub deserialize-serialize :
    (f : Bloom) (rest : List ℕ)
    → Fits f
    → deserialize (serialize f ++ rest) (length (serialize f)) ≡ ok f
unfolding deserialize
deserialize-serialize f rest v =
    let a = le_bytes 4 f.num_hash_funcs in
    let b = le_bytes 8 (length f.bits * 8) in
    let parts = layout a b (f.bits ++ rest) (length-le_bytes 4 _) (length-le_bytes 8 _) in
    let whole : serialize f ++ rest ≡ a ++ (b ++ (f.bits ++ rest)) =
      rw (serialize-Fits f v, append_assoc, append_assoc) in
    let count : length f.bits * 8 / 8 ≡ length f.bits = omega arith in
    rw
      (
        whole,
        length-serialize f,
        parts.0,
        parts.1,
        parts.2,
        le_value-le_bytes 4 f.num_hash_funcs v.funcs,
        le_value-le_bytes 8 (length f.bits * 8) v.bits,
        count,
        take-append f.bits rest,
      )
      (ground arith)
