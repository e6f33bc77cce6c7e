-- ===== src/Bloom/SetBit.antt =====
-- What `set_bit` makes of the bits.
use gravtree.Prelude.{
  ℕ, zero, suc, ◌/◌, ◌%◌, ◌^◌, ◌≤◌, ◌<◌, ◌≡◌, refl, ap, true, List, [], ◌∷◌, bit_or, length, get_or,
  set, All, arith, length-set, get_or-set_self,
}
use gravtree.Bits.Step.{bit_and_one, bit_and_seven}
use gravtree.Bits.Table.{bit, bit_or-lt, bit-bit_or_self, bit-bit_or}
use gravtree.Bloom.{Bloom, set_bit, get_bit}

-- At least one byte, and nothing but bytes.
pub record IsValid (f : Bloom) : Type 0 where
  pub nonempty : 0 < length f.bits
  pub bytes : All (λ b. b < 256) f.bits

All-get_or : (bs : List ℕ) (i : ℕ) → All (λ b. b < 256) bs → get_or bs i 0 < 256
All-get_or [] i h = omega arith
All-get_or (b ∷ bs) zero h = h.0
All-get_or (b ∷ bs) (suc i) h = All-get_or bs i h.1

All-set :
    (bs : List ℕ) (i v : ℕ) → v < 256 → All (λ b. b < 256) bs → All (λ b. b < 256) (set bs i v)
All-set [] i v p h = tt
All-set (b ∷ bs) zero v p h = (p, h.1)
All-set (b ∷ bs) (suc i) v p h = (h.0, All-set bs i v p h.1)

-- `get_bit` and `set_bit` in plain arithmetic.
get_bit-bit : (f : Bloom) (pos : ℕ) → get_bit f pos ≡ bit (get_or f.bits (pos / 8) 0) (pos % 8)
unfolding get_bit
get_bit-bit f pos = rw (bit_and_seven, bit_and_one) (ground arith)

shifted_one : (i : ℕ) → i < 8 → 2 ^ i % 256 ≡ 2 ^ i
shifted_one zero h = refl
shifted_one (suc zero) h = refl
shifted_one (suc (suc zero)) h = refl
shifted_one (suc (suc (suc zero))) h = refl
shifted_one (suc (suc (suc (suc zero)))) h = refl
shifted_one (suc (suc (suc (suc (suc zero))))) h = refl
shifted_one (suc (suc (suc (suc (suc (suc zero)))))) h = refl
shifted_one (suc (suc (suc (suc (suc (suc (suc zero))))))) h = refl
shifted_one (suc (suc (suc (suc (suc (suc (suc (suc i)))))))) h = absurd (omega arith)

set_bit_bits :
    (f : Bloom) (pos : ℕ)
    → (set_bit f pos).bits
      ≡ set f.bits (pos / 8) (bit_or (get_or f.bits (pos / 8) 0) (2 ^ (pos % 8)))
unfolding set_bit
set_bit_bits f pos = rw (bit_and_seven, shifted_one (pos % 8) (omega arith))

pub set_bit-IsValid : (f : Bloom) (pos : ℕ) → IsValid f → IsValid (set_bit f pos)
set_bit-IsValid f pos v = record {
  nonempty = rw (set_bit_bits, length-set) v.nonempty;
  bytes = rw set_bit_bits (
      All-set f.bits (pos / 8) _
        (bit_or-lt (get_or f.bits (pos / 8) 0) (pos % 8) (All-get_or f.bits (pos / 8) v.bytes)
          (omega arith))
        v.bytes);
}

pub length-set_bit : (f : Bloom) (pos : ℕ) → length (set_bit f pos).bits ≡ length f.bits
length-set_bit f pos = rw (set_bit_bits, length-set)

-- A position that was set is set, and stays set whatever is set next.
pub get_bit-set_bit_self :
    (f : Bloom) (pos : ℕ) → IsValid f → pos / 8 < length f.bits → get_bit (set_bit f pos) pos ≡ true
get_bit-set_bit_self f pos v h =
    rw
      (
        get_bit-bit,
        set_bit_bits,
        get_or-set_self f.bits (pos / 8) (bit_or (get_or f.bits (pos / 8) 0) (2 ^ (pos % 8))) 0 h,
      )
      (bit-bit_or_self (get_or f.bits (pos / 8) 0) (pos % 8) (All-get_or f.bits (pos / 8) v.bytes)
        (omega arith))

set_beyond : (bs : List ℕ) (i v : ℕ) → length bs ≤ i → set bs i v ≡ bs
set_beyond [] i v h = refl
set_beyond (b ∷ bs) zero v h = absurd (omega arith)
set_beyond (b ∷ bs) (suc i) v h = ap (◌∷◌ b) (set_beyond bs i v (omega arith))

bit-set :
    (bs : List ℕ) (p i q j : ℕ)
    → All (λ b. b < 256) bs
    → i < 8
    → j < 8
    → bit (get_or bs q 0) j ≡ true
    → bit (get_or (set bs p (bit_or (get_or bs p 0) (2 ^ i))) q 0) j ≡ true
bit-set [] p i q j v hi hj h = h
bit-set (b ∷ bs) zero i zero j v hi hj h = bit-bit_or b i j v.0 hi hj h
bit-set (b ∷ bs) zero i (suc q) j v hi hj h = h
bit-set (b ∷ bs) (suc p) i zero j v hi hj h = h
bit-set (b ∷ bs) (suc p) i (suc q) j v hi hj h = bit-set bs p i q j v.1 hi hj h

pub get_bit-set_bit :
    (f : Bloom) (pos q : ℕ) → IsValid f → get_bit f q ≡ true → get_bit (set_bit f pos) q ≡ true
get_bit-set_bit f pos q v h =
    rw (get_bit-bit, set_bit_bits)
      (bit-set f.bits (pos / 8) (pos % 8) (q / 8) (q % 8) v.bytes (omega arith) (omega arith)
        (rw get_bit-bit at h))
