-- ===== src/Bloom/Members.antt =====
-- The keys that a filter reports.
use native.Mathlib.Nat.{mod-lt}
use mathlib.Core.List.{foldl}
use gravtree.Prelude.{
  subst, ℕ, zero, suc, ◌+◌, ◌*◌, ◌/◌, ◌≤◌, ◌<◌, ◌≡◌, refl, ◌∙◌, true, List, [], ◌∷◌, ◌==◌, ==_iff,
  length, All, arith, Bool-cases, inl, inr,
}
use gravtree.Key.{Str}
use gravtree.Bits.{add64, mul64}
use gravtree.Bloom.{
  Bloom, base_hashes, nth_hash, set_bit, get_bit, add_from, add, probe_from, might_contain,
}
use gravtree.Bloom.SetBit.{
  IsValid, set_bit-IsValid, length-set_bit, get_bit-set_bit_self, get_bit-set_bit,
}

module _ (h1 h2 : ℕ) where
  nth_hash-set_bit : (f : Bloom) (pos i : ℕ) → nth_hash (set_bit f pos) h1 h2 i ≡ nth_hash f h1 h2 i
  unfolding nth_hash
  nth_hash-set_bit f pos i = rw length-set_bit

  nth_hash_in_range : (f : Bloom) (i : ℕ) → IsValid f → nth_hash f h1 h2 i / 8 < length f.bits
  unfolding nth_hash
  nth_hash_in_range f i v = omega (
    arith,
    v.nonempty,
    mod-lt (add64 h1 (mul64 i h2)) {m = length f.bits * 8} (omega (arith, v.nonempty)),
  )

  add_from-IsValid : (n i : ℕ) (f : Bloom) → IsValid f → IsValid (add_from h1 h2 n i f)
  unfolding add_from
  add_from-IsValid zero i f v = v
  add_from-IsValid (suc n) i f v =
      add_from-IsValid n (i + 1) (set_bit f (nth_hash f h1 h2 i)) (set_bit-IsValid f _ v)

  -- The loop of `add` clears no bit,
  get_bit-add_from :
      (n i : ℕ) (f : Bloom) (q : ℕ)
      → IsValid f
      → get_bit f q ≡ true
      → get_bit (add_from h1 h2 n i f) q ≡ true
  unfolding add_from
  get_bit-add_from zero i f q v h = h
  get_bit-add_from (suc n) i f q v h =
      get_bit-add_from n (i + 1) (set_bit f (nth_hash f h1 h2 i)) q (set_bit-IsValid f _ v)
        (get_bit-set_bit f (nth_hash f h1 h2 i) q v h)

  -- keeps the size and the number of hash functions,
  shape-add_from :
      (n i : ℕ) (f : Bloom)
      → (length (add_from h1 h2 n i f).bits ≡ length f.bits)
        × ((add_from h1 h2 n i f).num_hash_funcs ≡ f.num_hash_funcs)
  unfolding add_from
  shape-add_from zero i f = (refl, refl)
  shape-add_from (suc n) i f =
      let rest = shape-add_from n (i + 1) (set_bit f (nth_hash f h1 h2 i)) in
      (rest.0 ∙ length-set_bit f _, rest.1 ∙ unfold set_bit in refl)

  -- and sets the bits of its rounds.
  hit-add_from :
      (n i j : ℕ) (f : Bloom)
      → IsValid f
      → i ≤ j
      → j < i + n
      → get_bit (add_from h1 h2 n i f) (nth_hash f h1 h2 j) ≡ true
  unfolding add_from
  hit-add_from zero i j f v lo hi = absurd (omega arith)
  hit-add_from (suc n) i j f v lo hi = elim (Bool-cases (i == j)) [
    | inl q ↦
        get_bit-add_from n (i + 1) (set_bit f (nth_hash f h1 h2 i)) (nth_hash f h1 h2 j)
          (set_bit-IsValid f _ v)
          (subst (λ k. get_bit (set_bit f (nth_hash f h1 h2 i)) (nth_hash f h1 h2 k) ≡ true)
            ((==_iff i j).0 q)
            (get_bit-set_bit_self f (nth_hash f h1 h2 i) v (nth_hash_in_range f i v)))
    | inr q ↦
        subst (λ p. get_bit (add_from h1 h2 n (i + 1) (set_bit f (nth_hash f h1 h2 i))) p ≡ true)
          (nth_hash-set_bit f (nth_hash f h1 h2 i) j)
          (hit-add_from n (i + 1) j (set_bit f (nth_hash f h1 h2 i)) (set_bit-IsValid f _ v)
            (ground arith) (omega arith))
  ]

  probe-of_hits :
      (n i : ℕ) (f : Bloom)
      → ((j : ℕ) → i ≤ j → j < i + n → get_bit f (nth_hash f h1 h2 j) ≡ true)
      → probe_from h1 h2 n i f ≡ true
  unfolding probe_from
  probe-of_hits zero i f h = refl
  probe-of_hits (suc n) i f h =
      rw (h i (omega arith) (omega arith))
        (probe-of_hits n (i + 1) f (λ j lo hi. h j (omega arith) (omega arith)))

  hits-of_probe :
      (n i : ℕ) (f : Bloom)
      → probe_from h1 h2 n i f ≡ true
      → (j : ℕ) → i ≤ j
      → j < i + n
      → get_bit f (nth_hash f h1 h2 j) ≡ true
  unfolding probe_from
  hits-of_probe zero i f h j lo hi = absurd (omega arith)
  hits-of_probe (suc n) i f h j lo hi = elim (Bool-cases (get_bit f (nth_hash f h1 h2 i))) [
    | inr q ↦ ground arith
    | inl q ↦ elim (Bool-cases (i == j)) [
      | inl same ↦ subst (λ k. get_bit f (nth_hash f h1 h2 k) ≡ true) ((==_iff i j).0 same) q
      | inr other ↦ hits-of_probe n (i + 1) f (ground arith) j (ground arith) (omega arith)
    ]
  ]

nth_hash-length :
    (f g : Bloom) (h1 h2 i : ℕ)
    → length g.bits ≡ length f.bits
    → nth_hash g h1 h2 i ≡ nth_hash f h1 h2 i
unfolding nth_hash
nth_hash-length f g h1 h2 i e = rw e

pub add-IsValid : (f : Bloom) (k : Str) → IsValid f → IsValid (add f k)
unfolding add
add-IsValid f k v = add_from-IsValid (base_hashes k).0 (base_hashes k).1 f.num_hash_funcs 0 f v

-- A key that was added is reported,
pub might_contain-add_self : (f : Bloom) (k : Str) → IsValid f → might_contain (add f k) k ≡ true
unfolding add might_contain
might_contain-add_self f k v =
    let h1 = (base_hashes k).0 in
    let h2 = (base_hashes k).1 in
    let n = f.num_hash_funcs in
    let g = add_from h1 h2 n 0 f in
    let shape = shape-add_from h1 h2 n 0 f in
    rw shape.1 (
      probe-of_hits h1 h2 n 0 g
        (λ j lo hi. rw (nth_hash-length f g h1 h2 j shape.0) (hit-add_from h1 h2 n 0 j f v lo hi)))

-- and so is every key that was reported before another is added.
pub might_contain-add :
    (f : Bloom) (k j : Str)
    → IsValid f
    → might_contain f j ≡ true
    → might_contain (add f k) j ≡ true
unfolding add might_contain
might_contain-add f k j v h =
    let a1 = (base_hashes k).0 in
    let a2 = (base_hashes k).1 in
    let b1 = (base_hashes j).0 in
    let b2 = (base_hashes j).1 in
    let n = f.num_hash_funcs in
    let g = add_from a1 a2 n 0 f in
    let shape = shape-add_from a1 a2 n 0 f in
    rw shape.1 (
      probe-of_hits b1 b2 n 0 g (λ i lo hi. rw (nth_hash-length f g b1 b2 i shape.0) (
        get_bit-add_from a1 a2 n 0 f (nth_hash f b1 b2 i) v (hits-of_probe b1 b2 n 0 f h i lo hi))))

pub foldl-add-IsValid : (keys : List Str) (f : Bloom) → IsValid f → IsValid (foldl add f keys)
foldl-add-IsValid [] f v = v
foldl-add-IsValid (k ∷ keys) f v = foldl-add-IsValid keys (add f k) (add-IsValid f k v)

pub might_contain-foldl :
    (keys : List Str) (f : Bloom) (j : Str)
    → IsValid f
    → might_contain f j ≡ true
    → might_contain (foldl add f keys) j ≡ true
might_contain-foldl [] f j v h = h
might_contain-foldl (k ∷ keys) f j v h =
    might_contain-foldl keys (add f k) j (add-IsValid f k v) (might_contain-add f k j v h)

-- Whatever valid filter keys are added to, one after the other, the filter reports each of them
-- afterwards.
pub no_false_negatives :
    (keys : List Str) (f : Bloom)
    → IsValid f
    → All (λ k. might_contain (foldl add f keys) k ≡ true) keys
no_false_negatives [] f v = tt
no_false_negatives (k ∷ keys) f v = (
  might_contain-foldl keys (add f k) k (add-IsValid f k v) (might_contain-add_self f k v),
  no_false_negatives keys (add f k) (add-IsValid f k v),
)
