-- ===== src/Tree/Fan/Routes.antt =====
-- Which leaf a key is sent to, by a lookup and by a flush.
use gravtree.Prelude.{
  ℕ, zero, suc, ◌<◌, ◌≤◌, ◌≡◌, refl, ap, sym, ◌∙◌, true, false, some, List, [], ◌∷◌, length, leb,
  All, if◌then◌else◌, arith, Bool-cases, ◌⊎◌, inl, inr,
}
use gravtree.Key.{Str, key_le}
use gravtree.Node.{SstNode}
use gravtree.Flush.{min_key_at, route}
use gravtree.Flush.Partition.{route-rightmost, route-lt}
use gravtree.Flush.Local.Newest.{buffer_at}
use gravtree.Tree.Cache.{NodeCache, find}
use gravtree.Tree.Cached.{chosen, way}
use gravtree.Tree.Cached.Answers.{buffer_of, layers}
use gravtree.Tree.Cached.Halves.{key_le_trans}
use gravtree.Tree.Fan.{ids, fences, IsRising, IsFan}

-- how many of the ranges begin at the key or below it, up to the first one that does not
unfoldable pub rank : List Str → Str → ℕ
rank [] k = 0
rank (f ∷ fs) k = let rest = rank fs k in if key_le f k then suc rest else 0

pub rank-le : (cs : List SstNode) (k : Str) → rank (fences cs) k ≤ length cs
unfolding rank
rank-le [] k = omega arith
rank-le (c ∷ cs) k = ground (arith, rank-le cs k)

rank-below :
    (cs : List SstNode) (k : Str) (j : ℕ)
    → j < rank (fences cs) k
    → key_le (min_key_at cs j) k ≡ true
unfolding rank
rank-below [] k j h = absurd (omega arith)
rank-below (c ∷ cs) k zero h = ground arith
rank-below (c ∷ cs) k (suc j) h = elim (Bool-cases (key_le c.key_range.min_key k)) [
  | inr q ↦ absurd (ground arith)
  | inl q ↦ rank-below cs k j (ground arith)
]

above : (a b k : Str) → key_le a k ≡ false → key_le a b ≡ true → key_le b k ≡ false
above a b k h le = elim (Bool-cases (key_le b k)) [
  | inr q ↦ q
  | inl q ↦ absurd (true_false (sym (key_le_trans a b k le q) ∙ h))
]
  where
    true_false : true ≡ false → ⊥
    true_false e = cc

all_above :
    (cs : List SstNode) (a k : Str) (j : ℕ)
    → key_le a k ≡ false
    → All (λ f. key_le a f ≡ true) (fences cs)
    → j < length cs
    → key_le (min_key_at cs j) k ≡ false
all_above [] a k j h le lt = absurd (omega arith)
all_above (c ∷ cs) a k zero h le lt = above a c.key_range.min_key k h le.0
all_above (c ∷ cs) a k (suc j) h le lt = all_above cs a k j h le.1 (omega arith)

rank-above :
    (cs : List SstNode) (k : Str) (j : ℕ)
    → IsRising (fences cs)
    → rank (fences cs) k ≤ j
    → j < length cs
    → key_le (min_key_at cs j) k ≡ false
unfolding rank
rank-above [] k j r h lt = absurd (omega arith)
rank-above (c ∷ cs) k zero r h lt = ground arith
rank-above (c ∷ cs) k (suc j) r h lt = elim (Bool-cases (key_le c.key_range.min_key k)) [
  | inl q ↦ rank-above cs k j r.1 (ground arith) (omega arith)
  | inr q ↦ all_above cs c.key_range.min_key k j q r.0 (omega arith)
]

-- The rightmost child that does not begin above the key is the one of that rank.
rank_unique :
    (r : ℕ) (c : SstNode) (cs : List SstNode) (k : Str)
    → IsRising (fences cs)
    → r < length (c ∷ cs)
    → ((r ≡ 0) ⊎ (key_le (min_key_at (c ∷ cs) r) k ≡ true))
    → ((j : ℕ) → r < j → j < length (c ∷ cs) → key_le (min_key_at (c ∷ cs) j) k ≡ false)
    → r ≡ rank (fences cs) k
rank_unique r c cs k rising inside here right =
    let low : r ≤ rank (fences cs) k = at_most r inside here in
    elim (Bool-cases (leb (rank (fences cs) k) r)) [
      | inl q ↦ ground arith
      | inr q ↦
          let lt : r < rank (fences cs) k = ground arith in
          let le = rank-le cs k in
          absurd
            (true_false (sym (rank-below cs k r lt) ∙ right (suc r) (omega arith) (omega arith)))
    ]
  where
    true_false : true ≡ false → ⊥
    true_false e = cc

    at_most :
        (r : ℕ)
        → r < length (c ∷ cs)
        → ((r ≡ 0) ⊎ (key_le (min_key_at (c ∷ cs) r) k ≡ true))
        → r ≤ rank (fences cs) k
    at_most zero inside here = omega arith
    at_most (suc r) inside (inl e) = absurd (omega arith)
    at_most (suc r) inside (inr e) = elim (Bool-cases (leb (suc r) (rank (fences cs) k))) [
      | inl q ↦ ground arith
      | inr q ↦ absurd (true_false (sym e ∙ rank-above cs k r rising (ground arith) (omega arith)))
    ]

pub route-rank :
    (c : SstNode) (cs : List SstNode) (k : Str)
    → IsRising (fences (c ∷ cs))
    → route (c ∷ cs) k ≡ rank (fences cs) k
route-rank c cs k r =
    let best = route-rightmost (c ∷ cs) k in
    rank_unique (route (c ∷ cs) k) c cs k r.1 (route-lt (c ∷ cs) k (omega arith)) best.0 best.1

-- the number of the child of a rank, `next` that of rank 0
abbrev id_at : ℕ → List SstNode → ℕ → ℕ
id_at next cs zero = next
id_at next [] (suc r) = next
id_at next (c ∷ cs) (suc r) = id_at c.id cs r

chosen-id_at :
    (cache : NodeCache) (k : Str) (cs : List SstNode) (next : ℕ)
    → All (λ x. find x.id cache ≡ some x) cs
    → chosen cache k (ids cs) next ≡ id_at next cs (rank (fences cs) k)
unfolding chosen rank
chosen-id_at cache k [] next h = refl
chosen-id_at cache k (c ∷ cs) next h = elim (Bool-cases (key_le c.key_range.min_key k)) [
  | inl q ↦ rw (h.0, q) (chosen-id_at cache k cs c.id h.1)
  | inr q ↦ rw (h.0, q) refl
]

buffer-id_at :
    (cache : NodeCache) (c : SstNode) (cs : List SstNode) (r : ℕ)
    → All (λ x. find x.id cache ≡ some x) (c ∷ cs)
    → r ≤ length cs
    → buffer_of (find (id_at c.id cs r) cache) ≡ buffer_at (c ∷ cs) r
buffer-id_at cache c cs zero h lt = ap (λ o. buffer_of o) h.0
buffer-id_at cache c [] (suc r) h lt = absurd (omega arith)
buffer-id_at cache c (x ∷ cs) (suc r) h lt = buffer-id_at cache x cs r h.1 (omega arith)

-- Where the first range begins above the key, the others do.
first_above :
    (c : SstNode) (cs : List SstNode) (k : Str)
    → IsRising (fences (c ∷ cs))
    → key_le c.key_range.min_key k ≡ false
    → rank (fences cs) k ≡ 0
unfolding rank
first_above c [] k r q = refl
first_above c (x ∷ cs) k r q = rw (above c.key_range.min_key x.key_range.min_key k q r.0.0) refl

-- A lookup asks the node and then the leaf of the rank of the key.
pub layers-rank :
    (cache : NodeCache) (rid : ℕ) (root c : SstNode) (cs : List SstNode) (k : Str)
    → IsFan cache rid root c cs
    → layers cache 1 k rid ≡ root.buffer ∷ buffer_at (c ∷ cs) (rank (fences cs) k) ∷ []
unfolding way chosen
layers-rank cache rid root c cs k f =
    let to : chosen cache k (ids (c ∷ cs)) c.id ≡ id_at c.id cs (rank (fences cs) k) =
      elim (Bool-cases (key_le c.key_range.min_key k)) [
        | inl q ↦ rw (f.below.0, q) (chosen-id_at cache k cs c.id f.below.1)
        | inr q ↦ rw (f.below.0, q, first_above c cs k f.rising q) refl
      ] in
    rw (f.found, f.kids, to, buffer-id_at cache c cs (rank (fences cs) k) f.below (rank-le cs k))
      refl
