-- ===== src/Flush/Merge.antt =====
-- The merge of two sorted lists is sorted, and has of every key the newest entry of both.
use gravtree.Prelude.{
  ◌⊎◌, ◌≡◌, refl, sym, true, false, some, List, [], ◌∷◌, leb, if◌then◌else◌, All, arith, Bool-cases,
  inl, inr,
}
use gravtree.Key.{Str, key_lt, key_eq}
use gravtree.Key.Order.{cmp_eq, cmp-flip}
use gravtree.Entry.{Entry, before}
use gravtree.Entry.Order.{IsBelow, IsSorted, IsBelow-trans}
use gravtree.Entry.Newest.{
  newer, newest, newest-head, newest_absent, newest_skip, newer_assoc, newer-none,
}
use gravtree.Flush.{merge_sorted_entries}

-- The four branches of the loop.
module _ (x y : Entry) (a b : List Entry) where
  merge_lt :
      key_lt x.key y.key ≡ true
      → merge_sorted_entries (x ∷ a) (y ∷ b) ≡ x ∷ merge_sorted_entries a (y ∷ b)
  unfolding merge_sorted_entries
  merge_lt h = rw (h, merge_sorted_entries)

  merge_gt :
      key_lt y.key x.key ≡ true
      → merge_sorted_entries (x ∷ a) (y ∷ b) ≡ y ∷ merge_sorted_entries (x ∷ a) b
  unfolding merge_sorted_entries
  merge_gt h = ground (arith, cmp-flip x.key y.key)

  merge_same :
      key_eq x.key y.key ≡ true
      → merge_sorted_entries (x ∷ a) (y ∷ b)
        ≡ (if leb y.seq_no x.seq_no then x else y) ∷ merge_sorted_entries a b
  unfolding merge_sorted_entries
  merge_same h = ground (arith, cmp-flip x.key y.key)

compare_keys : (j k : Str) → (key_lt j k ≡ true) ⊎ ((key_lt k j ≡ true) ⊎ (key_eq j k ≡ true))
compare_keys j k = ground (arith, cmp-flip j k)

winner-All {κ} :
    (P : Entry → Type κ) (x y : Entry) → P x → P y → P (if leb y.seq_no x.seq_no then x else y)
winner-All P x y h k = elim (leb y.seq_no x.seq_no) as (λ t. P (if t then x else y)) [
  | true ↦ h
  | false ↦ k
]

-- What holds of every entry of both lists holds of every entry of the merge.
pub All-merge {κ} :
    (P : Entry → Type κ) (a b : List Entry) → All P a → All P b → All P (merge_sorted_entries a b)
All-merge P [] b h k = unfold merge_sorted_entries in k
All-merge P (x ∷ a) [] h k = unfold merge_sorted_entries in h
All-merge P (x ∷ a) (y ∷ b) h k = elim (compare_keys x.key y.key) [
  | inl lt ↦ rw (merge_lt x y a b lt) (h.0, All-merge P a (y ∷ b) h.1 k)
  | inr (inl gt) ↦ rw (merge_gt x y a b gt) (k.0, All-merge P (x ∷ a) b h k.1)
  | inr (inr same) ↦
      rw (merge_same x y a b same) (winner-All P x y h.0 k.0, All-merge P a b h.1 k.1)
]

not_before-of_lt : (x y : Entry) → key_lt x.key y.key ≡ true → before y x ≡ false
unfolding before
not_before-of_lt x y h = ground (arith, cmp-flip x.key y.key)

-- The entry that wins among two of one key comes before neither's successors.
winner-IsBelow :
    (x y : Entry) (a b : List Entry)
    → key_eq x.key y.key ≡ true
    → IsBelow x a
    → IsBelow y b
    → IsBelow (if leb y.seq_no x.seq_no then x else y) a
      × IsBelow (if leb y.seq_no x.seq_no then x else y) b
winner-IsBelow x y a b same ha hb = elim (Bool-cases (leb y.seq_no x.seq_no)) [
  | inl q ↦
      rw q (ha, IsBelow-trans x y b (unfold before in ground (arith, cmp-flip x.key y.key)) hb)
  | inr q ↦
      rw q (IsBelow-trans y x a (unfold before in ground (arith, cmp-flip x.key y.key)) ha, hb)
]

-- The merge of two sorted lists is sorted.
pub merge-IsSorted :
    (a b : List Entry) → IsSorted a → IsSorted b → IsSorted (merge_sorted_entries a b)
merge-IsSorted [] b s t = unfold merge_sorted_entries in t
merge-IsSorted (x ∷ a) [] s t = unfold merge_sorted_entries in s
merge-IsSorted (x ∷ a) (y ∷ b) s t = elim (compare_keys x.key y.key) [
  | inl lt ↦
      let below = not_before-of_lt x y lt in
      rw (merge_lt x y a b lt) (
        All-merge _ a (y ∷ b) s.0 (below, IsBelow-trans x y b below t.0),
        merge-IsSorted a (y ∷ b) s.1 t,
      )
  | inr (inl gt) ↦
      let below = not_before-of_lt y x gt in
      rw (merge_gt x y a b gt) (
        All-merge _ (x ∷ a) b (below, IsBelow-trans y x a below s.0) t.0,
        merge-IsSorted (x ∷ a) b s t.1,
      )
  | inr (inr same) ↦
      let below = winner-IsBelow x y a b same s.0 t.0 in
      rw (merge_same x y a b same) (All-merge _ a b below.0 below.1, merge-IsSorted a b s.1 t.1)
]

module _ (k : Str) (x y : Entry) (a b m : List Entry) where
  newest-step_lt :
      newest k m ≡ newer (newest k a) (newest k (y ∷ b))
      → newest k (x ∷ m) ≡ newer (newest k (x ∷ a)) (newest k (y ∷ b))
  unfolding newest
  newest-step_lt h = ground (arith, newer_assoc (some x) (newest k a) (newest k (y ∷ b)))

  newest-step_gt :
      key_lt y.key x.key ≡ true
      → IsSorted (x ∷ a)
      → newest k m ≡ newer (newest k (x ∷ a)) (newest k b)
      → newest k (y ∷ m) ≡ newer (newest k (x ∷ a)) (newest k (y ∷ b))
  unfolding newest newer
  newest-step_gt gt s h =
      ground (arith, newest_absent k x a s.0, cmp_eq y.key k, cmp-flip y.key x.key)

  newest-step_same :
      key_eq x.key y.key ≡ true
      → IsSorted (x ∷ a)
      → IsSorted (y ∷ b)
      → IsSorted ((if leb y.seq_no x.seq_no then x else y) ∷ m)
      → newest k m ≡ newer (newest k a) (newest k b)
      → newest k ((if leb y.seq_no x.seq_no then x else y) ∷ m)
        ≡ newer (newest k (x ∷ a)) (newest k (y ∷ b))
  newest-step_same same s t u h = elim (Bool-cases (key_eq x.key k)) [
    | inl q ↦
        let q' : key_eq y.key k ≡ true = ground (arith, cmp_eq x.key y.key) in
        rw
          (
            newest-head k x a s q,
            newest-head k y b t q',
            newest-head k (if leb y.seq_no x.seq_no then x else y) m u
                (winner-All (λ e. key_eq e.key k ≡ true) x y q q'),
          )
          (unfold newer in ground arith)
    | inr q ↦
        let q' : key_eq y.key k ≡ false = ground (arith, cmp_eq x.key y.key) in
        rw
          (
            newest_skip k x a q,
            newest_skip k y b q',
            newest_skip k (if leb y.seq_no x.seq_no then x else y) m
                (winner-All (λ e. key_eq e.key k ≡ false) x y q q'),
          )
          h
  ]

-- Of every key the merge of two sorted lists has the newest entry of both; the first list wins a
-- draw.
pub newest-merge :
    (k : Str) (a b : List Entry)
    → IsSorted a
    → IsSorted b
    → newest k (merge_sorted_entries a b) ≡ newer (newest k a) (newest k b)
newest-merge k [] b s t = unfold merge_sorted_entries newest newer in refl
newest-merge k (x ∷ a) [] s t =
    unfold merge_sorted_entries newest in sym (newer-none (newest k (x ∷ a)))
newest-merge k (x ∷ a) (y ∷ b) s t = elim (compare_keys x.key y.key) [
  | inl lt ↦ rw (merge_lt x y a b lt) (newest-step_lt k x y a b _ (newest-merge k a (y ∷ b) s.1 t))
  | inr (inl gt) ↦
      rw (merge_gt x y a b gt) (newest-step_gt k x y a b _ gt s (newest-merge k (x ∷ a) b s t.1))
  | inr (inr same) ↦ rw (merge_same x y a b same) (
      newest-step_same k x y a b _ same s t
        (rw (merge_same x y a b same) at (merge-IsSorted (x ∷ a) (y ∷ b) s t))
        (newest-merge k a b s.1 t.1))
]
