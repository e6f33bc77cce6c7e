-- ===== src/Tree/Fan/Given.antt =====
-- What `partition_entries` gives each leaf.
use gravtree.Prelude.{
  ℕ, suc, ◌≤◌, ◌≡◌, ap, sym, ◌∙◌, true, List, [], ◌∷◌, get_or, All, ◌==◌, ==_iff, arith, Bool-cases,
  inl, inr, ◌⊎◌,
}
use gravtree.Key.{Str, key_le}
use gravtree.Entry.{Entry}
use gravtree.Sort.{stable_sort, stable_sort-IsSorted, All-stable_sort}
use gravtree.Node.{SstNode, max_seq}
use gravtree.Flush.{partition_entries, route, min_key_at}
use gravtree.Flush.Partition.{
  partition_entries-bucket, bound_for, bound_for-IsSorted, All-bound_for, route-rightmost,
}
use gravtree.Tree.Fan.Leaves.{IsGiven}

abbrev pub given : List Entry → List SstNode → List (List Entry)
given es cs = partition_entries (stable_sort es) cs

bound_for-routed :
    (cs : List SstNode) (j : ℕ) (es : List Entry)
    → All (λ e. route cs e.key ≡ j) (bound_for cs j es)
unfolding bound_for
bound_for-routed cs j [] = tt
bound_for-routed cs j (e ∷ es) = elim (Bool-cases (route cs e.key == j)) [
  | inl q ↦ rw q ((==_iff (route cs e.key) j).0 q, bound_for-routed cs j es)
  | inr q ↦ rw q (bound_for-routed cs j es)
]

-- Sorted, with the numbers of the parent's entries,
pub given-IsGiven :
    (es : List Entry) (c : SstNode) (cs : List SstNode) (j : ℕ)
    → All (λ e. e.seq_no ≤ max_seq) es
    → IsGiven (get_or (given es (c ∷ cs)) j [])
given-IsGiven es c cs j h =
    rw (partition_entries-bucket (stable_sort es) (c ∷ cs) j (omega arith)) (
      bound_for-IsSorted (c ∷ cs) j (stable_sort es) (stable_sort-IsSorted es),
      All-bound_for (λ e. e.seq_no ≤ max_seq) (c ∷ cs) j (stable_sort es)
          (All-stable_sort (λ e. e.seq_no ≤ max_seq) es h),
    )

-- and, but for the first leaf, no entry is below the range of the leaf.
pub given-above :
    (es : List Entry) (c : SstNode) (cs : List SstNode) (j : ℕ)
    → All (λ e. key_le (min_key_at cs j) e.key ≡ true) (get_or (given es (c ∷ cs)) (suc j) [])
given-above es c cs j =
    rw (partition_entries-bucket (stable_sort es) (c ∷ cs) (suc j) (omega arith)) (
      all_at_or_above (bound_for (c ∷ cs) (suc j) (stable_sort es))
        (bound_for-routed (c ∷ cs) (suc j) (stable_sort es)))
  where
    reaches :
        (k : Str)
        → route (c ∷ cs) k ≡ suc j
        → ((route (c ∷ cs) k ≡ 0) ⊎ (key_le (min_key_at (c ∷ cs) (route (c ∷ cs) k)) k ≡ true))
        → key_le (min_key_at cs j) k ≡ true
    reaches k e (inl o) = absurd (omega (arith, e, o))
    reaches k e (inr o) = ap (λ i. key_le (min_key_at (c ∷ cs) i) k) (sym e) ∙ o

    all_at_or_above :
        (es : List Entry)
        → All (λ e. route (c ∷ cs) e.key ≡ suc j) es
        → All (λ e. key_le (min_key_at cs j) e.key ≡ true) es
    all_at_or_above [] h = tt
    all_at_or_above (e ∷ es) h =
        (reaches e.key h.0 (route-rightmost (c ∷ cs) e.key).0, all_at_or_above es h.1)
