-- ===== src/Flush.antt =====
-- src/flush.cpp: `partition_entries` and `merge_sorted_entries`.
pub mod Partition
pub mod Merge
pub mod Local
use gravtree.Prelude.{
  ℕ, zero, suc, ◌+◌, Bool, true, false, List, [], ◌∷◌, ◌++◌, leb, if◌then◌else◌, length, get_or,
  set, replicate,
}
use gravtree.Key.{Str, key_lt, key_le}
use gravtree.Entry.{Entry}
use gravtree.Node.{SstNode}

-- `children[i].key_range.min_key`
abbrev pub min_key_at : List SstNode → ℕ → Str
min_key_at [] i = []
min_key_at (c ∷ cs) zero = c.key_range.min_key
min_key_at (c ∷ cs) (suc i) = min_key_at cs i

-- the loop that looks for `target`, with the indices below `n` left
unfoldable pub route_below : ℕ → List SstNode → Str → ℕ
route_below zero children key = 0
route_below (suc i) children key =
    if key_le (min_key_at children i) key then i else route_below i children key

unfoldable pub route : List SstNode → Str → ℕ
unfolding route_below
route children key = route_below (length children) children key

-- `buckets[target].push_back(e)`
unfoldable pub push_at : ℕ → Entry → List (List Entry) → List (List Entry)
push_at target e buckets = set buckets target (get_or buckets target [] ++ e ∷ [])

-- the loop over the entries
unfoldable pub distribute : List SstNode → List Entry → List (List Entry) → List (List Entry)
unfolding route push_at
distribute children [] buckets = buckets
distribute children (e ∷ es) buckets =
    distribute children es (push_at (route children e.key) e buckets)

unfoldable pub partition_entries : List Entry → List SstNode → List (List Entry)
unfolding distribute
partition_entries entries children = distribute children entries (replicate (length children) [])

-- The two indices that only move forward are the suffixes that are left, and `out` is the result.
unfoldable pub merge_sorted_entries : List Entry → List Entry → List Entry
merge_sorted_entries [] b = b
merge_sorted_entries (x ∷ a) [] = x ∷ a
merge_sorted_entries (x ∷ a) (y ∷ b) = elim (key_lt x.key y.key) [
  | true ↦ x ∷ merge_sorted_entries a (y ∷ b)
  | false ↦ elim (key_lt y.key x.key) [
    | true ↦ y ∷ merge_sorted_entries (x ∷ a) b
    | false ↦ elim (leb y.seq_no x.seq_no) [
      | true ↦ x ∷ merge_sorted_entries a b
      | false ↦ y ∷ merge_sorted_entries a b
    ]
  ]
]
