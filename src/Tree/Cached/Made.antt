-- ===== src/Tree/Cached/Made.antt =====
-- The nodes that a split makes: two leaves of the entries that they are given, and a root over them.
use gravtree.Prelude.{ℕ, ◌≤◌, ◌≡◌, refl, ap, ◌∙◌, List, [], ◌∷◌, All}
use gravtree.Key.{Str}
use gravtree.Entry.{Entry}
use gravtree.Entry.Order.{IsSorted}
use gravtree.Sort.{stable_sort}
use gravtree.Disk.{Disk}
use gravtree.Bloom.Sizing.{Doubles}
use gravtree.Node.{
  SstNode, max_seq, fresh, refreshed, sort_buffer, sorted_unique, build_bloom, build_sparse_index,
  range_of, expand_range, fill_slots,
}
use gravtree.Node.Dedup.{
  sorted_unique-IsAscending, IsSorted-of_IsAscending, All-sorted_unique, head-sorted_unique,
}
use gravtree.File.{create, flush_to_disk}
use gravtree.Tree.{children_of}
use gravtree.Tree.Split.{spanning}

pub sorted_unique-IsReady :
    (es : List Entry)
    → All (λ e. e.seq_no ≤ max_seq) es
    → IsSorted (sorted_unique es) × All (λ e. e.seq_no ≤ max_seq) (sorted_unique es)
sorted_unique-IsReady es h = (
  IsSorted-of_IsAscending (sorted_unique es) (sorted_unique-IsAscending es),
  All-sorted_unique (λ e. e.seq_no ≤ max_seq) es h,
)

-- The key at which sorted entries begin.
abbrev pub first_key : List Entry → Str
first_key [] = []
first_key (e ∷ es) = e.key

min-range_of : (es : List Entry) → (range_of es).min_key ≡ first_key es
unfolding range_of
min-range_of [] = refl
min-range_of (e ∷ es) = refl

pub first_key-sorted_unique :
    (es : List Entry) → IsSorted es → first_key (sorted_unique es) ≡ first_key es
first_key-sorted_unique [] s = unfold sorted_unique stable_sort in refl
first_key-sorted_unique (e ∷ es) s =
    let (rest, h) = head-sorted_unique e es s in ap (λ l. first_key l) h

module _ ⦃fl : Doubles⦄ where
  pub level-create :
      (id level : ℕ) (es : List Entry) (kids : List ℕ) (dir : Str) (d : Disk)
      → (create id level es kids dir d).0.level ≡ level
  unfolding create fresh build_bloom build_sparse_index
  level-create id level es kids dir d = refl

  pub buffer-create :
      (id level : ℕ) (es : List Entry) (kids : List ℕ) (dir : Str) (d : Disk)
      → (create id level es kids dir d).0.buffer ≡ sorted_unique es
  unfolding create fresh build_bloom build_sparse_index
  buffer-create id level es kids dir d = refl

  pub min_key-create :
      (id level : ℕ) (es : List Entry) (kids : List ℕ) (dir : Str) (d : Disk)
      → IsSorted es
      → (create id level es kids dir d).0.key_range.min_key ≡ first_key es
  unfolding create fresh build_bloom build_sparse_index
  min_key-create id level es kids dir d s =
      min-range_of (sorted_unique es) ∙ first_key-sorted_unique es s

  -- the root of `grow_root`
  abbrev pub root_over : ℕ → ℕ → ℕ → ℕ → SstNode → SstNode → Str → Disk → SstNode
  root_over id level left right l r dir d =
      let made = create id level [] (left ∷ right ∷ []) dir d in
      (flush_to_disk dir (spanning l r made.0) made.1).0

  pub root_over-shape :
      (id level left right : ℕ) (l r : SstNode) (dir : Str) (d : Disk)
      → ((root_over id level left right l r dir d).level ≡ level)
        × (children_of (root_over id level left right l r dir d) ≡ left ∷ right ∷ [])
        × ((root_over id level left right l r dir d).buffer ≡ [])
        × ((root_over id level left right l r dir d).key_range.min_key ≡ l.key_range.min_key)
  unfolding create fresh build_bloom build_sparse_index flush_to_disk refreshed sort_buffer
      sorted_unique stable_sort fill_slots expand_range
  root_over-shape id level left right l r dir d = (refl, refl, refl, refl)
