-- ===== src/Tree/Fan/Leaves.antt =====
-- What the loop of `local_flush` makes of leaves.
use gravtree.Prelude.{
  ℕ, suc, ◌<◌, ◌≤◌, ◌≡◌, refl, ap, sym, subst, ◌∙◌, true, List, [], ◌∷◌, length, get_or, All,
  All_mono, arith,
}
use gravtree.Key.{Str, key_le}
use gravtree.Key.Order.{cmp_refl, cmp_eq, cmp-flip}
use gravtree.Entry.{Entry}
use gravtree.Entry.Order.{IsSorted}
use gravtree.Disk.{Disk}
use gravtree.Bloom.Sizing.{Doubles}
use gravtree.Node.{SstNode, max_seq, sorted_unique, fresh, build_bloom, build_sparse_index}
use gravtree.Node.Dedup.{head-sorted_unique}
use gravtree.File.{create}
use gravtree.Manifest.{Manifest}
use gravtree.Flush.{merge_sorted_entries, min_key_at}
use gravtree.Flush.Merge.{merge-IsSorted, All-merge}
use gravtree.Flush.Local.{rewrite_child, flush_children}
use gravtree.Flush.Local.Newest.{flush_children-rewrite}
use gravtree.Tree.Cached.Halves.{key_le_trans}
use gravtree.Tree.Cached.Made.{
  first_key, sorted_unique-IsReady, min_key-create, first_key-sorted_unique,
}
use gravtree.Tree.Fan.{IsLeaf, fences, IsRising}

key_le_refl : (k : Str) → key_le k k ≡ true
key_le_refl k = ground (arith, cmp_refl k)

-- The first key of a merge is no greater than the first of either list,
first_key-merge :
    (p b : List Entry)
    → 0 < length b
    → key_le (first_key (merge_sorted_entries p b)) (first_key b) ≡ true
unfolding merge_sorted_entries
first_key-merge p [] h = absurd (omega arith)
first_key-merge [] (y ∷ b) h = key_le_refl y.key
first_key-merge (x ∷ p) (y ∷ b) h =
    ground (arith, cmp_refl y.key, cmp_refl x.key, cmp-flip x.key y.key, cmp_eq x.key y.key)

-- and that of the second, if the first list begins no lower.
first_key-merge_same :
    (p b : List Entry)
    → 0 < length b
    → All (λ e. key_le (first_key b) e.key ≡ true) p
    → first_key (merge_sorted_entries p b) ≡ first_key b
unfolding merge_sorted_entries
first_key-merge_same p [] h k = absurd (omega arith)
first_key-merge_same [] (y ∷ b) h k = refl
first_key-merge_same (x ∷ p) (y ∷ b) h k =
    ground (arith, k.0, cmp-flip x.key y.key, cmp_eq x.key y.key)

length-sorted_unique :
    (es : List Entry) → IsSorted es → 0 < length es → 0 < length (sorted_unique es)
length-sorted_unique [] s h = absurd (omega arith)
length-sorted_unique (e ∷ es) s h = let (rest, q) = head-sorted_unique e es s in rw q (omega arith)

length-merge : (p b : List Entry) → 0 < length b → 0 < length (merge_sorted_entries p b)
unfolding merge_sorted_entries
length-merge p [] h = absurd (omega arith)
length-merge [] (y ∷ b) h = h
length-merge (x ∷ p) (y ∷ b) h = ground arith

-- Entries that may go to a child.
abbrev pub IsGiven : List Entry → Type 0
IsGiven p = IsSorted p × All (λ e. e.seq_no ≤ max_seq) p

module _ ⦃fl : Doubles⦄ (dir : Str) where
  shape-rewrite_child :
      (c : SstNode) (p : List Entry) (m : Manifest) (d : Disk)
      → c.num_children ≡ 0
      → let n = (rewrite_child dir c p m d).0 in
        let merged = merge_sorted_entries p c.buffer in
        (n.entries_loaded ≡ true)
        × (n.level ≡ c.level)
        × (n.num_children ≡ 0)
        × (n.buffer ≡ sorted_unique merged)
  unfolding rewrite_child create fresh build_bloom build_sparse_index
  shape-rewrite_child c p m d h = (refl, refl, rw h refl, refl)

  min_key-rewrite_child :
      (c : SstNode) (p : List Entry) (m : Manifest) (d : Disk)
      → IsSorted p
      → IsSorted c.buffer
      → (rewrite_child dir c p m d).0.key_range.min_key
        ≡ first_key (merge_sorted_entries p c.buffer)
  unfolding rewrite_child
  min_key-rewrite_child c p m d s t =
      min_key-create _ _ (merge_sorted_entries p c.buffer) _ dir d (merge-IsSorted p c.buffer s t)

  rewrite_child-IsLeaf :
      (c : SstNode) (p : List Entry) (m : Manifest) (d : Disk)
      → IsLeaf c
      → IsGiven p
      → IsLeaf (rewrite_child dir c p m d).0
  rewrite_child-IsLeaf c p m d l g =
      let merged = merge_sorted_entries p c.buffer in
      let sorted = merge-IsSorted p c.buffer g.0 l.ready.0 in
      let numbers = All-merge (λ e. e.seq_no ≤ max_seq) p c.buffer g.1 l.ready.1 in
      let shape = shape-rewrite_child c p m d l.childless in
      let buf = shape.3 in
      record {
        loaded = shape.0;
        level = shape.1 ∙ l.level;
        childless = shape.2;
        ready =
            subst (λ b. IsSorted b × All (λ (e : Entry). e.seq_no ≤ max_seq) b) (sym buf)
              (sorted_unique-IsReady merged numbers);
        filled = rw buf (length-sorted_unique merged sorted (length-merge p c.buffer l.filled));
        fence =
            min_key-rewrite_child c p m d g.0 l.ready.0
            ∙ sym (ap (λ b. first_key b) buf ∙ first_key-sorted_unique merged sorted);
      }

  -- The leaves that the loop leaves behind are leaves,
  pub flush_children-IsLeaf :
      (cs : List SstNode) (ps : List (List Entry)) (m : Manifest) (d : Disk)
      → All IsLeaf cs
      → ((j : ℕ) → IsGiven (get_or ps j []))
      → All IsLeaf (flush_children dir cs ps m d).children
  unfolding flush_children
  flush_children-IsLeaf [] ps m d l g = tt
  flush_children-IsLeaf (c ∷ cs) [] m d l g = (l.0, flush_children-IsLeaf cs [] m d l.1 g)
  flush_children-IsLeaf (c ∷ cs) ([] ∷ ps) m d l g =
      (l.0, flush_children-IsLeaf cs ps m d l.1 (λ j. g (suc j)))
  flush_children-IsLeaf (c ∷ cs) ((e ∷ es) ∷ ps) m d l g =
      rw (flush_children-rewrite dir c cs e es ps m d l.0.loaded) (
        rewrite_child-IsLeaf c (e ∷ es) m d l.0 (g 0),
        flush_children-IsLeaf cs ps _ _ l.1 (λ j. g (suc j)),
      )

  -- and their ranges begin where they began, if no entry is below the range that it goes to.
  pub fences-flush_children :
      (cs : List SstNode) (ps : List (List Entry)) (m : Manifest) (d : Disk)
      → All IsLeaf cs
      → ((j : ℕ) → IsGiven (get_or ps j []))
      → ((j : ℕ)
          → j < length cs
          → All (λ e. key_le (min_key_at cs j) e.key ≡ true) (get_or ps j []))
      → fences (flush_children dir cs ps m d).children ≡ fences cs
  unfolding flush_children
  fences-flush_children [] ps m d l g up = refl
  fences-flush_children (c ∷ cs) [] m d l g up =
      ap (λ fs. c.key_range.min_key ∷ fs)
        (fences-flush_children cs [] m d l.1 g (λ j h. up (suc j) (omega arith)))
  fences-flush_children (c ∷ cs) ([] ∷ ps) m d l g up =
      ap (λ fs. c.key_range.min_key ∷ fs)
        (fences-flush_children cs ps m d l.1 (λ j. g (suc j)) (λ j h. up (suc j) (omega arith)))
  fences-flush_children (c ∷ cs) ((e ∷ es) ∷ ps) m d l g up =
      let same : (rewrite_child dir c (e ∷ es) m d).0.key_range.min_key ≡ c.key_range.min_key =
        min_key-rewrite_child c (e ∷ es) m d (g 0).0 l.0.ready.0
        ∙ first_key-merge_same (e ∷ es) c.buffer l.0.filled (
            subst (λ k. All (λ (x : Entry). key_le k x.key ≡ true) (e ∷ es)) l.0.fence
              (up 0 (omega arith)))
        ∙ sym l.0.fence in
      rw
        (
          flush_children-rewrite dir c cs e es ps m d l.0.loaded,
          same,
          fences-flush_children cs ps (rewrite_child dir c (e ∷ es) m d).1.0
              (rewrite_child dir c (e ∷ es) m d).1.1 l.1 (λ j. g (suc j))
              (λ j h. up (suc j) (omega arith)),
        )
        refl

  -- That of the first leaf may begin lower.
  pub first_fence-flush_children :
      (c : SstNode) (cs : List SstNode) (ps : List (List Entry)) (m : Manifest) (d : Disk)
      → IsLeaf c
      → All IsLeaf cs
      → ((j : ℕ) → IsGiven (get_or ps j []))
      → IsRising (fences (c ∷ cs))
      → ((j : ℕ)
          → j < length cs
          → All (λ e. key_le (min_key_at cs j) e.key ≡ true) (get_or ps (suc j) []))
      → (c' : SstNode) × (cs' : List SstNode) × ((flush_children dir (c ∷ cs) ps m d).children
          ≡ c' ∷ cs')
        × (fences cs' ≡ fences cs)
        × IsRising (fences (c' ∷ cs'))
  unfolding flush_children
  first_fence-flush_children c cs [] m d l ls g r up =
      let same = fences-flush_children cs [] m d ls g up in
      (c, (flush_children dir cs [] m d).children, refl, same, rw same r)
  first_fence-flush_children c cs ([] ∷ ps) m d l ls g r up =
      let same = fences-flush_children cs ps m d ls (λ j. g (suc j)) up in
      (c, (flush_children dir cs ps m d).children, refl, same, rw same r)
  first_fence-flush_children c cs ((e ∷ es) ∷ ps) m d l ls g r up =
      let step = rewrite_child dir c (e ∷ es) m d in
      let same = fences-flush_children cs ps step.1.0 step.1.1 ls (λ j. g (suc j)) up in
      let lower : key_le step.0.key_range.min_key c.key_range.min_key ≡ true =
        rw (min_key-rewrite_child c (e ∷ es) m d (g 0).0 l.ready.0, l.fence)
          (first_key-merge (e ∷ es) c.buffer l.filled) in
      (
        step.0,
        (flush_children dir cs ps step.1.0 step.1.1).children,
        ap (λ f. f.children) (flush_children-rewrite dir c cs e es ps m d l.loaded),
        same,
        rw same (
          All_mono _ _ (λ k h. key_le_trans step.0.key_range.min_key c.key_range.min_key k lower h)
              (fences cs) r.0,
          r.1,
        ),
      )
