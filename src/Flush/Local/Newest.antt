-- ===== src/Flush/Local/Newest.antt =====
-- What the children say of each key after `local_flush`.
use gravtree.Prelude.{
  ℕ, zero, suc, ◌<◌, ◌≡◌, refl, ◌∙◌, true, none, List, [], ◌∷◌, ◌==◌, if◌then◌else◌, length, get_or,
  All, arith,
}
use gravtree.Key.{Str}
use gravtree.Entry.{Entry}
use gravtree.Entry.Order.{IsSorted}
use gravtree.Entry.Newest.{newest, newer}
use gravtree.Result.{ok}
use gravtree.Disk.{Disk}
use gravtree.Bloom.Sizing.{Doubles}
use gravtree.Sort.{stable_sort, stable_sort-IsSorted, newest-stable_sort}
use gravtree.Node.{SstNode, fresh, sorted_unique}
use gravtree.Node.Dedup.{newest-sorted_unique}
use gravtree.File.{create, load_entries}
use gravtree.Manifest.{Manifest}
use gravtree.Flush.{partition_entries, merge_sorted_entries, route}
use gravtree.Flush.Merge.{newest-merge}
use gravtree.Flush.Partition.{partition_entries-bucket, newest-bound_for, bound_for-IsSorted}
use gravtree.Flush.Local.{replaced, rewrite_child, flush_children, local_flush}

-- `children[j].buffer`
abbrev pub buffer_at : List SstNode → ℕ → List Entry
buffer_at [] j = []
buffer_at (c ∷ cs) zero = c.buffer
buffer_at (c ∷ cs) (suc j) = buffer_at cs j

-- what `do_flush` sees to: the entries of the children are in memory, in their order
abbrev pub AllReady : List SstNode → Type 0
AllReady children = All (λ c. (c.entries_loaded ≡ true) × IsSorted c.buffer) children

pub load_entries-loaded :
    (c : SstNode) (d : Disk) → c.entries_loaded ≡ true → load_entries c d ≡ ok c
unfolding load_entries
load_entries-loaded c d h = rw h

module _ ⦃fl : Doubles⦄ where
  buffer-create :
      (id level : ℕ) (es : List Entry) (ids : List ℕ) (dir : Str) (d : Disk)
      → (create id level es ids dir d).0.buffer ≡ sorted_unique es
  unfolding create fresh
  buffer-create id level es ids dir d = refl

  newest-rewrite_child :
      (dir : Str) (c : SstNode) (p : List Entry) (m : Manifest) (d : Disk) (k : Str)
      → IsSorted p
      → IsSorted c.buffer
      → newest k (rewrite_child dir c p m d).0.buffer ≡ newer (newest k p) (newest k c.buffer)
  unfolding rewrite_child
  newest-rewrite_child dir c p m d k s t =
      rw buffer-create
        (newest-sorted_unique k (merge_sorted_entries p c.buffer) ∙ newest-merge k p c.buffer s t)

  -- A child in memory that gets entries is rewritten, and the loop goes on.
  pub flush_children-rewrite :
      (dir : Str) (c : SstNode) (cs : List SstNode) (e : Entry) (es : List Entry)
      (ps : List (List Entry)) (m : Manifest) (d : Disk)
      → c.entries_loaded ≡ true
      → flush_children dir (c ∷ cs) ((e ∷ es) ∷ ps) m d ≡ (
          let step = rewrite_child dir c (e ∷ es) m d in
          replaced c.id step.0 (flush_children dir cs ps step.1.0 step.1.1))
  unfolding flush_children
  flush_children-rewrite dir c cs e es ps m d h =
      rw (flush_children, load_entries-loaded c d h) refl

  newest-flush_children :
      (dir : Str) (cs : List SstNode) (ps : List (List Entry)) (m : Manifest) (d : Disk)
      → AllReady cs
      → ((j : ℕ) → IsSorted (get_or ps j []))
      → (k : Str) (j : ℕ) → j < length cs
      → newest k (buffer_at (flush_children dir cs ps m d).children j)
        ≡ newer (newest k (get_or ps j [])) (newest k (buffer_at cs j))
  unfolding flush_children
  newest-flush_children dir [] ps m d r s k j h = absurd (omega arith)
  newest-flush_children dir (c ∷ cs) [] m d r s k zero h = unfold newest newer in refl
  newest-flush_children dir (c ∷ cs) [] m d r s k (suc j) h =
      newest-flush_children dir cs [] m d r.1 s k j (omega arith)
  newest-flush_children dir (c ∷ cs) ([] ∷ ps) m d r s k zero h = unfold newest newer in refl
  newest-flush_children dir (c ∷ cs) ([] ∷ ps) m d r s k (suc j) h =
      newest-flush_children dir cs ps m d r.1 (λ i. s (suc i)) k j (omega arith)
  newest-flush_children dir (c ∷ cs) ((e ∷ es) ∷ ps) m d r s k zero h =
      rw (flush_children-rewrite dir c cs e es ps m d r.0.0)
        (newest-rewrite_child dir c (e ∷ es) m d k (s 0) r.0.1)
  newest-flush_children dir (c ∷ cs) ((e ∷ es) ∷ ps) m d r s k (suc j) h =
      rw (flush_children-rewrite dir c cs e es ps m d r.0.0)
        (newest-flush_children dir cs ps _ _ r.1 (λ i. s (suc i)) k j (omega arith))

  pub thrown-flush_children :
      (dir : Str) (cs : List SstNode) (ps : List (List Entry)) (m : Manifest) (d : Disk)
      → AllReady cs
      → (flush_children dir cs ps m d).thrown ≡ none
  unfolding flush_children
  thrown-flush_children dir [] ps m d r = refl
  thrown-flush_children dir (c ∷ cs) [] m d r = thrown-flush_children dir cs [] m d r.1
  thrown-flush_children dir (c ∷ cs) ([] ∷ ps) m d r = thrown-flush_children dir cs ps m d r.1
  thrown-flush_children dir (c ∷ cs) ((e ∷ es) ∷ ps) m d r =
      rw (flush_children-rewrite dir c cs e es ps m d r.0.0)
        (thrown-flush_children dir cs ps _ _ r.1)

  -- If the entries of the children are in memory and sorted, then `local_flush` does not throw,
  -- and after it the child that a key is routed to has the newest of what the parent and the child
  -- had of the key, the parent winning a draw, and every other child has of the key what it had.
  pub newest-local_flush :
      (parent : SstNode) (children : List SstNode) (m : Manifest) (d : Disk) (dir : Str)
      → AllReady children
      → (k : Str) (j : ℕ) → j < length children
      → ((local_flush parent children m d dir).1.thrown ≡ none)
        × (newest k (buffer_at (local_flush parent children m d dir).1.children j)
            ≡ newer
                (if route children k == j then newest k parent.buffer else none)
                (newest k (buffer_at children j)))
  unfolding local_flush
  newest-local_flush parent children m d dir r k j h =
      let sorted = stable_sort parent.buffer in
      let bucket = λ (i : ℕ). partition_entries-bucket sorted children i (omega arith) in
      (
        thrown-flush_children dir children (partition_entries sorted children) m d r,
        newest-flush_children dir children (partition_entries sorted children) m d r
              (λ i.
                rw bucket
                  (bound_for-IsSorted children i sorted (stable_sort-IsSorted parent.buffer)))
              k j h
            ∙ rw (bucket j, newest-bound_for, newest-stable_sort),
      )
