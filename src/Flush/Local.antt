-- ===== src/Flush/Local.antt =====
-- src/flush.cpp: `local_flush`. The vector `children`, which the caller passes by reference, is a
-- field of the result, and so are the manifest and the disk.
pub mod Newest
pub mod Registered
use gravtree.Prelude.{ℕ, Option, none, some, List, [], ◌∷◌, take, drop}
use gravtree.Key.{Str}
use gravtree.Entry.{Entry}
use gravtree.Result.{Error, Result, ok, err}
use gravtree.Disk.{Disk}
use gravtree.Bloom.Sizing.{Doubles}
use gravtree.Sort.{stable_sort}
use gravtree.Node.{SstNode}
use gravtree.File.{create, load_entries}
use gravtree.Manifest.{Manifest, next_node_id, register_node, invalidate_node}
use gravtree.Flush.{partition_entries, merge_sorted_entries}

-- `FlushResult`, with what the call changes. An exception leaves what was changed before it.
pub record Flushed : Type 0 where
  pub thrown : Option Error
  pub new_child_ids : List ℕ
  pub old_child_ids : List ℕ
  pub children : List SstNode
  pub manifest : Manifest
  pub disk : Disk

abbrev finished : Manifest → Disk → Flushed
finished m d = record {
  thrown = none;
  new_child_ids = [];
  old_child_ids = [];
  children = [];
  manifest = m;
  disk = d;
}

abbrev failed : Error → List SstNode → Manifest → Disk → Flushed
failed e children m d = record (finished m d) { thrown = some e; children = children }

-- `partition.empty()`: the child stays.
abbrev pub reuse : SstNode → Flushed → Flushed
reuse child rest = record rest {
  new_child_ids = child.id ∷ rest.new_child_ids;
  children = child ∷ rest.children;
}

abbrev pub replaced : ℕ → SstNode → Flushed → Flushed
replaced old new_child rest = record rest {
  new_child_ids = new_child.id ∷ rest.new_child_ids;
  old_child_ids = old ∷ rest.old_child_ids;
  children = new_child ∷ rest.children;
}

-- `partitions[i]`, of the partitions from index `i` on
abbrev pub first_partition : List (List Entry) → List Entry
first_partition [] = []
first_partition (p ∷ ps) = p

module _ ⦃fl : Doubles⦄ where
  -- the new node of a child that gets entries, the manifest and the disk
  unfoldable pub rewrite_child :
      Str → SstNode → List Entry → Manifest → Disk → SstNode × (Manifest × Disk)
  rewrite_child data_dir child partition m d =
      let merged = merge_sorted_entries partition child.buffer in
      let (new_id, m₁) = next_node_id m in
      let grandchildren = take child.num_children child.child_ids in
      let (new_child, d₁) = create new_id child.level merged grandchildren data_dir d in
      let m₂ = register_node new_id child.level new_child.file_path m₁ in
      (new_child, (invalidate_node child.id m₂, d₁))

  -- the loop over the children
  unfoldable pub flush_children : Str → List SstNode → List (List Entry) → Manifest → Disk → Flushed
  unfolding rewrite_child
  flush_children data_dir [] partitions m d = finished m d
  flush_children data_dir (child ∷ children) partitions m d = elim (first_partition partitions) [
    | [] ↦ reuse child (flush_children data_dir children (drop 1 partitions) m d)
    | e ∷ es ↦ elim (load_entries child d) [
      | err x ↦ failed x (child ∷ children) m d
      | ok loaded ↦
          let (new_child, (m', d')) = rewrite_child data_dir loaded (e ∷ es) m d in
          replaced loaded.id new_child (flush_children data_dir children (drop 1 partitions) m' d')
    ]
  ]

  -- what the sorting leaves in the parent's buffer, and the rest
  unfoldable pub local_flush : SstNode → List SstNode → Manifest → Disk → Str → SstNode × Flushed
  unfolding flush_children
  local_flush parent children m d data_dir =
      let sorted = stable_sort parent.buffer in
      let partitions = partition_entries sorted children in
      (record parent { buffer = sorted }, flush_children data_dir children partitions m d)
