-- ===== src/Tree/Cached/Splitting.antt =====
-- What `split_leaf` makes of a tree whose root is its only node.
use gravtree.Prelude.{ℕ, ◌+◌, ◌/◌, ◌%◌, ◌^◌, ◌≡◌, ◌∙◌, some, List, [], ◌∷◌, length, take, drop}
use gravtree.Entry.{Entry}
use gravtree.Sort.{stable_sort}
use gravtree.Bloom.Sizing.{Doubles}
use gravtree.Node.{SstNode}
use gravtree.File.{create}
use gravtree.Disk.{Disk}
use gravtree.Manifest.{next_node_id, register_node, invalidate_node, gc}
use gravtree.Manifest.Text.{save}
use gravtree.Tree.{get_node}
use gravtree.Tree.Cache.{find, put, erase}
use gravtree.Tree.State.{Tree, returned, bind-returned}
use gravtree.Tree.Split.{split_leaf, grow_root}
use gravtree.Tree.Cached.{get_node-find}
use gravtree.Tree.Cached.Grown.{grown, grow_root-found}

-- The halves of a leaf, their numbers, and the tree in which they have taken its place.
abbrev pub left_half : SstNode → List Entry
left_half leaf = take (length (stable_sort leaf.buffer) / 2) (stable_sort leaf.buffer)

abbrev pub right_half : SstNode → List Entry
right_half leaf = drop (length (stable_sort leaf.buffer) / 2) (stable_sort leaf.buffer)

abbrev pub left_id : Tree → ℕ
left_id t = t.manifest.next_id

abbrev pub right_id : Tree → ℕ
right_id t = (t.manifest.next_id + 1) % 2 ^ 64

abbrev pub tidied : Tree → Tree
tidied t = record t {
  manifest = (gc t.manifest (save t.manifest t.disk)).0;
  disk = (gc t.manifest (save t.manifest t.disk)).1;
}

module _ ⦃fl : Doubles⦄ where
  abbrev pub left_made : SstNode → Tree → SstNode × Disk
  left_made leaf t = create (left_id t) 0 (left_half leaf) [] t.data_dir t.disk

  abbrev pub right_made : SstNode → Tree → SstNode × Disk
  right_made leaf t = create (right_id t) 0 (right_half leaf) [] t.data_dir (left_made leaf t).1

  abbrev pub halved : ℕ → SstNode → Tree → Tree
  halved id leaf t =
      let l = (left_made leaf t).0 in
      let r = (right_made leaf t).0 in
      let m = (next_node_id (next_node_id t.manifest).1).1 in
      let both =
        register_node (right_id t) 0 r.file_path (register_node (left_id t) 0 l.file_path m) in
      let sorted : SstNode = record leaf { buffer = stable_sort leaf.buffer } in
      record t {
        manifest = invalidate_node id both;
        disk = (right_made leaf t).1;
        split_ops = t.split_ops + 1;
        cache = erase id (put (right_id t) r (put (left_id t) l (put id sorted t.cache)));
      }

  pub split_leaf-root :
      (fuel id : ℕ) (leaf : SstNode) (t : Tree)
      → find id t.cache ≡ some leaf
      → find (left_id t) (halved id leaf t).cache ≡ some (left_made leaf t).0
      → find (right_id t) (halved id leaf t).cache ≡ some (right_made leaf t).0
      → split_leaf fuel id (id ∷ []) t ≡ (
        returned tt,
        tidied (
            grown 1
              (left_id t)
              (right_id t)
              (left_made leaf t).0
              (right_made leaf t).0
              (halved id leaf t)),
      )
  unfolding split_leaf next_node_id
  split_leaf-root fuel id leaf t found hl hr =
      bind-returned (get_node id) _ t t leaf (get_node-find id t leaf found)
      ∙ bind-returned (grow_root 1 (left_id t) (right_id t)) _ (halved id leaf t) _ tt (
          grow_root-found 1 (left_id t) (right_id t) (left_made leaf t).0 (right_made leaf t).0
            (halved id leaf t) hl hr)
