-- ===== src/Tree/Cached/Grown.antt =====
-- What `grow_root` makes of a tree whose halves of the old root are in memory.
use gravtree.Prelude.{ℕ, ◌≡◌, refl, ◌∙◌, some, [], ◌∷◌}
use gravtree.Bloom.Sizing.{Doubles}
use gravtree.Node.{SstNode}
use gravtree.File.{create, flush_to_disk}
use gravtree.Disk.{Disk}
use gravtree.Manifest.{next_node_id, register_node, set_root}
use gravtree.Tree.Cache.{find, put}
use gravtree.Tree.State.{Tree, returned, bind-returned}
use gravtree.Tree.Split.{cached, grow_root, spanning}

pub cached-find :
    (id : ℕ) (t : Tree) (n : SstNode) → find id t.cache ≡ some n → cached id t ≡ (returned n, t)
unfolding cached
cached-find id t n h = rw (cached, h) refl

module _ ⦃fl : Doubles⦄ where
  -- the new root, and the tree with it
  abbrev pub top_of : ℕ → ℕ → ℕ → SstNode → SstNode → Tree → SstNode × Disk
  top_of level left right l r t =
      let made =
        create (next_node_id t.manifest).0 level [] (left ∷ right ∷ []) t.data_dir t.disk in
      flush_to_disk t.data_dir (spanning l r made.0) made.1

  abbrev pub grown : ℕ → ℕ → ℕ → SstNode → SstNode → Tree → Tree
  grown level left right l r t =
      let id = (next_node_id t.manifest).0 in
      let top = top_of level left right l r t in
      record t {
        manifest =
            set_root id
              (register_node top.0.id top.0.level top.0.file_path (next_node_id t.manifest).1);
        disk = top.1;
        cache = put id top.0 t.cache;
      }

  pub grow_root-found :
      (level left right : ℕ) (l r : SstNode) (t : Tree)
      → find left t.cache ≡ some l
      → find right t.cache ≡ some r
      → grow_root level left right t ≡ (returned tt, grown level left right l r t)
  unfolding grow_root
  grow_root-found level left right l r t hl hr =
      let (id, m) = next_node_id t.manifest in
      let (root, d) = create id level [] (left ∷ right ∷ []) t.data_dir t.disk in
      let t₁ = record t { manifest = m; disk = d } in
      bind-returned (cached left) _ t₁ t₁ l (cached-find left t₁ l hl)
      ∙ bind-returned (cached right) _ t₁ t₁ r (cached-find right t₁ r hr)
