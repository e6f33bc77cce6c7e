-- ===== src/Tree/Open/Reopened.antt =====
-- What `open` makes of the files that the destructor left.
use gravtree.Prelude.{
  ℕ, ◌<◌, ◌≡◌, ◌≢◌, refl, ap, sym, subst, ◌∙◌, false, some, List, [], ◌∷◌, ◌++◌, ◌==◌, arith,
}
use gravtree.Key.{Str, cmp, key_eq}
use gravtree.Entry.{Entry, invalid_node_id}
use gravtree.Result.{ok}
use gravtree.Disk.{Disk, rename-store}
use gravtree.Bloom.Sizing.{Doubles}
use gravtree.Node.{
  SstNode, refreshed, sort_buffer, build_bloom, build_sparse_index, buffer_size_bytes,
}
use gravtree.File.{node_file_path, write_file, file_bytes, load_header, load_entries, flush_to_disk}
use gravtree.File.Layout.{NodeFits}
use gravtree.File.RoundTrip.{
  loaded_of, header_of, load_header-file, load_entries-file, file_written,
}
use gravtree.Manifest.{Manifest, register_node, node_path, empty_manifest}
use gravtree.Manifest.Laws.{IsValid, register_node-IsValid, node_path-register_node}
use gravtree.Manifest.Text.{save, save_text, load, manifest_path, tmp_path}
use gravtree.Manifest.Text.RoundTrip.{Fits, load-save}
use mathlib.Core.List.{append_assoc}
use gravtree.Tree.Cache.{find, put}
use gravtree.Tree.State.{Tree, Outcome, returned, bind-returned, elim-false, results}
use gravtree.Tree.Write.{drain, persist_root, flush, close, ensure_root, first_root, stored_root}
use gravtree.Tree.Cached.Moved.{filled, drained, drain-found}
use gravtree.Tree.Cached.Flushing.{written, persist_root-cons}
use gravtree.Tree.Open.{GravTreeOptions, new_tree, open_tree}

-- Paths below the same directory are equal if what follows it is.
cmp-append : (dir a b : Str) → cmp (dir ++ a) (dir ++ b) ≡ cmp a b
unfolding cmp
cmp-append [] a b = refl
cmp-append (c ∷ dir) a b = ground (arith, cmp-append dir a b)

-- The files of the nodes are not those of the manifest.
manifest-ne-node : (dir : Str) (id : ℕ) → key_eq (manifest_path dir) (node_file_path dir id) ≡ false
unfolding node_file_path cmp
manifest-ne-node dir id = rw (key_eq, cmp-append) refl

tmp-ne-node : (dir : Str) (id : ℕ) → key_eq (tmp_path dir) (node_file_path dir id) ≡ false
unfolding node_file_path cmp
tmp-ne-node dir id =
    ap (λ p. key_eq p (node_file_path dir id)) (append_assoc dir _ _) ∙ rw (key_eq, cmp-append) refl

save-node :
    (m : Manifest) (d : Disk) (id : ℕ)
    → save m d (node_file_path m.dir id) ≡ d (node_file_path m.dir id)
unfolding save
save-node m d id =
    rename-store (tmp_path m.dir) (manifest_path m.dir) (node_file_path m.dir id) (save_text m) d
    ∙ rw (manifest-ne-node m.dir id, tmp-ne-node m.dir id) refl

-- The file of a node is still there when the manifest has been saved.
saved_file :
    (m : Manifest) (n : SstNode) (d : Disk)
    → save m (write_file m.dir n d).1 (node_file_path m.dir n.id) ≡ some (file_bytes n)
unfolding write_file
saved_file m n d = save-node m (write_file m.dir n d).1 n.id ∙ file_written m.dir n d

module _ ⦃fl : Doubles⦄ where
  -- the root that the destructor writes, and the manifest that it saves
  abbrev pub root_left : Tree → SstNode → SstNode
  root_left t root = refreshed (filled t root)

  abbrev pub stored_manifest : Tree → SstNode → Manifest
  stored_manifest t root =
      register_node t.manifest.root_id root.level (node_file_path t.data_dir root.id) t.manifest

  same-refreshed : (n : SstNode) → ((refreshed n).id ≡ n.id) × ((refreshed n).level ≡ n.level)
  unfolding refreshed sort_buffer build_bloom build_sparse_index
  same-refreshed n = (refl, refl)

  close-flush : (t : Tree) → t.manifest.root_id ≢ invalid_node_id → close t ≡ (flush t).1
  unfolding close flush
  close-flush t h =
      let test : (t.manifest.root_id == invalid_node_id) ≡ false = ground arith in
      rw (close, test) refl

  close-written :
      (t : Tree) (root : SstNode) (e : Entry) (es : List Entry)
      → t.manifest.root_id ≢ invalid_node_id
      → find t.manifest.root_id t.cache ≡ some root
      → (filled t root).buffer ≡ e ∷ es
      → close t ≡ written t.manifest.root_id (filled t root) (drained t (filled t root))
  unfolding flush
  close-written t root e es valid found entries =
      let rid = t.manifest.root_id in
      let n = filled t root in
      close-flush t valid
      ∙ ap (λ (p : Outcome (Unit {0}) × Tree). p.1)
          (bind-returned drain (λ p. persist_root p.0 p.1) t (drained t n) (rid, n)
              (drain-found t root found)
            ∙ persist_root-cons rid n (drained t n) e es entries)

  written-parts :
      (t : Tree) (root : SstNode)
      → ((written t.manifest.root_id (filled t root) (drained t (filled t root))).manifest
          ≡ stored_manifest t root)
        × ((written t.manifest.root_id (filled t root) (drained t (filled t root))).disk
            ≡ save (stored_manifest t root) (write_file t.data_dir (root_left t root) t.disk).1)
  unfolding flush_to_disk write_file refreshed sort_buffer build_bloom build_sparse_index
  written-parts t root = (refl, refl)

  -- the tree with the root in memory
  abbrev pub with_root : SstNode → Str → Tree → Tree
  with_root n path t = record t {
    root_buf_bytes = buffer_size_bytes n;
    cache = put n.id (loaded_of path n) t.cache;
  }

  ensure_root-stored :
      (t : Tree) (n : SstNode) (path : Str)
      → t.manifest.root_id ≢ invalid_node_id
      → node_path t.manifest t.manifest.root_id ≡ ok path
      → t.disk path ≡ some (file_bytes n)
      → NodeFits n
      → ensure_root t ≡ (returned tt, with_root n path t)
  unfolding ensure_root buffer_size_bytes
  ensure_root-stored t n path valid registered file fits =
      let test : (t.manifest.root_id == invalid_node_id) ≡ false = ground arith in
      elim-false (t.manifest.root_id == invalid_node_id) first_root (stored_root t.manifest.root_id)
        t test
      ∙ bind-returned (results (λ t. node_path t.manifest t.manifest.root_id)) _ t t path
          (rw registered refl)
      ∙ bind-returned (results (λ t. load_header path t.disk)) _ t t (header_of path n)
          (rw (load_header-file path t.disk n file fits) refl)
      ∙ bind-returned (results (λ t. load_entries (header_of path n) t.disk)) _ t t
          (loaded_of path n) (rw (load_entries-file path t.disk n file fits) refl)
      ∙ refl

  open_tree-loaded :
      (opts : GravTreeOptions) (d : Disk) (rng : ℕ → ℕ) (m : Manifest)
      → load d (empty_manifest opts.data_dir) ≡ some m
      → open_tree opts d rng ≡ some (ensure_root (record (new_tree opts d rng) { manifest = m }))
  unfolding open_tree
  open_tree-loaded opts d rng m h = rw h refl

  load_stored :
      (t : Tree) (root : SstNode)
      → IsValid t.manifest
      → t.manifest.root_id < t.manifest.next_id
      → Fits (stored_manifest t root)
      → load
          (save (stored_manifest t root) (write_file t.data_dir (root_left t root) t.disk).1)
          (empty_manifest t.manifest.dir)
        ≡ some (stored_manifest t root)
  unfolding register_node
  load_stored t root v known storable =
      load-save (stored_manifest t root) (write_file t.data_dir (root_left t root) t.disk).1
        (register_node-IsValid t.manifest.root_id root.level (node_file_path t.data_dir root.id)
          t.manifest v known)
        storable

  registered :
      (t : Tree) (root : SstNode)
      → node_path (stored_manifest t root) t.manifest.root_id
        ≡ ok (node_file_path t.data_dir root.id)
  registered t root = ground (
    arith,
    node_path-register_node t.manifest.root_id root.level (node_file_path t.data_dir root.id)
        t.manifest t.manifest.root_id,
  )

  file_stored :
      (t : Tree) (root : SstNode)
      → t.manifest.dir ≡ t.data_dir
      → save
          (stored_manifest t root)
          (write_file t.data_dir (root_left t root) t.disk).1
          (node_file_path t.data_dir root.id)
        ≡ some (file_bytes (root_left t root))
  unfolding register_node refreshed sort_buffer build_bloom build_sparse_index
  file_stored t root home =
      subst
        (λ dir.
          save (stored_manifest t root) (write_file dir (root_left t root) t.disk).1
            (node_file_path dir root.id)
          ≡ some (file_bytes (root_left t root)))
        home (saved_file (stored_manifest t root) (root_left t root) t.disk)

  -- A new process with the stored root in memory.
  abbrev pub reopened : GravTreeOptions → (ℕ → ℕ) → Tree → SstNode → Tree
  reopened opts rng t root =
      with_root (root_left t root) (node_file_path t.data_dir root.id)
        (record (new_tree opts (close t).disk rng) { manifest = stored_manifest t root })

  -- What the destructor leaves can be read: the manifest is that of this directory and fits its
  -- text, the root is in memory with its number and has entries or gets some, and fits its file.
  pub record IsStorable (t : Tree) (root : SstNode) : Type 0 where
    pub home : t.manifest.dir ≡ t.data_dir
    pub valid : t.manifest.root_id ≢ invalid_node_id
    pub found : find t.manifest.root_id t.cache ≡ some root
    pub own : root.id ≡ t.manifest.root_id
    pub entries : (filled t root).buffer ≢ []
    pub node_fits : NodeFits (root_left t root)
    pub manifest : IsValid t.manifest
    pub known : t.manifest.root_id < t.manifest.next_id
    pub manifest_fits : Fits (stored_manifest t root)

  cons_of : (es : List Entry) → es ≢ [] → (e : Entry) × (rest : List Entry) × (es ≡ e ∷ rest)
  cons_of [] h = absurd (h refl)
  cons_of (e ∷ es) h = (e, es, refl)

  module _ (t : Tree) (root : SstNode) (s : IsStorable t root) where
    close-stored :
        ((close t).manifest ≡ stored_manifest t root)
        × ((close t).disk
            ≡ save (stored_manifest t root) (write_file t.data_dir (root_left t root) t.disk).1)
    close-stored =
        let (e, es, entries) = cons_of (filled t root).buffer s.entries in
        let closed = close-written t root e es s.valid s.found entries in
        let parts = written-parts t root in
        (ap (λ (t : Tree). t.manifest) closed ∙ parts.0, ap (λ (t : Tree). t.disk) closed ∙ parts.1)

    pub open_tree-reopened :
        (opts : GravTreeOptions) (rng : ℕ → ℕ)
        → opts.data_dir ≡ t.data_dir
        → open_tree opts (close t).disk rng ≡ some (returned tt, reopened opts rng t root)
    unfolding new_tree register_node
    open_tree-reopened opts rng dir =
        let disk = close-stored.1 in
        let loaded : load (close t).disk (empty_manifest opts.data_dir)
            ≡ some (stored_manifest t root) =
          rw disk (
            ap
              (λ x.
                load
                  (save (stored_manifest t root)
                    (write_file t.data_dir (root_left t root) t.disk).1)
                  (empty_manifest x))
              (dir ∙ sym s.home)
            ∙ load_stored t root s.manifest s.known s.manifest_fits) in
        open_tree-loaded opts (close t).disk rng (stored_manifest t root) loaded
        ∙ ap (λ r. some r)
            (ensure_root-stored
              (record (new_tree opts (close t).disk rng) { manifest = stored_manifest t root })
              (root_left t root) (node_file_path t.data_dir root.id) s.valid (registered t root)
              (rw disk (file_stored t root s.home)) s.node_fits)

    -- If the root of a tree is in memory under its number, has entries or gets some from the write
    -- buffer, and fits its file, and the manifest is that of the directory, valid and fits its
    -- text, then `open` on the files that the destructor left returns a tree with the same
    -- manifest and with the root in memory as the destructor wrote it.
    pub open_tree-close :
        (opts : GravTreeOptions) (rng : ℕ → ℕ)
        → opts.data_dir ≡ t.data_dir
        → open_tree opts (close t).disk rng
          ≡ some (
            returned tt,
            with_root
                (root_left t root)
                (node_file_path t.data_dir root.id)
                (record (new_tree opts (close t).disk rng) { manifest = (close t).manifest }),
          )
    open_tree-close opts rng dir = open_tree-reopened opts rng dir ∙ rw (close-stored.0) refl
