-- ===== src/Tree/Open/Durable.antt =====
-- What a tree of one node answers when it has been closed and opened again.
use gravtree.Prelude.{ℕ, ◌<◌, ◌≡◌, refl, ap, sym, ◌∙◌, Option, some, [], ◌++◌, arith}
use gravtree.Key.{Str}
use gravtree.Entry.Newest.{newest, newer, newest-append}
use gravtree.Sort.{newest-stable_sort}
use gravtree.SkipList.{to_sorted_vector, values_from}
use gravtree.SkipList.Valid.Laws.{empty_list-IsValid}
use gravtree.Bloom.Sizing.{Doubles}
use gravtree.Node.{SstNode, refreshed, sort_buffer, build_bloom, build_sparse_index, sorted_unique}
use gravtree.Node.Dedup.{newest-sorted_unique}
use gravtree.File.{node_file_path}
use gravtree.File.RoundTrip.{loaded_of}
use gravtree.Manifest.{register_node}
use gravtree.Tree.Cache.{find, put}
use gravtree.Tree.State.{Tree, Outcome, returned}
use gravtree.Tree.Read.{get}
use gravtree.Tree.Write.{close}
use gravtree.Tree.Cached.{Rooted-found, way}
use gravtree.Tree.Cached.Answers.{first_hit-none, answered}
use gravtree.Tree.Cached.Laws.{IsOpen, get-open}
use gravtree.Tree.Cached.Made.{sorted_unique-IsReady}
use gravtree.Tree.Cached.Moved.{BufferNewer, filled, filled-IsReady, first_hit-merged}
use gravtree.Tree.Open.{GravTreeOptions, new_tree, open_tree}
use gravtree.Tree.Open.Reopened.{root_left, reopened, IsStorable, open_tree-reopened}

module _ ⦃fl : Doubles⦄ where
  left_buffer :
      (t : Tree) (root : SstNode) → (root_left t root).buffer ≡ sorted_unique (filled t root).buffer
  unfolding refreshed sort_buffer build_bloom build_sparse_index
  left_buffer t root = refl

  left_level : (t : Tree) (root : SstNode) → (root_left t root).level ≡ root.level
  unfolding refreshed sort_buffer build_bloom build_sparse_index
  left_level t root = refl

  left_id : (t : Tree) (root : SstNode) → (root_left t root).id ≡ root.id
  unfolding refreshed sort_buffer build_bloom build_sparse_index
  left_id t root = refl

  reopened-IsOpen :
      (opts : GravTreeOptions) (rng : ℕ → ℕ) (t : Tree) (root : SstNode)
      → IsOpen 0 t
      → find t.manifest.root_id t.cache ≡ some root
      → root.id ≡ t.manifest.root_id
      → IsOpen 0 (reopened opts rng t root)
  unfolding new_tree to_sorted_vector values_from register_node find put
  reopened-IsOpen opts rng t root o found own = record {
    rooted =
        let (lv, ready) = Rooted-found t.cache 0 t.manifest.root_id root o.rooted found in
        (
          loaded_of (node_file_path t.data_dir root.id) (root_left t root),
          rw (left_id t root ∙ own) (ground arith),
          left_level t root ∙ lv,
          rw (left_buffer t root)
              (sorted_unique-IsReady (filled t root).buffer (filled-IsReady 0 t root o ready).1),
        );
    buffer = empty_list-IsValid rng;
    numbers = tt;
    room = omega arith;
  }

  -- The stored root has what the root and the write buffer had.
  left_newest :
      (t : Tree) (root : SstNode) (k : Str)
      → newest k (root_left t root).buffer
        ≡ newer (newest k root.buffer) (newest k (to_sorted_vector t.write_buf))
  left_newest t root k =
      ap (λ es. newest k es) (left_buffer t root)
      ∙ newest-sorted_unique k (filled t root).buffer
      ∙ newest-stable_sort k (root.buffer ++ to_sorted_vector t.write_buf)
      ∙ newest-append k root.buffer (to_sorted_vector t.write_buf)

  get-reopened :
      (opts : GravTreeOptions) (rng : ℕ → ℕ) (fuel : ℕ) (k : Str) (t : Tree) (root : SstNode)
      → IsOpen 0 t
      → find t.manifest.root_id t.cache ≡ some root
      → root.id ≡ t.manifest.root_id
      → BufferNewer k t root
      → 0 < fuel
      → (get fuel k (reopened opts rng t root)).0 ≡ (get fuel k t).0
  unfolding way new_tree to_sorted_vector values_from register_node find put
  get-reopened opts rng fuel k t root o found own newer_buf h =
      let at_root : find t.manifest.root_id (reopened opts rng t root).cache
          ≡ some (loaded_of (node_file_path t.data_dir root.id) (root_left t root)) =
        rw (left_id t root ∙ own) (ground arith) in
      ap (λ (p : Outcome (Option Str) × Tree). p.0)
        (get-open 0 fuel k (reopened opts rng t root) (reopened-IsOpen opts rng t root o found own)
          h)
      ∙ ap (λ x. returned (answered x))
          (first_hit-none k [] _ (unfold newest in refl)
            ∙ rw at_root refl
            ∙ first_hit-merged k (to_sorted_vector t.write_buf) root.buffer
                (root_left t root).buffer [] newer_buf (left_newest t root k)
            ∙ rw found refl)
      ∙ sym (ap (λ (p : Outcome (Option Str) × Tree). p.0) (get-open 0 fuel k t o h))

  -- A tree of one node that is open is closed by the destructor and opened again from the files
  -- that are left. If the manifest and the root fit their files (the manifest valid, its paths
  -- without white space), the root has entries or gets some from the write buffer, and the write
  -- buffer is newer than the root where both have the key, then `open` returns an open tree that
  -- answers `get` for the key as before.
  pub get-open_tree :
      (opts : GravTreeOptions) (rng : ℕ → ℕ) (fuel : ℕ) (k : Str) (t : Tree) (root : SstNode)
      → IsOpen 0 t
      → IsStorable t root
      → BufferNewer k t root
      → opts.data_dir ≡ t.data_dir
      → 0 < fuel
      → (t' : Tree) × (open_tree opts (close t).disk rng ≡ some (returned tt, t'))
        × IsOpen 0 t'
        × ((get fuel k t').0 ≡ (get fuel k t).0)
  get-open_tree opts rng fuel k t root o s newer_buf dir h = (
    reopened opts rng t root,
    open_tree-reopened t root s opts rng dir,
    reopened-IsOpen opts rng t root o s.found s.own,
    get-reopened opts rng fuel k t root o s.found s.own newer_buf h,
  )
