-- ===== src/Tests/OfSplit.antt =====
-- Runs of the split of the only leaf.
use gravtree.Prelude.{◌≡◌, refl, none, false, [], ◌∷◌, arith}
use gravtree.Key.{Str, cmp}
use gravtree.Entry.{before}
use gravtree.Entry.Newest.{newest, newer}
use gravtree.Sort.{stable_sort}
use gravtree.Manifest.{empty_manifest}
use gravtree.Node.{SstNode}
use gravtree.Tree.Cache.{find}
use gravtree.Tree.State.{Tree, returned}
use gravtree.Tree.Read.{answer, get}
use gravtree.Tree.Split.{split_leaf}
use gravtree.Tree.Cached.{Rooted}
use gravtree.Tree.Cached.Laws.{IsOpen}
use gravtree.Tree.Cached.Splitting.{right_half}
use gravtree.Tree.Cached.Fence.{get-split_leaf, get-split_leaf_stale}
use gravtree.Tests.Data.{apple, banana, cherry, put, leaf, whole_numbers}
use gravtree.Tests.OfSkipList.{one_entry, one_entry-IsValid, one_entry_runs}

abbrev dir : Str
dir = b'd' ∷ []

abbrev only : SstNode → Tree
only n = record {
  data_dir = dir;
  buffer_threshold = 100;
  hard_limit = 200;
  manifest = record (empty_manifest dir) { root_id = 1; next_id = 2 };
  cache = (1, n) ∷ [];
  disk = λ p. none;
  write_buf = one_entry;
  seq = 8;
  flush_ops = 0;
  split_ops = 0;
  root_buf_bytes = 0;
  flush_requested = false;
  flush_in_progress = false;
  stop = false;
}

abbrev fruits : SstNode
fruits = leaf 1 apple (put apple 2 3 ∷ put banana 1 2 ∷ put cherry 9 4 ∷ [])

-- versions of a key on both sides of the cut
abbrev versions : SstNode
versions = leaf 1 apple (put apple 2 3 ∷ put cherry 1 7 ∷ put cherry 2 3 ∷ put cherry 3 2 ∷ [])

fruits-Rooted : Rooted (only fruits).cache 0 1
unfolding find before cmp
fruits-Rooted = (
  fruits,
  refl,
  refl,
  (((refl, (refl, tt)), ((refl, tt), (tt, tt))), (omega arith, (omega arith, (omega arith, tt)))),
)

versions-Rooted : Rooted (only versions).cache 0 1
unfolding find before cmp
versions-Rooted = (
  versions,
  refl,
  refl,
  (
    ((refl, (refl, (refl, tt))), ((refl, (refl, tt)), ((refl, tt), (tt, tt)))),
    (omega arith, (omega arith, (omega arith, (omega arith, tt)))),
  ),
)

only-IsOpen : (n : SstNode) → Rooted (only n).cache 0 1 → IsOpen 0 (only n)
only-IsOpen n r = record {
  rooted = r;
  buffer = one_entry-IsValid;
  numbers = rw one_entry_runs (omega arith, tt);
  room = omega arith;
}

cut_fruits : right_half fruits ≡ put banana 1 2 ∷ put cherry 9 4 ∷ []
unfolding stable_sort before cmp
cut_fruits = refl

cut_versions : right_half versions ≡ put cherry 2 3 ∷ put cherry 3 2 ∷ []
unfolding stable_sort before cmp
cut_versions = refl

get-split_leaf_example :
    ((split_leaf 0 1 (1 ∷ []) (only fruits)).0 ≡ returned tt)
    × IsOpen 1 (split_leaf 0 1 (1 ∷ []) (only fruits)).1
    × ((get 2 apple (split_leaf 0 1 (1 ∷ []) (only fruits)).1).0 ≡ (get 2 apple (only fruits)).0)
get-split_leaf_example =
    get-split_leaf (only fruits) fruits (put banana 1 2) (put cherry 9 4 ∷ [])
      (only-IsOpen fruits fruits-Rooted) (unfold find in refl) (omega arith) (omega arith)
      cut_fruits 0 2 apple (unfold newest stable_sort before cmp in refl) (omega arith)

get-split_leaf_stale_example :
    ((get 2 cherry (only versions)).0 ≡ returned (answer (put cherry 1 7)))
    × ((get 2 cherry (split_leaf 0 1 (1 ∷ []) (only versions)).1).0
        ≡ returned (answer (put cherry 2 3)))
get-split_leaf_stale_example =
    get-split_leaf_stale (only versions) versions (put cherry 2 3) (put cherry 3 2 ∷ [])
      (only-IsOpen versions versions-Rooted) (unfold find in refl) (omega arith) (omega arith)
      cut_versions 0 2 (put cherry 1 7) (unfold newest newer stable_sort before cmp in refl)
      (rw one_entry_runs (unfold newest cmp in refl)) (omega arith)
