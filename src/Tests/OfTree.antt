-- ===== src/Tests/OfTree.antt =====
-- Runs of the tree.
use gravtree.Prelude.{
  List, ◌&&◌, ℕ, ◌≡◌, refl, ap, ◌≤◌, if◌then◌else◌, false, Option, none, some, [], ◌∷◌, All, arith,
}
use gravtree.Key.{Str, cmp, key_eq, key_le}
use gravtree.Entry.{Entry, before}
use gravtree.Entry.Newest.{newest, newer}
use gravtree.Manifest.{empty_manifest}
use gravtree.Node.{SstNode, max_seq, back_has_key}
use gravtree.Node.Dedup.{IsAscending}
use gravtree.SkipList.{to_sorted_vector}
use gravtree.Tree.{find_path}
use gravtree.Tree.Cache.{NodeCache, find}
use gravtree.Tree.State.{Tree, returned}
use gravtree.Tree.Read.{get, live_entries, range_scan}
use gravtree.Tree.Write.{write, flush}
use gravtree.Tree.Scan.Whole.{all_entries, AllLoaded, newest-range_scan}
use gravtree.Tree.Scan.{live}
use gravtree.Tree.Cached.{Rooted}
use gravtree.Tree.Cached.Path.{IsPath, find_path-IsPath}
use gravtree.Tree.Cached.Answers.{first_hit, layers, answered, get-first_hit}
use gravtree.Tree.Cached.Laws.{IsOpen, get-write}
use gravtree.Tree.Cached.Moved.{BufferNewer}
use gravtree.Tree.Cached.Flushing.{get-flush}
use gravtree.Tests.Data.{apple, banana, cherry, put, tombstone, leaf, sorted_a, whole_numbers}
use gravtree.Tests.OfSkipList.{one_entry, one_entry-IsValid, one_entry_runs}

-- level 1, over the leaves 2 and 3
abbrev pub root : SstNode
root = record (leaf 10 apple (put banana 6 1 ∷ [])) {
  level = 1;
  num_children = 2;
  child_ids = 2 ∷ 3 ∷ [];
}

abbrev nodes : NodeCache
nodes = (10, root) ∷ (2, leaf 2 apple sorted_a) ∷ (3, leaf 3 cherry (put cherry 9 4 ∷ [])) ∷ []

abbrev dir : Str
dir = b'd' ∷ []

abbrev pub small_tree : Tree
small_tree = record {
  data_dir = dir;
  buffer_threshold = 100;
  hard_limit = 200;
  manifest = record (empty_manifest dir) { root_id = 10; next_id = 11 };
  cache = nodes;
  disk = λ p. none;
  write_buf = one_entry;
  seq = 8;
  flush_ops = 0;
  split_ops = 0;
  root_buf_bytes = 0;
  flush_requested = false;
  flush_in_progress = false;
  stop = false;
}

small_tree-Rooted : Rooted nodes 1 10
unfolding find before cmp
small_tree-Rooted = (
  root,
  refl,
  refl,
  ((tt, tt), (omega arith, tt)),
  2,
  3 ∷ [],
  refl,
  (
    (
      leaf 2 apple sorted_a,
      refl,
      refl,
      (
        ((refl, (refl, tt)), ((refl, tt), (tt, tt))),
        (omega arith, (omega arith, (omega arith, tt))),
      ),
    ),
    ((leaf 3 cherry (put cherry 9 4 ∷ []), refl, refl, ((tt, tt), (omega arith, tt))), tt),
  ),
)

small_tree-seq : All (λ e. e.seq_no ≤ max_seq) (to_sorted_vector one_entry)
small_tree-seq = rw one_entry_runs (omega arith, tt)

pub small_tree-IsOpen : IsOpen 1 small_tree
small_tree-IsOpen = record {
  rooted = small_tree-Rooted;
  buffer = one_entry-IsValid;
  numbers = rw one_entry_runs (omega arith, tt);
  room = omega arith;
}

find_path-IsPath_example :
    (path : List ℕ) × (find_path 2 cherry small_tree ≡ (returned path, small_tree))
    × IsPath nodes cherry 1 10 path
find_path-IsPath_example = find_path-IsPath 1 2 cherry small_tree small_tree-Rooted (omega arith)

get-first_hit_example : get 2 cherry small_tree ≡ (
  returned (answered (first_hit cherry (to_sorted_vector one_entry ∷ layers nodes 1 cherry 10))),
  small_tree,
)
get-first_hit_example =
    get-first_hit 1 2 cherry small_tree one_entry-IsValid small_tree-seq small_tree-Rooted
      (omega arith)

get-write_example : (get 2 apple (write apple (b'x' ∷ []) false small_tree)).0 ≡ (
    if key_eq apple apple
    then returned (if false then none else some (b'x' ∷ []))
    else (get 2 apple small_tree).0)
get-write_example =
    get-write 1 2 apple (b'x' ∷ []) apple false small_tree small_tree-IsOpen (omega arith)
      (omega arith)

-- seq_no 2 in the write buffer, 1 in the root
pub banana-BufferNewer : BufferNewer banana small_tree root
unfolding newest newer cmp
banana-BufferNewer e f in_buffer in_root =
    let a : 2 ≡ e.seq_no = ap seq_of (rw one_entry_runs at in_buffer) in
    let b : 1 ≡ f.seq_no = ap seq_of in_root in omega arith
  where
    seq_of : Option Entry → ℕ
    seq_of none = 0
    seq_of (some e) = e.seq_no

get-flush_example :
    ((flush small_tree).0 ≡ returned tt)
    × IsOpen 1 (flush small_tree).1
    × ((get 2 banana (flush small_tree).1).0 ≡ (get 2 banana small_tree).0)
get-flush_example =
    get-flush 1 2 banana small_tree root small_tree-IsOpen (omega arith) (unfold find in refl)
      banana-BufferNewer

-- A deleted key comes back.
deleted_key_runs : live_entries (tombstone apple 7 ∷ put apple 2 3 ∷ []) [] ≡ put apple 2 3 ∷ []
unfolding live_entries back_has_key
deleted_key_runs = refl

newest-range_scan_example :
    (result : List Entry) × (range_scan apple banana small_tree ≡ (returned result, small_tree))
    × (newest banana result ≡ (
        if key_le apple banana && key_le banana banana
        then newest banana (live (all_entries small_tree))
        else none))
    × IsAscending result
newest-range_scan_example = newest-range_scan apple banana banana small_tree loaded
  where
    loaded : AllLoaded nodes nodes
    loaded = unfold find in ((refl, refl), ((refl, refl), ((refl, refl), tt)))
