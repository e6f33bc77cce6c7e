-- ===== src/Tests/OfOpen.antt =====
-- Runs of `open` behind the destructor.
use gravtree.Prelude.{
  ◌≡◌, refl, ap, Option, none, some, false, [], ◌∷◌, ◌^◌, ◌<◌, ℕ, length, All-replicate, arith,
}
use gravtree.Key.{Str, cmp}
use gravtree.Entry.{Entry, before, max_fanout}
use gravtree.Entry.Newest.{newest, newer}
use gravtree.Sort.{stable_sort}
use gravtree.Bloom.Sizing.{Doubles, new}
use gravtree.Bloom.{Bloom, add, set_bit, nth_hash, base_hashes, serialize}
use gravtree.Bytes.{le_bytes}
use gravtree.Decimal.{to_string}
use gravtree.Binary.{put_u64, put_u32, put_raw, put_str, put_u8}
use gravtree.File.{
  node_body, node_file_path, put_header, put_ids, put_bloom, put_entries, put_entry, put_sparse,
}
use gravtree.Manifest.Table.{assign}
use gravtree.Manifest.Laws.{IsValid}
use gravtree.Manifest.Text.RoundTrip.{Fits as ManifestFits}
use gravtree.File.Layout.{NodeFits}
use gravtree.Manifest.{empty_manifest, register_node}
use gravtree.Node.{
  SstNode, refreshed, sort_buffer, build_bloom, build_sparse_index, sorted_unique, dedup_loop,
  back_has_key, expand_range, every_step,
}
use gravtree.Tree.Cache.{find}
use gravtree.Tree.State.{Tree, returned}
use gravtree.Tree.Read.{get}
use gravtree.Tree.Write.{close}
use gravtree.Tree.Cached.Laws.{IsOpen}
use gravtree.Tree.Cached.Moved.{BufferNewer, filled}
use gravtree.Tree.Open.{GravTreeOptions, new_tree, open_tree}
use gravtree.Tree.Open.Reopened.{root_left, stored_manifest, with_root, IsStorable, open_tree-close}
use gravtree.Tree.Open.Durable.{get-open_tree}
use gravtree.Tests.Data.{banana, put, leaf}
use gravtree.Tests.OfSkipList.{one_entry, one_entry-IsValid, one_entry_runs, draws}

-- Whatever is computed with doubles, the filter has one hash function and eight bytes.
instance abbrev one_function : Doubles
one_function = record {
  Double = ℕ;
  of_size = λ n. n;
  neg = λ n. n;
  plus = λ a b. a;
  times = λ a b. a;
  over = λ a b. a;
  log = λ n. n;
  truncate = λ n. 1;
  two = 2;
  half = 1;
  one_percent = 1;
}

abbrev dir : Str
dir = b'd' ∷ []

abbrev root : SstNode
root = leaf 1 banana (put banana 2 1 ∷ [])

abbrev one_node : Tree
one_node = record {
  data_dir = dir;
  buffer_threshold = 100;
  hard_limit = 200;
  manifest =
      register_node 1 0 (node_file_path dir 1)
        (record (empty_manifest dir) { root_id = 1; next_id = 2 });
  cache = (1, root) ∷ [];
  disk = λ p. none;
  write_buf = one_entry;
  seq = 8;
  flush_ops = 0;
  split_ops = 0;
  root_buf_bytes = 0;
  flush_requested = false;
  flush_in_progress = false;
  stop = false;
}

abbrev opts : GravTreeOptions
opts = record {
  data_dir = dir;
  buffer_threshold = 100;
  hard_limit_factor = 2;
  fanout = 8;
  max_height = 6;
  bloom_fpr = 1;
}

merged_runs : (filled one_node root).buffer ≡ put banana 1 2 ∷ put banana 2 1 ∷ []
unfolding stable_sort before cmp
merged_runs = rw one_entry_runs refl

abbrev filter : Bloom
filter = record { bits = 0 ∷ 0 ∷ 0 ∷ 0 ∷ 8 ∷ 0 ∷ 0 ∷ 0 ∷ []; num_hash_funcs = 1 }

filter_runs : add (new 1 1) banana ≡ filter
unfolding add new set_bit nth_hash base_hashes
filter_runs = refl

abbrev stored : SstNode
stored = record (leaf 1 banana (put banana 1 2 ∷ [])) {
  key_range = record { min_key = banana; max_key = banana };
  sparse_index = record { key = banana; file_offset = 0 } ∷ [];
  bloom = some filter;
}

stored_runs : root_left one_node root ≡ stored
unfolding refreshed sort_buffer build_bloom build_sparse_index sorted_unique dedup_loop back_has_key
    stable_sort before cmp expand_range every_step
stored_runs = rw (merged_runs, filter_runs) refl

body_size : length (node_body stored).0 < 2 ^ 64
unfolding node_body put_header put_ids put_bloom put_entries put_entry put_sparse serialize put_u64
    put_u32 put_raw put_str put_u8 le_bytes
body_size = omega arith

stored-NodeFits : NodeFits stored
stored-NodeFits = record {
  id = omega arith;
  level = omega arith;
  num_children = omega arith;
  slots = refl;
  child_ids = All-replicate (λ c. c < 2 ^ 64) max_fanout 0 (omega arith);
  num_entries = omega arith;
  min_key = omega arith;
  max_key = omega arith;
  bloom = (record { funcs = omega arith; bits = omega arith }, omega arith);
  entries = ((omega arith, omega arith, omega arith), tt);
  size = body_size;
}

one_node-IsValid : IsValid one_node.manifest
unfolding register_node assign
one_node-IsValid = record {
  keys = ((omega arith, refl), tt);
  unique = (tt, tt);
  positive = omega arith;
}

one_node-Fits : ManifestFits (stored_manifest one_node root)
unfolding register_node assign node_file_path to_string
one_node-Fits = record {
  root = omega arith;
  next = omega arith;
  nodes = (
    record {
      id = omega arith;
      level = omega arith;
      path = (
        refl,
        (refl, (refl, (refl, (refl, (refl, (refl, (refl, (refl, (refl, (refl, (refl, tt))))))))))),
      );
    },
    tt,
  );
}

one_node-IsStorable : IsStorable one_node root
unfolding register_node find
one_node-IsStorable = record {
  home = refl;
  valid = omega arith;
  found = refl;
  own = refl;
  entries = rw merged_runs (λ e. cc);
  node_fits = rw stored_runs stored-NodeFits;
  manifest = one_node-IsValid;
  known = omega arith;
  manifest_fits = one_node-Fits;
}

one_node-IsOpen : IsOpen 0 one_node
unfolding find register_node
one_node-IsOpen = record {
  rooted = (root, refl, refl, ((tt, tt), (omega arith, tt)));
  buffer = one_entry-IsValid;
  numbers = rw one_entry_runs (omega arith, tt);
  room = omega arith;
}

banana-BufferNewer : BufferNewer banana one_node root
unfolding newest newer cmp
banana-BufferNewer e f in_buffer in_root =
    let a : 2 ≡ e.seq_no = ap seq_of (rw one_entry_runs at in_buffer) in
    let b : 1 ≡ f.seq_no = ap seq_of in_root in omega arith
  where
    seq_of : Option Entry → ℕ
    seq_of none = 0
    seq_of (some e) = e.seq_no

open_tree-close_example :
    open_tree opts (close one_node).disk draws
    ≡ some (
      returned tt,
      with_root
          (root_left one_node root)
          (node_file_path dir 1)
          (record (new_tree opts (close one_node).disk draws) {
            manifest = (close one_node).manifest;
          }),
    )
open_tree-close_example = open_tree-close one_node root one_node-IsStorable opts draws refl

get-open_tree_example :
    (t' : Tree) × (open_tree opts (close one_node).disk draws ≡ some (returned tt, t'))
    × IsOpen 0 t'
    × ((get 1 banana t').0 ≡ (get 1 banana one_node).0)
get-open_tree_example =
    get-open_tree opts draws 1 banana one_node root one_node-IsOpen one_node-IsStorable
      banana-BufferNewer refl (omega arith)
