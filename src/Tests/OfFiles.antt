-- ===== src/Tests/OfFiles.antt =====
-- Runs of the filter and of the file of a node.
use mathlib.Core.List.{foldl}
use gravtree.Prelude.{
  ◌≡◌, refl, ◌≤◌, ◌<◌, ◌+◌, ◌%◌, ◌^◌, true, none, some, [], ◌∷◌, ◌++◌, length, replicate, All,
  All-replicate, arith,
}
use gravtree.Key.{Str}
use gravtree.Entry.{max_fanout}
use gravtree.Result
use gravtree.Result.{ok}
use gravtree.Bytes.{le_bytes}
use gravtree.Binary.{put_u64, put_u32, put_raw, put_str, put_u8}
use gravtree.Bloom.{Bloom, might_contain, add, serialize, deserialize, bit_count}
use gravtree.Bloom.Sizing.{new, wanted_bits, new_bounds}
use gravtree.Bloom.SetBit.{IsValid}
use gravtree.Bloom.Members.{no_false_negatives}
use gravtree.Bloom.Codec.{Fits, deserialize-serialize}
use gravtree.Node.{SstNode}
use gravtree.Disk.{Disk}
use gravtree.File.{
  write_file, read_file, load_header, load_entries, node_body, put_header, put_ids, put_bloom,
  put_entries, put_entry, put_sparse,
}
use gravtree.File.Layout.{NodeFits, node_body-bytes, body_bytes, index_of}
use gravtree.File.RoundTrip.{read_file-write_file, load_entries-load_header, loaded_of}
use gravtree.Tests.Data.{apple, cherry, leaf, sorted_a, whole_numbers}

abbrev small_filter : Bloom
small_filter = record { bits = replicate 8 0; num_hash_funcs = 3 }

small_filter-IsValid : IsValid small_filter
small_filter-IsValid = record {
  nonempty = omega arith;
  bytes = All-replicate (λ b. b < 256) 8 0 (omega arith);
}

small_filter-Fits : Fits small_filter
small_filter-Fits = record { funcs = omega arith; bits = omega arith }

abbrev node_path : Str
node_path = b'n' ∷ []

-- a leaf with a filter
abbrev stored_leaf : SstNode
stored_leaf = record (leaf 5 apple sorted_a) { bloom = some small_filter }

abbrev no_files : Disk
no_files p = none

body_size : length (node_body stored_leaf).0 ≡ 270
unfolding node_body put_header put_ids put_bloom put_entries put_entry put_sparse serialize put_u64
    put_u32 put_raw put_str put_u8 le_bytes
body_size = refl

stored_leaf-NodeFits : NodeFits stored_leaf
stored_leaf-NodeFits = record {
  id = omega arith;
  level = omega arith;
  num_children = omega arith;
  slots = refl;
  child_ids = All-replicate (λ c. c < 2 ^ 64) max_fanout 0 (omega arith);
  num_entries = omega arith;
  min_key = omega arith;
  max_key = omega arith;
  bloom = (small_filter-Fits, omega arith);
  entries = (
    (omega arith, omega arith, omega arith),
    ((omega arith, omega arith, omega arith), ((omega arith, omega arith, omega arith), tt)),
  );
  size = omega (arith, body_size);
}

no_false_negatives_example :
    All
      (λ k. might_contain (foldl add small_filter (apple ∷ cherry ∷ [])) k ≡ true)
      (apple ∷ cherry ∷ [])
no_false_negatives_example =
    no_false_negatives (apple ∷ cherry ∷ []) small_filter small_filter-IsValid

deserialize-serialize_example :
    deserialize (serialize small_filter ++ 1 ∷ 2 ∷ []) (length (serialize small_filter))
    ≡ ok small_filter
deserialize-serialize_example = deserialize-serialize small_filter (1 ∷ 2 ∷ []) small_filter-Fits

new_bounds_example :
    (1 ≤ (new 7 1).num_hash_funcs)
    × ((new 7 1).num_hash_funcs ≤ 20)
    × (wanted_bits 7 1 ≤ bit_count (new 7 1))
    × (bit_count (new 7 1) < wanted_bits 7 1 + 64)
    × (bit_count (new 7 1) % 64 ≡ 0)
new_bounds_example = new_bounds 7 1 seven
  where
    seven : wanted_bits 7 1 < 2 ^ 63
    seven = unfold wanted_bits in omega arith

read_file-write_file_example :
    read_file
      (write_file node_path stored_leaf no_files).0
      true
      (write_file node_path stored_leaf no_files).1
    ≡ ok (loaded_of (write_file node_path stored_leaf no_files).0 stored_leaf)
read_file-write_file_example =
    read_file-write_file node_path stored_leaf no_files stored_leaf-NodeFits

load_entries-load_header_example :
    Result.◌>>=◌
      (load_header
        (write_file node_path stored_leaf no_files).0
        (write_file node_path stored_leaf no_files).1)
      (λ n. load_entries n (write_file node_path stored_leaf no_files).1)
    ≡ ok (loaded_of (write_file node_path stored_leaf no_files).0 stored_leaf)
load_entries-load_header_example =
    load_entries-load_header node_path stored_leaf no_files stored_leaf-NodeFits

node_body-bytes_example : node_body stored_leaf ≡ (body_bytes stored_leaf, index_of stored_leaf)
node_body-bytes_example = node_body-bytes stored_leaf stored_leaf-NodeFits
