-- ===== src/Node.antt =====
-- include/gravtree/node.h and src/node.cpp: a node in memory. Its file is `File`.
pub mod Search
pub mod Dedup
use mathlib.Core.List.{foldl}
use gravtree.Prelude.{
  ℕ, zero, suc, ◌+◌, ◌-◌, ◌*◌, ◌/◌, ◌%◌, ◌^◌, min, max, Bool, true, false, not, ◌&&◌, ◌||◌, Option,
  none, some, List, [], ◌∷◌, ◌++◌, map, ltb, leb, ◌==◌, if◌then◌else◌, length, get_elem?, get_or,
  take, replicate,
}
use gravtree.Key.{Str, key_lt, key_eq, is_empty}
use gravtree.Entry.{Entry, KeyRange, before, invalid_node_id, max_fanout}
use gravtree.Sort.{stable_sort}
use gravtree.Bloom
use gravtree.Bloom.{Bloom}
use gravtree.Bloom.Sizing.{Doubles, new}

pub record SparseIndexEntry : Type 0 where
  pub key : Str
  pub file_offset : ℕ

abbrev pub sparse_step : ℕ
sparse_step = 128

abbrev pub buffer_threshold : ℕ
buffer_threshold = 4 * 1024 * 1024

-- `child_ids` is the array of `max_fanout` slots, of which `num_children` are in use.
pub record SstNode : Type 0 where
  pub id : ℕ
  pub level : ℕ
  pub num_children : ℕ
  pub child_ids : List ℕ
  pub key_range : KeyRange
  pub buffer : List Entry
  pub sparse_index : List SparseIndexEntry
  pub bloom : Option Bloom
  pub file_path : Str
  pub entries_loaded : Bool

-- `SSTNode(id, level)`; `SSTNode()` is `blank 0 0`
abbrev pub blank : ℕ → ℕ → SstNode
blank id level = record {
  id = id;
  level = level;
  num_children = 0;
  child_ids = replicate max_fanout invalid_node_id;
  key_range = record { min_key = []; max_key = [] };
  buffer = [];
  sparse_index = [];
  bloom = none;
  file_path = [];
  entries_loaded = false;
}

-- `deduped.back().key == k`, of a vector that may be empty
unfoldable pub back_has_key : List Entry → Str → Bool
back_has_key [] k = false
back_has_key (e ∷ []) k = key_eq e.key k
back_has_key (e ∷ f ∷ es) k = back_has_key (f ∷ es) k

-- the loop of `sort_buffer`
unfoldable pub dedup_loop : List Entry → List Entry → List Entry
unfolding back_has_key
dedup_loop [] deduped = deduped
dedup_loop (e ∷ es) deduped =
    dedup_loop es (if back_has_key deduped e.key then deduped else deduped ++ e ∷ [])

-- what `sort_buffer` makes of the buffer
unfoldable pub sorted_unique : List Entry → List Entry
unfolding dedup_loop
sorted_unique es =
    let sorted = stable_sort es in if leb (length sorted) 1 then sorted else dedup_loop sorted []

unfoldable pub sort_buffer : SstNode → SstNode
sort_buffer node = record node { buffer = sorted_unique node.buffer }

-- the indices 0, 128, 256, … of `build_sparse_index`
unfoldable pub every_step : ℕ → List Entry → List SparseIndexEntry
every_step i [] = []
every_step i (e ∷ es) =
    let rest = every_step (i + 1) es in
    if i % sparse_step == 0 then record { key = e.key; file_offset = 0 } ∷ rest else rest

unfoldable pub build_sparse_index : SstNode → SstNode
unfolding every_step
build_sparse_index node = record node { sparse_index = every_step 0 node.buffer }

-- one round of the loop of `std::lower_bound`, from `first` over `len` entries
unfoldable pub bound_loop : ℕ → List Entry → Entry → ℕ → ℕ → ℕ
bound_loop zero es probe first len = first
bound_loop (suc fuel) es probe first len =
    let half = len / 2 in
    let go_right = before (get_or es (first + half) probe) probe in
    let rest =
      bound_loop fuel es probe (if go_right then first + half + 1 else first)
        (if go_right then len - half - 1 else half) in
    if len == 0 then first else rest

unfoldable pub lower_bound : List Entry → Entry → ℕ
unfolding bound_loop
lower_bound es probe = bound_loop (suc (length es)) es probe 0 (length es)

abbrev pub max_seq : ℕ
max_seq = 2 ^ 64 - 1

abbrev pub probe_for : Str → Entry
probe_for key = record { key = key; value = []; seq_no = max_seq; deleted = false }

-- `if (it != buffer.end() && it->key == key) return *it;`
abbrev pub if_key : Str → Option Entry → Option Entry
if_key key none = none
if_key key (some e) = if key_eq e.key key then some e else none

-- the search of `SSTNode::get` in a buffer
unfoldable pub find_in : List Entry → Str → Option Entry
unfolding lower_bound
find_in [] key = none
find_in (e ∷ es) key = if_key key (get_elem? (e ∷ es) (lower_bound (e ∷ es) (probe_for key)))

unfoldable pub get : SstNode → Str → Option Entry
unfolding find_in
get node key = find_in node.buffer key

bloom_passes : Option Bloom → Str → Bool
bloom_passes none key = true
bloom_passes (some f) key = Bloom.might_contain f key

unfoldable pub might_contain : SstNode → Str → Bool
unfolding bloom_passes
might_contain node key = elim node.buffer [ [] ↦ bloom_passes node.bloom key | e ∷ es ↦ true ]

-- `sizeof(SequenceNumber) + 1` is 9
unfoldable pub entries_bytes : List Entry → ℕ
entries_bytes [] = 0
entries_bytes (e ∷ es) = length e.key + length e.value + 8 + 1 + entries_bytes es

unfoldable pub buffer_size_bytes : SstNode → ℕ
unfolding entries_bytes
buffer_size_bytes node = entries_bytes node.buffer

unfoldable pub buffer_full : SstNode → Bool
unfolding buffer_size_bytes
buffer_full node = leb buffer_threshold (buffer_size_bytes node)

unfoldable pub is_leaf : SstNode → Bool
is_leaf node = node.level == 0

-- `back()` of a vector that is not empty
abbrev pub last_key : Str → List Entry → Str
last_key k [] = k
last_key k (e ∷ es) = last_key e.key es

-- `create`: the range of the sorted entries, if there are any
unfoldable pub range_of : List Entry → KeyRange
range_of [] = record { min_key = []; max_key = [] }
range_of (e ∷ es) = record { min_key = e.key; max_key = last_key e.key es }

-- `flush_to_disk`: the range grows to take the sorted entries in
unfoldable pub expand_range : KeyRange → List Entry → KeyRange
expand_range r [] = r
expand_range r (e ∷ es) = record {
  min_key = if is_empty r.min_key || key_lt e.key r.min_key then e.key else r.min_key;
  max_key =
      if is_empty r.max_key || key_lt r.max_key (last_key e.key es)
      then last_key e.key es
      else r.max_key;
}

-- `num_children` and the slots that `create` fills
unfoldable pub fill_slots : List ℕ → List ℕ
fill_slots children =
    let used = take max_fanout children in
    used ++ replicate (max_fanout - length used) invalid_node_id

module _ ⦃fl : Doubles⦄ where
  unfoldable pub build_bloom : SstNode → SstNode
  build_bloom node = record node {
    bloom = some (
        foldl Bloom.add (new (max (length node.buffer) 1) fl.one_percent)
          (map (λ e. e.key) node.buffer));
  }

  -- `create` up to the writing of the file
  unfoldable pub fresh : ℕ → ℕ → List Entry → List ℕ → SstNode
  unfolding build_bloom build_sparse_index range_of fill_slots
  fresh id level entries children =
      let buffer = sorted_unique entries in
      build_sparse_index (
        build_bloom (record (blank id level) {
          buffer = buffer;
          num_children = min (length children) max_fanout;
          child_ids = fill_slots children;
          key_range = range_of buffer;
        }))

  -- `flush_to_disk` up to the writing of the file
  unfoldable pub refreshed : SstNode → SstNode
  unfolding build_bloom build_sparse_index expand_range sort_buffer
  refreshed node =
      let sorted = sort_buffer node in
      build_sparse_index
        (build_bloom (record sorted { key_range = expand_range sorted.key_range sorted.buffer }))
