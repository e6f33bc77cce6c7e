-- ===== src/File.antt =====
-- src/node.cpp: `write_file` and `read_file`, the file of a node, and the methods that use them.
pub mod Layout
pub mod Fields
pub mod RoundTrip
use gravtree.Prelude.{
  ℕ, zero, suc, ◌+◌, ◌-◌, ◌*◌, ◌/◌, ◌%◌, ◌^◌, Bool, true, false, not, Option, none, some, List, [],
  ◌∷◌, ◌++◌, ltb, ◌==◌, if◌then◌else◌, length, get_elem?, take, drop,
}
use gravtree.Key.{Str}
use gravtree.Bytes.{le_value}
use gravtree.Decimal.{to_string}
use gravtree.Entry.{Entry, KeyRange, max_fanout}
use gravtree.Result
use gravtree.Result.{
  Result, ok, err, cannot_open, too_small, checksum_mismatch, bad_magic, unsupported_version,
}
use gravtree.Binary.{
  Reader, Parser, ◌>>=◌, ◌>>◌, pure, throw, advance, put_u8, put_u32, put_u64, put_raw, put_str,
  get_u8, get_u32, get_u64, get_str,
}
use gravtree.Binary.Reads.{repeat}
use gravtree.Bloom
use gravtree.Bloom.{Bloom}
use gravtree.Bloom.Sizing.{Doubles}
use gravtree.Crc.{crc64}
use gravtree.Disk.{Disk, store, rename}
use gravtree.Node.{SstNode, SparseIndexEntry, sparse_step, blank, fresh, refreshed}

-- "GRAVTREE"
abbrev pub node_file_magic : ℕ
node_file_magic = 0x4752415654524545

abbrev pub node_file_version : ℕ
node_file_version = 1

-- "/node_"
abbrev node_prefix : Str
node_prefix = b'/' ∷ b'n' ∷ b'o' ∷ b'd' ∷ b'e' ∷ b'_' ∷ []

-- ".gst"
abbrev node_suffix : Str
node_suffix = b'.' ∷ b'g' ∷ b's' ∷ b't' ∷ []

-- ".tmp"
abbrev pub tmp_suffix : Str
tmp_suffix = b'.' ∷ b't' ∷ b'm' ∷ b'p' ∷ []

unfoldable pub node_file_path : Str → ℕ → Str
node_file_path dir id = dir ++ (node_prefix ++ (to_string id ++ node_suffix))

-- for (i = 0; i < MAX_FANOUT; ++i) w.u64(child_ids[i]);
unfoldable pub put_ids : List ℕ → List ℕ → List ℕ
put_ids [] buf = buf
put_ids (c ∷ ids) buf = put_ids ids (put_u64 c buf)

unfoldable pub put_bloom : Option Bloom → List ℕ → List ℕ
put_bloom none buf = put_u32 0 buf
put_bloom (some f) buf = let bd = Bloom.serialize f in put_raw bd (put_u32 (length bd % 2 ^ 32) buf)

unfoldable pub put_header : SstNode → List ℕ → List ℕ
unfolding put_ids put_bloom
put_header node buf =
    let b₁ = put_u32 node_file_version (put_u64 node_file_magic buf) in
    let b₂ = put_u32 node.num_children (put_u32 node.level (put_u64 node.id b₁)) in
    let b₃ = put_u32 (length node.buffer % 2 ^ 32) (put_ids node.child_ids b₂) in
    put_bloom node.bloom (put_str node.key_range.max_key (put_str node.key_range.min_key b₃))

unfoldable pub put_entry : Entry → List ℕ → List ℕ
put_entry e buf =
    put_u8 (if e.deleted then 1 else 0) (put_u64 e.seq_no (put_str e.value (put_str e.key buf)))

-- The loop over the entries from index `i`: the bytes, and the index entries (the key stands for
-- `buffer[idx].key`) with the offsets at which their entries begin.
unfoldable pub put_entries :
    ℕ → List Entry → List ℕ → List SparseIndexEntry → List ℕ × List SparseIndexEntry
unfolding put_entry
put_entries i [] buf sparse = (buf, sparse)
put_entries i (e ∷ es) buf sparse = put_entries (i + 1) es (put_entry e buf) (
    if i % sparse_step == 0
    then sparse ++ record { key = e.key; file_offset = length buf } ∷ []
    else sparse)

unfoldable pub put_sparse : List SparseIndexEntry → List ℕ → List ℕ
put_sparse [] buf = buf
put_sparse (s ∷ sparse) buf = put_sparse sparse (put_u64 s.file_offset (put_str s.key buf))

-- everything above the checksum, and the index entries in it
unfoldable pub node_body : SstNode → List ℕ × List SparseIndexEntry
unfolding put_header put_entries put_sparse
node_body node =
    let (buf, sparse) = put_entries 0 node.buffer (put_header node []) [] in
    (put_sparse sparse (put_u32 (length sparse % 2 ^ 32) buf), sparse)

unfoldable pub file_bytes : SstNode → List ℕ
file_bytes node = let (body, sparse) = node_body node in put_u64 (crc64 body) body

-- Written beside the file, then renamed.
unfoldable pub write_file : Str → SstNode → Disk → Str × Disk
write_file dir node disk =
    let path = node_file_path dir node.id in
    let tmp = path ++ tmp_suffix in (path, rename tmp path (store tmp (file_bytes node) disk))

-- `BloomFilter::deserialize(r.data + r.pos, bloom_len)`: no check that the bytes are there
unfoldable pub get_bloom : ℕ → Parser (Option Bloom)
get_bloom len r =
    if not (len == 0)
    then Result.◌>>=◌ (Bloom.deserialize (drop r.pos r.bytes) len) (λ f. ok (some f, advance len r))
    else ok (none, r)

unfoldable pub get_entry : Parser Entry
get_entry = do
  key ← get_str
  value ← get_str
  seq_no ← get_u64
  deleted ← get_u8
  pure (record { key = key; value = value; seq_no = seq_no; deleted = not (deleted == 0) })

unfoldable pub get_sparse_entry : Parser SparseIndexEntry
get_sparse_entry = do
  key ← get_str
  offset ← get_u64
  pure (record { key = key; file_offset = offset })

-- the part of `read_file` behind the header
unfoldable pub get_rest : Bool → ℕ → SstNode → Parser SstNode
unfolding get_entry get_sparse_entry
get_rest false num_entries node = pure node
get_rest true num_entries node = do
  buffer ← repeat num_entries get_entry
  si_count ← get_u32
  sparse ← repeat si_count get_sparse_entry
  pure (record node { buffer = buffer; entries_loaded = true; sparse_index = sparse })

unfoldable pub check_magic : ℕ → Parser (Unit {0})
check_magic magic = if not (magic == node_file_magic) then throw bad_magic else pure tt

unfoldable pub check_version : ℕ → Parser (Unit {0})
check_version version =
    if not (version == node_file_version) then throw unsupported_version else pure tt

unfoldable pub get_node_at : Str → Bool → Parser SstNode
unfolding get_bloom get_rest check_magic check_version
get_node_at path load_entries = do
  magic ← get_u64
  check_magic magic
  version ← get_u32
  check_version version
  id ← get_u64
  level ← get_u32
  num_children ← get_u32
  child_ids ← repeat max_fanout get_u64
  num_entries ← get_u32
  min_key ← get_str
  max_key ← get_str
  bloom_len ← get_u32
  bloom ← get_bloom bloom_len
  get_rest load_entries num_entries (record (blank id level) {
    file_path = path;
    num_children = num_children;
    child_ids = child_ids;
    key_range = record { min_key = min_key; max_key = max_key };
    bloom = bloom;
  })

-- the checks on the whole file, and the reader over all but the checksum
unfoldable pub parse_file : Str → Bool → List ℕ → Result SstNode
parse_file path load_entries raw =
    let file_size = length raw in
    if ltb file_size 8
    then err too_small
    else if not (le_value (take 8 (drop (file_size - 8) raw)) == crc64 (take (file_size - 8) raw))
    then err checksum_mismatch
    else Result.◌>>=◌
        (get_node_at path load_entries (record { bytes = raw; size = file_size - 8; pos = 0 }))
        (λ p. ok p.0)

unfoldable pub read_file : Str → Bool → Disk → Result SstNode
read_file path load_entries disk = elim (disk path) [
  | none ↦ err cannot_open
  | some raw ↦ parse_file path load_entries raw
]

unfoldable pub load_header : Str → Disk → Result SstNode
load_header path disk = read_file path false disk

unfoldable pub load_entries : SstNode → Disk → Result SstNode
load_entries node disk =
    if node.entries_loaded
    then ok node
    else Result.◌>>=◌ (read_file node.file_path true disk) (λ full. ok (record node {
      buffer = full.buffer;
      sparse_index = full.sparse_index;
      entries_loaded = true;
    }))

module _ ⦃fl : Doubles⦄ where
  unfoldable pub create : ℕ → ℕ → List Entry → List ℕ → Str → Disk → SstNode × Disk
  create id level entries children dir disk =
      let node = fresh id level entries children in
      let (path, disk') = write_file dir node disk in
      (record node { file_path = path; entries_loaded = true }, disk')

  unfoldable pub flush_to_disk : Str → SstNode → Disk → SstNode × Disk
  flush_to_disk dir node disk =
      let node' = refreshed node in
      let (path, disk') = write_file dir node' disk in
      (record node' { file_path = path; entries_loaded = true }, disk')
