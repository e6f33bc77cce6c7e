-- ===== src/File/RoundTrip.antt =====
-- `read_file` after `write_file`.
use mathlib.Core.List.{append-nil}
use gravtree.Prelude.{
  some, ℕ, ◌+◌, ◌-◌, ◌^◌, ◌≤◌, ◌<◌, ◌≡◌, refl, ap, ◌∙◌, Bool, true, false, List, [], ◌∷◌, ◌++◌,
  ◌==◌, ltb, length, take, drop, All, All_mono, arith, length-append, take_front, drop_front,
}
use gravtree.Key.{Str}
use gravtree.Bytes.{le_bytes, length-le_bytes, le_value-le_bytes}
use gravtree.Result
use gravtree.Result.{Result, ok, err}
use gravtree.Entry.{max_fanout}
use gravtree.Binary.{get_u64, put_u64}
use gravtree.Binary.Reads.{
  Ahead, Reads, Reads-pure, Reads-bind, Reads-map, Reads-get_u32, Reads-get_u64, Reads-get_str,
  repeat, encode_all, Reads-repeat,
}
use gravtree.Crc.{crc64, crc64-lt}
use gravtree.Node.{SstNode, SparseIndexEntry}
use gravtree.Key.{key_eq}
use gravtree.Key.Order.{cmp_refl}
use gravtree.Disk.{Disk, rename-store}
use gravtree.File.{
  node_file_path, tmp_suffix, write_file, read_file, load_header, load_entries, node_file_magic,
  node_file_version, node_body, file_bytes, get_entry, get_sparse_entry, get_rest, get_node_at,
  parse_file,
}
use gravtree.File.Layout.{
  NodeFits, entry_bytes, sparse_bytes, header_bytes, index_of, body_bytes, offsets-ShortStr,
  length-offsets, offsets-le, node_body-bytes, ShortStr,
}
use gravtree.File.Fields.{
  Reads-get_entry, Reads-get_sparse_entry, Reads-step, Reads-bloom_field, Reads-check_magic,
  Reads-check_version,
}

-- the node that the header alone gives
abbrev pub header_of : Str → SstNode → SstNode
header_of path node = record node {
  file_path = path;
  buffer = [];
  sparse_index = [];
  entries_loaded = false;
}

All-get_u64 :
    (ids : List ℕ) → All (λ c. c < 2 ^ 64) ids → All (λ c. Reads get_u64 (le_bytes 8 c) c) ids
All-get_u64 ids h = All_mono _ _ Reads-get_u64 ids h

Reads-slots :
    (node : SstNode)
    → NodeFits node
    → Reads (repeat max_fanout get_u64) (encode_all (le_bytes 8) node.child_ids) node.child_ids
Reads-slots node h =
    rw h.slots at
      (Reads-repeat get_u64 (le_bytes 8) node.child_ids (All-get_u64 node.child_ids h.child_ids))

Reads-header :
    (path : Str) (load : Bool) (node : SstNode) (ds : List ℕ) (w : SstNode)
    → NodeFits node
    → Reads (get_rest load (length node.buffer) (header_of path node)) ds w
    → Reads (get_node_at path load) (header_bytes node ++ ds) w
unfolding get_node_at
Reads-header path load node ds w h r =
    Reads-step _ _ _ _ _ _ _ (Reads-get_u64 node_file_magic (omega arith)) (
      Reads-check_magic _ _ _ (
        Reads-step _ _ _ _ _ _ _ (Reads-get_u32 node_file_version (omega arith)) (
          Reads-check_version _ _ _ (
            Reads-step _ _ _ _ _ _ _ (Reads-get_u64 node.id h.id) (
              Reads-step _ _ _ _ _ _ _ (Reads-get_u32 node.level h.level) (
                Reads-step _ _ _ _ _ _ _ (Reads-get_u32 node.num_children h.num_children) (
                  Reads-step _ _ _ _ _ _ _ (Reads-slots node h) (
                    Reads-step _ _ _ _ _ _ _ (Reads-get_u32 (length node.buffer) h.num_entries) (
                      Reads-step _ _ _ _ _ _ _ (Reads-get_str node.key_range.min_key h.min_key) (
                        Reads-step _ _ _ _ _ _ _ (Reads-get_str node.key_range.max_key h.max_key)
                          (Reads-bloom_field node.bloom _ ds w h.bloom r)))))))))))

-- the node that the whole file gives
abbrev pub loaded_of : Str → SstNode → SstNode
loaded_of path node = record node {
  file_path = path;
  sparse_index = index_of node;
  entries_loaded = true;
}

index-fits : (node : SstNode) → NodeFits node → All (λ s. s.file_offset < 2 ^ 64) (index_of node)
index-fits node h =
    let size : length (node_body node).0 ≡ length (body_bytes node) =
      ap (λ (p : List ℕ × List SparseIndexEntry). length p.0) (node_body-bytes node h) in
    let entries = encode_all entry_bytes node.buffer in
    let tail = le_bytes 4 (length (index_of node)) ++ encode_all sparse_bytes (index_of node) in
    let inside : length (header_bytes node) + length entries ≤ length (body_bytes node) =
      omega
        (arith, length-append (header_bytes node) (entries ++ tail), length-append entries tail) in
    All_mono _ _ (λ s le. omega (arith, h.size)) (index_of node)
      (offsets-le 0 (length (header_bytes node)) (length (body_bytes node)) node.buffer inside)

All-sparse :
    (l : List SparseIndexEntry)
    → All (λ s. ShortStr s.key) l
    → All (λ s. s.file_offset < 2 ^ 64) l
    → All (λ s. Reads get_sparse_entry (sparse_bytes s) s) l
All-sparse [] h k = tt
All-sparse (s ∷ l) h k = (Reads-get_sparse_entry s h.0 k.0, All-sparse l h.1 k.1)

Reads-rest :
    (path : Str) (node : SstNode)
    → NodeFits node
    → Reads
        (get_rest true (length node.buffer) (header_of path node))
        (encode_all entry_bytes node.buffer
          ++ (le_bytes 4 (length (index_of node)) ++ encode_all sparse_bytes (index_of node)))
        (loaded_of path node)
unfolding get_rest
Reads-rest path node h =
    Reads-bind _ _ _ _ _ _
      (Reads-repeat get_entry entry_bytes node.buffer
        (All_mono _ _ Reads-get_entry node.buffer h.entries))
      (Reads-bind _ _ _ _ _ _
        (Reads-get_u32 (length (index_of node))
          (omega (arith, h.num_entries, length-offsets 0 (length (header_bytes node)) node.buffer)))
        (Reads-map _ _ _ _ (
          Reads-repeat get_sparse_entry sparse_bytes (index_of node) (
            All-sparse (index_of node)
              (offsets-ShortStr 0 (length (header_bytes node)) node.buffer h.entries)
              (index-fits node h)))))

file_bytes-body :
    (node : SstNode)
    → NodeFits node
    → file_bytes node ≡ body_bytes node ++ le_bytes 8 (crc64 (body_bytes node))
unfolding file_bytes put_u64
file_bytes-body node h = rw (node_body-bytes node h)

take_eight : (v : ℕ) → take 8 (le_bytes 8 v) ≡ le_bytes 8 v
unfolding le_bytes
take_eight v = refl

-- A file that ends in the checksum of what stands above it passes both checks.
parse_file-checksum :
    (path : Str) (load : Bool) (body : List ℕ)
    → parse_file path load (body ++ le_bytes 8 (crc64 body))
      ≡ Result.◌>>=◌
          (get_node_at path load
            (record { bytes = body ++ le_bytes 8 (crc64 body); size = length body; pos = 0 }))
          (λ p. ok p.0)
unfolding parse_file
parse_file-checksum path load body =
    let raw = body ++ le_bytes 8 (crc64 body) in
    let size : length raw ≡ length body + 8 =
      omega (arith, length-append body (le_bytes 8 (crc64 body)), length-le_bytes 8 (crc64 body)) in
    let large : ltb (length body + 8) 8 ≡ false = ground arith in
    let cut : length body + 8 - 8 ≡ length body = omega arith in
    let front : take (length body) raw ≡ body = take_front (length body) body _ refl in
    let back : take 8 (drop (length body) raw) ≡ le_bytes 8 (crc64 body) =
      ap (take 8) (drop_front (length body) body _ refl) ∙ take_eight (crc64 body) in
    let stored = le_value-le_bytes 8 (crc64 body) (crc64-lt body) in
    let same : (crc64 body == crc64 body) ≡ true = ground arith in
    rw (size, large, cut, front, back, stored, same)

at_start :
    (bs rest : List ℕ) → Ahead (record { bytes = bs ++ rest; size = length bs; pos = 0 }) bs rest
at_start bs rest = record { ahead = refl; room = omega arith }

-- Of a node whose fields fit their places in the format, reading the whole of the bytes that
-- `write_file` wrote gives the node back, with the offsets of its entries in the sparse index.
pub parse_file-file_bytes :
    (path : Str) (node : SstNode)
    → NodeFits node
    → parse_file path true (file_bytes node) ≡ ok (loaded_of path node)
parse_file-file_bytes path node h =
    let body = body_bytes node in
    let crc = le_bytes 8 (crc64 body) in
    let all = Reads-header path true node _ (loaded_of path node) h (Reads-rest path node h) in
    let a : Ahead (record { bytes = body ++ crc; size = length body; pos = 0 }) (body ++ []) crc =
      rw append-nil (at_start body crc) in
    rw (file_bytes-body node h, parse_file-checksum path true body, all.runs _ [] crc a)

-- Of a node whose fields fit their places in the format, reading only the header of the bytes that
-- `write_file` wrote gives the node without its entries and its sparse index.
pub parse_file-header :
    (path : Str) (node : SstNode)
    → NodeFits node
    → parse_file path false (file_bytes node) ≡ ok (header_of path node)
parse_file-header path node h =
    let body = body_bytes node in
    let crc = le_bytes 8 (crc64 body) in
    let rest =
      encode_all entry_bytes node.buffer
      ++ (le_bytes 4 (length (index_of node)) ++ encode_all sparse_bytes (index_of node)) in
    let head =
      Reads-header path false node [] (header_of path node) h (unfold get_rest in Reads-pure _) in
    let a : Ahead (record { bytes = body ++ crc; size = length body; pos = 0 })
        ((header_bytes node ++ []) ++ rest) crc =
      rw append-nil (at_start body crc) in
    rw (file_bytes-body node h, parse_file-checksum path false body, head.runs _ rest crc a)

-- What `write_file` wrote is at the path that it returns.
pub file_written :
    (dir : Str) (node : SstNode) (d : Disk)
    → (write_file dir node d).1 (write_file dir node d).0 ≡ some (file_bytes node)
unfolding write_file
file_written dir node d =
    let path = node_file_path dir node.id in
    rename-store (path ++ tmp_suffix) path path (file_bytes node) d ∙ rw (key_eq, cmp_refl path)

pub read_file-found :
    (path : Str) (load : Bool) (d : Disk) (raw : List ℕ)
    → d path ≡ some raw
    → read_file path load d ≡ parse_file path load raw
unfolding read_file
read_file-found path load d raw h = rw (read_file, h) refl

-- Of a node whose fields fit their places in the format, `read_file` at the path that `write_file`
-- returns gives, on the disk that it leaves, the node back, with the offsets of its entries in the
-- sparse index.
pub read_file-write_file :
    (dir : Str) (node : SstNode) (d : Disk)
    → NodeFits node
    → read_file (write_file dir node d).0 true (write_file dir node d).1
      ≡ ok (loaded_of (write_file dir node d).0 node)
read_file-write_file dir node d h =
    read_file-found (write_file dir node d).0 true (write_file dir node d).1 (file_bytes node)
      (file_written dir node d)
    ∙ parse_file-file_bytes (write_file dir node d).0 node h

pub load_header-file :
    (path : Str) (d : Disk) (node : SstNode)
    → d path ≡ some (file_bytes node)
    → NodeFits node
    → load_header path d ≡ ok (header_of path node)
unfolding load_header
load_header-file path d node file h =
    read_file-found path false d (file_bytes node) file ∙ parse_file-header path node h

pub load_entries-file :
    (path : Str) (d : Disk) (node : SstNode)
    → d path ≡ some (file_bytes node)
    → NodeFits node
    → load_entries (header_of path node) d ≡ ok (loaded_of path node)
unfolding load_entries
load_entries-file path d node file h =
    let whole : read_file path true d ≡ ok (loaded_of path node) =
      read_file-found path true d (file_bytes node) file ∙ parse_file-file_bytes path node h in
    rw whole refl

-- Of a node whose fields fit their places in the format, written by `write_file`, `load_header`
-- and then `load_entries` give the same node as reading the whole file: the node with all its
-- entries and the offsets of its sparse index.
pub load_entries-load_header :
    (dir : Str) (node : SstNode) (d : Disk)
    → NodeFits node
    → Result.◌>>=◌
        (load_header (write_file dir node d).0 (write_file dir node d).1)
        (λ n. load_entries n (write_file dir node d).1)
      ≡ ok (loaded_of (write_file dir node d).0 node)
load_entries-load_header dir node d h =
    let path = (write_file dir node d).0 in
    let d' = (write_file dir node d).1 in
    let file = file_written dir node d in
    rw (load_header-file path d' node file h) (load_entries-file path d' node file h)
