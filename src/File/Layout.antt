-- ===== src/File/Layout.antt =====
-- What the writer lays down, as one concatenation.
use mathlib.Core.List.{append_assoc, append-nil}
use gravtree.Prelude.{
  ℕ, ◌+◌, ◌%◌, ◌^◌, ◌≤◌, ◌<◌, ◌≡◌, refl, sym, ◌∙◌, Option, none, some, List, [], ◌∷◌, ◌++◌, ◌==◌,
  if◌then◌else◌, length, All, arith, length-append, Bool-cases, inl, inr,
}
use gravtree.Key.{Str}
use gravtree.Bytes.{le_bytes}
use gravtree.Entry.{Entry, max_fanout}
use gravtree.Binary.{put_u8, put_u32, put_u64, put_raw, put_str}
use gravtree.Binary.Reads.{str_bytes, encode_all}
use gravtree.Bloom
use gravtree.Bloom.{Bloom}
use gravtree.Bloom.Codec.{Fits, length-serialize}
use gravtree.Node.{SstNode, SparseIndexEntry, sparse_step}
use gravtree.File.{
  node_file_magic, node_file_version, put_ids, put_bloom, put_header, put_entry, put_entries,
  put_sparse, node_body,
}

abbrev pub ShortStr : Str → Type 0
ShortStr s = length s < 2 ^ 32

abbrev pub EntryFits : Entry → Type 0
EntryFits e = ShortStr e.key × ShortStr e.value × (e.seq_no < 2 ^ 64)

abbrev pub BloomFits : Option Bloom → Type 0
BloomFits none = Unit
BloomFits (some f) = Fits f × (12 + length f.bits < 2 ^ 32)

-- What the fields of the format can hold.
pub record NodeFits (node : SstNode) : Type 0 where
  pub id : node.id < 2 ^ 64
  pub level : node.level < 2 ^ 32
  pub num_children : node.num_children < 2 ^ 32
  pub slots : length node.child_ids ≡ max_fanout
  pub child_ids : All (λ c. c < 2 ^ 64) node.child_ids
  pub num_entries : length node.buffer < 2 ^ 32
  pub min_key : ShortStr node.key_range.min_key
  pub max_key : ShortStr node.key_range.max_key
  pub bloom : BloomFits node.bloom
  pub entries : All EntryFits node.buffer
  pub size : length (node_body node).0 < 2 ^ 64

abbrev pub entry_bytes : Entry → List ℕ
entry_bytes e =
    str_bytes e.key
    ++ (str_bytes e.value ++ (le_bytes 8 e.seq_no ++ (if e.deleted then 1 else 0) ∷ []))

abbrev pub sparse_bytes : SparseIndexEntry → List ℕ
sparse_bytes s = str_bytes s.key ++ le_bytes 8 s.file_offset

abbrev pub bloom_bytes : Option Bloom → List ℕ
bloom_bytes none = le_bytes 4 0
bloom_bytes (some f) = le_bytes 4 (length (Bloom.serialize f)) ++ Bloom.serialize f

abbrev pub header_bytes : SstNode → List ℕ
header_bytes node =
    le_bytes 8 node_file_magic
    ++ (le_bytes 4 node_file_version
        ++ (le_bytes 8 node.id
            ++ (le_bytes 4 node.level
                ++ (le_bytes 4 node.num_children
                    ++ (encode_all (le_bytes 8) node.child_ids
                        ++ (le_bytes 4 (length node.buffer)
                            ++ (str_bytes node.key_range.min_key
                                ++ (str_bytes node.key_range.max_key
                                    ++ bloom_bytes node.bloom))))))))

put_str-ShortStr : (s : Str) (buf : List ℕ) → ShortStr s → put_str s buf ≡ buf ++ str_bytes s
unfolding put_str
put_str-ShortStr s buf h =
    let fits : length s % 2 ^ 32 ≡ length s = omega arith in
    rw fits (append_assoc buf (le_bytes 4 (length s)) s)

put_ids-encode_all : (ids buf : List ℕ) → put_ids ids buf ≡ buf ++ encode_all (le_bytes 8) ids
unfolding put_ids encode_all put_u64
put_ids-encode_all [] buf = sym (append-nil buf)
put_ids-encode_all (c ∷ ids) buf =
    put_ids-encode_all ids (buf ++ le_bytes 8 c)
    ∙ append_assoc buf (le_bytes 8 c) (encode_all (le_bytes 8) ids)

put_bloom-bytes :
    (o : Option Bloom) (buf : List ℕ) → BloomFits o → put_bloom o buf ≡ buf ++ bloom_bytes o
unfolding put_bloom put_u32 put_raw
put_bloom-bytes none buf h = refl
put_bloom-bytes (some f) buf h =
    let fits : length (Bloom.serialize f) % 2 ^ 32 ≡ length (Bloom.serialize f) =
      omega (arith, length-serialize f, h.1) in
    rw fits (append_assoc buf (le_bytes 4 (length (Bloom.serialize f))) (Bloom.serialize f))

pub put_header-bytes : (node : SstNode) → NodeFits node → put_header node [] ≡ header_bytes node
unfolding put_header put_u32 put_u64
put_header-bytes node h =
    let fits : length node.buffer % 2 ^ 32 ≡ length node.buffer = omega (arith, h.num_entries) in
    rw
      (
        put_bloom-bytes node.bloom _ h.bloom,
        put_str-ShortStr node.key_range.max_key _ h.max_key,
        put_str-ShortStr node.key_range.min_key _ h.min_key,
        put_ids-encode_all,
        fits,
      )
      (simp append_assoc)

put_entry-bytes : (e : Entry) (buf : List ℕ) → EntryFits e → put_entry e buf ≡ buf ++ entry_bytes e
unfolding put_entry put_u8 put_u64
put_entry-bytes e buf h =
    rw (put_str-ShortStr e.value _ h.1, put_str-ShortStr e.key _ h.0) (simp append_assoc)

-- The index entries for the entries from index `i`, the first of which stands at `pos`.
pub offsets : ℕ → ℕ → List Entry → List SparseIndexEntry
offsets i pos [] = []
offsets i pos (e ∷ es) =
    let rest = offsets (i + 1) (pos + length (entry_bytes e)) es in
    if i % sparse_step == 0 then record { key = e.key; file_offset = pos } ∷ rest else rest

pub put_entries-bytes :
    (i : ℕ) (es : List Entry) (buf : List ℕ) (sparse : List SparseIndexEntry)
    → All EntryFits es
    → put_entries i es buf sparse
      ≡ (buf ++ encode_all entry_bytes es, sparse ++ offsets i (length buf) es)
unfolding put_entries encode_all offsets
put_entries-bytes i [] buf sparse h = rw (append-nil buf, append-nil sparse)
put_entries-bytes i (e ∷ es) buf sparse h = elim (Bool-cases (i % sparse_step == 0)) [
  | inl q ↦
      rw (q, put_entry-bytes e buf h.0)
        (put_entries-bytes (i + 1) es (buf ++ entry_bytes e) _ h.1
          ∙ rw (length-append buf (entry_bytes e)) (simp append_assoc))
  | inr q ↦
      rw (q, put_entry-bytes e buf h.0)
        (put_entries-bytes (i + 1) es (buf ++ entry_bytes e) _ h.1
          ∙ rw (length-append buf (entry_bytes e)) (simp append_assoc))
]

put_sparse-bytes :
    (sparse : List SparseIndexEntry) (buf : List ℕ)
    → All (λ s. ShortStr s.key) sparse
    → put_sparse sparse buf ≡ buf ++ encode_all sparse_bytes sparse
unfolding put_sparse encode_all put_u64
put_sparse-bytes [] buf h = sym (append-nil buf)
put_sparse-bytes (s ∷ sparse) buf h =
    rw (put_str-ShortStr s.key buf h.0) (put_sparse-bytes sparse _ h.1 ∙ simp append_assoc)

pub offsets-ShortStr :
    (i pos : ℕ) (es : List Entry) → All EntryFits es → All (λ s. ShortStr s.key) (offsets i pos es)
unfolding offsets
offsets-ShortStr i pos [] h = tt
offsets-ShortStr i pos (e ∷ es) h = elim (Bool-cases (i % sparse_step == 0)) [
  | inl q ↦ rw q (h.0.0, offsets-ShortStr (i + 1) (pos + length (entry_bytes e)) es h.1)
  | inr q ↦ rw q (offsets-ShortStr (i + 1) (pos + length (entry_bytes e)) es h.1)
]

pub length-offsets : (i pos : ℕ) (es : List Entry) → length (offsets i pos es) ≤ length es
unfolding offsets
length-offsets i pos [] = omega arith
length-offsets i pos (e ∷ es) =
    ground (arith, length-offsets (i + 1) (pos + length (entry_bytes e)) es)

-- An offset lies within the entries.
pub offsets-le :
    (i pos end : ℕ) (es : List Entry)
    → pos + length (encode_all entry_bytes es) ≤ end
    → All (λ s. s.file_offset ≤ end) (offsets i pos es)
unfolding offsets encode_all
offsets-le i pos end [] h = tt
offsets-le i pos end (e ∷ es) h =
    let more = length-append (entry_bytes e) (encode_all entry_bytes es) in
    let rest = offsets-le (i + 1) (pos + length (entry_bytes e)) end es (omega (arith, more)) in
    elim (Bool-cases (i % sparse_step == 0)) [
      | inl q ↦ rw q (omega (arith, h), rest)
      | inr q ↦ rw q rest
    ]

abbrev pub index_of : SstNode → List SparseIndexEntry
index_of node = offsets 0 (length (header_bytes node)) node.buffer

abbrev pub body_bytes : SstNode → List ℕ
body_bytes node =
    header_bytes node
    ++ (encode_all entry_bytes node.buffer
        ++ (le_bytes 4 (length (index_of node)) ++ encode_all sparse_bytes (index_of node)))

-- Of a node whose fields fit their places in the format, the bytes above the checksum are the
-- header, the entries and the sparse index, in this order and nothing else, and each index entry
-- has the offset at which its entry begins.
pub node_body-bytes :
    (node : SstNode) → NodeFits node → node_body node ≡ (body_bytes node, index_of node)
unfolding node_body put_u32
node_body-bytes node h =
    let count : length (index_of node) % 2 ^ 32 ≡ length (index_of node) =
      omega (arith, h.num_entries, length-offsets 0 (length (header_bytes node)) node.buffer) in
    rw
      (
        put_header-bytes node h,
        put_entries-bytes 0 node.buffer (header_bytes node) [] h.entries,
        count,
        put_sparse-bytes (index_of node) _
            (offsets-ShortStr 0 (length (header_bytes node)) node.buffer h.entries),
      )
      (simp append_assoc)
