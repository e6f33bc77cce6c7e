-- ===== src/File/Fields.antt =====
-- Reading the fields of the file of a node.
use mathlib.Core.List.{append_assoc}
use gravtree.Prelude.{
  ℕ, ◌^◌, ◌<◌, ◌≡◌, refl, subst, Bool, true, false, not, Option, none, some, List, [], ◌∷◌, ◌++◌,
  ◌==◌, if◌then◌else◌, length, arith,
}
use gravtree.Bytes.{le_bytes}
use gravtree.Entry.{Entry}
use gravtree.Binary.{Parser, ◌>>=◌, pure, get_u8, get_u32}
use gravtree.Binary.Reads.{
  Reads, Reads-pure, Reads-bind, Reads-map, Reads-get_u8, Reads-get_u32, Reads-get_u64,
  Reads-get_str,
}
use gravtree.Bloom
use gravtree.Bloom.{Bloom}
use gravtree.Bloom.Codec.{Fits, length-serialize, deserialize-serialize}
use gravtree.Node.{SparseIndexEntry}
use gravtree.File.{
  node_file_magic, node_file_version, check_magic, check_version, get_bloom, get_entry,
  get_sparse_entry,
}
use gravtree.File.Layout.{EntryFits, BloomFits, entry_bytes, sparse_bytes, bloom_bytes, ShortStr}

flag_back : (b : Bool) → not ((if b then 1 else 0) == 0) ≡ b
flag_back true = refl
flag_back false = refl

Reads-flag :
    (e : Entry)
    → Reads
        (get_u8 >>= λ d. pure (record e { deleted = not (d == 0) }))
        ((if e.deleted then 1 else 0) ∷ [])
        e
Reads-flag e =
    subst
      (λ b.
        Reads (get_u8 >>= λ d. pure (record e { deleted = not (d == 0) }))
          ((if e.deleted then 1 else 0) ∷ []) (record e { deleted = b }))
      (flag_back e.deleted)
      (Reads-map get_u8 (λ d. record e { deleted = not (d == 0) }) _ _
        (Reads-get_u8 (if e.deleted then 1 else 0)))

pub Reads-get_entry : (e : Entry) → EntryFits e → Reads get_entry (entry_bytes e) e
unfolding get_entry
Reads-get_entry e h = Reads-bind _ _ _ _ _ _ (Reads-get_str e.key h.0) (
    Reads-bind _ _ _ _ _ _ (Reads-get_str e.value h.1)
      (Reads-bind _ _ _ _ _ _ (Reads-get_u64 e.seq_no h.2) (Reads-flag e)))

pub Reads-get_sparse_entry :
    (s : SparseIndexEntry)
    → ShortStr s.key
    → s.file_offset < 2 ^ 64
    → Reads get_sparse_entry (sparse_bytes s) s
unfolding get_sparse_entry
Reads-get_sparse_entry s h k =
    Reads-bind _ _ _ _ _ _ (Reads-get_str s.key h)
      (Reads-map _ _ _ _ (Reads-get_u64 s.file_offset k))

-- The filter is read straight from the bytes, and only then passed over.
Reads-get_bloom :
    (f : Bloom)
    → Fits f
    → Reads (get_bloom (length (Bloom.serialize f))) (Bloom.serialize f) (some f)
unfolding get_bloom
Reads-get_bloom f h = record {
  runs = λ r xs rest a.
      let present : (length (Bloom.serialize f) == 0) ≡ false =
        ground (arith, length-serialize f) in
      rw (present, a.ahead, append_assoc, deserialize-serialize f (xs ++ rest) h);
}

Reads-get_bloom-none : Reads (get_bloom 0) [] none
unfolding get_bloom
Reads-get_bloom-none = record { runs = λ r xs rest a. (Reads-pure none).runs r xs rest a }

module _ {A B : Type 0} where
  -- A step of a block, where the bytes of the later steps go on behind the block.
  pub Reads-step :
      (m : Parser A) (f : A → Parser B) (bs cs ds : List ℕ) (v : A) (w : B)
      → Reads m bs v
      → Reads (f v) (cs ++ ds) w
      → Reads (m >>= f) ((bs ++ cs) ++ ds) w
  Reads-step m f bs cs ds v w h k = rw append_assoc (Reads-bind m f bs (cs ++ ds) v w h k)

module _ {B : Type 0} where
  pub Reads-bloom_field :
      (o : Option Bloom) (k : Option Bloom → Parser B) (ds : List ℕ) (w : B)
      → BloomFits o
      → Reads (k o) ds w
      → Reads (get_u32 >>= λ len. get_bloom len >>= k) (bloom_bytes o ++ ds) w
  Reads-bloom_field none k ds w h r =
      Reads-bind get_u32 _ (le_bytes 4 0) ds 0 w (Reads-get_u32 0 (omega arith))
        (Reads-bind (get_bloom 0) k [] ds none w Reads-get_bloom-none r)
  Reads-bloom_field (some f) k ds w h r =
      let bytes = Bloom.serialize f in
      Reads-step get_u32 _ (le_bytes 4 (length bytes)) bytes ds (length bytes) w
        (Reads-get_u32 (length bytes) (omega (arith, length-serialize f, h.1)))
        (Reads-bind (get_bloom (length bytes)) k bytes ds (some f) w (Reads-get_bloom f h.0) r)

  pub Reads-check_magic :
      (k : Parser B) (bs : List ℕ) (w : B)
      → Reads k bs w
      → Reads (check_magic node_file_magic >>= λ _. k) bs w
  unfolding check_magic
  Reads-check_magic k bs w h = Reads-bind (pure tt) (λ _. k) [] bs tt w (Reads-pure tt) h

  pub Reads-check_version :
      (k : Parser B) (bs : List ℕ) (w : B)
      → Reads k bs w
      → Reads (check_version node_file_version >>= λ _. k) bs w
  unfolding check_version
  Reads-check_version k bs w h = Reads-bind (pure tt) (λ _. k) [] bs tt w (Reads-pure tt) h
