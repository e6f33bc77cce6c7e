-- ===== src/Tree/Cached/Laws.antt =====
-- What the writes and the flush make of the answers.
use gravtree.Prelude.{
  ℕ, ◌+◌, ◌%◌, ◌^◌, ◌<◌, ◌≤◌, ◌≡◌, refl, ap, sym, ◌∙◌, Bool, true, Option, none, some, List, [],
  ◌∷◌, if◌then◌else◌, leb, All, All_mono, arith, Bool-cases, Option-cases, inl, inr,
}
use gravtree.Key.{Str, key_eq}
use gravtree.Entry.{Entry}
use gravtree.Entry.Newest.{newest, newer, newer_assoc}
use gravtree.Sort
use gravtree.Sort.{stable_sort, newest-stable_sort, newest-insert}
use gravtree.SkipList.{to_sorted_vector}
use gravtree.SkipList.Valid.{IsValid}
use gravtree.SkipList.Valid.Laws.{insert-IsValid, to_sorted_vector-insert}
use gravtree.Node.{max_seq}
use gravtree.Tree.State.{Tree, Outcome, returned}
use gravtree.Tree.Read.{get}
use gravtree.Tree.Write.{write}
use gravtree.Tree.Cached.{Rooted}
use gravtree.Tree.Cached.Answers.{
  first_hit, first_hit-none, first_hit-some, layers, answered, get-first_hit,
}

-- A tree between two calls: its nodes are in memory, its buffer is in shape, and no number in the
-- buffer has still to be given out.
pub record IsOpen (l : ℕ) (t : Tree) : Type 0 where
  pub rooted : Rooted t.cache l t.manifest.root_id
  pub buffer : IsValid t.write_buf
  pub numbers : All (λ e. e.seq_no < t.seq) (to_sorted_vector t.write_buf)
  pub room : t.seq + 1 < 2 ^ 64

-- the layers of a key, from the write buffer down
abbrev pub all_layers : ℕ → Str → Tree → List (List Entry)
all_layers l key t = to_sorted_vector t.write_buf ∷ layers t.cache l key t.manifest.root_id

numbers_fit :
    (l : ℕ) (t : Tree) → IsOpen l t → All (λ e. e.seq_no ≤ max_seq) (to_sorted_vector t.write_buf)
numbers_fit l t o =
    All_mono _ _ (λ e h. omega (arith, h, o.room)) (to_sorted_vector t.write_buf) o.numbers

-- `get-first_hit` for an open tree.
pub get-open :
    (l fuel : ℕ) (key : Str) (t : Tree)
    → IsOpen l t
    → l < fuel
    → get fuel key t ≡ (returned (answered (first_hit key (all_layers l key t))), t)
get-open l fuel key t o h = get-first_hit l fuel key t o.buffer (numbers_fit l t o) o.rooted h

abbrev new_entry : Str → Str → Bool → Tree → Entry
new_entry key value deleted t = record {
  key = key;
  value = value;
  seq_no = t.seq;
  deleted = deleted;
}

-- A write leaves the tree open, as long as numbers are left.
pub write-IsOpen :
    (l : ℕ) (key value : Str) (deleted : Bool) (t : Tree)
    → IsOpen l t
    → t.seq + 2 < 2 ^ 64
    → IsOpen l (write key value deleted t)
unfolding write
write-IsOpen l key value deleted t o h =
    let e = new_entry key value deleted t in
    let next : (t.seq + 1) % 2 ^ 64 ≡ t.seq + 1 = omega arith in
    record {
      rooted = o.rooted;
      buffer = insert-IsValid t.write_buf e o.buffer;
      numbers = rw (to_sorted_vector-insert t.write_buf e o.buffer) (
          Sort.All-insert (λ e. e.seq_no < (t.seq + 1) % 2 ^ 64) e (to_sorted_vector t.write_buf)
            (rw next (omega arith))
            (All_mono _ _ (λ e h. rw next (omega (arith, h))) (to_sorted_vector t.write_buf)
              o.numbers));
      room = rw next (omega arith);
    }

newer-fresh :
    (e : Entry) (k : Str) (es : List Entry)
    → All (λ f. f.seq_no < e.seq_no) es
    → newer (some e) (newest k es) ≡ some e
unfolding newest newer
newer-fresh e k [] h = refl
newer-fresh e k (f ∷ es) h =
    let rest = newer-fresh e k es h.1 in
    elim (Bool-cases (key_eq f.key k)) [
      | inl q ↦
          let later : leb f.seq_no e.seq_no ≡ true = ground (arith, h.0) in
          rw q (sym (newer_assoc (some e) (some f) (newest k es)) ∙ rw later rest)
      | inr q ↦ rw q rest
    ]

pub first_hit-newest :
    (k : Str) (b b' : List Entry) (bs : List (List Entry))
    → newest k b ≡ newest k b'
    → first_hit k (b ∷ bs) ≡ first_hit k (b' ∷ bs)
first_hit-newest k b b' bs h = elim (Option-cases (newest k b')) [
  | inl q ↦ first_hit-none k b bs (h ∙ q) ∙ sym (first_hit-none k b' bs q)
  | inr (e, q) ↦ first_hit-some k b bs e (h ∙ q) ∙ sym (first_hit-some k b' bs e q)
]

-- In an open tree with at least two more numbers to give out, and with enough fuel, after an
-- insertion or a removal `get` answers for its key the value that was written, or no value for a
-- removal, and for every other key what it answered before.
pub get-write :
    (l fuel : ℕ) (key value k : Str) (deleted : Bool) (t : Tree)
    → IsOpen l t
    → t.seq + 2 < 2 ^ 64
    → l < fuel
    → (get fuel k (write key value deleted t)).0
      ≡ (if key_eq key k then returned (if deleted then none else some value) else (get fuel k t).0)
unfolding write
get-write l fuel key value k deleted t o room h =
    let e = new_entry key value deleted t in
    let old = to_sorted_vector t.write_buf in
    let below = layers t.cache l k t.manifest.root_id in
    let after =
      get-open l fuel k (write key value deleted t) (write-IsOpen l key value deleted t o room) h in
    let top : first_hit k (all_layers l k (write key value deleted t))
        ≡ first_hit k ((e ∷ old) ∷ below) =
      first_hit-newest k _ (e ∷ old) below (
        ap (λ es. newest k es) (to_sorted_vector-insert t.write_buf e o.buffer)
        ∙ newest-insert k e old) in
    ap (λ (p : Outcome (Option Str) × Tree). p.0) after ∙ elim (Bool-cases (key_eq key k)) [
      | inl q ↦
          rw
            (
              top,
              q,
              first_hit-some k (e ∷ old) below e
                  (unfold newest in rw q (newer-fresh e k old o.numbers)),
            )
            refl
      | inr q ↦
          rw
            (
              top,
              q,
              first_hit-newest k (e ∷ old) old below (unfold newest in rw q refl),
              get-open l fuel k t o h,
            )
            refl
    ]
