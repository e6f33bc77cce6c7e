-- ===== src/SkipList.antt =====
-- include/gravtree/skiplist.h and src/skiplist.cpp: the write buffer. A pointer is an address, the
-- sentinel `head_` has address 0, and the nodes that were allocated since the last `clear` have the
-- addresses below `allocated`. `rng` is what `rng_` still has to give, call by call.
pub mod Chain
pub mod Link
pub mod Valid
pub mod Placed
use gravtree.Prelude.{
  ℕ, zero, suc, ◌+◌, ◌%◌, Bool, true, false, not, Option, none, some, List, [], ◌∷◌, ltb, ◌==◌,
  if◌then◌else◌, length,
}
use gravtree.Key.{Str, key_eq}
use gravtree.Entry.{Entry, before}
use gravtree.Node.{probe_for}

abbrev pub max_height : ℕ
max_height = 12

abbrev pub branching : ℕ
branching = 4

-- `next` is the array of `max_height` pointers.
pub record SkipNode : Type 0 where
  pub val : Entry
  pub height : ℕ
  pub next : ℕ → Option ℕ

pub record SkipList : Type 0 where
  pub heap : ℕ → SkipNode
  pub allocated : ℕ
  pub cur_height : ℕ
  pub size : ℕ
  pub bytes : ℕ
  pub rng : ℕ → ℕ

-- `Node(int h)`: the value is unused
abbrev pub sentinel : SkipNode
sentinel = record {
  val = record { key = []; value = []; seq_no = 0; deleted = false };
  height = max_height;
  next = λ lv. none;
}

-- the constructor
abbrev pub empty_list : (ℕ → ℕ) → SkipList
empty_list rng = record {
  heap = λ a. sentinel;
  allocated = 1;
  cur_height = 1;
  size = 0;
  bytes = 0;
  rng = rng;
}

-- The loop of `random_height`. It runs at most `max_height - 1` times.
unfoldable pub rise : ℕ → ℕ → (ℕ → ℕ) → ℕ × (ℕ → ℕ)
rise zero h rng = (h, rng)
rise (suc n) h rng =
    let higher = rise n (h + 1) (λ i. rng (i + 1)) in
    if ltb h max_height
    then (if rng 0 % branching == 0 then higher else (h, λ i. rng (i + 1)))
    else (h, rng)

unfoldable pub random_height : (ℕ → ℕ) → ℕ × (ℕ → ℕ)
unfolding rise
random_height rng = rise max_height 1 rng

-- `while (cur->next[lv] != nullptr && cur->next[lv]->val < val) cur = cur->next[lv];`
unfoldable pub walk : ℕ → (ℕ → SkipNode) → ℕ → Entry → ℕ → ℕ
walk zero heap lv val cur = cur
walk (suc fuel) heap lv val cur = elim ((heap cur).next lv) [
  | none ↦ cur
  | some a ↦ if before (heap a).val val then walk fuel heap lv val a else cur
]

-- The loop over the levels below `lv`; `prev_out` is the array.
unfoldable pub descend : ℕ → SkipList → Entry → ℕ → (ℕ → ℕ) → ℕ × (ℕ → ℕ)
unfolding walk
descend zero s val cur prev_out = (cur, prev_out)
descend (suc lv) s val cur prev_out =
    let cur' = walk s.allocated s.heap lv val cur in
    descend lv s val cur' (λ i. if i == lv then cur' else prev_out i)

unfoldable pub find_prev : SkipList → Entry → (ℕ → ℕ) → ℕ × (ℕ → ℕ)
unfolding descend
find_prev s val prev_out = descend s.cur_height s val 0 prev_out

-- `p->next[lv] = a;`
unfoldable pub set_next : (ℕ → SkipNode) → ℕ → ℕ → Option ℕ → ℕ → SkipNode
set_next heap p lv a q =
    if q == p
    then record (heap q) { next = λ i. if i == lv then a else (heap q).next i }
    else heap q

-- the loop that links the node `nd` in at the levels `i`, `i + 1`, …, with `n` left
unfoldable pub link : ℕ → ℕ → ℕ → (ℕ → ℕ) → (ℕ → SkipNode) → ℕ → SkipNode
unfolding set_next
link zero i nd prev heap = heap
link (suc n) i nd prev heap =
    let heap' = set_next heap nd i ((heap (prev i)).next i) in
    link n (i + 1) nd prev (set_next heap' (prev i) i (some nd))

-- `bytes_ += …`; `sizeof(SequenceNumber) + 1` is 9
abbrev pub entry_size : Entry → ℕ
entry_size e = length e.key + length e.value + 8 + 1

-- What the array `prev` holds before it is written is not read: zeros stand for it.
unfoldable pub insert : SkipList → Entry → SkipList
unfolding find_prev random_height link
insert s val =
    let prev = (find_prev s val (λ i. 0)).1 in
    let (h, rng') = random_height s.rng in
    let prev' : ℕ → ℕ = λ i. if ltb i s.cur_height then prev i else 0 in
    let nd = s.allocated in
    let fresh : SkipNode = record { val = val; height = h; next = λ lv. none } in
    let heap' : ℕ → SkipNode = λ a. if a == nd then fresh else s.heap a in
    record {
      heap = link h 0 nd prev' heap';
      allocated = s.allocated + 1;
      cur_height = if ltb s.cur_height h then h else s.cur_height;
      size = s.size + 1;
      bytes = s.bytes + entry_size val;
      rng = rng';
    }

-- `candidate != nullptr && candidate->val.key == key`
abbrev pub candidate : (ℕ → SkipNode) → Str → Option ℕ → Option Entry
candidate heap key none = none
candidate heap key (some a) = if key_eq (heap a).val.key key then some (heap a).val else none

unfoldable pub find_key : SkipList → Str → Option Entry
unfolding find_prev
find_key s key =
    let cur = (find_prev s (probe_for key) (λ i. 0)).0 in candidate s.heap key ((s.heap cur).next 0)

-- Every node but the sentinel is freed.
unfoldable pub clear : SkipList → SkipList
clear s = record (empty_list s.rng) {
  heap = λ (a : ℕ). if a == 0 then record (s.heap 0) { next = λ lv. none } else sentinel;
}

-- The walk along level 0, which is also what the iterators do.
unfoldable pub values_from : ℕ → (ℕ → SkipNode) → Option ℕ → List Entry
values_from zero heap cur = []
values_from (suc fuel) heap none = []
values_from (suc fuel) heap (some a) = (heap a).val ∷ values_from fuel heap ((heap a).next 0)

unfoldable pub to_sorted_vector : SkipList → List Entry
unfolding values_from
to_sorted_vector s = values_from s.allocated s.heap ((s.heap 0).next 0)
