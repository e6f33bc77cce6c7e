-- ===== src/SkipList/Valid/Laws.antt =====
-- The methods of the skip list, as its user sees them.
use gravtree.Prelude.{
  ℕ, ◌+◌, ◌≤◌, ◌≡◌, refl, ◌∙◌, Option, none, some, List, [], ◌∷◌, All, arith, Bool-cases, inl, inr,
}
use gravtree.Key.{Str, key_eq}
use gravtree.Entry.{Entry, before}
use gravtree.Entry.Order.{IsSorted}
use gravtree.Entry.Newest.{newest, newest-head, newest_absent, newest_skip}
use gravtree.Sort
use gravtree.Sort.{newest-insert}
use gravtree.Node.{max_seq, probe_for, entries_bytes}
use gravtree.Node.Search.{probe_before, probe_after}
use gravtree.SkipList.{
  SkipNode, SkipList, empty_list, insert, find_key, candidate, clear, to_sorted_vector, values_from,
  entry_size,
}
use gravtree.SkipList.Chain.{Chain, last, front, back}
use gravtree.SkipList.Valid.{
  IsValid, values, IsSorted-values, find_prev-place, to_sorted_vector-values,
}
use gravtree.SkipList.Valid.Insert.{insert-Shape, to_sorted_vector-insert-Shape}

pub insert-IsValid : (s : SkipList) (e : Entry) → IsValid s → IsValid (insert s e)
insert-IsValid s e v = record { levels = _; shape = insert-Shape v.shape e }

-- The vector of a valid list is in the order of the entries.
pub to_sorted_vector-IsSorted : (s : SkipList) → IsValid s → IsSorted (to_sorted_vector s)
to_sorted_vector-IsSorted s v =
    rw (to_sorted_vector-values s v.levels v.shape)
      (IsSorted-values s.heap (v.levels 0) (v.shape.ordered 0))

-- An insertion into a valid skip list, whatever height the random numbers give the node, puts the
-- entry into the vector at its place in the order of the entries, and changes nothing else of it.
pub to_sorted_vector-insert :
    (s : SkipList) (e : Entry)
    → IsValid s
    → to_sorted_vector (insert s e) ≡ Sort.insert e (to_sorted_vector s)
to_sorted_vector-insert s e v = to_sorted_vector-insert-Shape v.shape e

-- the first address of a list
abbrev first : List ℕ → Option ℕ
first [] = none
first (a ∷ l) = some a

next-place :
    (heap : ℕ → SkipNode) (lv : ℕ) (val : Entry) (p : ℕ) (l : List ℕ)
    → Chain heap lv p l
    → (heap (last p (front heap val l))).next lv ≡ first (back heap val l)
unfolding front back
next-place heap lv val p [] c = c
next-place heap lv val p (a ∷ l) c = elim (Bool-cases (before (heap a).val val)) [
  | inl q ↦ rw q (next-place heap lv val a l c.1)
  | inr q ↦ rw q c.0
]

candidate-newest :
    (heap : ℕ → SkipNode) (k : Str) (l : List ℕ)
    → IsSorted (values heap l)
    → All (λ e. e.seq_no ≤ max_seq) (values heap l)
    → candidate heap k (first (back heap (probe_for k) l)) ≡ newest k (values heap l)
unfolding back
candidate-newest heap k [] s b = unfold newest in refl
candidate-newest heap k (a ∷ l) s b =
    let e = (heap a).val in
    elim (Bool-cases (before e (probe_for k))) [
      | inl q ↦
          rw (q, newest_skip k e (values heap l) (probe_after k e q b.0))
            (candidate-newest heap k l s.1 b.1)
      | inr q ↦ elim (Bool-cases (key_eq e.key k)) [
        | inl same ↦ rw (q, newest-head k e (values heap l) s same, same) refl
        | inr other ↦
            rw (q, newest_absent k e (values heap l) s.0 (probe_before k e q other), other) refl
      ]
    ]

-- The search finds the newest entry of the key, or nothing if there is none.
pub find_key-newest :
    (s : SkipList) (k : Str)
    → IsValid s
    → All (λ e. e.seq_no ≤ max_seq) (to_sorted_vector s)
    → find_key s k ≡ newest k (to_sorted_vector s)
unfolding find_key
find_key-newest s k v b =
    let shape = v.shape in
    let here = to_sorted_vector-values s v.levels shape in
    rw
      (
        (find_prev-place shape (probe_for k) (λ i. 0)).1,
        next-place s.heap 0 (probe_for k) 0 (v.levels 0) (shape.chains 0),
        here,
      )
      (candidate-newest s.heap k (v.levels 0)
        (IsSorted-values s.heap (v.levels 0) (shape.ordered 0)) (rw here at b))

-- In a valid skip list whose numbers fit 64 bits, after an insertion the search finds of every key
-- the newest entry among the inserted one and those that were there, and nothing if there is none.
pub find_key-insert :
    (s : SkipList) (e : Entry) (k : Str)
    → IsValid s
    → e.seq_no ≤ max_seq
    → All (λ e. e.seq_no ≤ max_seq) (to_sorted_vector s)
    → find_key (insert s e) k ≡ newest k (e ∷ to_sorted_vector s)
find_key-insert s e k v h b =
    let here = to_sorted_vector-insert s e v in
    find_key-newest (insert s e) k (insert-IsValid s e v)
      (rw here (Sort.All-insert (λ e. e.seq_no ≤ max_seq) e (to_sorted_vector s) h b))
    ∙ rw here (newest-insert k e (to_sorted_vector s))

-- A cleared list is valid and empty.
pub clear-IsValid : (s : SkipList) → IsValid (clear s)
unfolding clear
clear-IsValid s = record {
  levels = λ lv. [];
  shape = record {
    chains = λ lv. refl;
    ordered = λ lv. tt;
    distinct = λ lv. tt;
    nested = λ lv x i. i;
    top = λ lv h. refl;
    inside = λ lv. tt;
    short = λ lv. omega arith;
    low = (omega arith, omega arith);
    counted = refl;
  };
}

pub to_sorted_vector-clear : (s : SkipList) → to_sorted_vector (clear s) ≡ []
unfolding clear to_sorted_vector values_from
to_sorted_vector-clear s = refl

pub empty_list-IsValid : (rng : ℕ → ℕ) → IsValid (empty_list rng)
empty_list-IsValid rng = record {
  levels = λ lv. [];
  shape = record {
    chains = λ lv. refl;
    ordered = λ lv. tt;
    distinct = λ lv. tt;
    nested = λ lv x i. i;
    top = λ lv h. refl;
    inside = λ lv. tt;
    short = λ lv. omega arith;
    low = (omega arith, omega arith);
    counted = refl;
  };
}

entries_bytes-Sort_insert :
    (e : Entry) (es : List Entry)
    → entries_bytes (Sort.insert e es) ≡ entry_size e + entries_bytes es
unfolding Sort.insert entries_bytes
entries_bytes-Sort_insert e [] = omega arith
entries_bytes-Sort_insert e (f ∷ es) = ground (arith, entries_bytes-Sort_insert e es)

-- If the byte count of a valid skip list is that of its entries, then it is so after an insertion.
pub size_bytes-insert :
    (s : SkipList) (e : Entry)
    → IsValid s
    → s.bytes ≡ entries_bytes (to_sorted_vector s)
    → (insert s e).bytes ≡ entries_bytes (to_sorted_vector (insert s e))
size_bytes-insert s e v h =
    rw (to_sorted_vector-insert s e v)
      (unfold insert in omega (arith, h, entries_bytes-Sort_insert e (to_sorted_vector s)))
