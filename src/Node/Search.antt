-- ===== src/Node/Search.antt =====
-- The binary search of `get` finds the newest entry of a key.
use mathlib.Core.Bool.{false≢true}
use gravtree.Prelude.{
  ℕ, zero, suc, ◌+◌, ◌-◌, ◌/◌, ◌≤◌, ◌<◌, ◌≡◌, refl, sym, ◌∙◌, true, false, Ordering, List, [], ◌∷◌,
  ◌==◌, ==_iff, length, get_elem?, get_or, arith, All, Bool-cases, inl, inr,
}
use gravtree.Key.{Str, cmp, key_eq}
use gravtree.Key.Order.{cmp-flip}
use gravtree.Entry.{Entry, before}
use gravtree.Entry.Order.{before_irrefl, not_before_trans, IsBelow, IsSorted}
use gravtree.Entry.Newest.{newest, newest-head, newest_absent, newest_skip}
use gravtree.Node.{SstNode, bound_loop, lower_bound, max_seq, probe_for, if_key, find_in, get}

-- `p` splits `es`: what stands before it comes before the probe, and the rest does not.
pub record Splits (es : List Entry) (probe : Entry) (p : ℕ) : Type 0 where
  pub left : (i : ℕ) → i < p → i < length es → before (get_or es i probe) probe ≡ true
  pub right : (i : ℕ) → p ≤ i → i < length es → before (get_or es i probe) probe ≡ false

IsBelow-get_or :
    (e d : Entry) (es : List Entry) (j : ℕ)
    → IsBelow e es
    → j < length es
    → before (get_or es j d) e ≡ false
IsBelow-get_or e d [] j b lt = absurd (omega arith)
IsBelow-get_or e d (f ∷ es) zero b lt = b.0
IsBelow-get_or e d (f ∷ es) (suc j) b lt = IsBelow-get_or e d es j b.1 (omega arith)

IsSorted-get_or :
    (d : Entry) (es : List Entry) (i j : ℕ)
    → IsSorted es
    → i ≤ j
    → j < length es
    → before (get_or es j d) (get_or es i d) ≡ false
IsSorted-get_or d [] i j s le lt = absurd (omega arith)
IsSorted-get_or d (e ∷ es) zero zero s le lt = before_irrefl e
IsSorted-get_or d (e ∷ es) zero (suc j) s le lt = IsBelow-get_or e d es j s.0 (omega arith)
IsSorted-get_or d (e ∷ es) (suc i) zero s le lt = absurd (omega arith)
IsSorted-get_or d (e ∷ es) (suc i) (suc j) s le lt =
    IsSorted-get_or d es i j s.1 (omega arith) (omega arith)

module _ (es : List Entry) (probe : Entry) (s : IsSorted es) where
  -- Behind an entry that does not come before the probe no entry does,
  not_before-after :
      (i j : ℕ)
      → i ≤ j
      → j < length es
      → before (get_or es i probe) probe ≡ false
      → before (get_or es j probe) probe ≡ false
  not_before-after i j le lt h =
      not_before_trans probe (get_or es i probe) (get_or es j probe) h
        (IsSorted-get_or probe es i j s le lt)

  -- and in front of one that does, all do.
  before_up_to :
      (i j : ℕ)
      → i ≤ j
      → j < length es
      → before (get_or es j probe) probe ≡ true
      → before (get_or es i probe) probe ≡ true
  before_up_to i j le lt h = elim (Bool-cases (before (get_or es i probe) probe)) [
    | inl q ↦ q
    | inr q ↦ absurd (false≢true (sym (not_before-after i j le lt q) ∙ h))
  ]

  bound_loop-Splits :
      (fuel first len : ℕ)
      → first + len ≤ length es
      → len < fuel
      → ((i : ℕ) → i < first → before (get_or es i probe) probe ≡ true)
      → ((i : ℕ) → first + len ≤ i → i < length es → before (get_or es i probe) probe ≡ false)
      → Splits es probe (bound_loop fuel es probe first len)
  unfolding bound_loop
  bound_loop-Splits zero first len room enough lo hi = absurd (omega arith)
  bound_loop-Splits (suc fuel) first len room enough lo hi = elim (Bool-cases (len == 0)) [
    | inl done ↦ rw done (record {
      left = λ i lt _. lo i lt;
      right = λ i le lt. hi i (omega (arith, (==_iff len 0).0 done)) lt;
    })
    | inr more ↦
        let half = len / 2 in
        let some_left : 0 < len = ground arith in
        let inside : first + half < length es = omega arith in
        elim (Bool-cases (before (get_or es (first + half) probe) probe)) [
          | inl q ↦
              rw (more, q)
                (bound_loop-Splits fuel (first + half + 1) (len - half - 1) (omega arith)
                  (omega arith) (λ i lt. before_up_to i (first + half) (omega arith) inside q)
                  (λ i le lt. hi i (omega arith) lt))
          | inr q ↦
              rw (more, q)
                (bound_loop-Splits fuel first half (omega arith) (omega arith) lo
                  (λ i le lt. not_before-after (first + half) i le lt q))
        ]
  ]

  -- The search ends, and at the place that splits the list.
  pub lower_bound-Splits : Splits es probe (lower_bound es probe)
  unfolding lower_bound
  lower_bound-Splits =
      bound_loop-Splits (suc (length es)) 0 (length es) (omega arith) (omega arith)
        (λ i lt. absurd (omega arith)) (λ i le lt. absurd (omega arith))

pub probe_before :
    (k : Str) (e : Entry)
    → before e (probe_for k) ≡ false
    → key_eq e.key k ≡ false
    → cmp k e.key ≡ Ordering.lt
unfolding before
probe_before k e h other = ground (arith, cmp-flip e.key k)

pub probe_after :
    (k : Str) (e : Entry)
    → before e (probe_for k) ≡ true
    → e.seq_no ≤ max_seq
    → key_eq e.key k ≡ false
unfolding before
probe_after k e h b = ground arith

-- What the split place of a sorted list holds of a key is the key's newest entry.
if_key-newest :
    (k : Str) (es : List Entry) (p : ℕ)
    → IsSorted es
    → All (λ e. e.seq_no ≤ max_seq) es
    → Splits es (probe_for k) p
    → if_key k (get_elem? es p) ≡ newest k es
if_key-newest k [] p s b split = unfold newest in refl
if_key-newest k (e ∷ es) zero s b split = elim (Bool-cases (key_eq e.key k)) [
  | inl same ↦ rw (same, newest-head k e es s same)
  | inr other ↦ rw (
    other,
    newest_absent k e es s.0 (probe_before k e (split.right 0 (omega arith) (omega arith)) other),
  )
]
if_key-newest k (e ∷ es) (suc p) s b split =
    rw (newest_skip k e es (probe_after k e (split.left 0 (omega arith) (omega arith)) b.0)) (
      if_key-newest k es p s.1 b.1 (record {
        left = λ i lt in_es. split.left (suc i) (omega arith) (omega arith);
        right = λ i le in_es. split.right (suc i) (omega arith) (omega arith);
      }))

-- In a sorted buffer whose numbers fit 64 bits, the binary search returns the newest entry of the
-- key, or nothing if the key is not there.
pub find_in-newest :
    (es : List Entry) (k : Str)
    → IsSorted es
    → All (λ e. e.seq_no ≤ max_seq) es
    → find_in es k ≡ newest k es
unfolding find_in
find_in-newest [] k s b = unfold newest in refl
find_in-newest (e ∷ es) k s b =
    if_key-newest k (e ∷ es) (lower_bound (e ∷ es) (probe_for k)) s b
      (lower_bound-Splits (e ∷ es) (probe_for k) s)

-- In a node with a sorted buffer whose numbers fit 64 bits, the binary search of `get` returns the
-- newest entry of the key, or nothing if the buffer has none.
pub get-newest :
    (node : SstNode) (k : Str)
    → IsSorted node.buffer
    → All (λ e. e.seq_no ≤ max_seq) node.buffer
    → get node k ≡ newest k node.buffer
unfolding get
get-newest node k s b = find_in-newest node.buffer k s b
