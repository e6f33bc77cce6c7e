-- ===== src/Entry/Newest.antt =====
-- What a list of entries says of a key: the entry with the highest `seq_no`, whatever the order of
-- the list. Of equal numbers the first wins.
use gravtree.Prelude.{
  Ordering, inl, inr, Option-cases, true, false, Option, none, some, List, [], ◌∷◌, ◌++◌, ◌≡◌, refl,
  leb, if◌then◌else◌, arith,
}
use gravtree.Key.{Str, cmp, key_eq}
use gravtree.Key.Order.{cmp_refl, cmp_eq, cmp-flip, cmp_trans}
use gravtree.Entry.{Entry, before}
use gravtree.Entry.Order.{IsBelow, IsSorted}

unfoldable pub newer : Option Entry → Option Entry → Option Entry
newer none o = o
newer (some e) none = some e
newer (some e) (some f) = if leb f.seq_no e.seq_no then some e else some f

unfoldable pub newest : Str → List Entry → Option Entry
newest k [] = none
newest k (e ∷ es) = if key_eq e.key k then newer (some e) (newest k es) else newest k es

pub newer-none : (o : Option Entry) → newer o none ≡ o
unfolding newer
newer-none none = refl
newer-none (some e) = refl

pub newer_assoc : (a b c : Option Entry) → newer (newer a b) c ≡ newer a (newer b c)
unfolding newer
newer_assoc none b c = refl
newer_assoc (some e) none c = refl
newer_assoc (some e) (some f) none = ground arith
newer_assoc (some e) (some f) (some g) = ground arith

pub newest-append :
    (k : Str) (xs ys : List Entry) → newest k (xs ++ ys) ≡ newer (newest k xs) (newest k ys)
unfolding newest newer
newest-append k [] ys = refl
newest-append k (e ∷ xs) ys =
    ground (arith, newest-append k xs ys, newer_assoc (some e) (newest k xs) (newest k ys))

-- An entry that comes before its left neighbour may change places with it.
pub newest_swap :
    (k : Str) (e f : Entry) (es : List Entry)
    → before f e ≡ true
    → newest k (f ∷ e ∷ es) ≡ newest k (e ∷ f ∷ es)
unfolding newest newer before
newest_swap k e f es h = ground (
  arith,
  cmp-flip e.key f.key,
  cmp_eq e.key k,
  cmp_eq f.key k,
  cmp_refl k,
  newer_assoc (some e) (some f) (newest k es),
  newer_assoc (some f) (some e) (newest k es),
)

-- What stands behind an entry of the same key in a sorted list is no newer.
pub newer-IsBelow :
    (e : Entry) (es : List Entry) → IsBelow e es → newer (some e) (newest e.key es) ≡ some e
unfolding newest newer before
newer-IsBelow e [] h = refl
newer-IsBelow e (f ∷ es) h =
    ground (
      arith,
      newer-IsBelow e es,
      cmp_eq f.key e.key,
      newer_assoc (some e) (some f) (newest e.key es),
    )

-- The first entry of a key in a sorted list is the newest.
pub newest-head :
    (k : Str) (e : Entry) (es : List Entry)
    → IsSorted (e ∷ es)
    → key_eq e.key k ≡ true
    → newest k (e ∷ es) ≡ some e
unfolding newest
newest-head k e es s h = ground (arith, newer-IsBelow e es, cmp_eq e.key k)

-- A key below the head of a sorted list is not in the list.
pub newest_absent :
    (k : Str) (e : Entry) (es : List Entry)
    → IsBelow e es
    → cmp k e.key ≡ Ordering.lt
    → newest k (e ∷ es) ≡ none
unfolding newest before
newest_absent k e [] h lt = ground (arith, cmp-flip k e.key)
newest_absent k e (f ∷ es) h lt = ground (
  arith,
  newest_absent k e es,
  cmp-flip k e.key,
  cmp-flip k f.key,
  cmp-flip e.key f.key,
  cmp_trans k e.key f.key,
  cmp_eq e.key f.key,
  cmp_eq f.key k,
)

-- What is found is an entry of that key.
pub key-newest : (k : Str) (es : List Entry) (e : Entry) → newest k es ≡ some e → e.key ≡ k
unfolding newest newer
key-newest k [] e h = cc
key-newest k (f ∷ es) e h = elim (Option-cases (newest k es)) [
  | inl q ↦ ground (arith, cmp_eq f.key k)
  | inr (g, q) ↦ ground (arith, cmp_eq f.key k, key-newest k es g q)
]

pub newest-cons :
    (k : Str) (e : Entry) (xs ys : List Entry)
    → newest k xs ≡ newest k ys
    → newest k (e ∷ xs) ≡ newest k (e ∷ ys)
unfolding newest
newest-cons k e xs ys h = rw h

-- Entries of other keys do not matter.
pub newest_skip :
    (k : Str) (e : Entry) (es : List Entry)
    → key_eq e.key k ≡ false
    → newest k (e ∷ es) ≡ newest k es
unfolding newest
newest_skip k e es h = rw h
