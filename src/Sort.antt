-- ===== src/Sort.antt =====
-- `std::stable_sort` by `Entry::operator<`, of the standard library: entries in ascending order, and
-- entries of which neither comes before the other in their old order. Used by src/node.cpp,
-- src/flush.cpp and src/tree.cpp.
use mathlib.Core.List.{Perm}
use mathlib.Core.List.Perm
use gravtree.Prelude.{
  ◌∙◌, false, List, [], ◌∷◌, ◌≡◌, refl, if◌then◌else◌, arith, Bool-cases, inl, inr, All,
}
use gravtree.Key.{Str}
use gravtree.Entry.{Entry, before}
use gravtree.Entry.Order.{IsBelow, IsSorted, IsBelow-trans, before_asymm}
use gravtree.Entry.Newest.{newest, newest_swap, newest-cons}

unfoldable pub insert : Entry → List Entry → List Entry
insert e [] = e ∷ []
insert e (f ∷ es) = if before f e then f ∷ insert e es else e ∷ f ∷ es

unfoldable pub stable_sort : List Entry → List Entry
unfolding insert
stable_sort [] = []
stable_sort (e ∷ es) = insert e (stable_sort es)

pub insert-perm : (e : Entry) (es : List Entry) → Perm (insert e es) (e ∷ es)
unfolding insert
insert-perm e [] = Perm.rfl
insert-perm e (f ∷ es) = elim (Bool-cases (before f e)) [
  | inl q ↦ rw q (Perm.trans (Perm.cons f (insert-perm e es)) (Perm.swap e f es))
  | inr q ↦ rw q Perm.rfl
]

-- Sorting loses and invents nothing.
pub stable_sort-perm : (es : List Entry) → Perm (stable_sort es) es
unfolding stable_sort
stable_sort-perm [] = Perm.rfl
stable_sort-perm (e ∷ es) =
    Perm.trans (insert-perm e (stable_sort es)) (Perm.cons e (stable_sort-perm es))

insert-IsBelow :
    (g e : Entry) (es : List Entry) → before e g ≡ false → IsBelow g es → IsBelow g (insert e es)
unfolding insert
insert-IsBelow g e [] h b = (h, tt)
insert-IsBelow g e (f ∷ es) h b = elim (Bool-cases (before f e)) [
  | inl q ↦ rw q (b.0, insert-IsBelow g e es h b.1)
  | inr q ↦ rw q (h, b)
]

pub insert-IsSorted : (e : Entry) (es : List Entry) → IsSorted es → IsSorted (insert e es)
unfolding insert
insert-IsSorted e [] s = (tt, tt)
insert-IsSorted e (f ∷ es) s = elim (Bool-cases (before f e)) [
  | inl q ↦ rw q (insert-IsBelow f e es (before_asymm f e q) s.0, insert-IsSorted e es s.1)
  | inr q ↦ rw q ((q, IsBelow-trans e f es q s.0), s)
]

-- The result is in order.
pub stable_sort-IsSorted : (es : List Entry) → IsSorted (stable_sort es)
unfolding stable_sort
stable_sort-IsSorted [] = tt
stable_sort-IsSorted (e ∷ es) = insert-IsSorted e (stable_sort es) (stable_sort-IsSorted es)

pub newest-insert :
    (k : Str) (e : Entry) (es : List Entry) → newest k (insert e es) ≡ newest k (e ∷ es)
unfolding insert
newest-insert k e [] = refl
newest-insert k e (f ∷ es) = elim (Bool-cases (before f e)) [
  | inl q ↦
      rw q (newest-cons k f (insert e es) (e ∷ es) (newest-insert k e es) ∙ newest_swap k e f es q)
  | inr q ↦ rw q
]

-- Sorting changes no key's newest entry.
pub newest-stable_sort : (k : Str) (es : List Entry) → newest k (stable_sort es) ≡ newest k es
unfolding stable_sort
newest-stable_sort k [] = refl
newest-stable_sort k (e ∷ es) =
    rw newest-insert (newest-cons k e (stable_sort es) es (newest-stable_sort k es))

-- A sorted list stays as it is.
pub stable_sort_of_IsSorted : (es : List Entry) → IsSorted es → stable_sort es ≡ es
unfolding stable_sort insert
stable_sort_of_IsSorted [] s = refl
stable_sort_of_IsSorted (e ∷ []) s = refl
stable_sort_of_IsSorted (e ∷ f ∷ es) s = rw (stable_sort_of_IsSorted (f ∷ es) s.1) (ground arith)

-- What holds of every entry holds of every entry of the sorted list.
pub All-insert {κ} :
    (P : Entry → Type κ) (e : Entry) (es : List Entry) → P e → All P es → All P (insert e es)
unfolding insert
All-insert P e [] p h = (p, tt)
All-insert P e (f ∷ es) p h = elim (Bool-cases (before f e)) [
  | inl q ↦ rw q (h.0, All-insert P e es p h.1)
  | inr q ↦ rw q (p, h)
]

pub All-stable_sort {κ} : (P : Entry → Type κ) (es : List Entry) → All P es → All P (stable_sort es)
unfolding stable_sort
All-stable_sort P [] h = tt
All-stable_sort P (e ∷ es) h = All-insert P e (stable_sort es) h.0 (All-stable_sort P es h.1)
