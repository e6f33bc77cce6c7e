-- ===== src/Entry/Halves.antt =====
-- A sorted list that is cut in two at an entry, the fence.
use gravtree.Prelude.{
  ◌≡◌, refl, sym, ap, ◌∙◌, Ordering, true, false, Option, none, some, subst, leb, ◌⊎◌, List, [],
  ◌∷◌, ◌++◌, if◌then◌else◌, All, All_mono, arith, Bool-cases, inl, inr,
}
use gravtree.Key.{Str, cmp, key_le, key_eq}
use gravtree.Key.Order.{cmp_refl, cmp_eq, cmp-flip, cmp_trans}
use gravtree.Entry.{Entry, before}
use gravtree.Entry.Order.{IsSorted}
use gravtree.Entry.Newest.{
  newest, newer, newer-none, newest-append, newest_absent, newest_skip, newest-head, key-newest,
}

pub IsSorted-back : (xs ys : List Entry) → IsSorted (xs ++ ys) → IsSorted ys
IsSorted-back [] ys s = s
IsSorted-back (x ∷ xs) ys s = IsSorted-back xs ys s.1

pub All-front {κ} : (P : Entry → Type κ) (xs ys : List Entry) → All P (xs ++ ys) → All P xs
All-front P [] ys h = tt
All-front P (x ∷ xs) ys h = (h.0, All-front P xs ys h.1)

pub All-back {κ} : (P : Entry → Type κ) (xs ys : List Entry) → All P (xs ++ ys) → All P ys
All-back P [] ys h = h
All-back P (x ∷ xs) ys h = All-back P xs ys h.1

pub IsSorted-front : (xs ys : List Entry) → IsSorted (xs ++ ys) → IsSorted xs
IsSorted-front [] ys s = tt
IsSorted-front (x ∷ xs) ys s = (All-front _ xs ys s.0, IsSorted-front xs ys s.1)

All-middle {κ} : (P : Entry → Type κ) (xs ys : List Entry) (f : Entry) → All P (xs ++ f ∷ ys) → P f
All-middle P [] ys f h = h.0
All-middle P (x ∷ xs) ys f h = All-middle P xs ys f h.1

-- The fence comes before no entry of the front.
pub fence-last :
    (xs ys : List Entry) (f : Entry) → IsSorted (xs ++ f ∷ ys) → All (λ e. before f e ≡ false) xs
fence-last [] ys f s = tt
fence-last (x ∷ xs) ys f s =
    (All-middle (λ g. before g x ≡ false) xs ys f s.0, fence-last xs ys f s.1)

newest-no_key :
    (k : Str) (es : List Entry) → All (λ e. key_eq e.key k ≡ false) es → newest k es ≡ none
newest-no_key k [] h = unfold newest in refl
newest-no_key k (e ∷ es) h = newest_skip k e es h.0 ∙ newest-no_key k es h.1

below_key :
    (k : Str) (e f : Entry)
    → before f e ≡ false
    → cmp f.key k ≡ Ordering.lt
    → key_eq e.key k ≡ false
unfolding before
below_key k e f h lt = ground (
  arith,
  cmp_eq e.key k,
  cmp_eq f.key e.key,
  cmp-flip f.key e.key,
  cmp-flip f.key k,
  cmp_trans e.key f.key k,
)

front-absent :
    (k : Str) (xs ys : List Entry) (f : Entry)
    → IsSorted (xs ++ f ∷ ys)
    → newest f.key xs ≡ none
    → key_le f.key k ≡ true
    → newest k xs ≡ none
front-absent k xs ys f s h le = elim (Bool-cases (key_eq f.key k)) [
  | inl same ↦
      let keys : f.key ≡ k = ground (arith, cmp_eq f.key k) in ap (λ j. newest j xs) (sym keys) ∙ h
  | inr other ↦
      let lt : cmp f.key k ≡ Ordering.lt = ground arith in
      newest-no_key k xs (All_mono _ _ (λ e b. below_key k e f b lt) xs (fence-last xs ys f s))
]

pub newest-halves :
    (k : Str) (xs ys : List Entry) (f : Entry)
    → IsSorted (xs ++ f ∷ ys)
    → newest f.key xs ≡ none
    → newest k (xs ++ f ∷ ys) ≡ (if key_le f.key k then newest k (f ∷ ys) else newest k xs)
newest-halves k xs ys f s h = elim (Bool-cases (key_le f.key k)) [
  | inl le ↦
      newest-append k xs (f ∷ ys) ∙ rw (le, front-absent k xs ys f s h le) (unfold newer in refl)
  | inr gt ↦
      let lt : cmp k f.key ≡ Ordering.lt = ground (arith, cmp-flip f.key k) in
      newest-append k xs (f ∷ ys)
      ∙ rw (gt, newest_absent k f ys (IsSorted-back xs (f ∷ ys) s).0 lt) (newer-none (newest k xs))
]

newer-cases : (a b : Option Entry) (e : Entry) → newer a b ≡ some e → (a ≡ some e) ⊎ (b ≡ some e)
unfolding newer
newer-cases none b e h = inr h
newer-cases (some a) none e h = inl h
newer-cases (some a) (some b) e h = elim (Bool-cases (leb b.seq_no a.seq_no)) [
  | inl q ↦ inl (rw q at h)
  | inr q ↦ inr (rw q at h)
]

newest_take :
    (k : Str) (x : Entry) (es : List Entry)
    → key_eq x.key k ≡ true
    → newest k (x ∷ es) ≡ newer (some x) (newest k es)
unfolding newest
newest_take k x es h = rw h

All-newest {κ} :
    (P : Entry → Type κ) (k : Str) (es : List Entry) (e : Entry)
    → All P es
    → newest k es ≡ some e
    → P e
All-newest P k [] e h q = absurd (none_some q)
  where
    none_some : newest k [] ≡ some e → ⊥
    none_some q = unfold newest in cc
All-newest P k (x ∷ es) e h q = elim (Bool-cases (key_eq x.key k)) [
  | inr other ↦ All-newest P k es e h.1 (sym (newest_skip k x es other) ∙ q)
  | inl same ↦ elim (newer-cases (some x) (newest k es) e (sym (newest_take k x es same) ∙ q)) [
    | inl here ↦ subst (λ (o : Option Entry). PIf o) here h.0
    | inr there ↦ All-newest P k es e h.1 there
  ]
]
  where
    PIf : Option Entry → Type κ
    PIf none = Unit
    PIf (some e) = P e

-- An entry of the fence's key in the front is the newest of all.
pub newest-front :
    (xs ys : List Entry) (f e : Entry)
    → IsSorted (xs ++ f ∷ ys)
    → newest f.key xs ≡ some e
    → newest f.key (xs ++ f ∷ ys) ≡ some e
newest-front xs ys f e s h =
    let last = All-newest (λ e. before f e ≡ false) f.key xs e (fence-last xs ys f s) h in
    let keys = key-newest f.key xs e h in
    newest-append f.key xs (f ∷ ys)
    ∙ rw (h, newest-head f.key f ys (IsSorted-back xs (f ∷ ys) s) (same_key f.key))
        (no_newer e f keys last)
  where
    same_key : (k : Str) → key_eq k k ≡ true
    same_key k = ground (arith, cmp_refl k)

    no_newer : (e f : Entry) → e.key ≡ f.key → before f e ≡ false → newer (some e) (some f) ≡ some e
    no_newer e f keys h = unfold newer before in ground (arith, cmp_refl e.key)
