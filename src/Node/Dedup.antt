-- ===== src/Node/Dedup.antt =====
-- `sort_buffer` leaves one entry for each key, the newest.
use gravtree.Prelude.{
  ◌≡◌, refl, ap, sym, ◌∙◌, true, false, none, List, [], ◌∷◌, ◌++◌, leb, if◌then◌else◌, length,
  arith, All, All_mono, subst, Bool-cases, inl, inr,
}
use mathlib.Core.List.{append_assoc, append-nil}
use gravtree.Key.{Str, key_eq, key_lt}
use gravtree.Key.Order.{cmp_refl, cmp_eq, cmp-flip, cmp_trans}
use gravtree.Entry.{Entry, before}
use gravtree.Entry.Order.{IsBelow, IsSorted}
use gravtree.Entry.Newest.{newest, newest-head, newest_absent, newer}
use gravtree.Sort.{
  stable_sort_of_IsSorted, stable_sort, stable_sort-IsSorted, newest-stable_sort, All-stable_sort,
}
use gravtree.Node.{back_has_key, dedup_loop, sorted_unique}

-- The loop without its accumulator: the entries whose key is not the key of the one before.
drop_same : Str → List Entry → List Entry
drop_same k [] = []
drop_same k (e ∷ es) = let rest = drop_same e.key es in if key_eq k e.key then rest else e ∷ rest

pub unique : List Entry → List Entry
unfolding drop_same
unique [] = []
unique (e ∷ es) = e ∷ drop_same e.key es

back_has_key-append :
    (es : List Entry) (e : Entry) (k : Str) → back_has_key (es ++ e ∷ []) k ≡ key_eq e.key k
unfolding back_has_key
back_has_key-append [] e k = refl
back_has_key-append (f ∷ []) e k = refl
back_has_key-append (f ∷ g ∷ es) e k = back_has_key-append (g ∷ es) e k

dedup_loop-drop_same :
    (es deduped : List Entry) (e : Entry)
    → dedup_loop es (deduped ++ e ∷ []) ≡ (deduped ++ e ∷ []) ++ drop_same e.key es
unfolding dedup_loop drop_same
dedup_loop-drop_same [] deduped e = sym (append-nil (deduped ++ e ∷ []))
dedup_loop-drop_same (f ∷ es) deduped e = elim (Bool-cases (key_eq e.key f.key)) [
  | inl same ↦
      let keys : e.key ≡ f.key = ground (arith, cmp_eq e.key f.key) in
      rw (back_has_key-append, same)
        (dedup_loop-drop_same es deduped e
          ∙ ap (λ (k : Str). (deduped ++ e ∷ []) ++ drop_same k es) keys)
  | inr other ↦
      rw (back_has_key-append, other)
        (dedup_loop-drop_same es (deduped ++ e ∷ []) f
          ∙ append_assoc (deduped ++ e ∷ []) (f ∷ []) (drop_same f.key es))
]

pub dedup_loop-unique : (es : List Entry) → dedup_loop es [] ≡ unique es
unfolding dedup_loop unique back_has_key
dedup_loop-unique [] = refl
dedup_loop-unique (e ∷ es) = dedup_loop-drop_same es [] e

unique-loop : (es : List Entry) → (if leb (length es) 1 then es else dedup_loop es []) ≡ unique es
unfolding unique
unique-loop [] = refl
unique-loop (e ∷ []) = refl
unique-loop (e ∷ f ∷ es) =
    let long : leb (length (e ∷ f ∷ es)) 1 ≡ false = ground arith in
    rw long (unfold dedup_loop in dedup_loop-drop_same (f ∷ es) [] e)

pub sorted_unique-unique : (es : List Entry) → sorted_unique es ≡ unique (stable_sort es)
unfolding sorted_unique
sorted_unique-unique es = unique-loop (stable_sort es)

-- Keys in strictly ascending order.
abbrev pub IsAscending : List Entry → Type 0
IsAscending [] = Unit
IsAscending (e ∷ es) = All (λ f. key_lt e.key f.key ≡ true) es × IsAscending es

pub IsSorted-of_IsAscending : (es : List Entry) → IsAscending es → IsSorted es
IsSorted-of_IsAscending [] h = tt
IsSorted-of_IsAscending (e ∷ es) h =
    (All_mono _ _ (λ f lt. not_after e f lt) es h.0, IsSorted-of_IsAscending es h.1)
  where
    not_after : (e f : Entry) → key_lt e.key f.key ≡ true → before f e ≡ false
    not_after e f lt = unfold before in ground (arith, cmp-flip e.key f.key)

-- No key of the list is below `k`.
abbrev AtLeast : Str → List Entry → Type 0
AtLeast k es = All (λ f. key_lt f.key k ≡ false) es

IsBelow-AtLeast : (e : Entry) (es : List Entry) → IsBelow e es → AtLeast e.key es
IsBelow-AtLeast e es b = All_mono _ _ (λ f h. key_of f h) es b
  where
    key_of : (f : Entry) → before f e ≡ false → key_lt f.key e.key ≡ false
    key_of f h = unfold before in ground (arith, cmp-flip e.key f.key)

key_lt_of : (k j : Str) → key_lt j k ≡ false → key_eq k j ≡ false → key_lt k j ≡ true
key_lt_of k j h other = ground (arith, cmp-flip k j)

key_lt_trans : (a b c : Str) → key_lt a b ≡ true → key_lt b c ≡ true → key_lt a c ≡ true
key_lt_trans a b c h k = ground (arith, cmp_trans a b c)

-- What is kept behind a key is above it.
drop_same-above :
    (k : Str) (es : List Entry)
    → AtLeast k es
    → IsSorted es
    → All (λ f. key_lt k f.key ≡ true) (drop_same k es)
unfolding drop_same
drop_same-above k [] h s = tt
drop_same-above k (f ∷ es) h s = elim (Bool-cases (key_eq k f.key)) [
  | inl same ↦
      let keys : k ≡ f.key = ground (arith, cmp_eq k f.key) in
      rw same (
        subst (λ j. All (λ (g : Entry). key_lt j g.key ≡ true) (drop_same f.key es)) (sym keys)
          (drop_same-above f.key es (IsBelow-AtLeast f es s.0) s.1))
  | inr other ↦
      let lt = key_lt_of k f.key h.0 other in
      rw other (
        lt,
        All_mono _ _ (λ g above. key_lt_trans k f.key g.key lt above) (drop_same f.key es)
            (drop_same-above f.key es (IsBelow-AtLeast f es s.0) s.1),
      )
]

drop_same-IsAscending : (k : Str) (es : List Entry) → IsSorted es → IsAscending (drop_same k es)
unfolding drop_same
drop_same-IsAscending k [] s = tt
drop_same-IsAscending k (f ∷ es) s = elim (Bool-cases (key_eq k f.key)) [
  | inl same ↦ rw same (drop_same-IsAscending f.key es s.1)
  | inr other ↦
      rw other (
        drop_same-above f.key es (IsBelow-AtLeast f es s.0) s.1,
        drop_same-IsAscending f.key es s.1,
      )
]

pub unique-IsAscending : (es : List Entry) → IsSorted es → IsAscending (unique es)
unfolding unique
unique-IsAscending [] s = tt
unique-IsAscending (e ∷ es) s =
    (drop_same-above e.key es (IsBelow-AtLeast e es s.0) s.1, drop_same-IsAscending e.key es s.1)

-- Dropping the later entries of a key loses no key's newest entry.
newest-drop_same :
    (j k : Str) (es : List Entry)
    → AtLeast k es
    → IsSorted es
    → newest j (drop_same k es) ≡ (if key_eq k j then none else newest j es)
unfolding drop_same newest newer
newest-drop_same j k [] h s = ground arith
newest-drop_same j k (f ∷ es) h s = ground (
  arith,
  newest-drop_same j f.key es (IsBelow-AtLeast f es s.0) s.1,
  newest-head j f es s,
  newest_absent k f es s.0,
  cmp_eq k f.key,
  cmp_eq k j,
  cmp_eq f.key j,
  cmp-flip k f.key,
  cmp_refl k,
  cmp_refl j,
)

pub newest-unique : (j : Str) (es : List Entry) → IsSorted es → newest j (unique es) ≡ newest j es
unfolding unique newest newer
newest-unique j [] s = refl
newest-unique j (e ∷ es) s = ground (
  arith,
  newest-drop_same j e.key es (IsBelow-AtLeast e es s.0) s.1,
  newest-head j e es s,
  cmp_eq e.key j,
  cmp_refl j,
)

All-drop_same {κ} :
    (P : Entry → Type κ) (k : Str) (es : List Entry) → All P es → All P (drop_same k es)
unfolding drop_same
All-drop_same P k [] h = tt
All-drop_same P k (e ∷ es) h = elim (Bool-cases (key_eq k e.key)) [
  | inl same ↦ rw same (All-drop_same P e.key es h.1)
  | inr other ↦ rw other (h.0, All-drop_same P e.key es h.1)
]

All-unique {κ} : (P : Entry → Type κ) (es : List Entry) → All P es → All P (unique es)
unfolding unique
All-unique P [] h = tt
All-unique P (e ∷ es) h = (h.0, All-drop_same P e.key es h.1)

-- What `sort_buffer` makes of a buffer has its keys in strictly ascending order.
pub sorted_unique-IsAscending : (es : List Entry) → IsAscending (sorted_unique es)
sorted_unique-IsAscending es =
    rw sorted_unique-unique (unique-IsAscending (stable_sort es) (stable_sort-IsSorted es))

-- Sorting a buffer and dropping its duplicates changes the newest entry of no key.
pub newest-sorted_unique : (k : Str) (es : List Entry) → newest k (sorted_unique es) ≡ newest k es
newest-sorted_unique k es =
    rw sorted_unique-unique
      (newest-unique k (stable_sort es) (stable_sort-IsSorted es) ∙ newest-stable_sort k es)

-- and invents no entry.
pub All-sorted_unique {κ} :
    (P : Entry → Type κ) (es : List Entry) → All P es → All P (sorted_unique es)
All-sorted_unique P es h =
    rw sorted_unique-unique (All-unique P (stable_sort es) (All-stable_sort P es h))

-- The first of sorted entries stays the first.
pub head-sorted_unique :
    (e : Entry) (es : List Entry)
    → IsSorted (e ∷ es)
    → (rest : List Entry) × (sorted_unique (e ∷ es) ≡ e ∷ rest)
unfolding unique
head-sorted_unique e es s = (
  drop_same e.key es,
  sorted_unique-unique (e ∷ es) ∙ ap (λ l. unique l) (stable_sort_of_IsSorted (e ∷ es) s),
)
