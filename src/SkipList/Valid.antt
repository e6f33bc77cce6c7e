-- ===== src/SkipList/Valid.antt =====
-- The shape of the lists, and the search in them.
pub mod Insert
pub mod Laws
use gravtree.Prelude.{
  ℕ, zero, suc, ◌+◌, ◌<◌, ◌≤◌, ◌≡◌, ◌≢◌, ◌⊎◌, refl, ap, sym, ◌∙◌, Bool, true, false, Option, none,
  some, List, [], ◌∷◌, ◌++◌, map, ltb, leb, ◌==◌, ==_iff, if◌then◌else◌, ◌&&◌, length, All,
  All_mono, arith, Bool-cases, inl, inr,
}
use gravtree.Entry.{Entry, before}
use gravtree.Entry.Order.{IsSorted, IsBelow}
use gravtree.SkipList.{SkipNode, SkipList, max_height, walk, descend, find_prev, to_sorted_vector}
use gravtree.SkipList.Chain.{
  In, Distinct, Chain, Ordered, last, front, walk-front, walk-from, In-front, last-In, front-In,
}
use gravtree.SkipList.Link.{values_from-Chain}

-- Level `lv` goes through `levels lv`, in the order of the entries, and each level through a part of
-- the one below it.
pub record Shape (s : SkipList) (levels : ℕ → List ℕ) : Type 0 where
  pub chains : (lv : ℕ) → Chain s.heap lv 0 (levels lv)
  pub ordered : (lv : ℕ) → Ordered s.heap (levels lv)
  pub distinct : (lv : ℕ) → Distinct (levels lv)
  pub nested : (lv x : ℕ) → In x (levels (suc lv)) → In x (levels lv)
  pub top : (lv : ℕ) → s.cur_height ≤ lv → levels lv ≡ []
  pub inside : (lv : ℕ) → All (λ a. (0 < a) × (a < s.allocated)) (levels lv)
  pub short : (lv : ℕ) → length (levels lv) < s.allocated
  pub low : (1 ≤ s.cur_height) × (s.cur_height ≤ max_height)
  pub counted : length (levels 0) ≡ s.size

pub record IsValid (s : SkipList) : Type 0 where
  pub levels : ℕ → List ℕ
  pub shape : Shape s levels

-- the entries at the addresses
abbrev pub values : (ℕ → SkipNode) → List ℕ → List Entry
values heap l = map (λ a. (heap a).val) l

pub IsSorted-values : (heap : ℕ → SkipNode) (l : List ℕ) → Ordered heap l → IsSorted (values heap l)
IsSorted-values heap [] h = tt
IsSorted-values heap (a ∷ l) h = (below l h.0, IsSorted-values heap l h.1)
  where
    below :
        (l : List ℕ)
        → All (λ b. before (heap b).val (heap a).val ≡ false) l
        → IsBelow (heap a).val (values heap l)
    below [] k = tt
    below (b ∷ l) k = (k.0, below l k.1)

pub Ordered-values : (heap : ℕ → SkipNode) (l : List ℕ) → IsSorted (values heap l) → Ordered heap l
Ordered-values heap [] h = tt
Ordered-values heap (a ∷ l) h = (behind l h.0, Ordered-values heap l h.1)
  where
    behind :
        (l : List ℕ)
        → IsBelow (heap a).val (values heap l)
        → All (λ b. before (heap b).val (heap a).val ≡ false) l
    behind [] k = tt
    behind (b ∷ l) k = (k.0, behind l k.1)

module _ {s : SkipList} {levels : ℕ → List ℕ} (v : Shape s levels) (val : Entry) where
  -- the last address of a level before the place of `val`
  abbrev pub place_before : ℕ → ℕ
  place_before lv = last 0 (front s.heap val (levels lv))

  -- where the walk along the level below `n` may start
  abbrev Start : ℕ → ℕ → Type 0
  Start zero cur = Unit
  Start (suc lv) cur = (cur ≡ 0) ⊎ (In cur (levels lv) × (before (s.heap cur).val val ≡ true))

  walk-Start :
      (lv cur : ℕ) → Start (suc lv) cur → walk s.allocated s.heap lv val cur ≡ place_before lv
  walk-Start lv cur (inl e) =
      rw e (
        walk-front s.allocated s.heap lv val 0 (levels lv) (v.chains lv)
          (omega (arith, v.short lv)))
  walk-Start lv cur (inr i) =
      walk-from s.allocated s.heap lv val 0 cur (levels lv) (v.chains lv)
        (omega (arith, v.short lv)) (In-front s.heap val (levels lv) cur (v.ordered lv) i.0 i.1)

  Start-place : (lv : ℕ) → Start lv (place_before lv)
  Start-place zero = tt
  Start-place (suc lv) = elim (last-In 0 (front s.heap val (levels (suc lv)))) [
    | inl e ↦ inl e
    | inr i ↦
        let both = front-In s.heap val (levels (suc lv)) (place_before (suc lv)) i in
        inr (v.nested lv (place_before (suc lv)) both.0, both.1)
  ]

  -- Whatever level the descent begins at, it finds the place at each level below.
  descend-place :
      (n cur : ℕ) (prev : ℕ → ℕ)
      → Start n cur
      → ((i : ℕ) → (descend n s val cur prev).1 i ≡ (if ltb i n then place_before i else prev i))
        × ((descend n s val cur prev).0 ≡ (if n == 0 then cur else place_before 0))
  unfolding descend
  descend-place zero cur prev h = ((λ i. ground arith), ground arith)
  descend-place (suc lv) cur prev h =
      let here = walk-Start lv cur h in
      let cur' = walk s.allocated s.heap lv val cur in
      let rest =
        descend-place lv cur' (λ i. if i == lv then cur' else prev i) (rw here (Start-place lv)) in
      ((λ i. ground (arith, rest.0 i, here)), ground (arith, rest.1, here))

  pub find_prev-place :
      (prev : ℕ → ℕ)
      → ((i : ℕ)
          → (find_prev s val prev).1 i ≡ (if ltb i s.cur_height then place_before i else prev i))
        × ((find_prev s val prev).0 ≡ place_before 0)
  unfolding find_prev
  find_prev-place prev =
      let found = descend-place s.cur_height 0 prev (start s.cur_height) in
      (found.0, ground (arith, found.1, v.low))
    where
      start : (n : ℕ) → Start n 0
      start zero = tt
      start (suc n) = inl refl

  pub place_before-top : (lv : ℕ) → s.cur_height ≤ lv → place_before lv ≡ 0
  unfolding front
  place_before-top lv h = rw (v.top lv h) refl

pub to_sorted_vector-values :
    (s : SkipList) (levels : ℕ → List ℕ)
    → Shape s levels
    → to_sorted_vector s ≡ values s.heap (levels 0)
unfolding to_sorted_vector
to_sorted_vector-values s levels v =
    values_from-Chain s.allocated s.heap 0 (levels 0) (v.chains 0) (omega (arith, v.short 0))
