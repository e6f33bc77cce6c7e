-- ===== src/SkipList/Valid/Insert.antt =====
-- `SkipList::insert` keeps the shape, and puts the entry at its place.
use gravtree.Prelude.{
  ℕ, suc, ◌+◌, ◌≤◌, ◌≡◌, ◌≢◌, ◌⊎◌, refl, ap, sym, subst, ◌∙◌, true, none, List, [], ◌∷◌, ltb, ◌==◌,
  if◌then◌else◌, length, All, All_mono, arith, Bool-cases, inl, inr,
}
use gravtree.Entry.{Entry}
use gravtree.Sort
use gravtree.Sort.{insert-IsSorted}
use gravtree.SkipList.{
  SkipNode, SkipList, max_height, random_height, find_prev, insert, to_sorted_vector,
}
use gravtree.SkipList.Chain.{
  In, Distinct, Chain, Ordered, front, back, front-append-back, In-All, last-In, front-In,
}
use gravtree.SkipList.Link.{linked, val-link, next-link, Chain-frame, Chain-linked}
use gravtree.SkipList.Valid.{
  Shape, values, IsSorted-values, Ordered-values, place_before, find_prev-place, place_before-top,
  to_sorted_vector-values,
}
use gravtree.SkipList.Placed.{
  random_height_bounds, placed, In-placed, placed-In, All-placed, Distinct-placed, values-placed,
  values-same, length-placed,
}

taller :
    (a h : ℕ)
    → (1 ≤ a) × (a ≤ max_height)
    → (1 ≤ h) × (h ≤ max_height)
    → (1 ≤ (if ltb a h then h else a)) × ((if ltb a h then h else a) ≤ max_height)
taller a h p q = ground arith

module _ {s : SkipList} {levels : ℕ → List ℕ} (v : Shape s levels) (val : Entry) where
  abbrev height : ℕ
  height = (random_height s.rng).0

  -- the heap with the new node, before it is linked
  abbrev grown : ℕ → SkipNode
  grown a =
      if a == s.allocated
      then record { val = val; height = height; next = λ lv. none }
      else s.heap a

  abbrev new_levels : ℕ → List ℕ
  new_levels lv = if ltb lv height then placed s.heap val s.allocated (levels lv) else levels lv

  abbrev prev : ℕ → ℕ
  prev i = if ltb i s.cur_height then (find_prev s val (λ i. 0)).1 i else 0

  prev-place : (i : ℕ) → prev i ≡ place_before v val i
  prev-place i = ground (arith, (find_prev-place v val (λ i. 0)).0 i, place_before-top v val i)

  old : (lv : ℕ) → All (λ a. a ≢ s.allocated) (levels lv)
  old lv = All_mono _ _ (λ a h. omega (arith, h.1)) (levels lv) (v.inside lv)

  old_or_head : (lv q : ℕ) → In q (0 ∷ levels lv) → q ≢ s.allocated
  old_or_head lv q (inl e) = omega (arith, e, v.short lv)
  old_or_head lv q (inr i) = In-All (λ a. a ≢ s.allocated) q (levels lv) (old lv) i

  prev-ne : (i : ℕ) → prev i ≢ s.allocated
  prev-ne i =
      old_or_head i (prev i) (subst (λ x. In x (0 ∷ levels i)) (sym (prev-place i)) (near i))
    where
      near : (i : ℕ) → In (place_before v val i) (0 ∷ levels i)
      near i = elim (last-In 0 (front s.heap val (levels i))) [
        | inl e ↦ inl e
        | inr j ↦ inr (front-In s.heap val (levels i) _ j).0
      ]

  -- the pointers and the values behind `insert`
  next-insert :
      (q lv : ℕ)
      → ((insert s val).heap q).next lv ≡ (
          if ltb lv height
          then linked grown lv s.allocated (place_before v val lv) q
          else (grown q).next lv)
  unfolding insert
  next-insert q lv =
      next-link height 0 s.allocated prev grown q lv prev-ne ∙ ground (arith, prev-place lv)

  val-insert : (q : ℕ) → ((insert s val).heap q).val ≡ (grown q).val
  unfolding insert
  val-insert q = val-link height 0 s.allocated prev grown q

  Chain-grown : (lv : ℕ) → Chain grown lv 0 (levels lv)
  Chain-grown lv =
      Chain-frame s.heap grown lv 0 (levels lv) (λ q i. ground (arith, old_or_head lv q i))
        (v.chains lv)

  chains-insert : (lv : ℕ) → Chain (insert s val).heap lv 0 (new_levels lv)
  chains-insert lv = elim (Bool-cases (ltb lv height)) [
    | inl q ↦ rw q (
        unfold placed in
        Chain-linked grown (insert s val).heap lv s.allocated 0 (front s.heap val (levels lv))
          (back s.heap val (levels lv)) (λ p. next-insert p lv ∙ rw q refl)
          (rw front-append-back (distinct_head, v.distinct lv))
          (rw front-append-back (omega (arith, v.short lv), old lv))
          (rw front-append-back (Chain-grown lv)))
    | inr q ↦ rw q (
        Chain-frame grown (insert s val).heap lv 0 (levels lv) (λ p i. next-insert p lv ∙ rw q refl)
          (Chain-grown lv))
  ]
    where
      distinct_head : All (λ b. b ≢ 0) (levels lv)
      distinct_head = All_mono _ _ (λ a h. omega (arith, h.0)) (levels lv) (v.inside lv)

  val-new : ((insert s val).heap s.allocated).val ≡ val
  val-new = val-insert s.allocated ∙ ground arith

  val-old : (lv : ℕ) → All (λ a. ((insert s val).heap a).val ≡ (s.heap a).val) (levels lv)
  val-old lv = All_mono _ _ (λ a h. val-insert a ∙ ground (arith, h)) (levels lv) (old lv)

  values-insert :
      (lv : ℕ)
      → values (insert s val).heap (placed s.heap val s.allocated (levels lv))
        ≡ Sort.insert val (values s.heap (levels lv))
  values-insert lv =
      values-placed s.heap (insert s val).heap val s.allocated (levels lv) val-new (val-old lv)

  nested-insert : (lv x : ℕ) → In x (new_levels (suc lv)) → In x (new_levels lv)
  unfolding placed
  nested-insert lv x i = elim (Bool-cases (ltb (suc lv) height)) [
    | inl q ↦
        let below : ltb lv height ≡ true = ground arith in
        rw below (
          into lv
            (elim (from (suc lv) (rw q at i)) [ inl e ↦ inl e | inr j ↦ inr (v.nested lv x j) ]))
    | inr q ↦ up lv (v.nested lv x (rw q at i))
  ]
    where
      from :
          (lv : ℕ)
          → In x (placed s.heap val s.allocated (levels lv))
          → (x ≡ s.allocated) ⊎ In x (levels lv)
      from lv i =
          rw front-append-back at
            (In-placed (front s.heap val (levels lv)) (back s.heap val (levels lv)) s.allocated x i)

      into :
          (lv : ℕ)
          → (x ≡ s.allocated) ⊎ In x (levels lv)
          → In x (placed s.heap val s.allocated (levels lv))
      into lv i =
          placed-In (front s.heap val (levels lv)) (back s.heap val (levels lv)) s.allocated x
            (rw front-append-back i)

      up : (lv : ℕ) → In x (levels lv) → In x (new_levels lv)
      up lv i = elim (Bool-cases (ltb lv height)) [
        | inl q ↦ rw q (into lv (inr i))
        | inr q ↦ rw q i
      ]

  -- A property of the old addresses and the new one holds on every new level.
  All-new : (P : ℕ → Type 0) (lv : ℕ) → P s.allocated → All P (levels lv) → All P (new_levels lv)
  unfolding placed
  All-new P lv h k = elim (Bool-cases (ltb lv height)) [
    | inl q ↦ rw q (
        All-placed P (front s.heap val (levels lv)) (back s.heap val (levels lv)) s.allocated h
          (rw front-append-back k))
    | inr q ↦ rw q k
  ]

  Distinct-insert : (lv : ℕ) → Distinct (new_levels lv)
  unfolding placed
  Distinct-insert lv = elim (Bool-cases (ltb lv height)) [
    | inl q ↦ rw q (
        Distinct-placed (front s.heap val (levels lv)) (back s.heap val (levels lv)) s.allocated
          (rw front-append-back (v.distinct lv)) (rw front-append-back (old lv)))
    | inr q ↦ rw q (v.distinct lv)
  ]

  Ordered-insert : (lv : ℕ) → Ordered (insert s val).heap (new_levels lv)
  Ordered-insert lv = elim (Bool-cases (ltb lv height)) [
    | inl q ↦ rw q (
        Ordered-values (insert s val).heap (placed s.heap val s.allocated (levels lv)) (
          rw values-insert (
            insert-IsSorted val (values s.heap (levels lv))
              (IsSorted-values s.heap (levels lv) (v.ordered lv)))))
    | inr q ↦ rw q (
        Ordered-values (insert s val).heap (levels lv) (
          rw (values-same s.heap (insert s val).heap (levels lv) (val-old lv))
            (IsSorted-values s.heap (levels lv) (v.ordered lv))))
  ]

  height_bounds : (1 ≤ height) × (height ≤ max_height)
  height_bounds = random_height_bounds s.rng

  top-insert : (lv : ℕ) → (insert s val).cur_height ≤ lv → new_levels lv ≡ []
  unfolding insert
  top-insert lv h = ground (arith, v.top lv)

  length-new : (lv : ℕ) → length (new_levels lv) ≤ length (levels lv) + 1
  length-new lv = elim (Bool-cases (ltb lv height)) [
    | inl q ↦ rw q (omega (arith, length-placed s.heap val s.allocated (levels lv)))
    | inr q ↦ rw q (omega arith)
  ]

  bottom : ltb 0 height ≡ true
  bottom = above height height_bounds.0
    where
      above : (h : ℕ) → 1 ≤ h → ltb 0 h ≡ true
      above h k = ground arith

  length-bottom : length (new_levels 0) ≡ length (levels 0) + 1
  length-bottom = rw bottom (length-placed s.heap val s.allocated (levels 0))

  -- `insert` keeps the shape.
  pub insert-Shape : Shape (insert s val) new_levels
  insert-Shape = record {
    chains = chains-insert;
    ordered = Ordered-insert;
    distinct = Distinct-insert;
    nested = nested-insert;
    top = top-insert;
    inside = λ lv.
        unfold insert in
        All-new _ lv (omega (arith, v.short 0), omega arith)
          (All_mono _ _ (λ a h. (h.0, omega (arith, h.1))) (levels lv) (v.inside lv));
    short = λ lv. unfold insert in omega (arith, v.short lv, length-new lv);
    low = unfold insert in taller s.cur_height height v.low height_bounds;
    counted = unfold insert in length-bottom ∙ ap (λ n. n + 1) v.counted;
  }

  -- The entry is put behind the entries that come before it, and before all others.
  pub to_sorted_vector-insert-Shape :
      to_sorted_vector (insert s val) ≡ Sort.insert val (to_sorted_vector s)
  to_sorted_vector-insert-Shape =
      to_sorted_vector-values (insert s val) new_levels insert-Shape
      ∙ rw (bottom, to_sorted_vector-values s levels v) (values-insert 0)
