-- ===== src/Tree/Cached/Fence.antt =====
-- The answers behind the split of the only leaf: at the fence, the first key of the right half, they
-- pass from the left half to the right.
use gravtree.Prelude.{
  ℕ, ◌+◌, ◌^◌, ◌<◌, ◌≡◌, refl, ap, sym, ◌∙◌, true, Option, none, some, List, [], ◌∷◌, if◌then◌else◌,
  arith, Bool-cases, inl, inr,
}
use gravtree.Key.{Str, key_le, key_eq}
use gravtree.Key.Order.{cmp_refl}
use gravtree.Entry.{Entry}
use gravtree.Entry.Newest.{newest, newest-head}
use gravtree.Entry.Halves.{newest-halves, IsSorted-back, newest-front}
use gravtree.Sort.{newest-stable_sort}
use gravtree.SkipList.{to_sorted_vector}
use gravtree.Bloom.Sizing.{Doubles}
use gravtree.Node.{SstNode}
use gravtree.Node.Dedup.{newest-sorted_unique}
use gravtree.Tree.Cache.{find}
use gravtree.Tree.State.{Tree, Outcome, returned}
use gravtree.Tree.Read.{answer, get}
use gravtree.Tree.Split.{split_leaf}
use gravtree.Tree.Cached.{way}
use gravtree.Tree.Cached.Answers.{
  first_hit, first_hit-none, first_hit-some, first_hit-rest, layers, answered,
}
use gravtree.Tree.Cached.Laws.{IsOpen, get-open, first_hit-newest}
use gravtree.Tree.Cached.Made.{buffer-create}
use gravtree.Tree.Cached.Splitting.{left_half, right_half, left_id, right_id, left_made}
use gravtree.Tree.Cached.Halves.{after, after-IsOpen, layers-after, runs, parts, parts-IsSorted}

le_self : (k : Str) → key_le k k ≡ true
le_self k = ground (arith, cmp_refl k)

eq_self : (k : Str) → key_eq k k ≡ true
eq_self k = ground (arith, cmp_refl k)

module _ ⦃fl : Doubles⦄ (t : Tree) (leaf : SstNode) (f : Entry) (fs : List Entry) (o : IsOpen 0 t)
    (found : find t.manifest.root_id t.cache ≡ some leaf)
    (known : t.manifest.root_id < t.manifest.next_id) (room : t.manifest.next_id + 2 < 2 ^ 64)
    (cut : right_half leaf ≡ f ∷ fs) where
  abbrev hot : List Entry
  hot = to_sorted_vector t.write_buf

  abbrev half_for : Str → List Entry
  half_for k = if key_le f.key k then f ∷ fs else left_half leaf

  bottom :
      (k : Str)
      → first_hit k (
          layers
            (after t leaf f fs o found known room cut).cache
            1
            k
            (after t leaf f fs o found known room cut).manifest.root_id)
        ≡ first_hit k (half_for k ∷ [])
  bottom k =
      ap (λ bs. first_hit k bs) (layers-after t leaf f fs o found known room cut k)
      ∙ first_hit-none k [] _ (unfold newest in refl)
      ∙ elim (Bool-cases (key_le f.key k)) [
        | inl q ↦ rw q (
            first_hit-newest k _ (f ∷ fs) [] (
              ap (λ es. newest k es)
                (buffer-create (right_id t) 0 (right_half leaf) [] t.data_dir (left_made leaf t).1)
              ∙ newest-sorted_unique k (right_half leaf)
              ∙ ap (λ es. newest k es) cut))
        | inr q ↦ rw q (
            first_hit-newest k _ (left_half leaf) [] (
              ap (λ es. newest k es)
                (buffer-create (left_id t) 0 (left_half leaf) [] t.data_dir t.disk)
              ∙ newest-sorted_unique k (left_half leaf)))
      ]

  get-halves :
      (fuel fuel' : ℕ) (k : Str)
      → 1 < fuel'
      → (get fuel' k (split_leaf fuel t.manifest.root_id (t.manifest.root_id ∷ []) t).1).0
        ≡ returned (answered (first_hit k (hot ∷ half_for k ∷ [])))
  get-halves fuel fuel' k h =
      ap (λ (p : Outcome (Unit {0}) × Tree). (get fuel' k p.1).0)
        (runs t leaf f fs o found known room cut fuel)
      ∙ ap (λ (p : Outcome (Option Str) × Tree). p.0)
          (get-open 1 fuel' k (after t leaf f fs o found known room cut)
            (after-IsOpen t leaf f fs o found known room cut) h)
      ∙ ap (λ e. returned (answered e)) (first_hit-rest k hot _ _ (bottom k))

  get-leaf :
      (fuel' : ℕ) (k : Str)
      → 1 < fuel'
      → (get fuel' k t).0 ≡ returned (answered (first_hit k (hot ∷ leaf.buffer ∷ [])))
  unfolding way
  get-leaf fuel' k h =
      ap (λ (p : Outcome (Option Str) × Tree). p.0) (get-open 0 fuel' k t o (omega arith))
      ∙ rw found refl

  -- In an open tree whose root is its only node, with a number that was given out, and with
  -- numbers left for three nodes, where the right half of the root has an entry and no entry of
  -- the left half has the first key of the right, `split_leaf` of the root returns without an
  -- exception, leaves the tree open with one more level, and changes the answer of `get` for no
  -- key; `get` is given enough fuel.
  pub get-split_leaf :
      (fuel fuel' : ℕ) (k : Str)
      → newest f.key (left_half leaf) ≡ none
      → 1 < fuel'
      → ((split_leaf fuel t.manifest.root_id (t.manifest.root_id ∷ []) t).0 ≡ returned tt)
        × IsOpen 1 (split_leaf fuel t.manifest.root_id (t.manifest.root_id ∷ []) t).1
        × ((get fuel' k (split_leaf fuel t.manifest.root_id (t.manifest.root_id ∷ []) t).1).0
            ≡ (get fuel' k t).0)
  get-split_leaf fuel fuel' k h lt =
      let run = runs t leaf f fs o found known room cut fuel in
      let whole : newest k leaf.buffer ≡ newest k (half_for k) =
        sym (newest-stable_sort k leaf.buffer)
        ∙ ap (λ es. newest k es) (sym (parts t leaf f fs o found known room cut))
        ∙ newest-halves k (left_half leaf) fs f (parts-IsSorted t leaf f fs o found known room cut)
            h
        ∙ elim (Bool-cases (key_le f.key k)) [ inl q ↦ rw q refl | inr q ↦ rw q refl ] in
      (
        ap (λ (p : Outcome (Unit {0}) × Tree). p.0) run,
        rw run (after-IsOpen t leaf f fs o found known room cut),
        get-halves fuel fuel' k lt
            ∙ ap (λ e. returned (answered e))
                (first_hit-rest k hot _ _ (first_hit-newest k _ _ [] (sym whole)))
            ∙ sym (get-leaf fuel' k lt),
      )

  -- In an open tree whose root is its only node, with numbers left for three nodes, where the left
  -- half of the root has an entry of the first key of the right half, and the write buffer has
  -- none, before `split_leaf` of the root `get` of that key answers from the newest entry of the
  -- left half, and after it from the first entry of the right half.
  pub get-split_leaf_stale :
      (fuel fuel' : ℕ) (e : Entry)
      → newest f.key (left_half leaf) ≡ some e
      → newest f.key (to_sorted_vector t.write_buf) ≡ none
      → 1 < fuel'
      → ((get fuel' f.key t).0 ≡ returned (answer e))
        × ((get fuel' f.key (split_leaf fuel t.manifest.root_id (t.manifest.root_id ∷ []) t).1).0
            ≡ returned (answer f))
  get-split_leaf_stale fuel fuel' e h cold lt =
      let sorted = parts-IsSorted t leaf f fs o found known room cut in
      let at_half : half_for f.key ≡ f ∷ fs = rw (le_self f.key) refl in
      let before : first_hit f.key (hot ∷ leaf.buffer ∷ []) ≡ some e =
        first_hit-none f.key hot _ cold
        ∙ first_hit-some f.key leaf.buffer [] e (
            sym (newest-stable_sort f.key leaf.buffer)
            ∙ ap (λ es. newest f.key es) (sym (parts t leaf f fs o found known room cut))
            ∙ newest-front (left_half leaf) fs f e sorted h) in
      let behind : first_hit f.key (hot ∷ half_for f.key ∷ []) ≡ some f =
        first_hit-none f.key hot _ cold
        ∙ ap (λ b. first_hit f.key (b ∷ [])) at_half
        ∙ first_hit-some f.key (f ∷ fs) [] f (
            newest-head f.key f fs (IsSorted-back (left_half leaf) (f ∷ fs) sorted)
              (eq_self f.key)) in
      (
        get-leaf fuel' f.key lt ∙ ap (λ x. returned (answered x)) before,
        get-halves fuel fuel' f.key lt ∙ ap (λ x. returned (answered x)) behind,
      )
