-- ===== src/Tree/Cached/Halves.antt =====
-- What the split of the only leaf makes of the answers.
use gravtree.Prelude.{
  ℕ, ◌+◌, ◌%◌, ◌^◌, ◌<◌, ◌≤◌, ◌≡◌, ◌≢◌, refl, ap, sym, subst, ◌∙◌, true, false, some, List, [], ◌∷◌,
  ◌++◌, if◌then◌else◌, take-append-drop, All, arith, Bool-cases, inl, inr, length, ◌/◌,
}
use gravtree.Key.{Str, cmp, key_le}
use gravtree.Key.Order.{cmp_eq, cmp-flip, cmp_trans}
use gravtree.Entry.{Entry, before}
use gravtree.Entry.Order.{IsSorted}
use gravtree.Entry.Halves.{All-front, All-back, IsSorted-front, IsSorted-back, fence-last}
use gravtree.Sort.{stable_sort, stable_sort-IsSorted, All-stable_sort}
use gravtree.Bloom.Sizing.{Doubles}
use gravtree.Node.{SstNode, max_seq}
use gravtree.Manifest.{next_node_id, gc, set_root, register_node, invalidate_node}
use gravtree.Tree.{children_of}
use gravtree.Tree.Cache.{NodeCache, find, put, erase, find-put, find-erase}
use gravtree.Tree.State.{Tree, returned}
use gravtree.Tree.Split.{split_leaf}
use gravtree.Tree.Cached.{IsReady, Rooted, Rooted-found, chosen, way}
use gravtree.Tree.Cached.Answers.{layers}
use gravtree.Tree.Cached.Laws.{IsOpen}
use gravtree.Tree.Cached.Made.{
  sorted_unique-IsReady, first_key, level-create, buffer-create, min_key-create, root_over-shape,
}
use gravtree.Tree.Cached.Grown.{top_of, grown}
use gravtree.Tree.Cached.Splitting.{
  left_half, right_half, left_id, right_id, left_made, right_made, halved, tidied, split_leaf-root,
}

pub key_le_trans : (a b c : Str) → key_le a b ≡ true → key_le b c ≡ true → key_le a c ≡ true
key_le_trans a b c h k = ground (arith, cmp_trans a b c, cmp_eq a b, cmp_eq b c)

-- In sorted entries the first key is no greater than the fence.
first_key-le :
    (xs ys : List Entry) (f : Entry) → IsSorted (xs ++ f ∷ ys) → key_le (first_key xs) f.key ≡ true
first_key-le [] ys f s = empty_le f.key
  where
    empty_le : (k : Str) → key_le [] k ≡ true
    empty_le [] = unfold cmp in refl
    empty_le (c ∷ k) = unfold cmp in refl
first_key-le (x ∷ xs) ys f s = not_after x f (fence-last (x ∷ xs) ys f s).0
  where
    not_after : (x f : Entry) → before f x ≡ false → key_le x.key f.key ≡ true
    not_after x f h = unfold before in ground (arith, cmp-flip x.key f.key)

-- Of two children the second is chosen from its first key on.
chosen-two :
    (cache : NodeCache) (k : Str) (a b : ℕ) (l r : SstNode)
    → find a cache ≡ some l
    → find b cache ≡ some r
    → key_le l.key_range.min_key r.key_range.min_key ≡ true
    → chosen cache k (a ∷ b ∷ []) a ≡ (if key_le r.key_range.min_key k then b else a)
unfolding chosen
chosen-two cache k a b l r hl hr le =
    rw (hl, hr) (ground (arith, key_le_trans l.key_range.min_key r.key_range.min_key k))

-- The cache behind the split of the node `id` into `a` and `b` below `top`.
abbrev split_cache : ℕ → ℕ → ℕ → ℕ → SstNode → SstNode → SstNode → SstNode → NodeCache → NodeCache
split_cache id a b top s l r root cache =
    put top root (erase id (put b r (put a l (put id s cache))))

module _ (id a b top : ℕ) (s l r root : SstNode) (cache : NodeCache) (ab : a ≢ b) (ida : id ≢ a)
    (idb : id ≢ b) (ta : top ≢ a) (tb : top ≢ b) where
  find-left : find a (split_cache id a b top s l r root cache) ≡ some l
  find-left = ground (
    arith,
    find-put top a root (erase id (put b r (put a l (put id s cache)))),
    find-erase id a (put b r (put a l (put id s cache))),
    find-put b a r (put a l (put id s cache)),
    find-put a a l (put id s cache),
  )

  find-right : find b (split_cache id a b top s l r root cache) ≡ some r
  find-right = ground (
    arith,
    find-put top b root (erase id (put b r (put a l (put id s cache)))),
    find-erase id b (put b r (put a l (put id s cache))),
    find-put b b r (put a l (put id s cache)),
  )

  find-top : find top (split_cache id a b top s l r root cache) ≡ some root
  find-top = ground (arith, find-put top top root (erase id (put b r (put a l (put id s cache)))))

module _ ⦃fl : Doubles⦄ (t : Tree) (leaf : SstNode) (f : Entry) (fs : List Entry) (o : IsOpen 0 t)
    (found : find t.manifest.root_id t.cache ≡ some leaf)
    (known : t.manifest.root_id < t.manifest.next_id) (room : t.manifest.next_id + 2 < 2 ^ 64)
    (cut : right_half leaf ≡ f ∷ fs) where
  abbrev pub id : ℕ
  id = t.manifest.root_id

  abbrev top : ℕ
  top = ((t.manifest.next_id + 1) % 2 ^ 64 + 1) % 2 ^ 64

  abbrev pub left : SstNode
  left = (left_made leaf t).0

  abbrev pub right : SstNode
  right = (right_made leaf t).0

  abbrev pub after : Tree
  after = tidied (grown 1 (left_id t) (right_id t) left right (halved id leaf t))

  pub parts : left_half leaf ++ f ∷ fs ≡ stable_sort leaf.buffer
  parts =
      ap (λ ys. left_half leaf ++ ys) (sym cut)
      ∙ take-append-drop (length (stable_sort leaf.buffer) / 2) (stable_sort leaf.buffer)

  pub parts-IsSorted : IsSorted (left_half leaf ++ f ∷ fs)
  parts-IsSorted = subst (λ es. IsSorted es) (sym parts) (stable_sort-IsSorted leaf.buffer)

  leaf-IsReady : IsReady leaf
  leaf-IsReady = (Rooted-found t.cache 0 id leaf o.rooted found).1

  parts-numbers : All (λ e. e.seq_no ≤ max_seq) (left_half leaf ++ f ∷ fs)
  parts-numbers =
      subst (λ es. All (λ (e : Entry). e.seq_no ≤ max_seq) es) (sym parts)
        (All-stable_sort (λ e. e.seq_no ≤ max_seq) leaf.buffer leaf-IsReady.1)

  abbrev sorted : SstNode
  sorted = record leaf { buffer = stable_sort leaf.buffer }

  abbrev root : SstNode
  root = (top_of 1 (left_id t) (right_id t) left right (halved id leaf t)).0

  cache-after :
      after.cache ≡ split_cache id (left_id t) (right_id t) top sorted left right root t.cache
  unfolding next_node_id invalidate_node register_node
  cache-after = refl

  manifest-after : after.manifest.root_id ≡ top
  unfolding next_node_id gc set_root invalidate_node register_node
  manifest-after = refl

  shape :
      (root.level ≡ 1)
      × (children_of root ≡ left_id t ∷ right_id t ∷ [])
      × (root.buffer ≡ [])
      × (root.key_range.min_key ≡ left.key_range.min_key)
  unfolding next_node_id invalidate_node register_node
  shape = root_over-shape top 1 (left_id t) (right_id t) left right t.data_dir (right_made leaf t).1

  at_left : find (left_id t) after.cache ≡ some left
  at_left = rw cache-after (
      find-left id (left_id t) (right_id t) top sorted left right root t.cache (omega arith)
        (omega arith) (omega arith) (omega arith) (omega arith))

  at_right : find (right_id t) after.cache ≡ some right
  at_right = rw cache-after (
      find-right id (left_id t) (right_id t) top sorted left right root t.cache (omega arith)
        (omega arith) (omega arith) (omega arith) (omega arith))

  at_top : find top after.cache ≡ some root
  at_top = rw cache-after (
      find-top id (left_id t) (right_id t) top sorted left right root t.cache (omega arith)
        (omega arith) (omega arith) (omega arith) (omega arith))

  left-IsReady : IsReady left
  left-IsReady =
      rw (buffer-create (left_id t) 0 (left_half leaf) [] t.data_dir t.disk) (
        sorted_unique-IsReady (left_half leaf)
          (All-front _ (left_half leaf) (f ∷ fs) parts-numbers))

  right-IsReady : IsReady right
  right-IsReady =
      rw (buffer-create (right_id t) 0 (right_half leaf) [] t.data_dir (left_made leaf t).1) (
        sorted_unique-IsReady (right_half leaf)
          (rw cut (All-back _ (left_half leaf) (f ∷ fs) parts-numbers)))

  after-Rooted : Rooted after.cache 1 after.manifest.root_id
  after-Rooted = rw manifest-after (
    root,
    at_top,
    shape.0,
    rw shape.2 (tt, tt),
    left_id t,
    right_id t ∷ [],
    shape.1,
    (
      (
        left,
        at_left,
        level-create (left_id t) 0 (left_half leaf) [] t.data_dir t.disk,
        left-IsReady,
      ),
      (
        (
          right,
          at_right,
          level-create (right_id t) 0 (right_half leaf) [] t.data_dir (left_made leaf t).1,
          right-IsReady,
        ),
        tt,
      ),
    ),
  )

  pub after-IsOpen : IsOpen 1 after
  after-IsOpen = record {
    rooted = after-Rooted;
    buffer = o.buffer;
    numbers = o.numbers;
    room = o.room;
  }

  -- The halves are there before the root is made.
  pub runs : (fuel : ℕ) → split_leaf fuel id (id ∷ []) t ≡ (returned tt, after)
  runs fuel =
      split_leaf-root fuel id leaf t found
        (ground (
          arith,
          find-erase id (left_id t)
              (put (right_id t) right (put (left_id t) left (put id sorted t.cache))),
          find-put (right_id t) (left_id t) right (put (left_id t) left (put id sorted t.cache)),
          find-put (left_id t) (left_id t) left (put id sorted t.cache),
        ))
        (ground (
          arith,
          find-erase id (right_id t)
              (put (right_id t) right (put (left_id t) left (put id sorted t.cache))),
          find-put (right_id t) (right_id t) right (put (left_id t) left (put id sorted t.cache)),
        ))

  left-min : left.key_range.min_key ≡ first_key (left_half leaf)
  left-min =
      min_key-create (left_id t) 0 (left_half leaf) [] t.data_dir t.disk
        (IsSorted-front (left_half leaf) (f ∷ fs) parts-IsSorted)

  right-min : right.key_range.min_key ≡ f.key
  right-min =
      min_key-create (right_id t) 0 (right_half leaf) [] t.data_dir (left_made leaf t).1 (
        subst (λ es. IsSorted es) (sym cut)
          (IsSorted-back (left_half leaf) (f ∷ fs) parts-IsSorted))
      ∙ ap (λ es. first_key es) cut

  -- From the fence on the right half is asked, below it the left half.
  chosen-after :
      (k : Str)
      → chosen after.cache k (left_id t ∷ right_id t ∷ []) (left_id t)
        ≡ (if key_le f.key k then right_id t else left_id t)
  chosen-after k =
      chosen-two after.cache k (left_id t) (right_id t) left right at_left at_right
        (rw (left-min, right-min) (first_key-le (left_half leaf) fs f parts-IsSorted))
      ∙ ap (λ j. if key_le j k then right_id t else left_id t) right-min

  pub layers-after :
      (k : Str)
      → layers after.cache 1 k after.manifest.root_id
        ≡ [] ∷ (if key_le f.key k then right.buffer else left.buffer) ∷ []
  unfolding way
  layers-after k =
      rw (manifest-after, at_top, shape.1, shape.2, chosen-after k)
        (elim (Bool-cases (key_le f.key k)) [
          | inl q ↦ rw (q, at_right) refl
          | inr q ↦ rw (q, at_left) refl
        ])
