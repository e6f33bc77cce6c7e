-- ===== src/Tree/Cached/Root.antt =====
-- A change of the root alone.
use gravtree.Prelude.{
  ℕ, zero, suc, ◌<◌, ◌≡◌, ◌≢◌, refl, ap, sym, ◌∙◌, Option, none, some, List, [], ◌∷◌, drop, get_or,
  All, All_mono, arith,
}
use gravtree.Key.{Str}
use gravtree.Entry.{invalid_node_id}
use gravtree.Node.{SstNode}
use gravtree.Tree.{children_of}
use gravtree.Tree.Cache.{NodeCache, find, put, find-put}
use gravtree.Tree.Cached.{IsReady, Rooted, Rooted-find, chosen, chosen-Rooted, kids_of, way}
use gravtree.Tree.Cached.Answers.{layers}

some_level : (n m : SstNode) → some n ≡ some m → n.level ≡ m.level
some_level n m h = ap level_of h
  where
    level_of : Option SstNode → ℕ
    level_of none = 0
    level_of (some n) = n.level

module _ (cache : NodeCache) (l rid : ℕ) (root root' : SstNode) (found : find rid cache ≡ some root)
    (level : root.level ≡ l) where
  -- A node further down is not the root.
  lower-ne : (l' id : ℕ) → Rooted cache l' id → l' < l → id ≢ rid
  lower-ne l' id r h e =
      let (n, at_id, lv, ready) = Rooted-find cache l' id r in
      let same : n.level ≡ root.level =
        some_level n root (sym at_id ∙ ap (λ (j : ℕ). find j cache) e ∙ found) in
      omega arith

  find-lower :
      (l' id : ℕ) → Rooted cache l' id → l' < l → find id (put rid root' cache) ≡ find id cache
  find-lower l' id r h = ground (arith, find-put rid id root' cache, lower-ne l' id r h)

  Rooted-lower : (l' id : ℕ) → Rooted cache l' id → l' < l → Rooted (put rid root' cache) l' id
  Rooted-lower zero id (n, e, lv, ready) h =
      (n, find-lower zero id (n, e, lv, ready) h ∙ e, lv, ready)
  Rooted-lower (suc l') id (n, e, lv, ready, c, cs, kids, below) h = (
    n,
    find-lower (suc l') id (n, e, lv, ready, c, cs, kids, below) h ∙ e,
    lv,
    ready,
    c,
    cs,
    kids,
    All_mono _ _ (λ j r. Rooted-lower l' j r (omega arith)) (c ∷ cs) below,
  )

  chosen-lower :
      (key : Str) (l' : ℕ) (cs : List ℕ) (next : ℕ)
      → All (Rooted cache l') cs
      → l' < l
      → chosen (put rid root' cache) key cs next ≡ chosen cache key cs next
  unfolding chosen
  chosen-lower key l' [] next r h = refl
  chosen-lower key l' (c ∷ cs) next r h =
      rw (find-lower l' c r.0 h, chosen-lower key l' cs c r.1 h) refl

  layers-lower :
      (key : Str) (l' id : ℕ)
      → Rooted cache l' id
      → l' < l
      → layers (put rid root' cache) l' key id ≡ layers cache l' key id
  unfolding way
  layers-lower key zero id r h = rw (find-lower zero id r h) refl
  layers-lower key (suc l') id (n, e, lv, ready, c, cs, kids, below) h =
      let r : Rooted cache (suc l') id = (n, e, lv, ready, c, cs, kids, below) in
      let all : All (Rooted cache l') (children_of n) = rw kids below in
      let head : get_or (children_of n) 0 invalid_node_id ≡ c = rw kids refl in
      let next = chosen cache key (children_of n) c in
      rw
        (
          find-lower (suc l') id r h,
          e,
          head,
          chosen-lower key l' (children_of n) c all (omega arith),
          layers-lower key l' next
              (chosen-Rooted (Rooted cache l') cache key (children_of n) c below.0 all)
              (omega arith),
        )
        refl

  find-root : find rid (put rid root' cache) ≡ some root'
  find-root = ground (arith, find-put rid rid root' cache)

-- A root of the same level with the same children, its entries in order, stands where the old one
-- stood,
pub Rooted-root :
    (cache : NodeCache) (l rid : ℕ) (root root' : SstNode)
    → find rid cache ≡ some root
    → Rooted cache l rid
    → root'.level ≡ root.level
    → children_of root' ≡ children_of root
    → IsReady root'
    → Rooted (put rid root' cache) l rid
Rooted-root cache zero rid root root' found (n, e, lv, ready) same kids ready' =
    let level : root.level ≡ n.level = some_level root n (sym found ∙ e) in
    (root', find-root cache zero rid root root' found (level ∙ lv), same ∙ level ∙ lv, ready')
Rooted-root cache (suc l) rid root root' found (n, e, lv, ready, c, cs, kids, below) same kids'
      ready' =
    let level : root.level ≡ suc l = some_level root n (sym found ∙ e) ∙ lv in
    let own : children_of root ≡ children_of n = ap (λ o. kids_of o) (sym found ∙ e) in
    (
      root',
      find-root cache (suc l) rid root root' found level,
      same ∙ level,
      ready',
      c,
      cs,
      kids' ∙ own ∙ kids,
      All_mono _ _
          (λ j r. Rooted-lower cache (suc l) rid root root' found level l j r (omega arith))
          (c ∷ cs) below,
    )

pub layers-head :
    (cache : NodeCache) (l : ℕ) (key : Str) (rid : ℕ) (root : SstNode)
    → find rid cache ≡ some root
    → layers cache l key rid ≡ root.buffer ∷ drop 1 (layers cache l key rid)
unfolding way
layers-head cache zero key rid root found = rw found refl
layers-head cache (suc l) key rid root found = rw found refl

-- and only the first layer changes.
pub layers-root :
    (cache : NodeCache) (l : ℕ) (key : Str) (rid : ℕ) (root root' : SstNode)
    → find rid cache ≡ some root
    → Rooted cache l rid
    → children_of root' ≡ children_of root
    → layers (put rid root' cache) l key rid ≡ root'.buffer ∷ drop 1 (layers cache l key rid)
unfolding way
layers-root cache zero key rid root root' found (n, e, lv, ready) kids' =
    rw (find-root cache zero rid root root' found (some_level root n (sym found ∙ e) ∙ lv)) refl
layers-root cache (suc l) key rid root root' found (n, e, lv, ready, c, cs, kids, below) kids' =
    let level : root.level ≡ suc l = some_level root n (sym found ∙ e) ∙ lv in
    let own : children_of root ≡ c ∷ cs = ap (λ o. kids_of o) (sym found ∙ e) ∙ kids in
    let next = chosen cache key (c ∷ cs) c in
    rw
      (
        find-root cache (suc l) rid root root' found level,
        kids',
        found,
        own,
        chosen-lower cache (suc l) rid root root' found level key l (c ∷ cs) c below (omega arith),
        layers-lower cache (suc l) rid root root' found level key l next
            (chosen-Rooted (Rooted cache l) cache key (c ∷ cs) c below.0 below) (omega arith),
      )
      refl
