-- ===== src/Tree/Fan.antt =====
-- A node over leaves, all in memory: the shape in which `find_path` and `local_flush` send a key to the
-- same leaf.
pub mod Routes
pub mod Leaves
pub mod Numbers
pub mod Links
pub mod Steps
pub mod Given
pub mod Pushed
pub mod Flushing
pub mod Round
use gravtree.Prelude.{
  ℕ, zero, suc, ◌+◌, ◌<◌, ◌≤◌, ◌≡◌, ◌≢◌, refl, ap, sym, ◌∙◌, Bool, true, false, Option, none, some,
  List, [], ◌∷◌, map, length, All, if◌then◌else◌, arith,
}
use gravtree.Key.{Str, key_le}
use gravtree.Node.{SstNode}
use gravtree.Tree.{children_of}
use gravtree.Tree.Cache.{NodeCache, find}
use gravtree.Tree.Cached.{IsReady, Rooted}
use gravtree.Tree.Cached.Made.{first_key}

-- A leaf in memory with entries, whose range begins at the first of them.
pub record IsLeaf (c : SstNode) : Type 0 where
  pub loaded : c.entries_loaded ≡ true
  pub level : c.level ≡ 0
  pub childless : c.num_children ≡ 0
  pub ready : IsReady c
  pub filled : 0 < length c.buffer
  pub fence : c.key_range.min_key ≡ first_key c.buffer

abbrev pub ids : List SstNode → List ℕ
ids cs = map (λ c. c.id) cs

abbrev pub fences : List SstNode → List Str
fences cs = map (λ c. c.key_range.min_key) cs

abbrev pub IsRising : List Str → Type 0
IsRising [] = Unit
IsRising (k ∷ ks) = All (λ j. key_le k j ≡ true) ks × IsRising ks

-- The leaves `c ∷ cs` below `root`, in the order of their ranges.
pub record IsFan (cache : NodeCache) (rid : ℕ) (root c : SstNode) (cs : List SstNode) : Type 0 where
  pub found : find rid cache ≡ some root
  pub level : root.level ≡ 1
  pub ready : IsReady root
  pub kids : children_of root ≡ ids (c ∷ cs)
  pub count : root.num_children ≡ length (c ∷ cs)
  pub below : All (λ x. find x.id cache ≡ some x) (c ∷ cs)
  pub leaves : All IsLeaf (c ∷ cs)
  pub rising : IsRising (fences (c ∷ cs))

leaves-Rooted :
    (cache : NodeCache) (cs : List SstNode)
    → All (λ x. find x.id cache ≡ some x) cs
    → All IsLeaf cs
    → All (Rooted cache 0) (ids cs)
leaves-Rooted cache [] h k = tt
leaves-Rooted cache (x ∷ cs) h k = ((x, h.0, k.0.level, k.0.ready), leaves-Rooted cache cs h.1 k.1)

pub IsFan-Rooted :
    (cache : NodeCache) (rid : ℕ) (root c : SstNode) (cs : List SstNode)
    → IsFan cache rid root c cs
    → Rooted cache 1 rid
IsFan-Rooted cache rid root c cs f = (
  root,
  f.found,
  f.level,
  f.ready,
  c.id,
  ids cs,
  f.kids,
  leaves-Rooted cache (c ∷ cs) f.below f.leaves,
)

some_level : (n m : SstNode) → some n ≡ some m → n.level ≡ m.level
some_level n m h = ap level_of h
  where
    level_of : Option SstNode → ℕ
    level_of none = 0
    level_of (some n) = n.level

-- A leaf is not the root.
pub leaves_ne :
    (cache : NodeCache) (rid : ℕ) (root : SstNode)
    → find rid cache ≡ some root
    → root.level ≡ 1
    → (xs : List SstNode) → All (λ x. find x.id cache ≡ some x) xs
    → All IsLeaf xs
    → All (λ x. x.id ≢ rid) xs
leaves_ne cache rid root found level [] h l = tt
leaves_ne cache rid root found level (x ∷ xs) h l = (
  (λ e.
      let same = some_level x root (sym h.0 ∙ ap (λ (j : ℕ). find j cache) e ∙ found) in
      omega (arith, same, l.0.level, level)),
  leaves_ne cache rid root found level xs h.1 l.1,
)
