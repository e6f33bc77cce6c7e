-- ===== src/Tree/Cached/Path.antt =====
-- What the path of `find_path` is, without the loop: it goes down from child to child to level 0, and
-- at each node to the last of the leading children that do not begin above the key.
use gravtree.Prelude.{
  ℕ, zero, suc, ◌<◌, ◌≡◌, refl, ap, ◌⊎◌, inl, inr, true, false, some, List, [], ◌∷◌, ◌++◌, All,
  Bool-cases,
}
use gravtree.Key.{Str, key_le}
use gravtree.Node.{SstNode}
use gravtree.Tree.{children_of, find_path}
use gravtree.Tree.Cache.{NodeCache, find}
use gravtree.Tree.State.{Tree, returned}
use gravtree.Tree.Cached.{Rooted, min_of, chosen, chosen-Rooted, kids_of, way, find_path-way}

-- whether the range of a node begins at the key or below it, or above it
abbrev pub Begins : NodeCache → Str → ℕ → Type 0
Begins cache key c = key_le (min_of (find c cache)) key ≡ true

abbrev pub IsAbove : NodeCache → Str → ℕ → Type 0
IsAbove cache key c = key_le (min_of (find c cache)) key ≡ false

abbrev pub IsAboveFirst : NodeCache → Str → List ℕ → Type 0
IsAboveFirst cache key [] = Unit
IsAboveFirst cache key (c ∷ cs) = IsAbove cache key c

-- `next` is the child for the key: it and all to its left begin at the key or below it, and its right
-- neighbour begins above it; or it is the first child, and begins above the key.
pub record IsChild (cache : NodeCache) (key : Str) (children : List ℕ) (next : ℕ) : Type 0 where
  pub left : List ℕ
  pub right : List ℕ
  pub parts : children ≡ left ++ next ∷ right
  pub reached : All (Begins cache key) left
  pub place :
      (Begins cache key next × IsAboveFirst cache key right)
      ⊎ ((left ≡ []) × IsAbove cache key next)

-- a path from the node `id` of level `l` down to level 0
pub data IsPath (cache : NodeCache) (key : Str) : ℕ → ℕ → List ℕ → Type 0 where
  leaf :
      {id : ℕ} (n : SstNode)
      → find id cache ≡ some n
      → n.level ≡ 0
      → IsPath cache key 0 id (id ∷ [])
  inner :
      {l id next : ℕ} {path : List ℕ} (n : SstNode)
      → find id cache ≡ some n
      → n.level ≡ suc l
      → IsChild cache key (children_of n) next
      → IsPath cache key l next path
      → IsPath cache key (suc l) id (id ∷ path)

-- behind a child that begins at the key or below it
chosen-behind :
    (cache : NodeCache) (key : Str) (cs : List ℕ) (next : ℕ)
    → Begins cache key next
    → (left : List ℕ) × (right : List ℕ) × (next ∷ cs ≡ left ++ chosen cache key cs next ∷ right)
      × All (Begins cache key) left
      × Begins cache key (chosen cache key cs next)
      × IsAboveFirst cache key right
unfolding chosen
chosen-behind cache key [] next h = ([], [], refl, tt, h, tt)
chosen-behind cache key (c ∷ cs) next h = elim (Bool-cases (key_le (min_of (find c cache)) key)) [
  | inl q ↦
      let (left, right, parts, reached, begins, above) = chosen-behind cache key cs c q in
      rw q (next ∷ left, right, ap (λ l. next ∷ l) parts, (h, reached), begins, above)
  | inr q ↦ rw q ([], c ∷ cs, refl, tt, h, q)
]

chosen-IsChild :
    (cache : NodeCache) (key : Str) (c : ℕ) (cs : List ℕ)
    → IsChild cache key (c ∷ cs) (chosen cache key (c ∷ cs) c)
unfolding chosen
chosen-IsChild cache key c cs = elim (Bool-cases (key_le (min_of (find c cache)) key)) [
  | inl q ↦
      let (left, right, parts, reached, begins, above) = chosen-behind cache key cs c q in
      rw q (record {
        left = left;
        right = right;
        parts = parts;
        reached = reached;
        place = inl (begins, above);
      })
  | inr q ↦
      rw q (record { left = []; right = cs; parts = refl; reached = tt; place = inr (refl, q) })
]

way-IsPath :
    (cache : NodeCache) (l : ℕ) (key : Str) (id : ℕ)
    → Rooted cache l id
    → IsPath cache key l id (way cache l key id)
unfolding way
way-IsPath cache zero key id (n, e, lv, ready) = leaf n e lv
way-IsPath cache (suc l) key id (n, e, lv, ready, c, cs, kids, below) =
    let here : kids_of (find id cache) ≡ c ∷ cs = rw e kids in
    let next = chosen cache key (c ∷ cs) c in
    rw here (
      inner n e lv (rw kids (chosen-IsChild cache key c cs)) (
        way-IsPath cache l key next
          (chosen-Rooted (Rooted cache l) cache key (c ∷ cs) c below.0 below)))

-- Where all nodes are in memory, level below level, those above level 0 with children, with sorted
-- buffers whose sequence numbers fit 64 bits, and the fuel is greater than the number of levels
-- below the root, `find_path` returns and changes nothing, and what it returns is a path from the
-- root from child to child down to level 0, at each node to a child that begins at the key or
-- below it, as all children to its left do, and whose right neighbour, if there is one, begins
-- above it, or else, where the first child begins above the key, to the first child.
pub find_path-IsPath :
    (l fuel : ℕ) (key : Str) (t : Tree)
    → Rooted t.cache l t.manifest.root_id
    → l < fuel
    → (path : List ℕ) × (find_path fuel key t ≡ (returned path, t))
      × IsPath t.cache key l t.manifest.root_id path
find_path-IsPath l fuel key t r h = (
  way t.cache l key t.manifest.root_id,
  find_path-way l fuel key t r h,
  way-IsPath t.cache l key t.manifest.root_id r,
)
