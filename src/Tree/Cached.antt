-- ===== src/Tree/Cached.antt =====
-- A tree whose nodes are all in memory, and what `find_path` does in it.
pub mod Answers
pub mod Root
pub mod Laws
pub mod Moved
pub mod Flushing
pub mod Made
pub mod Grown
pub mod Splitting
pub mod Halves
pub mod Fence
pub mod Gap
pub mod Path
use gravtree.Prelude.{
  ℕ, zero, suc, ◌+◌, ◌<◌, ◌≤◌, ◌≡◌, refl, ap, sym, subst, ◌∙◌, Bool, true, false, Option, none,
  some, List, [], ◌∷◌, take, ◌==◌, if◌then◌else◌, get_or, All, arith, Bool-cases, inl, inr,
}
use gravtree.Key.{Str, key_le}
use gravtree.Entry.{Entry, invalid_node_id}
use gravtree.Entry.Order.{IsSorted}
use gravtree.Node.{SstNode, is_leaf, max_seq}
use gravtree.Tree.{get_node, children_of, choose_child, path_below, find_path}
use gravtree.Tree.Cache.{NodeCache, find}
use gravtree.Tree.State.{Tree, Outcome, returned, Action, bind-returned, elim-true, elim-false}

abbrev pub IsReady : SstNode → Type 0
IsReady n = IsSorted n.buffer × All (λ e. e.seq_no ≤ max_seq) n.buffer

-- Below `id` there are nodes down to level 0, each one level below its parent, each with children but
-- those of level 0, and all in the cache.
abbrev pub Rooted : NodeCache → ℕ → ℕ → Type 0
Rooted cache zero id = (n : SstNode) × (find id cache ≡ some n) × (n.level ≡ 0) × IsReady n
Rooted cache (suc l) id =
    (n : SstNode) × (find id cache ≡ some n)
    × (n.level ≡ suc l)
    × IsReady n
    × (c : ℕ) × (cs : List ℕ) × (children_of n ≡ c ∷ cs)
    × All (Rooted cache l) (c ∷ cs)

abbrev pub min_of : Option SstNode → Str
min_of none = []
min_of (some n) = n.key_range.min_key

-- the child that the loop of `find_path` ends with
unfoldable pub chosen : NodeCache → Str → List ℕ → ℕ → ℕ
chosen cache key [] next = next
chosen cache key (c ∷ cs) next =
    if key_le (min_of (find c cache)) key then chosen cache key cs c else next

abbrev pub kids_of : Option SstNode → List ℕ
kids_of none = []
kids_of (some n) = children_of n

-- the numbers on the way of a key from `id` down `l` levels
unfoldable pub way : NodeCache → ℕ → Str → ℕ → List ℕ
unfolding chosen
way cache zero key id = id ∷ []
way cache (suc l) key id =
    let kids = kids_of (find id cache) in
    id ∷ way cache l key (chosen cache key kids (get_or kids 0 invalid_node_id))

pub get_node-find :
    (id : ℕ) (t : Tree) (n : SstNode) → find id t.cache ≡ some n → get_node id t ≡ (returned n, t)
unfolding get_node
get_node-find id t n h = rw h refl

pub Rooted-find :
    (cache : NodeCache) (l id : ℕ)
    → Rooted cache l id
    → (n : SstNode) × (find id cache ≡ some n) × (n.level ≡ l) × IsReady n
Rooted-find cache zero id r = r
Rooted-find cache (suc l) id (n, e, lv, ready, c, cs, kids, below) = (n, e, lv, ready)

-- The node that is found there is that node.
pub Rooted-found :
    (cache : NodeCache) (l id : ℕ) (root : SstNode)
    → Rooted cache l id
    → find id cache ≡ some root
    → (root.level ≡ l) × IsReady root
Rooted-found cache l id root r found =
    let (n, e, lv, ready) = Rooted-find cache l id r in
    subst (λ x. IsAt l x) (sym e ∙ found) (lv, ready)
  where
    IsAt : ℕ → Option SstNode → Type 0
    IsAt l none = Unit
    IsAt l (some n) = (n.level ≡ l) × IsReady n

choose_child-chosen :
    (key : Str) (l : ℕ) (cs : List ℕ) (next : ℕ) (t : Tree)
    → All (Rooted t.cache l) cs
    → choose_child key cs next t ≡ (returned (chosen t.cache key cs next), t)
unfolding choose_child chosen
choose_child-chosen key l [] next t h = refl
choose_child-chosen key l (c ∷ cs) next t h =
    let (n, e, lv, ready) = Rooted-find t.cache l c h.0 in
    let first = bind-returned (get_node c) _ t t n (get_node-find c t n e) in
    elim (Bool-cases (key_le n.key_range.min_key key)) [
      | inl q ↦
          first
          ∙ elim-true (key_le n.key_range.min_key key) _ _ t q
          ∙ choose_child-chosen key l cs c t h.1
          ∙ rw (e, q) refl
      | inr q ↦ first ∙ elim-false (key_le n.key_range.min_key key) _ _ t q ∙ rw (e, q) refl
    ]

chosen-Rooted :
    (P : ℕ → Type 0) (cache : NodeCache) (key : Str) (cs : List ℕ) (next : ℕ)
    → P next
    → All P cs
    → P (chosen cache key cs next)
unfolding chosen
chosen-Rooted P cache key [] next h k = h
chosen-Rooted P cache key (c ∷ cs) next h k =
    elim (Bool-cases (key_le (min_of (find c cache)) key)) [
      | inl q ↦ rw q (chosen-Rooted P cache key cs c k.0 k.1)
      | inr q ↦ rw q h
    ]

pub first_slot :
    (m c : ℕ) (ids cs : List ℕ) → take m ids ≡ c ∷ cs → get_or ids 0 invalid_node_id ≡ c
first_slot zero c ids cs h = cc
first_slot (suc m) c [] cs h = cc
first_slot (suc m) c (x ∷ ids) cs h = ap (λ (l : List ℕ). get_or l 0 invalid_node_id) h

leaf_test : (n : SstNode) → n.level ≡ 0 → is_leaf n ≡ true
unfolding is_leaf
leaf_test n h = ground arith

inner_test : (n : SstNode) (l : ℕ) → n.level ≡ suc l → is_leaf n ≡ false
unfolding is_leaf
inner_test n l h = ground arith

path_below-way :
    (l fuel : ℕ) (key : Str) (cur : ℕ) (t : Tree)
    → Rooted t.cache l cur
    → l < fuel
    → path_below fuel key cur t ≡ (returned (way t.cache l key cur), t)
unfolding path_below way
path_below-way l zero key cur t r h = absurd (omega arith)
path_below-way zero (suc fuel) key cur t (n, e, lv, ready) h =
    bind-returned (get_node cur) _ t t n (get_node-find cur t n e)
    ∙ elim-true (is_leaf n) _ _ t (leaf_test n lv)
path_below-way (suc l) (suc fuel) key cur t (n, e, lv, ready, c, cs, kids, below) h =
    let next = chosen t.cache key (children_of n) c in
    let slot : get_or n.child_ids 0 invalid_node_id ≡ c =
      first_slot n.num_children c n.child_ids cs kids in
    let all : All (Rooted t.cache l) (children_of n) = rw kids below in
    let rooted = chosen-Rooted (Rooted t.cache l) t.cache key (children_of n) c below.0 all in
    let head : get_or (children_of n) 0 invalid_node_id ≡ c = rw kids refl in
    bind-returned (get_node cur) _ t t n (get_node-find cur t n e)
    ∙ elim-false (is_leaf n) _ _ t (inner_test n l lv)
    ∙ bind-returned (choose_child key (children_of n) (get_or n.child_ids 0 invalid_node_id)) _ t t
        next (rw slot (choose_child-chosen key l (children_of n) c t all))
    ∙ bind-returned (path_below fuel key next) _ t t (way t.cache l key next)
        (path_below-way l fuel key next t rooted (omega arith))
    ∙ rw (e, head) refl

-- Where all nodes are in memory, level below level, and the fuel is greater than the number of
-- levels below the root, `find_path` returns the way of the key and changes nothing.
pub find_path-way :
    (l fuel : ℕ) (key : Str) (t : Tree)
    → Rooted t.cache l t.manifest.root_id
    → l < fuel
    → find_path fuel key t ≡ (returned (way t.cache l key t.manifest.root_id), t)
unfolding find_path
find_path-way l fuel key t r h = path_below-way l fuel key t.manifest.root_id t r h

-- The nodes of the way are in the cache, and ready.
pub way-IsReady :
    (cache : NodeCache) (l : ℕ) (key : Str) (id : ℕ)
    → Rooted cache l id
    → All (λ j. (n : SstNode) × (find j cache ≡ some n) × IsReady n) (way cache l key id)
unfolding way
way-IsReady cache zero key id (n, e, lv, ready) = ((n, e, ready), tt)
way-IsReady cache (suc l) key id (n, e, lv, ready, c, cs, kids, below) =
    let all : All (Rooted cache l) (children_of n) = rw kids below in
    let here : kids_of (find id cache) ≡ children_of n = rw e refl in
    let head : get_or (children_of n) 0 invalid_node_id ≡ c = rw kids refl in
    (
      (n, e, ready),
      rw (here, head)
          (way-IsReady cache l key (chosen cache key (children_of n) c)
            (chosen-Rooted (Rooted cache l) cache key (children_of n) c below.0 all)),
    )
