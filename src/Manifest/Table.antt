-- ===== src/Manifest/Table.antt =====
-- `std::unordered_map<NodeId, NodeMeta>`. The order of iteration, which the standard leaves open, is
-- the order of the list.
use gravtree.Prelude.{
  ℕ, ◌≡◌, refl, Bool, false, Option, none, some, List, [], ◌∷◌, ◌==◌, if◌then◌else◌, arith,
}
use gravtree.Key.{Str}

pub record NodeMeta : Type 0 where
  pub id : ℕ
  pub level : ℕ
  pub file_path : Str
  pub valid : Bool

abbrev pub NodeTable : Type 0
NodeTable = List (ℕ × NodeMeta)

-- `find`
unfoldable pub lookup : ℕ → NodeTable → Option NodeMeta
lookup id [] = none
lookup id ((j, n) ∷ t) = if j == id then some n else lookup id t

-- `nodes_[id] = n`
unfoldable pub assign : ℕ → NodeMeta → NodeTable → NodeTable
assign id n [] = (id, n) ∷ []
assign id n ((j, m) ∷ t) = if j == id then (id, n) ∷ t else (j, m) ∷ assign id n t

-- `it->second.valid = false`, if `id` is found
unfoldable pub set_valid_false : ℕ → NodeTable → NodeTable
set_valid_false id [] = []
set_valid_false id ((j, n) ∷ t) =
    if j == id then (j, record n { valid = false }) ∷ t else (j, n) ∷ set_valid_false id t

pub lookup-assign :
    (id j : ℕ) (n : NodeMeta) (t : NodeTable)
    → lookup j (assign id n t) ≡ (if id == j then some n else lookup j t)
unfolding lookup assign
lookup-assign id j n [] = refl
lookup-assign id j n ((i, m) ∷ t) = ground (arith, lookup-assign id j n t)

abbrev pub stale : Option NodeMeta → Option NodeMeta
stale none = none
stale (some n) = some (record n { valid = false })

pub lookup-set_valid_false :
    (id j : ℕ) (t : NodeTable)
    → lookup j (set_valid_false id t) ≡ (if id == j then stale (lookup j t) else lookup j t)
unfolding lookup set_valid_false
lookup-set_valid_false id j [] = ground arith
lookup-set_valid_false id j ((i, m) ∷ t) = ground (arith, lookup-set_valid_false id j t)
