-- ===== src/Manifest/Gc.antt =====
-- What `gc` takes away: the stale entries and their files, and nothing else.
use gravtree.Prelude.{
  ℕ, ◌≡◌, ◌≢◌, refl, Bool, false, not, ◌&&◌, ◌||◌, Option, none, some, [], ◌∷◌, if◌then◌else◌,
  arith, All, Bool-cases, inl, inr,
}
use gravtree.Key.{Str, key_eq}
use gravtree.Disk.{Disk, remove}
use gravtree.Manifest.Table.{NodeTable, NodeMeta, lookup}
use gravtree.Manifest.{Manifest, node_path, sweep, gc}
use gravtree.Manifest.Laws.{IsValid, KeysUnique}

keep_valid : Option NodeMeta → Option NodeMeta
keep_valid none = none
keep_valid (some n) = if n.valid then some n else none

lookup-absent : (j : ℕ) (t : NodeTable) → All (λ q. q.0 ≢ j) t → lookup j t ≡ none
unfolding lookup
lookup-absent j [] h = refl
lookup-absent j ((i, n) ∷ t) h = ground (arith, lookup-absent j t)

lookup-sweep :
    (j : ℕ) (t : NodeTable) (d : Disk)
    → KeysUnique t
    → lookup j (sweep t d).0 ≡ keep_valid (lookup j t)
unfolding lookup sweep keep_valid
lookup-sweep j [] d u = refl
lookup-sweep j ((i, n) ∷ t) d u = elim (Bool-cases n.valid) [
  | inl q ↦ ground (arith, lookup-sweep j t d u.1)
  | inr q ↦ ground (arith, lookup-sweep j t (remove n.file_path d) u.1, lookup-absent i t u.0)
]

-- `gc` of a valid manifest changes the answer of `node_path` for no node.
pub node_path-gc :
    (m : Manifest) (d : Disk) (j : ℕ) → IsValid m → node_path (gc m d).0 j ≡ node_path m j
unfolding node_path gc keep_valid
node_path-gc m d j v = ground (arith, lookup-sweep j m.nodes d v.unique)

-- Whether a stale entry has this file.
unfoldable pub stale_file : Str → NodeTable → Bool
stale_file q [] = false
stale_file q ((i, n) ∷ t) = (not n.valid && key_eq n.file_path q) || stale_file q t

disk-sweep :
    (q : Str) (t : NodeTable) (d : Disk) → (sweep t d).1 q ≡ (if stale_file q t then none else d q)
unfolding sweep stale_file remove
disk-sweep q [] d = refl
disk-sweep q ((i, n) ∷ t) d =
    ground (arith, disk-sweep q t (if n.valid then d else remove n.file_path d))

-- `gc` removes the files of the invalidated nodes, and changes no other file.
pub disk-gc :
    (m : Manifest) (d : Disk) (q : Str)
    → (gc m d).1 q ≡ (if stale_file q m.nodes then none else d q)
unfolding gc
disk-gc m d q = disk-sweep q m.nodes d
