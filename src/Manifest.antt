-- ===== src/Manifest.antt =====
-- include/gravtree/manifest.h and src/manifest.cpp: what the store knows of its nodes. The text of
-- the file is `Manifest.Text`. Every method holds the manifest's mutex from its first line to its
-- last, so each is one step.
pub mod Table
pub mod Laws
pub mod Gc
pub mod Text
use gravtree.Prelude.{
  ℕ, ◌+◌, ◌%◌, ◌^◌, Bool, true, false, not, ◌&&◌, Option, none, some, List, [], ◌∷◌, ◌==◌,
  if◌then◌else◌,
}
use gravtree.Key.{Str}
use gravtree.Entry.{invalid_node_id}
use gravtree.Result.{Result, ok, err, unknown_node}
use gravtree.Disk.{Disk, remove}
use Table.{NodeTable, lookup, assign, set_valid_false, NodeMeta}

pub record Manifest : Type 0 where
  pub dir : Str
  pub root_id : ℕ
  pub next_id : ℕ
  pub nodes : NodeTable

-- the constructor
abbrev pub empty_manifest : Str → Manifest
empty_manifest dir = record { dir = dir; root_id = invalid_node_id; next_id = 1; nodes = [] }

-- `next_id_.fetch_add(1)`
unfoldable pub next_node_id : Manifest → ℕ × Manifest
next_node_id m = (m.next_id, record m { next_id = (m.next_id + 1) % 2 ^ 64 })

unfoldable pub register_node : ℕ → ℕ → Str → Manifest → Manifest
register_node id level path m = record m {
  nodes = assign id (record { id = id; level = level; file_path = path; valid = true }) m.nodes;
}

unfoldable pub invalidate_node : ℕ → Manifest → Manifest
invalidate_node id m = record m { nodes = set_valid_false id m.nodes }

unfoldable pub set_root : ℕ → Manifest → Manifest
set_root id m = record m { root_id = id }

path_of : Option NodeMeta → Result Str
path_of none = err unknown_node
path_of (some n) = if not n.valid then err unknown_node else ok n.file_path

unfoldable pub node_path : Manifest → ℕ → Result Str
unfolding path_of
node_path m id = path_of (lookup id m.nodes)

at_level : ℕ → NodeTable → List NodeMeta
at_level level [] = []
at_level level ((id, n) ∷ t) =
    let rest = at_level level t in if n.valid && (n.level == level) then n ∷ rest else rest

unfoldable pub nodes_at_level : Manifest → ℕ → List NodeMeta
unfolding at_level
nodes_at_level m level = at_level level m.nodes

-- the loop of `gc`: the entries that stay, and the disk without the files of the others
unfoldable pub sweep : NodeTable → Disk → NodeTable × Disk
sweep [] d = ([], d)
sweep ((id, n) ∷ t) d =
    let (rest, d') = sweep t (if n.valid then d else remove n.file_path d) in
    (if n.valid then (id, n) ∷ rest else rest, d')

unfoldable pub gc : Manifest → Disk → Manifest × Disk
unfolding sweep
gc m d = let (nodes, d') = sweep m.nodes d in (record m { nodes = nodes }, d')
