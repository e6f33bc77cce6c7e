-- ===== src/Tests/OfManifest.antt =====
-- Runs of the manifest and of its file.
use gravtree.Prelude.{
  ℕ, ◌≡◌, refl, ◌<◌, Bool, true, false, none, some, [], ◌∷◌, arith, if◌then◌else◌, ltb,
}
use gravtree.Key.{Str, key_eq}
use gravtree.Result.{err, unknown_node}
use gravtree.Disk.{Disk, store, rename, rename-store}
use gravtree.Manifest.{Manifest, next_node_id, register_node, node_path, gc}
use gravtree.Manifest.Table.{NodeMeta, assign}
use gravtree.Manifest.Laws.{IsValid, next_node_id_fresh, register_node-IsValid}
use gravtree.Manifest.Gc.{node_path-gc, disk-gc, stale_file}
use gravtree.Manifest.Text.{save, load, load_line, node_line, space}
use gravtree.Manifest.Text.Lines.{load_line-spaced}
use gravtree.Manifest.Text.RoundTrip.{Fits, load-save}

abbrev dir : Str
dir = b'd' ∷ []

abbrev file_a : Str
file_a = b'd' ∷ b'/' ∷ b'a' ∷ []

abbrev file_b : Str
file_b = b'd' ∷ b'/' ∷ b'b' ∷ []

abbrev meta : ℕ → Str → Bool → NodeMeta
meta id path valid = record { id = id; level = 0; file_path = path; valid = valid }

-- node 1 is stale, node 2 is the root
abbrev two_nodes : Manifest
two_nodes = record {
  dir = dir;
  root_id = 2;
  next_id = 3;
  nodes = (1, meta 1 file_a false) ∷ (2, meta 2 file_b true) ∷ [];
}

abbrev both_files : Disk
both_files p = some (1 ∷ [])

two_nodes-IsValid : IsValid two_nodes
two_nodes-IsValid = record {
  keys = ((omega arith, refl), ((omega arith, refl), tt));
  unique = (((λ e. omega arith), tt), (tt, tt));
  positive = omega arith;
}

two_nodes-Fits : Fits two_nodes
two_nodes-Fits = record {
  root = omega arith;
  next = omega arith;
  nodes = (
    record { id = omega arith; level = omega arith; path = (refl, (refl, (refl, tt))) },
    (record { id = omega arith; level = omega arith; path = (refl, (refl, (refl, tt))) }, tt),
  );
}

load-save_example :
    load (save two_nodes both_files) (record two_nodes { root_id = 0; next_id = 1; nodes = [] })
    ≡ some two_nodes
load-save_example = load-save two_nodes both_files two_nodes-IsValid two_nodes-Fits

load_line-spaced_example :
    load_line (node_line (meta 1 (b'm' ∷ b'y' ∷ space ∷ file_a) true)) (two_nodes, 0)
    ≡ some (
      record two_nodes { nodes = assign 1 (meta 1 (b'm' ∷ b'y' ∷ []) true) two_nodes.nodes },
      if ltb 0 1 then 1 else 0,
    )
load_line-spaced_example =
    load_line-spaced (meta 1 (b'm' ∷ b'y' ∷ space ∷ file_a) true) two_nodes 0 b'm' (b'y' ∷ [])
      file_a (omega arith) (omega arith) (refl, (refl, tt)) refl

next_node_id_fresh_example :
    (node_path two_nodes (next_node_id two_nodes).0 ≡ err unknown_node)
    × ((next_node_id two_nodes).0 < (next_node_id two_nodes).1.next_id)
    × IsValid (next_node_id two_nodes).1
next_node_id_fresh_example = next_node_id_fresh two_nodes two_nodes-IsValid (omega arith)

register_node-IsValid_example : IsValid (register_node 1 0 file_a two_nodes)
register_node-IsValid_example =
    register_node-IsValid 1 0 file_a two_nodes two_nodes-IsValid (omega arith)

node_path-gc_example : node_path (gc two_nodes both_files).0 2 ≡ node_path two_nodes 2
node_path-gc_example = node_path-gc two_nodes both_files 2 two_nodes-IsValid

disk-gc_example :
    (gc two_nodes both_files).1 file_a
    ≡ (if stale_file file_a two_nodes.nodes then none else both_files file_a)
disk-gc_example = disk-gc two_nodes both_files file_a

rename-store_example : rename file_b file_a (store file_b (7 ∷ []) both_files) dir ≡ (
    if key_eq file_a dir then some (7 ∷ []) else if key_eq file_b dir then none else both_files dir)
rename-store_example = rename-store file_b file_a dir (7 ∷ []) both_files
