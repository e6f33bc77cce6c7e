-- ===== src/Tests/OfFlush.antt =====
-- Runs of the partition and of `local_flush`.
use gravtree.Prelude.{All, ◌≡◌, refl, ◌==◌, none, [], ◌∷◌, if◌then◌else◌, arith}
use gravtree.Key.{Str, cmp}
use gravtree.Entry.{before}
use gravtree.Entry.Newest.{newest, newer}
use gravtree.Disk.{Disk}
use gravtree.Result.{ok}
use gravtree.Manifest.Table.{assign, lookup}
use gravtree.Flush.Local.Registered.{AllRegistered, node_path-local_flush}
use gravtree.Manifest.{Manifest, register_node, node_path, empty_manifest}
use gravtree.Flush.{route, route_below}
use gravtree.Flush.Local.{local_flush}
use gravtree.Flush.Local.Newest.{buffer_at, AllReady, newest-local_flush}
use gravtree.Tests.Data.{apple, banana, leaf, mixed, sorted_a, two_children, whole_numbers}

abbrev dir : Str
dir = b'd' ∷ []

abbrev no_files : Disk
no_files p = none

two_children-AllReady : AllReady two_children
unfolding before cmp
two_children-AllReady =
    ((refl, ((refl, (refl, tt)), ((refl, tt), (tt, tt)))), ((refl, (tt, tt)), tt))

route_runs : route two_children banana ≡ 0
unfolding route route_below cmp
route_runs = refl

newest-local_flush_example :
    ((local_flush (leaf 1 apple mixed) two_children (empty_manifest dir) no_files dir).1.thrown
      ≡ none)
    × (newest apple (
          buffer_at
            (local_flush
              (leaf 1 apple mixed)
              two_children
              (empty_manifest dir)
              no_files
              dir).1.children
            0)
        ≡ newer
            (if route two_children apple == 0 then newest apple mixed else none)
            (newest apple sorted_a))
newest-local_flush_example =
    newest-local_flush (leaf 1 apple mixed) two_children (empty_manifest dir) no_files dir
      two_children-AllReady apple 0 (omega arith)

-- the manifest in which the two children are registered
abbrev two_registered : Manifest
two_registered = record (register_node 3 0 [] (register_node 2 0 [] (empty_manifest dir))) {
  next_id = 4;
}

two_children-AllRegistered : AllRegistered two_registered two_children
unfolding register_node node_path assign lookup
two_children-AllRegistered =
    ((refl, omega arith, refl), ((λ e. omega arith), tt), ((refl, omega arith, refl), tt, tt))

node_path-local_flush_example :
    All
      (λ c.
        node_path
          (local_flush (leaf 1 apple mixed) two_children two_registered no_files dir).1.manifest
          c.id
        ≡ ok c.file_path)
      (local_flush (leaf 1 apple mixed) two_children two_registered no_files dir).1.children
node_path-local_flush_example =
    node_path-local_flush (leaf 1 apple mixed) two_children two_registered no_files dir
      two_children-AllRegistered (omega arith)
