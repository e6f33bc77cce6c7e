-- ===== src/Tree/Read.antt =====
-- src/tree.cpp: `get`, `range_scan` and `stats`.
use gravtree.Prelude.{
  ℕ, ◌&&◌, Bool, true, false, Option, none, some, List, [], ◌∷◌, ◌++◌, length, if◌then◌else◌,
}
use gravtree.Key.{Str, key_le}
use gravtree.Entry.{Entry}
use gravtree.Sort.{stable_sort}
use gravtree.SkipList.{find_key, to_sorted_vector}
use gravtree.Node
use gravtree.Node.{SstNode, back_has_key, might_contain}
use gravtree.File.{load_entries}
use gravtree.Tree.{get_node, find_path}
use gravtree.Tree.Cache.{NodeCache}
use gravtree.Tree.State.{Tree, Action, ◌>>=◌, ◌>>◌, pure, gets, results, put_node}

-- A tombstone answers that there is no value.
abbrev pub answer : Entry → Option Str
answer e = if e.deleted then none else some e.value

-- the loop of `get` over the path
unfoldable pub search_path : Str → List ℕ → Action (Option Str)
search_path key [] = pure none
search_path key (id ∷ path) = do
  node ← get_node id
  elim (might_contain node key) [
    | false ↦ search_path key path
    | true ↦ elim (Node.get node key) [ none ↦ search_path key path | some e ↦ pure (answer e) ]
  ]

-- the second critical section of `get`
unfoldable pub look_up : ℕ → Str → Action (Option Str)
look_up fuel key = find_path fuel key >>= search_path key

unfoldable pub get : ℕ → Str → Action (Option Str)
unfolding search_path look_up
get fuel key = do
  hot ← gets (λ t. find_key t.write_buf key)
  elim hot [ some e ↦ pure (answer e) | none ↦ look_up fuel key ]

-- `e.key >= start && e.key <= end`
abbrev pub in_bounds : Str → Str → Entry → Bool
in_bounds start end e = key_le start e.key && key_le e.key end

unfoldable pub within : Str → Str → List Entry → List Entry
within start end [] = []
within start end (e ∷ es) =
    let rest = within start end es in if in_bounds start end e then e ∷ rest else rest

-- the loop over `cache_`, each of whose nodes is loaded first if it is not
unfoldable pub collect_nodes : Str → Str → NodeCache → Action (List Entry)
unfolding within
collect_nodes start end [] = pure []
collect_nodes start end ((id, node) ∷ cache) = do
  node' ← results (λ t. load_entries node t.disk)
  put_node id node'
  more ← collect_nodes start end cache
  pure (within start end node'.buffer ++ more)

-- the last loop of `range_scan`
unfoldable pub live_entries : List Entry → List Entry → List Entry
live_entries [] result = result
live_entries (e ∷ es) result =
    live_entries es
      (if back_has_key result e.key then result else if e.deleted then result else result ++ e ∷ [])

unfoldable pub range_scan : Str → Str → Action (List Entry)
unfolding collect_nodes live_entries
range_scan start end = do
  hot ← gets (λ t. within start end (to_sorted_vector t.write_buf))
  cache ← gets (λ t. t.cache)
  cold ← collect_nodes start end cache
  pure (live_entries (stable_sort (hot ++ cold)) [])

pub record Stats : Type 0 where
  pub node_count : ℕ
  pub tree_height : ℕ
  pub total_flush_ops : ℕ
  pub total_split_ops : ℕ
  pub root_buf_bytes : ℕ

unfoldable pub stats : Tree → Stats
stats t = record {
  node_count = length t.cache;
  tree_height = 1;
  total_flush_ops = t.flush_ops;
  total_split_ops = t.split_ops;
  root_buf_bytes = t.root_buf_bytes;
}
