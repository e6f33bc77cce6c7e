-- ===== src/Tree.antt =====
-- include/gravtree/tree.h and src/tree.cpp: the state of the tree, and the walks through its nodes.
-- The members that a method changes are the state, and `disk` is the file system. A method runs
-- while its thread holds the mutexes that it takes.
pub mod Cache
pub mod State
pub mod Read
pub mod Write
pub mod Split
pub mod Push
pub mod Round
pub mod Scan
pub mod Cached
pub mod Open
pub mod Frame
pub mod Threads
pub mod Fan
use gravtree.Prelude.{
  ℕ, zero, suc, Bool, true, false, Option, none, some, List, [], ◌∷◌, take, get_or,
}
use gravtree.Key.{Str, key_le}
use gravtree.Entry.{invalid_node_id}
use gravtree.Node.{SstNode, is_leaf}
use gravtree.File.{load_header, load_entries}
use gravtree.Manifest.{node_path}
use gravtree.Tree.Cache.{find, put}
use gravtree.Tree.State.{Action, ◌>>=◌, ◌>>◌, pure, diverge, gets, modify, results}

-- the children in use
abbrev pub children_of : SstNode → List ℕ
children_of node = take node.num_children node.child_ids

abbrev pub fetch : ℕ → Option SstNode → Action SstNode
fetch id (some node) = pure node
fetch id none = do
  path ← results (λ t. node_path t.manifest id)
  header ← results (λ t. load_header path t.disk)
  node ← results (λ t. load_entries header t.disk)
  modify (λ t. record t { cache = put id node t.cache })
  pure node

unfoldable pub get_node : ℕ → Action SstNode
get_node id = do cached ← gets (λ t. find id t.cache); fetch id cached

-- the loop of `find_path` over the children, where `next` is the last one that did not begin above
-- the key
unfoldable pub choose_child : Str → List ℕ → ℕ → Action ℕ
choose_child key [] next = pure next
choose_child key (c ∷ children) next = do
  child ← get_node c
  elim (key_le child.key_range.min_key key) [
    | true ↦ choose_child key children c
    | false ↦ pure next
  ]

-- `find_path` from the node `cur` on
unfoldable pub path_below : ℕ → Str → ℕ → Action (List ℕ)
unfolding choose_child
path_below zero key cur = diverge
path_below (suc fuel) key cur = do
  node ← get_node cur
  elim (is_leaf node) [
    | true ↦ pure (cur ∷ [])
    | false ↦
        choose_child key (children_of node) (get_or node.child_ids 0 invalid_node_id) >>= λ next.
        path_below fuel key next >>= λ rest. pure (cur ∷ rest)
  ]

unfoldable pub find_path : ℕ → Str → Action (List ℕ)
unfolding path_below
find_path fuel key = do root ← gets (λ t. t.manifest.root_id); path_below fuel key root
