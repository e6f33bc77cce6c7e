-- ===== src/Tree/Split.antt =====
-- src/tree.cpp: `split_leaf`, `path_to` and `insert_child`.
use gravtree.Prelude.{
  ℕ, zero, suc, ◌+◌, ◌-◌, ◌/◌, true, false, Option, none, some, List, [], ◌∷◌, ◌++◌, ltb, ◌==◌,
  if◌then◌else◌, length, get_or, take, drop,
}
use gravtree.Key.{Str, key_lt}
use gravtree.Entry.{Entry, max_fanout, invalid_node_id}
use gravtree.Sort.{stable_sort}
use gravtree.Bloom.Sizing.{Doubles}
use gravtree.Node.{SstNode, blank}
use gravtree.Manifest.{register_node, invalidate_node, set_root}
use gravtree.File.{flush_to_disk}
use gravtree.Tree.{get_node, children_of}
use gravtree.Tree.Cache.{find, erase}
use gravtree.Tree.State.{
  Action, ◌>>=◌, ◌>>◌, pure, diverge, gets, modify, on_disk, on_manifest, new_id, save_manifest,
  collect, put_node, create_node, persist,
}

-- `dfs` over a list of children, by what it does to one
unfoldable pub first_found : (ℕ → Action (Option (List ℕ))) → List ℕ → Action (Option (List ℕ))
first_found dfs [] = pure none
first_found dfs (c ∷ children) = do
  found ← dfs c
  elim found [ none ↦ first_found dfs children | some path ↦ pure (some path) ]

-- `dfs`: the path from `id` to the target, if it is there
unfoldable pub path_from : ℕ → ℕ → ℕ → Action (Option (List ℕ))
unfolding first_found
path_from zero target id = diverge
path_from (suc fuel) target id = elim (id == target) [
  | true ↦ pure (some (id ∷ []))
  | false ↦ do
    node ← get_node id
    found ← first_found (path_from fuel target) (children_of node)
    elim found [ none ↦ pure none | some path ↦ pure (some (id ∷ path)) ]
]

unfoldable pub path_to : ℕ → ℕ → Action (List ℕ)
unfolding path_from
path_to fuel target = do
  root ← gets (λ t. t.manifest.root_id)
  found ← path_from fuel target root
  elim found [ none ↦ pure [] | some path ↦ pure path ]

-- The child `old` becomes the two children `left` and `right`, if it is there.
unfoldable pub replace_child : ℕ → ℕ → ℕ → List ℕ → Option (List ℕ)
replace_child old left right [] = none
replace_child old left right (c ∷ children) = elim (c == old) [
  | true ↦ some (left ∷ right ∷ children)
  | false ↦ elim (replace_child old left right children) [
    | none ↦ none
    | some rest ↦ some (c ∷ rest)
  ]
]

-- `path[path.size() - 2]`
abbrev pub parent_in : List ℕ → ℕ
parent_in path = get_or path (length path - 2) invalid_node_id

-- the two loops' `push_back`s: the entries below the key, and the others
unfoldable pub split_entries : Str → List Entry → List Entry × List Entry
split_entries key [] = ([], [])
split_entries key (e ∷ es) =
    let (l, r) = split_entries key es in if key_lt e.key key then (e ∷ l, r) else (l, e ∷ r)

-- `cache_[id]`, which adds a blank node if there is none
unfoldable pub cached : ℕ → Action SstNode
cached id t = elim (find id t.cache) [
  | some node ↦ pure node t
  | none ↦ (put_node id (blank 0 0) >>= λ _. pure (blank 0 0)) t
]

-- the range of a node from the ranges of the nodes `first` and `last`
abbrev pub spanning : SstNode → SstNode → SstNode → SstNode
spanning first last node = record node {
  key_range = record { min_key = first.key_range.min_key; max_key = last.key_range.max_key };
}

-- The range of a node in the cache is set to that of its children, through a reference: the lower end
-- before the last child is fetched.
unfoldable pub span_cached : ℕ → SstNode → Action SstNode
span_cached id node = do
  first ← get_node (get_or node.child_ids 0 invalid_node_id)
  let lowered : SstNode = record node {
    key_range = record node.key_range { min_key = first.key_range.min_key };
  }
  put_node id lowered
  last ← get_node (get_or node.child_ids (node.num_children - 1) invalid_node_id)
  pure
      (record lowered { key_range = record lowered.key_range { max_key = last.key_range.max_key } })

module _ ⦃fl : Doubles⦄ where
  -- `new_root`, one level above the halves of the old root
  unfoldable pub grow_root : ℕ → ℕ → ℕ → Action (Unit {0})
  grow_root level left right = do
    id ← new_id
    root ← create_node id level [] (left ∷ right ∷ [])
    first ← cached left
    last ← cached right
    root' ← persist (spanning first last root)
    on_manifest (set_root id)
    put_node id root'

  -- behind the label `done`
  unfoldable pub finish_parent : ℕ → SstNode → Action (Unit {0})
  finish_parent parent_id parent = elim (parent.num_children == 0) [
    | true ↦ persist parent >>= put_node parent_id
    | false ↦ span_cached parent_id parent >>= persist >>= put_node parent_id
  ]

  -- `span`
  unfoldable pub span : SstNode → List ℕ → Action SstNode
  span node children = do
    first ← get_node (get_or children 0 invalid_node_id)
    last ← get_node (get_or children (length children - 1) invalid_node_id)
    pure (spanning first last node)

  -- The halves of a full parent whose children, with the new one, are `kids`: the nodes are made,
  -- given the ranges of their children and written again.
  unfoldable pub make_halves : SstNode → List ℕ → Action (SstNode × SstNode)
  make_halves parent kids = do
    let lk = take (length kids / 2) kids
    let rk = drop (length kids / 2) kids
    right ← get_node (get_or rk 0 invalid_node_id)
    let bufs = split_entries right.key_range.min_key parent.buffer
    left_id ← new_id
    right_id ← new_id
    l ← create_node left_id parent.level bufs.0 lk
    r ← create_node right_id parent.level bufs.1 rk
    l' ← span l lk
    r' ← span r rk
    l'' ← on_disk (λ t. flush_to_disk t.data_dir l' t.disk)
    r'' ← on_disk (λ t. flush_to_disk t.data_dir r' t.disk)
    pure (l'', r'')

  -- The parent in the manifest and the cache gives way to its halves.
  unfoldable pub swap_halves : ℕ → SstNode → SstNode → Action (Unit {0})
  swap_halves pid l r = do
    on_manifest (invalidate_node pid)
    on_manifest (register_node l.id l.level l.file_path)
    on_manifest (register_node r.id r.level r.file_path)
    put_node l.id l
    put_node r.id r
    modify (λ t. record t { cache = erase pid t.cache })

  -- A full parent whose children, with the new one, are `kids` gives way to two nodes, which go
  -- below a new root or, by `insert_above`, into the node above. `path[path.size() - 2]` of an empty
  -- path, which the source reads out of bounds, is number 0.
  unfoldable pub split_parent :
      (ℕ → ℕ → ℕ → ℕ → Action (Unit {0})) → ℕ → SstNode → List ℕ → Action (Unit {0})
  split_parent insert_above fuel parent kids = do
    halves ← make_halves parent kids
    path ← path_to fuel parent.id
    swap_halves parent.id halves.0 halves.1
    elim (length path == 1) [
      | true ↦ grow_root (parent.level + 1) halves.0.id halves.1.id
      | false ↦ insert_above (parent_in path) parent.id halves.0.id halves.1.id
    ]
    save_manifest
    collect

  unfoldable pub insert_child : ℕ → ℕ → ℕ → ℕ → ℕ → Action (Unit {0})
  insert_child zero parent_id old left right = diverge
  insert_child (suc fuel) parent_id old left right = do
    parent ← get_node parent_id
    elim (replace_child old left right (children_of parent)) [
      | none ↦ finish_parent parent_id parent
      | some kids ↦ elim (ltb parent.num_children max_fanout) [
        | true ↦
            let parent' : SstNode = record parent {
              num_children = parent.num_children + 1;
              child_ids = kids ++ drop (parent.num_children + 1) parent.child_ids;
            } in
            put_node parent_id parent' >>= λ _. finish_parent parent_id parent'
        | false ↦ split_parent (insert_child fuel) fuel parent kids
      ]
    ]

  unfoldable pub split_leaf : ℕ → ℕ → List ℕ → Action (Unit {0})
  split_leaf fuel leaf_id path = do
    leaf ← get_node leaf_id
    let sorted = stable_sort leaf.buffer
    put_node leaf_id (record leaf { buffer = sorted })
    let mid = length sorted / 2
    left_id ← new_id
    right_id ← new_id
    l ← create_node left_id 0 (take mid sorted) []
    r ← create_node right_id 0 (drop mid sorted) []
    on_manifest (register_node left_id 0 l.file_path)
    on_manifest (register_node right_id 0 r.file_path)
    on_manifest (invalidate_node leaf_id)
    modify (λ t. record t { split_ops = t.split_ops + 1 })
    put_node left_id l
    put_node right_id r
    modify (λ t. record t { cache = erase leaf_id t.cache })
    elim (length path == 1) [
      | true ↦ grow_root 1 left_id right_id
      | false ↦ insert_child fuel (parent_in path) leaf_id left_id right_id
    ]
    save_manifest
    collect
