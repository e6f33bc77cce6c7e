-- ===== src/Tree/Push.antt =====
-- src/tree.cpp: `do_flush`.
use gravtree.Prelude.{
  Option, ℕ, zero, suc, ◌+◌, ◌-◌, ◌||◌, ◌&&◌, Bool, true, false, none, some, List, [], ◌∷◌, ◌==◌,
  if◌then◌else◌, get_or,
}
use gravtree.Key.{key_lt, is_empty}
use gravtree.Entry.{invalid_node_id}
use gravtree.Result.{Error}
use gravtree.Bloom.Sizing.{Doubles}
use gravtree.Node.{SstNode, buffer_full, is_leaf}
use gravtree.File.{load_entries}
use gravtree.Flush.Local.{Flushed, local_flush}
use gravtree.Tree.{get_node, children_of}
use gravtree.Tree.Cache.{find, put, erase}
use gravtree.Tree.State.{
  Outcome, returned, thrown, Action, ◌>>=◌, ◌>>◌, pure, diverge, gets, modify, results,
  save_manifest, collect, put_node, persist,
}
use gravtree.Tree.Split.{split_leaf, span_cached}

-- The children are loaded where the cache has them, and copied.
unfoldable pub load_children : List ℕ → Action (List SstNode)
load_children [] = pure []
load_children (id ∷ ids) = do
  node ← get_node id
  node' ← results (λ t. load_entries node t.disk)
  put_node id node'
  rest ← load_children ids
  pure (node' ∷ rest)

-- `result.old_child_ids[k] == old_id` for some `k`
unfoldable pub is_old : ℕ → List ℕ → Bool
is_old id [] = false
is_old id (c ∷ old) = (c == id) || is_old id old

-- the first `n` slots, each replaced where the child was rewritten
unfoldable pub relink : ℕ → List ℕ → List ℕ → List ℕ → List ℕ
unfolding is_old
relink zero ids new old = ids
relink (suc n) [] new old = []
relink (suc n) (c ∷ ids) [] old = c ∷ ids
relink (suc n) (c ∷ ids) (w ∷ new) old = (if is_old c old then w else c) ∷ relink n ids new old

-- The range grows to take in the ranges of the node's children.
unfoldable pub widened : SstNode → SstNode → SstNode → SstNode
widened first last c =
    let cmin = first.key_range.min_key in
    let cmax = last.key_range.max_key in
    let r = c.key_range in
    record c {
      key_range = record {
        min_key = if is_empty r.min_key || key_lt cmin r.min_key then cmin else r.min_key;
        max_key = if is_empty r.max_key || key_lt r.max_key cmax then cmax else r.max_key;
      };
    }

-- the first and the last child of a node that has children
unfoldable pub end_children : SstNode → Action (SstNode × SstNode)
end_children node = do
  first ← get_node (get_or node.child_ids 0 invalid_node_id)
  last ← get_node (get_or node.child_ids (node.num_children - 1) invalid_node_id)
  pure (first, last)

-- `cache_.erase(result.old_child_ids[i])`, if there is an `i`-th
abbrev pub erase_first : List ℕ → Action (Unit {0})
erase_first [] = pure tt
erase_first (id ∷ old) = modify (λ t. record t { cache = erase id t.cache })

abbrev pub rest_of : List ℕ → List ℕ
rest_of [] = []
rest_of (id ∷ old) = old

abbrev pub unless_thrown {ℓ} : {A : Type ℓ} → Option Error → A → Outcome A
unless_thrown none a = returned a
unless_thrown (some e) a = thrown e

module _ ⦃fl : Doubles⦄ where
  unfoldable pub widen_child : SstNode → Action SstNode
  widen_child c = elim (c.num_children == 0) [
    | true ↦ pure c
    | false ↦ end_children c >>= λ p. persist (widened p.0 p.1 c)
  ]

  -- the loop that puts the children into the cache
  unfoldable pub refresh_children : List SstNode → List ℕ → Action (Unit {0})
  refresh_children [] old = pure tt
  refresh_children (c ∷ children) old = do
    erase_first old
    c' ← widen_child c
    put_node c'.id c'
    refresh_children children (rest_of old)

  -- `local_flush` on the members; what it changed stays if it throws
  abbrev pub push_down : ℕ → SstNode → List SstNode → Action (SstNode × Flushed)
  push_down parent_id parent children t =
      let r = local_flush parent children t.manifest t.disk t.data_dir in
      (
        unless_thrown r.1.thrown r,
        record t { manifest = r.1.manifest; disk = r.1.disk; cache = put parent_id r.0 t.cache },
      )

  -- the parent's buffer is cleared, its range set, and the parent written
  unfoldable pub finish_flush : ℕ → SstNode → Action (Unit {0})
  finish_flush parent_id parent = do
    let cleared : SstNode = record parent { buffer = [] }
    put_node parent_id cleared
    elim (parent.num_children == 0) [
      | true ↦ persist cleared >>= put_node parent_id
      | false ↦ span_cached parent_id cleared >>= persist >>= put_node parent_id
    ]

  -- a child that may be full, by what `do_flush` does to one
  unfoldable pub flush_full : (ℕ → Action (Unit {0})) → ℕ → ℕ → ℕ → SstNode → Action (Unit {0})
  flush_full flush_child fuel parent_id cid child = elim (buffer_full child) [
    | false ↦ pure tt
    | true ↦ elim (is_leaf child && (child.num_children == 0)) [
      | true ↦ split_leaf fuel cid (parent_id ∷ cid ∷ [])
      | false ↦ elim (child.num_children == 0) [ true ↦ pure tt | false ↦ flush_child cid ]
    ]
  ]

  -- the loop over the children that may be full
  unfoldable pub overflow : (ℕ → Action (Unit {0})) → ℕ → ℕ → List ℕ → Action (Unit {0})
  overflow flush_child fuel parent_id [] = pure tt
  overflow flush_child fuel parent_id (cid ∷ to_check) = do
    cached ← gets (λ t. find cid t.cache)
    elim cached [ none ↦ pure tt | some child ↦ flush_full flush_child fuel parent_id cid child ]
    overflow flush_child fuel parent_id to_check

  -- `do_flush` up to its last loop; the result is `result.new_child_ids`
  unfoldable pub push : ℕ → Action (List ℕ)
  push parent_id = do
    parent ← get_node parent_id
    children ← load_children (children_of parent)
    result ← push_down parent_id parent children
    modify (λ t. record t { flush_ops = t.flush_ops + 1 })
    let sorted = result.0
    let f = result.1
    let parent' : SstNode = record sorted {
      child_ids = relink sorted.num_children sorted.child_ids f.new_child_ids f.old_child_ids;
    }
    put_node parent_id parent'
    refresh_children f.children f.old_child_ids
    finish_flush parent_id parent'
    save_manifest
    collect
    pure f.new_child_ids

  unfoldable pub do_flush : ℕ → ℕ → Action (Unit {0})
  do_flush zero parent_id = diverge
  do_flush (suc fuel) parent_id = push parent_id >>= overflow (do_flush fuel) fuel parent_id
