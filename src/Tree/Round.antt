-- ===== src/Tree/Round.antt =====
-- src/tree.cpp: `maybe_flush` and one round of `flush_thread_fn`.
use gravtree.Prelude.{ℕ, ◌&&◌, true, false, List, [], ◌∷◌, ◌==◌}
use gravtree.Key.{Str}
use gravtree.Entry.{Entry}
use gravtree.Bloom.Sizing.{Doubles}
use gravtree.Node.{SstNode, buffer_full, is_leaf}
use gravtree.Tree.{get_node, find_path}
use gravtree.Tree.State.{Tree, Action, ◌>>=◌, ◌>>◌, pure, modify}
use gravtree.Tree.Split.{split_leaf}
use gravtree.Tree.Write.{take_pending, fill_root}
use gravtree.Tree.Push.{do_flush}

module _ ⦃fl : Doubles⦄ where
  unfoldable pub maybe_flush : ℕ → ℕ → List ℕ → Action (Unit {0})
  maybe_flush fuel id path = do
    node ← get_node id
    elim (buffer_full node) [
      | false ↦ pure tt
      | true ↦ elim (is_leaf node && (node.num_children == 0)) [
        | true ↦ split_leaf fuel id path
        | false ↦ elim (node.num_children == 0) [ true ↦ pure tt | false ↦ do_flush fuel id ]
      ]
    ]

  -- `buffer.front().key`, or the empty key
  abbrev pub front_key : List Entry → Str
  front_key [] = []
  front_key (e ∷ es) = e.key

  -- what a round does with the filled root: a leaf is split, and another node flushed, if it is full
  unfoldable pub settle_root : ℕ → ℕ → SstNode → Action (Unit {0})
  settle_root fuel root_id root = elim (buffer_full root) [
    | false ↦ pure tt
    | true ↦ elim (is_leaf root && (root.num_children == 0)) [
      | true ↦ find_path fuel (front_key root.buffer) >>= split_leaf fuel root_id
      | false ↦ elim (root.num_children == 0) [ true ↦ pure tt | false ↦ do_flush fuel root_id ]
    ]
  ]

  -- the second critical section of a round
  unfoldable pub merge_round : ℕ → List Entry → Action (Unit {0})
  unfolding settle_root
  merge_round fuel pending = do
    p ← fill_root pending
    settle_root fuel p.0 p.1
    modify (λ t. record t { root_buf_bytes = t.write_buf.bytes })

  -- the body of the `try` of `flush_thread_fn`
  unfoldable pub flush_round : ℕ → Action (Unit {0})
  unfolding take_pending merge_round
  flush_round fuel = take_pending >>= merge_round fuel

  -- A round of the thread: the flags before and after, and no exception gets out.
  unfoldable pub thread_round : ℕ → Tree → Tree
  unfolding flush_round
  thread_round fuel t =
      let t' = (flush_round fuel (record t { flush_in_progress = true })).1 in
      record t' { flush_requested = false; flush_in_progress = false }
