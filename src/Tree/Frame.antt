-- ===== src/Tree/Frame.antt =====
-- The methods that run under `cache_mu_` leave the write buffer, the numbers and the flags alone.
pub mod Reading
pub mod Splitting
use gravtree.Prelude.{
  ℕ, zero, suc, ◌+◌, ◌-◌, ◌&&◌, Bool, true, false, Option, none, some, List, [], ◌∷◌, ◌≡◌, refl,
  ◌==◌, get_or, length, take, drop, ltb, ◌/◌, ◌++◌, Option-cases, inl, inr,
}
use gravtree.Key.{Str, key_le}
use gravtree.Entry.{Entry, invalid_node_id, max_fanout}
use gravtree.Bloom.Sizing.{Doubles}
use gravtree.Node.{SstNode, blank, might_contain, is_leaf, buffer_full}
use gravtree.File.{create, flush_to_disk, load_header, load_entries}
use gravtree.Manifest.{node_path, next_node_id, register_node}
use gravtree.Tree.{get_node, children_of, choose_child, path_below, find_path, fetch}
use gravtree.Tree.Cache.{find, put}
use gravtree.Tree.State.{
  Tree, Action, ◌>>=◌, ◌>>◌, pure, diverge, gets, modify, results, on_disk, on_manifest, new_id,
  save_manifest, collect, put_node, create_node, persist,
}
use gravtree.Tree.Split.{
  first_found, path_from, path_to, replace_child, split_entries, cached, spanning, grow_root,
  span_cached, finish_parent, span, make_halves, swap_halves, split_parent, insert_child,
  split_leaf, parent_in,
}
use gravtree.Tree.Push.{
  load_children, relink, widened, end_children, widen_child, refresh_children, finish_flush,
  overflow, flush_full, push, do_flush, erase_first, rest_of, push_down,
}
use gravtree.Flush.Local.{Flushed, local_flush}
use gravtree.Tree.Write.{fill_root, persist_root, flush_pending}
use gravtree.Tree.Read.{search_path, look_up}
use gravtree.Node
use gravtree.Tree.Round.{merge_round, settle_root, front_key}
use gravtree.Tree.Cached.Splitting.{left_id, right_id, halved}
use gravtree.Tree.State.Front.{front, Keeps, Keeps-bind, Keeps-if, Keeps-option}
use gravtree.Tree.Frame.Reading.{
  fetch-Keeps, get_node-Keeps, choose_child-Keeps, path_below-Keeps, find_path-Keeps,
  first_found-Keeps, path_from-Keeps, path_to-Keeps, cached-Keeps, load_children-Keeps,
  end_children-Keeps, erase_first-Keeps, search_path-Keeps, look_up-Keeps,
}
use gravtree.Tree.Frame.Splitting.{
  persist-Keeps, grow_root-Keeps, span_cached-Keeps, finish_parent-Keeps, span-Keeps,
  make_halves-Keeps, swap_halves-Keeps, split_parent-Keeps, insert_child-Keeps, split_leaf-Keeps,
}

module _ ⦃fl : Doubles⦄ where
  widen_child-Keeps : (c : SstNode) → Keeps (widen_child c)
  unfolding widen_child
  widen_child-Keeps c =
      Keeps-if (c.num_children == 0) _ _ (λ t. refl)
        (Keeps-bind (end_children c) _ (end_children-Keeps c) (λ p t. refl))

  refresh_children-Keeps : (cs : List SstNode) (old : List ℕ) → Keeps (refresh_children cs old)
  unfolding refresh_children
  refresh_children-Keeps [] old = λ t. refl
  refresh_children-Keeps (c ∷ cs) old = Keeps-bind (erase_first old) _ (erase_first-Keeps old) (λ u.
      Keeps-bind (widen_child c) _ (widen_child-Keeps c) (λ c' t.
        refresh_children-Keeps cs (rest_of old) (record t { cache = put c'.id c' t.cache })))

  finish_flush-Keeps : (id : ℕ) (parent : SstNode) → Keeps (finish_flush id parent)
  unfolding finish_flush
  finish_flush-Keeps id parent t =
      let cleared : SstNode = record parent { buffer = [] } in
      Keeps-if (parent.num_children == 0) _ _ (λ t. refl)
        (Keeps-bind (span_cached id cleared >>= persist) _
          (Keeps-bind (span_cached id cleared) _ (span_cached-Keeps id cleared) (λ n t. refl))
          (λ n t. refl))
        (record t { cache = put id cleared t.cache })

  flush_full-Keeps :
      (flush_child : ℕ → Action (Unit {0})) (fuel parent_id cid : ℕ) (child : SstNode)
      → ((c : ℕ) → Keeps (flush_child c))
      → Keeps (flush_full flush_child fuel parent_id cid child)
  unfolding flush_full
  flush_full-Keeps flush_child fuel parent_id cid child h =
      Keeps-if (buffer_full child) _ _
        (Keeps-if (is_leaf child && (child.num_children == 0)) _ _
          (split_leaf-Keeps fuel cid (parent_id ∷ cid ∷ []))
          (Keeps-if (child.num_children == 0) _ _ (λ t. refl) (h cid)))
        (λ t. refl)

  overflow-Keeps :
      (flush_child : ℕ → Action (Unit {0})) (fuel parent_id : ℕ) (cs : List ℕ)
      → ((c : ℕ) → Keeps (flush_child c))
      → Keeps (overflow flush_child fuel parent_id cs)
  unfolding overflow
  overflow-Keeps flush_child fuel parent_id [] h t = refl
  overflow-Keeps flush_child fuel parent_id (cid ∷ cs) h t =
      Keeps-bind
        (elim (find cid t.cache) as (λ _. Action (Unit {0})) [
          | none ↦ pure tt
          | some child ↦ flush_full flush_child fuel parent_id cid child
        ])
        _
        (Keeps-option (find cid t.cache) _ _ (λ t. refl)
          (λ child. flush_full-Keeps flush_child fuel parent_id cid child h))
        (λ u. overflow-Keeps flush_child fuel parent_id cs h) t

  push-Keeps : (parent_id : ℕ) → Keeps (push parent_id)
  unfolding push
  push-Keeps parent_id = Keeps-bind (get_node parent_id) _ (get_node-Keeps parent_id) (λ parent.
      Keeps-bind (load_children (children_of parent)) _ (load_children-Keeps (children_of parent))
        (λ children.
          Keeps-bind (push_down parent_id parent children) _ (λ t. refl)
            (λ result t.
              let parent' : SstNode = record result.0 {
                child_ids =
                    relink result.0.num_children result.0.child_ids result.1.new_child_ids
                      result.1.old_child_ids;
              } in
              Keeps-bind (refresh_children result.1.children result.1.old_child_ids) _
                (refresh_children-Keeps result.1.children result.1.old_child_ids)
                (λ u.
                  Keeps-bind (finish_flush parent_id parent') _
                    (finish_flush-Keeps parent_id parent') (λ u t. refl))
                (record t { flush_ops = t.flush_ops + 1; cache = put parent_id parent' t.cache }))))

  do_flush-Keeps : (fuel parent_id : ℕ) → Keeps (do_flush fuel parent_id)
  unfolding do_flush
  do_flush-Keeps zero parent_id = λ t. refl
  do_flush-Keeps (suc fuel) parent_id =
      Keeps-bind (push parent_id) _ (push-Keeps parent_id)
        (λ new. overflow-Keeps (do_flush fuel) fuel parent_id new (do_flush-Keeps fuel))

  fill_root-Keeps : (pending : List Entry) → Keeps (fill_root pending)
  unfolding fill_root
  fill_root-Keeps pending t =
      Keeps-bind (get_node t.manifest.root_id) _ (get_node-Keeps t.manifest.root_id)
        (λ root t. refl) t

  persist_root-Keeps : (rid : ℕ) (root : SstNode) → Keeps (persist_root rid root)
  unfolding persist_root
  persist_root-Keeps rid root = stored root.buffer
    where
      stored :
          (es : List Entry)
          → Keeps (elim es as (λ _. Action (Unit {0})) [
            | [] ↦ pure tt
            | e ∷ es ↦ do
              root' ← on_disk (λ t. flush_to_disk t.data_dir root t.disk)
              put_node rid root'
              on_manifest (register_node rid root'.level root'.file_path)
              save_manifest
          ])
      stored [] = λ t. refl
      stored (e ∷ es) = λ t. refl

  pub flush_pending-Keeps : (pending : List Entry) → Keeps (flush_pending pending)
  unfolding flush_pending
  flush_pending-Keeps pending =
      Keeps-bind (fill_root pending) _ (fill_root-Keeps pending) (λ p. persist_root-Keeps p.0 p.1)

  -- With any fuel, and also where it throws or diverges, the second critical section of a round,
  -- with all that it calls, leaves the write buffer, the next number, the two flags, `stop_` and
  -- the limits as they are.
  pub front-merge_round :
      (fuel : ℕ) (pending : List Entry) (t : Tree) → front (merge_round fuel pending t).1 ≡ front t
  unfolding merge_round settle_root
  front-merge_round fuel pending = Keeps-bind (fill_root pending) _ (fill_root-Keeps pending) (λ p.
      Keeps-bind _ _
        (Keeps-if (buffer_full p.1) _ _
          (Keeps-if (is_leaf p.1 && (p.1.num_children == 0)) _ _
            (Keeps-bind (find_path fuel (front_key p.1.buffer)) _
              (find_path-Keeps fuel (front_key p.1.buffer)) (split_leaf-Keeps fuel p.0))
            (Keeps-if (p.1.num_children == 0) _ _ (λ t. refl) (do_flush-Keeps fuel p.0)))
          (λ t. refl))
        (λ u t. refl))
