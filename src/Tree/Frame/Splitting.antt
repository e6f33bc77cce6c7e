-- ===== src/Tree/Frame/Splitting.antt =====
-- So do the methods that split nodes.
use gravtree.Prelude.{
  ℕ, zero, suc, ◌+◌, ◌-◌, true, false, List, [], ◌∷◌, refl, ◌==◌, get_or, length, take, drop, ltb,
  ◌/◌, ◌++◌,
}
use gravtree.Entry.{invalid_node_id, max_fanout}
use gravtree.Bloom.Sizing.{Doubles}
use gravtree.Node.{SstNode}
use gravtree.File.{create}
use gravtree.Manifest.{next_node_id}
use gravtree.Tree.{get_node, children_of}
use gravtree.Tree.Cache.{put}
use gravtree.Tree.State.{Action, ◌>>=◌, persist}
use gravtree.Tree.Split.{
  path_to, replace_child, split_entries, cached, grow_root, span_cached, finish_parent, span,
  make_halves, swap_halves, split_parent, insert_child, split_leaf, parent_in,
}
use gravtree.Tree.Cached.Splitting.{left_id, right_id, halved}
use gravtree.Tree.State.Front.{Keeps, Keeps-bind, Keeps-if, Keeps-option}
use gravtree.Tree.Frame.Reading.{get_node-Keeps, path_to-Keeps, cached-Keeps}

pub span_cached-Keeps : (id : ℕ) (node : SstNode) → Keeps (span_cached id node)
unfolding span_cached
span_cached-Keeps id node =
    Keeps-bind (get_node (get_or node.child_ids 0 invalid_node_id)) _ (get_node-Keeps _) (λ first t.
      Keeps-bind (get_node (get_or node.child_ids (node.num_children - 1) invalid_node_id)) _
        (get_node-Keeps _) (λ last t. refl)
        (record t {
          cache =
              put id
                (record node {
                  key_range = record node.key_range { min_key = first.key_range.min_key };
                })
                t.cache;
        }))

module _ ⦃fl : Doubles⦄ where
  pub persist-Keeps : (n : SstNode) → Keeps (persist n)
  persist-Keeps n t = refl

  pub grow_root-Keeps : (level left right : ℕ) → Keeps (grow_root level left right)
  unfolding grow_root
  grow_root-Keeps level left right t =
      let m = (next_node_id t.manifest).1 in
      let made =
        create (next_node_id t.manifest).0 level [] (left ∷ right ∷ []) t.data_dir t.disk in
      Keeps-bind (cached left) _ (cached-Keeps left)
        (λ first. Keeps-bind (cached right) _ (cached-Keeps right) (λ last t. refl))
        (record t { manifest = m; disk = made.1 })

  pub finish_parent-Keeps : (id : ℕ) (parent : SstNode) → Keeps (finish_parent id parent)
  unfolding finish_parent
  finish_parent-Keeps id parent =
      Keeps-if (parent.num_children == 0) _ _ (λ t. refl)
        (Keeps-bind (span_cached id parent >>= persist) _
          (Keeps-bind (span_cached id parent) _ (span_cached-Keeps id parent) (λ n t. refl))
          (λ n t. refl))

  pub span-Keeps : (n : SstNode) (cs : List ℕ) → Keeps (span n cs)
  unfolding span
  span-Keeps n cs =
      Keeps-bind (get_node (get_or cs 0 invalid_node_id)) _ (get_node-Keeps _) (λ first.
        Keeps-bind (get_node (get_or cs (length cs - 1) invalid_node_id)) _ (get_node-Keeps _)
          (λ last t. refl))

  pub make_halves-Keeps : (parent : SstNode) (kids : List ℕ) → Keeps (make_halves parent kids)
  unfolding make_halves
  make_halves-Keeps parent kids =
      let lk = take (length kids / 2) kids in
      let rk = drop (length kids / 2) kids in
      Keeps-bind (get_node (get_or rk 0 invalid_node_id)) _ (get_node-Keeps _) (λ right t.
        let bufs = split_entries right.key_range.min_key parent.buffer in
        let (left_id, m) = next_node_id t.manifest in
        let (right_id, m') = next_node_id m in
        let l = create left_id parent.level bufs.0 lk t.data_dir t.disk in
        let r = create right_id parent.level bufs.1 rk t.data_dir l.1 in
        Keeps-bind (span l.0 lk) _ (span-Keeps l.0 lk)
          (λ l'. Keeps-bind (span r.0 rk) _ (span-Keeps r.0 rk) (λ r' t. refl))
          (record t { manifest = m'; disk = r.1 }))

  pub swap_halves-Keeps : (pid : ℕ) (l r : SstNode) → Keeps (swap_halves pid l r)
  unfolding swap_halves
  swap_halves-Keeps pid l r = λ t. refl

  pub split_parent-Keeps :
      (insert_above : ℕ → ℕ → ℕ → ℕ → Action (Unit {0})) (fuel : ℕ) (parent : SstNode)
      (kids : List ℕ)
      → ((a b c d : ℕ) → Keeps (insert_above a b c d))
      → Keeps (split_parent insert_above fuel parent kids)
  unfolding split_parent
  split_parent-Keeps insert_above fuel parent kids h =
      Keeps-bind (make_halves parent kids) _ (make_halves-Keeps parent kids) (λ halves.
        Keeps-bind (path_to fuel parent.id) _ (path_to-Keeps fuel parent.id) (λ path.
          Keeps-bind (swap_halves parent.id halves.0 halves.1) _
            (swap_halves-Keeps parent.id halves.0 halves.1)
            (λ u.
              Keeps-bind
                (elim (length path == 1) as (λ _. Action (Unit {0})) [
                  | true ↦ grow_root (parent.level + 1) halves.0.id halves.1.id
                  | false ↦ insert_above (parent_in path) parent.id halves.0.id halves.1.id
                ])
                _
                (Keeps-if (length path == 1) _ _
                  (grow_root-Keeps (parent.level + 1) halves.0.id halves.1.id)
                  (h (parent_in path) parent.id halves.0.id halves.1.id))
                (λ u t. refl))))

  pub insert_child-Keeps :
      (fuel parent_id old left right : ℕ) → Keeps (insert_child fuel parent_id old left right)
  unfolding insert_child
  insert_child-Keeps zero parent_id old left right = λ t. refl
  insert_child-Keeps (suc fuel) parent_id old left right =
      Keeps-bind (get_node parent_id) _ (get_node-Keeps parent_id) (λ parent.
        Keeps-option (replace_child old left right (children_of parent)) _ _
          (finish_parent-Keeps parent_id parent)
          (λ kids.
            Keeps-if (ltb parent.num_children max_fanout) _ _
              (λ t.
                let parent' : SstNode = record parent {
                  num_children = parent.num_children + 1;
                  child_ids = kids ++ drop (parent.num_children + 1) parent.child_ids;
                } in
                finish_parent-Keeps parent_id parent'
                  (record t { cache = put parent_id parent' t.cache }))
              (split_parent-Keeps (insert_child fuel) fuel parent kids (insert_child-Keeps fuel))))

  pub split_leaf-Keeps : (fuel leaf_id : ℕ) (path : List ℕ) → Keeps (split_leaf fuel leaf_id path)
  unfolding split_leaf next_node_id
  split_leaf-Keeps fuel leaf_id path =
      Keeps-bind (get_node leaf_id) _ (get_node-Keeps leaf_id) (λ leaf t.
        Keeps-bind
          (elim (length path == 1) as (λ _. Action (Unit {0})) [
            | true ↦ grow_root 1 (left_id t) (right_id t)
            | false ↦ insert_child fuel (parent_in path) leaf_id (left_id t) (right_id t)
          ])
          _
          (Keeps-if (length path == 1) _ _ (grow_root-Keeps 1 (left_id t) (right_id t))
            (insert_child-Keeps fuel (parent_in path) leaf_id (left_id t) (right_id t)))
          (λ u t. refl) (halved leaf_id leaf t))
