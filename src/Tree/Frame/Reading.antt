-- ===== src/Tree/Frame/Reading.antt =====
-- The methods that read nodes leave the write buffer, the numbers and the flags alone.
use gravtree.Prelude.{
  ℕ, zero, suc, ◌-◌, Option, none, some, List, [], ◌∷◌, refl, ◌==◌, get_or, Option-cases, inl, inr,
}
use gravtree.Key.{Str, key_le}
use gravtree.Entry.{invalid_node_id}
use gravtree.Node.{SstNode, blank, might_contain, is_leaf, buffer_full}
use gravtree.File.{load_header, load_entries}
use gravtree.Manifest.{node_path}
use gravtree.Tree.{get_node, children_of, choose_child, path_below, find_path, fetch}
use gravtree.Tree.Cache.{find, put}
use gravtree.Tree.State.{Action, results}
use gravtree.Tree.Split.{first_found, path_from, path_to, cached}
use gravtree.Tree.Push.{load_children, end_children, erase_first}
use gravtree.Tree.Read.{search_path, look_up}
use gravtree.Node
use gravtree.Tree.State.Front.{Keeps, Keeps-bind, Keeps-if, Keeps-option}

pub fetch-Keeps : (id : ℕ) (o : Option SstNode) → Keeps (fetch id o)
fetch-Keeps id (some n) = λ t. refl
fetch-Keeps id none =
    Keeps-bind (results (λ t. node_path t.manifest id)) _ (λ t. refl)
      (λ path.
        Keeps-bind (results (λ t. load_header path t.disk)) _ (λ t. refl)
          (λ header.
            Keeps-bind (results (λ t. load_entries header t.disk)) _ (λ t. refl) (λ node t. refl)))

pub get_node-Keeps : (id : ℕ) → Keeps (get_node id)
unfolding get_node
get_node-Keeps id t = fetch-Keeps id (find id t.cache) t

pub choose_child-Keeps : (key : Str) (cs : List ℕ) (next : ℕ) → Keeps (choose_child key cs next)
unfolding choose_child
choose_child-Keeps key [] next = λ t. refl
choose_child-Keeps key (c ∷ cs) next = Keeps-bind (get_node c) _ (get_node-Keeps c) (λ child.
    Keeps-if (key_le child.key_range.min_key key) _ _ (choose_child-Keeps key cs c) (λ t. refl))

pub path_below-Keeps : (fuel : ℕ) (key : Str) (cur : ℕ) → Keeps (path_below fuel key cur)
unfolding path_below
path_below-Keeps zero key cur = λ t. refl
path_below-Keeps (suc fuel) key cur = Keeps-bind (get_node cur) _ (get_node-Keeps cur) (λ node.
    Keeps-if (is_leaf node) _ _ (λ t. refl)
      (Keeps-bind (choose_child key (children_of node) (get_or node.child_ids 0 invalid_node_id)) _
        (choose_child-Keeps key (children_of node) (get_or node.child_ids 0 invalid_node_id))
        (λ next.
          Keeps-bind (path_below fuel key next) _ (path_below-Keeps fuel key next)
            (λ rest t. refl))))

pub find_path-Keeps : (fuel : ℕ) (key : Str) → Keeps (find_path fuel key)
unfolding find_path
find_path-Keeps fuel key t = path_below-Keeps fuel key t.manifest.root_id t

pub first_found-Keeps :
    (dfs : ℕ → Action (Option (List ℕ))) (cs : List ℕ)
    → ((c : ℕ) → Keeps (dfs c))
    → Keeps (first_found dfs cs)
unfolding first_found
first_found-Keeps dfs [] h = λ t. refl
first_found-Keeps dfs (c ∷ cs) h =
    Keeps-bind (dfs c) _ (h c)
      (λ found. Keeps-option found _ _ (first_found-Keeps dfs cs h) (λ path t. refl))

pub path_from-Keeps : (fuel target id : ℕ) → Keeps (path_from fuel target id)
unfolding path_from
path_from-Keeps zero target id = λ t. refl
path_from-Keeps (suc fuel) target id =
    Keeps-if (id == target) _ _ (λ t. refl)
      (Keeps-bind (get_node id) _ (get_node-Keeps id) (λ node.
        Keeps-bind (first_found (path_from fuel target) (children_of node)) _
          (first_found-Keeps (path_from fuel target) (children_of node)
            (path_from-Keeps fuel target))
          (λ found. Keeps-option found _ _ (λ t. refl) (λ path t. refl))))

pub path_to-Keeps : (fuel target : ℕ) → Keeps (path_to fuel target)
unfolding path_to
path_to-Keeps fuel target t =
    let root = t.manifest.root_id in
    Keeps-bind (path_from fuel target root) _ (path_from-Keeps fuel target root)
      (λ found. Keeps-option found _ _ (λ t. refl) (λ path t. refl)) t

pub cached-Keeps : (id : ℕ) → Keeps (cached id)
unfolding cached
cached-Keeps id t = elim (Option-cases (find id t.cache)) [
  | inl q ↦ rw (cached, q) refl
  | inr (n, q) ↦ rw (cached, q) refl
]

pub load_children-Keeps : (ids : List ℕ) → Keeps (load_children ids)
unfolding load_children
load_children-Keeps [] = λ t. refl
load_children-Keeps (id ∷ ids) = Keeps-bind (get_node id) _ (get_node-Keeps id) (λ node.
    Keeps-bind (results (λ t. load_entries node t.disk)) _ (λ t. refl)
      (λ node' t.
        Keeps-bind (load_children ids) _ (load_children-Keeps ids) (λ rest t. refl)
          (record t { cache = put id node' t.cache })))

pub end_children-Keeps : (n : SstNode) → Keeps (end_children n)
unfolding end_children
end_children-Keeps n =
    Keeps-bind (get_node (get_or n.child_ids 0 invalid_node_id)) _ (get_node-Keeps _) (λ first.
      Keeps-bind (get_node (get_or n.child_ids (n.num_children - 1) invalid_node_id)) _
        (get_node-Keeps _) (λ last t. refl))

pub erase_first-Keeps : (old : List ℕ) → Keeps (erase_first old)
erase_first-Keeps [] = λ t. refl
erase_first-Keeps (id ∷ old) = λ t. refl

pub search_path-Keeps : (key : Str) (path : List ℕ) → Keeps (search_path key path)
unfolding search_path
search_path-Keeps key [] = λ t. refl
search_path-Keeps key (id ∷ path) = Keeps-bind (get_node id) _ (get_node-Keeps id) (λ node.
    Keeps-if (might_contain node key) _ _
      (Keeps-option (Node.get node key) _ _ (search_path-Keeps key path) (λ e t. refl))
      (search_path-Keeps key path))

pub look_up-Keeps : (fuel : ℕ) (key : Str) → Keeps (look_up fuel key)
unfolding look_up
look_up-Keeps fuel key =
    Keeps-bind (find_path fuel key) _ (find_path-Keeps fuel key) (search_path-Keeps key)
