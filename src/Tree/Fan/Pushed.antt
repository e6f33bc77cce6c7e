-- ===== src/Tree/Fan/Pushed.antt =====
-- What `do_flush` makes of a node over leaves, up to its last loop.
use gravtree.Prelude.{
  ℕ, suc, ◌+◌, ◌-◌, ◌^◌, ◌<◌, ◌≡◌, ◌≢◌, refl, ap, sym, subst, ◌∙◌, true, some, List, [], ◌∷◌,
  length, take, get_or, All, All_mono, arith,
}
use gravtree.Entry.{invalid_node_id}
use gravtree.Bloom.Sizing.{Doubles}
use gravtree.Sort.{stable_sort}
use gravtree.Node.{SstNode, sorted_unique, refreshed, sort_buffer, build_bloom, build_sparse_index}
use gravtree.File.{flush_to_disk}
use gravtree.Manifest.{register_node, gc}
use gravtree.Flush.Local.{Flushed, local_flush, flush_children}
use gravtree.Flush.Local.Newest.{thrown-flush_children}
use gravtree.Tree.{get_node, children_of}
use gravtree.Tree.Cache.{find, put, find-put}
use gravtree.Tree.State.{Tree, returned, bind-returned}
use gravtree.Tree.Push.{
  load_children, push, push_down, unless_thrown, refresh_children, finish_flush, relink,
}
use gravtree.Tree.Cached.{get_node-find, first_slot}
use gravtree.Tree.Cached.Flushing.{buffer-flush_to_disk, shape-flush_to_disk}
use gravtree.Tree.Cached.Splitting.{tidied}
use gravtree.Tree.Split.{spanning}
use gravtree.Tree.Fan.{leaves_ne, IsLeaf, IsFan, ids, fences, IsRising}
use gravtree.Tree.Fan.Given.{given, given-IsGiven, given-above}
use gravtree.Tree.Fan.Leaves.{flush_children-IsLeaf, first_fence-flush_children}
use gravtree.Tree.Fan.Numbers.{
  AllDistinct, AllApart, ids-flush_children, new-flush_children, distinct-flush_children, restocked,
  below-restocked,
}
use gravtree.Tree.Fan.Links.{take-relink, last_slot, flush_children-AllKept}
use gravtree.Tree.Fan.Steps.{
  load_children-found, refresh_children-leaves, cleared, finish_flush-found,
}

module _ ⦃fl : Doubles⦄ (t : Tree) (rid : ℕ) (root c : SstNode) (cs : List SstNode)
    (fan : IsFan t.cache rid root c cs) (distinct : AllDistinct (c ∷ cs))
    (known : All (λ x. x.id < t.manifest.next_id) (c ∷ cs)) (root_known : rid < t.manifest.next_id)
    (room : t.manifest.next_id + length (c ∷ cs) < 2 ^ 64) where
  abbrev pub flushed : Flushed
  flushed = flush_children t.data_dir (c ∷ cs) (given root.buffer (c ∷ cs)) t.manifest t.disk

  abbrev pub sorted_root : SstNode
  sorted_root = record root { buffer = stable_sort root.buffer }

  abbrev pub linked : SstNode
  linked = record sorted_root {
    child_ids = relink root.num_children root.child_ids flushed.new_child_ids flushed.old_child_ids;
  }

  abbrev pub flushing : Tree
  flushing = record t {
    manifest = flushed.manifest;
    disk = flushed.disk;
    cache = put rid linked (put rid sorted_root t.cache);
    flush_ops = t.flush_ops + 1;
  }

  abbrev pub refreshed_tree : Tree
  refreshed_tree = record flushing {
    cache = restocked flushed.children flushed.old_child_ids flushing.cache;
  }

  in_memory : All (λ x. x.entries_loaded ≡ true) (c ∷ cs)
  in_memory = All_mono _ _ (λ x l. l.loaded) (c ∷ cs) fan.leaves

  leaves_after : All IsLeaf flushed.children
  leaves_after =
      flush_children-IsLeaf t.data_dir (c ∷ cs) (given root.buffer (c ∷ cs)) t.manifest t.disk
        fan.leaves (λ j. given-IsGiven root.buffer c cs j fan.ready.1)

  lists :
      (flushed.new_child_ids ≡ ids flushed.children)
      × (flushed.manifest.root_id ≡ t.manifest.root_id)
      × (length flushed.children ≡ length (c ∷ cs))
  lists =
      new-flush_children t.data_dir (c ∷ cs) (given root.buffer (c ∷ cs)) t.manifest t.disk
        in_memory

  apart : AllDistinct flushed.children × AllApart flushed.old_child_ids flushed.children
  apart =
      distinct-flush_children t.data_dir (c ∷ cs) (given root.buffer (c ∷ cs)) t.manifest t.disk
        in_memory room known distinct

  length-ids : (xs : List SstNode) → length (ids xs) ≡ length xs
  length-ids [] = refl
  length-ids (x ∷ xs) = ap suc (length-ids xs)

  kids_after : take root.num_children linked.child_ids ≡ ids flushed.children
  kids_after =
      take-relink root.num_children root.child_ids (ids (c ∷ cs)) flushed.new_child_ids
        flushed.old_child_ids fan.kids (length-ids (c ∷ cs) ∙ sym fan.count)
        (flush_children-AllKept t.data_dir (c ∷ cs) (given root.buffer (c ∷ cs)) t.manifest t.disk
          in_memory)
      ∙ lists.0

  below_after : All (λ x. find x.id refreshed_tree.cache ≡ some x) flushed.children
  below_after =
      below-restocked flushed.children flushed.old_child_ids flushing.cache apart.0 apart.1

  ne_after : All (λ x. x.id ≢ rid) flushed.children
  ne_after =
      ids-flush_children t.data_dir (λ j. j ≢ rid) (c ∷ cs) (given root.buffer (c ∷ cs)) t.manifest
        t.disk in_memory room
        (leaves_ne t.cache rid root fan.found fan.level (c ∷ cs) fan.below fan.leaves)
        (λ j le. omega (arith, le, root_known))

  -- the leaves of the result, and their ranges
  parts :
      (c' : SstNode) × (cs' : List SstNode) × (flushed.children ≡ c' ∷ cs')
      × (fences cs' ≡ fences cs)
      × IsRising (fences (c' ∷ cs'))
  parts =
      first_fence-flush_children t.data_dir c cs (given root.buffer (c ∷ cs)) t.manifest t.disk
        fan.leaves.0 fan.leaves.1 (λ j. given-IsGiven root.buffer c cs j fan.ready.1) fan.rising
        (λ j h. given-above root.buffer c cs j)

  -- a node other than the root that is in the cache
  abbrev pub Other : ℕ → Type 0
  Other j = (n : SstNode) × (find j refreshed_tree.cache ≡ some n) × (j ≢ rid)

  all_found :
      (xs : List SstNode)
      → All (λ x. find x.id refreshed_tree.cache ≡ some x) xs
      → All (λ x. x.id ≢ rid) xs
      → All Other (ids xs)
  all_found [] h ne = tt
  all_found (x ∷ xs) h ne = ((x, h.0, ne.0), all_found xs h.1 ne.1)

  -- the first and the last child of the linked parent
  pub first_end : Other (get_or linked.child_ids 0 invalid_node_id)
  first_end =
      let (c', cs', here, same, rising) = parts in
      let slot : get_or linked.child_ids 0 invalid_node_id ≡ c'.id =
        first_slot root.num_children c'.id linked.child_ids (ids cs')
          (kids_after ∙ ap (λ xs. ids xs) here) in
      subst (λ j. Other j) (sym slot)
        ((subst (λ xs. All Other (ids xs)) here
          (all_found flushed.children below_after ne_after)).0)

  pub last_end : Other (get_or linked.child_ids (linked.num_children - 1) invalid_node_id)
  last_end =
      let count : length cs ≡ root.num_children - 1 = omega (arith, fan.count) in
      subst (λ n. Other (get_or linked.child_ids n invalid_node_id)) count
        (last_slot Other (length cs) linked.child_ids (ids flushed.children) invalid_node_id
          (ap (λ n. take n linked.child_ids) (sym fan.count) ∙ kids_after)
          (length-ids flushed.children ∙ lists.2) (all_found flushed.children below_after ne_after))

  abbrev pub pushed : Tree
  pushed = tidied (cleared rid linked first_end.0 last_end.0 refreshed_tree)

  pushes_down : push_down rid root (c ∷ cs) t ≡ (
    returned (sorted_root, flushed),
    record t {
      manifest = flushed.manifest;
      disk = flushed.disk;
      cache = put rid sorted_root t.cache;
    },
  )
  unfolding local_flush
  pushes_down =
      ap
        (λ o. (
          unless_thrown o (sorted_root, flushed),
          record t {
            manifest = flushed.manifest;
            disk = flushed.disk;
            cache = put rid sorted_root t.cache;
          },
        ))
        (thrown-flush_children t.data_dir (c ∷ cs) (given root.buffer (c ∷ cs)) t.manifest t.disk
          (All_mono _ _ (λ x l. (l.loaded, l.ready.0)) (c ∷ cs) fan.leaves))

  pub push-fan : push rid t ≡ (returned (ids flushed.children), pushed)
  unfolding push
  push-fan =
      bind-returned (get_node rid) _ t t root (get_node-find rid t root fan.found)
      ∙ bind-returned (load_children (children_of root)) _ t t (c ∷ cs) (
          ap (λ l. load_children l t) fan.kids ∙ load_children-found (c ∷ cs) t fan.below in_memory)
      ∙ bind-returned (push_down rid root (c ∷ cs)) _ t
          (record t {
            manifest = flushed.manifest;
            disk = flushed.disk;
            cache = put rid sorted_root t.cache;
          })
          (sorted_root, flushed) pushes_down
      ∙ bind-returned (refresh_children flushed.children flushed.old_child_ids) _ flushing
          refreshed_tree tt
          (refresh_children-leaves flushed.children flushed.old_child_ids flushing
            (All_mono _ _ (λ x l. l.childless) flushed.children leaves_after))
      ∙ bind-returned (finish_flush rid linked) _ refreshed_tree
          (cleared rid linked first_end.0 last_end.0 refreshed_tree) tt
          (finish_flush-found rid linked first_end.0 last_end.0 refreshed_tree
            (ground (arith, fan.count)) first_end.1 first_end.2 last_end.1 last_end.2)
      ∙ ap (λ js. (returned js, pushed)) lists.0

  -- the parent behind the flush
  abbrev pub emptied : SstNode
  emptied =
      (flush_to_disk t.data_dir (spanning first_end.0 last_end.0 (record linked { buffer = [] }))
        flushed.disk).0

  count-emptied : emptied.num_children ≡ root.num_children
  unfolding flush_to_disk refreshed sort_buffer build_bloom build_sparse_index
  count-emptied = refl

  pub emptied-buffer : emptied.buffer ≡ []
  unfolding sorted_unique stable_sort
  emptied-buffer =
      buffer-flush_to_disk t.data_dir
        (spanning first_end.0 last_end.0 (record linked { buffer = [] })) flushed.disk

  pub pushed-root_id : pushed.manifest.root_id ≡ t.manifest.root_id
  unfolding gc register_node
  pushed-root_id = lists.1

  below_pushed :
      (xs : List SstNode)
      → All (λ x. find x.id refreshed_tree.cache ≡ some x) xs
      → All (λ x. x.id ≢ rid) xs
      → All (λ x. find x.id pushed.cache ≡ some x) xs
  below_pushed [] h n = tt
  below_pushed (x ∷ xs) h n = (
    ground (arith, find-put rid x.id emptied refreshed_tree.cache, n.0) ∙ h.0,
    below_pushed xs h.1 n.1,
  )

  -- The node and its leaves have the same shape again, and the node's buffer is empty.
  pub pushed-IsFan :
      (c' : SstNode) × (cs' : List SstNode) × (flushed.children ≡ c' ∷ cs')
      × (fences cs' ≡ fences cs)
      × IsFan pushed.cache rid emptied c' cs'
  pushed-IsFan =
      let (c', cs', here, same, rising) = parts in
      let shape =
        shape-flush_to_disk t.data_dir
          (spanning first_end.0 last_end.0 (record linked { buffer = [] })) flushed.disk in
      (
        c',
        cs',
        here,
        same,
        record {
          found = ground (arith, find-put rid rid emptied refreshed_tree.cache);
          level = shape.0 ∙ fan.level;
          ready = rw emptied-buffer (tt, tt);
          kids = shape.1 ∙ kids_after ∙ ap (λ xs. ids xs) here;
          count = count-emptied ∙ fan.count ∙ sym lists.2 ∙ ap (λ xs. length xs) here;
          below =
              subst (λ xs. All (λ (x : SstNode). find x.id pushed.cache ≡ some x) xs) here
                (below_pushed flushed.children below_after ne_after);
          leaves = subst (λ xs. All IsLeaf xs) here leaves_after;
          rising = rising;
        },
      )
