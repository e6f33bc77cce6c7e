-- ===== src/Tree/Fan/Steps.antt =====
-- The steps of `do_flush` over leaves.
use gravtree.Prelude.{
  ℕ, ◌-◌, ◌≡◌, ◌≢◌, refl, ap, ◌∙◌, true, false, none, some, List, [], ◌∷◌, All, get_or, ◌==◌, arith,
}
use gravtree.Entry.{invalid_node_id}
use gravtree.Bloom.Sizing.{Doubles}
use gravtree.Node.{SstNode, buffer_full}
use gravtree.File.{load_entries, flush_to_disk}
use gravtree.Manifest.{register_node}
use gravtree.Flush.Local.Newest.{load_entries-loaded}
use gravtree.Tree.{get_node}
use gravtree.Tree.Cache.{put-put, find-put, find, put, put_same}
use gravtree.Tree.State.{
  ◌>>=◌, persist, put_node, Tree, Action, returned, pure, results, bind-returned, elim-true,
  elim-false,
}
use gravtree.Tree.Split.{spanning, span_cached}
use gravtree.Tree.Push.{
  load_children, refresh_children, widen_child, erase_first, rest_of, finish_flush, overflow,
  flush_full,
}
use gravtree.Tree.Cached.{get_node-find}
use gravtree.Tree.Fan.{ids}
use gravtree.Tree.Fan.Numbers.{restocked, erased}

pub load_children-found :
    (cs : List SstNode) (t : Tree)
    → All (λ c. find c.id t.cache ≡ some c) cs
    → All (λ c. c.entries_loaded ≡ true) cs
    → load_children (ids cs) t ≡ (returned cs, t)
unfolding load_children
load_children-found [] t h l = refl
load_children-found (c ∷ cs) t h l =
    bind-returned (get_node c.id) _ t t c (get_node-find c.id t c h.0)
    ∙ bind-returned (results (λ t. load_entries c t.disk)) _ t t c
        (rw (load_entries-loaded c t.disk l.0) refl)
    ∙ bind-returned (load_children (ids cs)) (λ rest. pure (c ∷ rest))
        (record t { cache = put c.id c t.cache }) t cs
        (ap (λ cache. load_children (ids cs) (record t { cache = cache }))
            (put_same c.id c t.cache h.0)
          ∙ load_children-found cs t h.1 l.1)

module _ ⦃fl : Doubles⦄ where
  widen_child-leaf :
      (c : SstNode) (t : Tree) → c.num_children ≡ 0 → widen_child c t ≡ (returned c, t)
  unfolding widen_child
  widen_child-leaf c t h = elim-true (c.num_children == 0) _ _ t (ground (arith, h))

  pub refresh_children-leaves :
      (cs : List SstNode) (old : List ℕ) (t : Tree)
      → All (λ c. c.num_children ≡ 0) cs
      → refresh_children cs old t ≡ (returned tt, record t { cache = restocked cs old t.cache })
  unfolding refresh_children restocked
  refresh_children-leaves [] old t h = refl
  refresh_children-leaves (c ∷ cs) old t h =
      let t₁ = record t { cache = erased old t.cache } in
      bind-returned (erase_first old) _ t t₁ tt (erases old)
      ∙ bind-returned (widen_child c) _ t₁ t₁ c (widen_child-leaf c t₁ h.0)
      ∙ refresh_children-leaves cs (rest_of old)
          (record t { cache = put c.id c (erased old t.cache) }) h.1
    where
      erases :
          (old : List ℕ)
          → erase_first old t ≡ (returned tt, record t { cache = erased old t.cache })
      erases [] = refl
      erases (o ∷ old) = refl

  -- the tree with the cleared parent
  abbrev pub cleared : ℕ → SstNode → SstNode → SstNode → Tree → Tree
  cleared rid parent first last t =
      let (n, d) =
        flush_to_disk t.data_dir (spanning first last (record parent { buffer = [] })) t.disk in
      record t {
        disk = d;
        manifest = register_node n.id n.level n.file_path t.manifest;
        cache = put rid n t.cache;
      }

  pub finish_flush-found :
      (rid : ℕ) (parent first last : SstNode) (t : Tree)
      → parent.num_children == 0 ≡ false
      → find (get_or parent.child_ids 0 invalid_node_id) t.cache ≡ some first
      → get_or parent.child_ids 0 invalid_node_id ≢ rid
      → find (get_or parent.child_ids (parent.num_children - 1) invalid_node_id) t.cache ≡ some last
      → get_or parent.child_ids (parent.num_children - 1) invalid_node_id ≢ rid
      → finish_flush rid parent t ≡ (returned tt, cleared rid parent first last t)
  unfolding finish_flush
  finish_flush-found rid parent first last t h a not_a b not_b =
      let n : SstNode = record parent { buffer = [] } in
      let low : SstNode = record n {
        key_range = record n.key_range { min_key = first.key_range.min_key };
      } in
      let done = cleared rid parent first last t in
      let t₁ : Tree = record t { cache = put rid n t.cache } in
      let t₃ : Tree = record t { cache = put rid low (put rid n t.cache) } in
      let spans : span_cached rid n t₁ ≡ (returned (spanning first last n), t₃) =
        unfold span_cached in
        bind-returned (get_node (get_or parent.child_ids 0 invalid_node_id)) _ t₁ t₁ first (
          get_node-find _ t₁ first (
            ground (arith, find-put rid (get_or parent.child_ids 0 invalid_node_id) n t.cache) ∙ a))
        ∙ bind-returned
            (get_node (get_or parent.child_ids (parent.num_children - 1) invalid_node_id)) _ t₃ t₃
            last
            (get_node-find _ t₃ last (
              ground (
                arith,
                find-put rid (get_or parent.child_ids (parent.num_children - 1) invalid_node_id) low
                    (put rid n t.cache),
                find-put rid (get_or parent.child_ids (parent.num_children - 1) invalid_node_id) n
                    t.cache,
              )
              ∙ b)) in
      let (n', d) = flush_to_disk t.data_dir (spanning first last n) t.disk in
      let t₄ : Tree = record t₃ {
        disk = d;
        manifest = register_node n'.id n'.level n'.file_path t.manifest;
      } in
      elim-false (parent.num_children == 0) _ _ t₁ h
      ∙ bind-returned (span_cached rid n >>= persist) (put_node rid) t₁ t₄ n'
          (bind-returned (span_cached rid n) persist t₁ t₃ (spanning first last n) spans)
      ∙ ap (λ cache. (returned tt, record done { cache = cache }))
          (put-put rid n' low (put rid n t.cache) ∙ put-put rid n' n t.cache)

  -- Where no leaf is full, the last loop does nothing.
  pub overflow-none :
      (flush_child : ℕ → Action (Unit {0})) (fuel rid : ℕ) (cs : List SstNode) (t : Tree)
      → All (λ c. find c.id t.cache ≡ some c) cs
      → All (λ c. buffer_full c ≡ false) cs
      → overflow flush_child fuel rid (ids cs) t ≡ (returned tt, t)
  unfolding overflow flush_full
  overflow-none flush_child fuel rid [] t h k = refl
  overflow-none flush_child fuel rid (c ∷ cs) t h k =
      bind-returned
        (λ t.
          (elim (find c.id t.cache) as (λ _. Action (Unit {0})) [
            | none ↦ pure tt
            | some child ↦ flush_full flush_child fuel rid c.id child
          ])
            t)
        (λ u. overflow flush_child fuel rid (ids cs)) t t tt
        (rw h.0 (elim-false (buffer_full c) _ _ t k.0))
      ∙ overflow-none flush_child fuel rid cs t h.1 k.1
