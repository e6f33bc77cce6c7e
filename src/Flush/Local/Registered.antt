-- ===== src/Flush/Local/Registered.antt =====
-- What `local_flush` makes of the manifest.
use gravtree.Prelude.{
  ℕ, ◌+◌, ◌%◌, ◌^◌, ◌<◌, ◌≤◌, ◌≡◌, ◌≢◌, refl, ◌∙◌, true, List, [], ◌∷◌, ◌==◌, if◌then◌else◌, length,
  All, arith,
}
use gravtree.Key.{Str}
use gravtree.Entry.{Entry}
use gravtree.Result.{ok, err, unknown_node}
use gravtree.Disk.{Disk}
use gravtree.Bloom.Sizing.{Doubles}
use gravtree.Sort.{stable_sort}
use gravtree.Node.{SstNode, fresh}
use gravtree.File.{create}
use gravtree.Manifest.{Manifest, next_node_id, register_node, invalidate_node, node_path}
use gravtree.Manifest.Laws.{node_path-register_node, node_path-invalidate_node}
use gravtree.Flush.{partition_entries}
use gravtree.Flush.Local.{rewrite_child, flush_children, local_flush}
use gravtree.Flush.Local.Newest.{flush_children-rewrite}

-- The children are in memory, have different numbers below the next one, and are registered at their
-- files.
abbrev pub AllRegistered : Manifest → List SstNode → Type 0
AllRegistered m [] = Unit
AllRegistered m (c ∷ cs) =
    ((c.entries_loaded ≡ true) × (c.id < m.next_id) × (node_path m c.id ≡ ok c.file_path))
    × All (λ x. x.id ≢ c.id) cs
    × AllRegistered m cs

module _ ⦃fl : Doubles⦄ where
  node_path-next : (m : Manifest) (j : ℕ) → node_path (next_node_id m).1 j ≡ node_path m j
  unfolding next_node_id node_path
  node_path-next m j = refl

  -- a rewritten child, and the manifest behind it
  next-rewrite_child :
      (dir : Str) (c : SstNode) (p : List Entry) (m : Manifest) (d : Disk)
      → ((rewrite_child dir c p m d).1.0.next_id ≡ (m.next_id + 1) % 2 ^ 64)
        × ((rewrite_child dir c p m d).0.id ≡ m.next_id)
        × ((rewrite_child dir c p m d).0.entries_loaded ≡ true)
  unfolding rewrite_child next_node_id register_node invalidate_node create fresh
  next-rewrite_child dir c p m d = (refl, refl, refl)

  node_path-rewrite_child :
      (dir : Str) (c : SstNode) (p : List Entry) (m : Manifest) (d : Disk) (j : ℕ)
      → node_path (rewrite_child dir c p m d).1.0 j ≡ (
          if c.id == j
          then err unknown_node
          else if m.next_id == j
          then ok (rewrite_child dir c p m d).0.file_path
          else node_path m j)
  unfolding rewrite_child next_node_id
  node_path-rewrite_child dir c p m d j =
      rw (node_path-invalidate_node, node_path-register_node, node_path-next m j) refl

  -- A node that is none of the children keeps its path.
  node_path-flush_children :
      (dir : Str) (cs : List SstNode) (ps : List (List Entry)) (m : Manifest) (d : Disk) (j : ℕ)
      → All (λ c. c.entries_loaded ≡ true) cs
      → All (λ c. c.id ≢ j) cs
      → j < m.next_id
      → m.next_id + length cs < 2 ^ 64
      → node_path (flush_children dir cs ps m d).manifest j ≡ node_path m j
  unfolding flush_children
  node_path-flush_children dir [] ps m d j l n h room = refl
  node_path-flush_children dir (c ∷ cs) [] m d j l n h room =
      node_path-flush_children dir cs [] m d j l.1 n.1 h (omega arith)
  node_path-flush_children dir (c ∷ cs) ([] ∷ ps) m d j l n h room =
      node_path-flush_children dir cs ps m d j l.1 n.1 h (omega arith)
  node_path-flush_children dir (c ∷ cs) ((e ∷ es) ∷ ps) m d j l n h room =
      let step = rewrite_child dir c (e ∷ es) m d in
      let next = next-rewrite_child dir c (e ∷ es) m d in
      rw (flush_children-rewrite dir c cs e es ps m d l.0) (
        node_path-flush_children dir cs ps step.1.0 step.1.1 j l.1 n.1 (omega (arith, next.0))
          (omega (arith, next.0))
        ∙ ground (arith, node_path-rewrite_child dir c (e ∷ es) m d j, n.0))

  ne_below :
      (n : ℕ) (m : Manifest) (cs : List SstNode)
      → AllRegistered m cs
      → m.next_id ≤ n
      → All (λ c. c.id ≢ n) cs
  ne_below n m [] r h = tt
  ne_below n m (c ∷ cs) r h = (omega (arith, r.0.1), ne_below n m cs r.2 h)

  loaded :
      (m : Manifest) (cs : List SstNode)
      → AllRegistered m cs
      → All (λ c. c.entries_loaded ≡ true) cs
  loaded m [] r = tt
  loaded m (c ∷ cs) r = (r.0.0, loaded m cs r.2)

  -- The other children stay registered when one is rewritten.
  AllRegistered-rewrite_child :
      (dir : Str) (c : SstNode) (p : List Entry) (m : Manifest) (d : Disk) (cs : List SstNode)
      → AllRegistered m cs
      → All (λ x. x.id ≢ c.id) cs
      → m.next_id + 1 < 2 ^ 64
      → AllRegistered (rewrite_child dir c p m d).1.0 cs
  AllRegistered-rewrite_child dir c p m d [] r n h = tt
  AllRegistered-rewrite_child dir c p m d (x ∷ cs) r n h = (
    (
      r.0.0,
      omega (arith, r.0.1, (next-rewrite_child dir c p m d).0),
      ground (arith, node_path-rewrite_child dir c p m d x.id, n.0, r.0.1, r.0.2),
    ),
    r.1,
    AllRegistered-rewrite_child dir c p m d cs r.2 n.1 h,
  )

  node_path-new_children :
      (dir : Str) (cs : List SstNode) (ps : List (List Entry)) (m : Manifest) (d : Disk)
      → AllRegistered m cs
      → m.next_id + length cs < 2 ^ 64
      → All
          (λ c. node_path (flush_children dir cs ps m d).manifest c.id ≡ ok c.file_path)
          (flush_children dir cs ps m d).children
  unfolding flush_children
  node_path-new_children dir [] ps m d r h = tt
  node_path-new_children dir (c ∷ cs) [] m d r h = (
    node_path-flush_children dir cs [] m d c.id (loaded m cs r.2) r.1 r.0.1 (omega arith) ∙ r.0.2,
    node_path-new_children dir cs [] m d r.2 (omega arith),
  )
  node_path-new_children dir (c ∷ cs) ([] ∷ ps) m d r h = (
    node_path-flush_children dir cs ps m d c.id (loaded m cs r.2) r.1 r.0.1 (omega arith) ∙ r.0.2,
    node_path-new_children dir cs ps m d r.2 (omega arith),
  )
  node_path-new_children dir (c ∷ cs) ((e ∷ es) ∷ ps) m d r h =
      let step = rewrite_child dir c (e ∷ es) m d in
      let next = next-rewrite_child dir c (e ∷ es) m d in
      rw (flush_children-rewrite dir c cs e es ps m d r.0.0) (
        node_path-flush_children dir cs ps step.1.0 step.1.1 step.0.id (loaded m cs r.2)
              (rw next.1 (ne_below m.next_id m cs r.2 (omega arith)))
              (omega (arith, next.0, next.1)) (omega (arith, next.0))
            ∙ ground (arith, node_path-rewrite_child dir c (e ∷ es) m d step.0.id, next.1, r.0.1),
        node_path-new_children dir cs ps step.1.0 step.1.1
            (AllRegistered-rewrite_child dir c (e ∷ es) m d cs r.2 r.1 (omega arith))
            (omega (arith, next.0)),
      )

  -- If the children are in memory, have different numbers that were given out, and are registered
  -- at their files, and numbers are left for all of them, then after `local_flush` each child of
  -- the result is registered at its file.
  pub node_path-local_flush :
      (parent : SstNode) (children : List SstNode) (m : Manifest) (d : Disk) (dir : Str)
      → AllRegistered m children
      → m.next_id + length children < 2 ^ 64
      → All
          (λ c. node_path (local_flush parent children m d dir).1.manifest c.id ≡ ok c.file_path)
          (local_flush parent children m d dir).1.children
  unfolding local_flush
  node_path-local_flush parent children m d dir r h =
      node_path-new_children dir children (partition_entries (stable_sort parent.buffer) children) m
        d r h
