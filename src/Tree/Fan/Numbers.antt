-- ===== src/Tree/Fan/Numbers.antt =====
-- The numbers of the leaves behind the loop of `local_flush`, and the cache that takes the leaves in.
use gravtree.Prelude.{
  ℕ, suc, ◌+◌, ◌%◌, ◌^◌, ◌<◌, ◌≤◌, ◌≡◌, ◌≢◌, refl, ap, sym, ◌∙◌, true, some, List, [], ◌∷◌, length,
  All, All_mono, arith,
}
use gravtree.Key.{Str}
use gravtree.Entry.{Entry}
use gravtree.Disk.{Disk}
use gravtree.Bloom.Sizing.{Doubles}
use gravtree.Node.{SstNode, fresh}
use gravtree.File.{create}
use gravtree.Manifest.{Manifest, next_node_id, register_node, invalidate_node}
use gravtree.Flush.Local.{rewrite_child, flush_children}
use gravtree.Flush.Local.Newest.{flush_children-rewrite}
use gravtree.Tree.Cache.{NodeCache, find, put, erase, find-put, find-erase}
use gravtree.Tree.Push.{rest_of}
use gravtree.Tree.Fan.{ids}

-- No leaf has the number of another, and numbers below `n`.
abbrev pub AllDistinct : List SstNode → Type 0
AllDistinct [] = Unit
AllDistinct (c ∷ cs) = All (λ x. x.id ≢ c.id) cs × AllDistinct cs

-- No leaf has one of the numbers.
abbrev pub AllApart : List ℕ → List SstNode → Type 0
AllApart old cs = All (λ o. All (λ c. c.id ≢ o) cs) old

AllApart-cons :
    (c : SstNode) (cs : List SstNode) (old : List ℕ)
    → All (λ o. c.id ≢ o) old
    → AllApart old cs
    → AllApart old (c ∷ cs)
AllApart-cons c cs [] h k = tt
AllApart-cons c cs (o ∷ old) h k = ((h.0, k.0), AllApart-cons c cs old h.1 k.1)

module _ ⦃fl : Doubles⦄ (dir : Str) where
  next-rewrite_child :
      (c : SstNode) (p : List Entry) (m : Manifest) (d : Disk)
      → ((rewrite_child dir c p m d).1.0.next_id ≡ (m.next_id + 1) % 2 ^ 64)
        × ((rewrite_child dir c p m d).0.id ≡ m.next_id)
        × ((rewrite_child dir c p m d).1.0.root_id ≡ m.root_id)
  unfolding rewrite_child next_node_id register_node invalidate_node create fresh
  next-rewrite_child c p m d = (refl, refl, refl)

  abbrev step : SstNode → Entry → List Entry → Manifest → Disk → SstNode × (Manifest × Disk)
  step c e es m d = rewrite_child dir c (e ∷ es) m d

  -- The leaves keep their numbers or get new ones,
  pub ids-flush_children :
      (P : ℕ → Type 0) (cs : List SstNode) (ps : List (List Entry)) (m : Manifest) (d : Disk)
      → All (λ c. c.entries_loaded ≡ true) cs
      → m.next_id + length cs < 2 ^ 64
      → All (λ c. P c.id) cs
      → ((j : ℕ) → m.next_id ≤ j → P j)
      → All (λ c. P c.id) (flush_children dir cs ps m d).children
  unfolding flush_children
  ids-flush_children P [] ps m d l room h k = tt
  ids-flush_children P (c ∷ cs) [] m d l room h k =
      (h.0, ids-flush_children P cs [] m d l.1 (omega arith) h.1 k)
  ids-flush_children P (c ∷ cs) ([] ∷ ps) m d l room h k =
      (h.0, ids-flush_children P cs ps m d l.1 (omega arith) h.1 k)
  ids-flush_children P (c ∷ cs) ((e ∷ es) ∷ ps) m d l room h k =
      let next = next-rewrite_child c (e ∷ es) m d in
      rw (flush_children-rewrite dir c cs e es ps m d l.0) (
        rw next.1 (k m.next_id (omega arith)),
        ids-flush_children P cs ps (step c e es m d).1.0 (step c e es m d).1.1 l.1
            (omega (arith, next.0)) h.1 (λ j le. k j (omega (arith, next.0))),
      )

  -- those that are replaced are among the old ones,
  pub old-flush_children :
      (P : ℕ → Type 0) (cs : List SstNode) (ps : List (List Entry)) (m : Manifest) (d : Disk)
      → All (λ c. c.entries_loaded ≡ true) cs
      → All (λ c. P c.id) cs
      → All P (flush_children dir cs ps m d).old_child_ids
  unfolding flush_children
  old-flush_children P [] ps m d l h = tt
  old-flush_children P (c ∷ cs) [] m d l h = old-flush_children P cs [] m d l.1 h.1
  old-flush_children P (c ∷ cs) ([] ∷ ps) m d l h = old-flush_children P cs ps m d l.1 h.1
  old-flush_children P (c ∷ cs) ((e ∷ es) ∷ ps) m d l h =
      rw (flush_children-rewrite dir c cs e es ps m d l.0)
        (h.0, old-flush_children P cs ps (step c e es m d).1.0 (step c e es m d).1.1 l.1 h.1)

  -- and the list of the numbers is that of the leaves.
  pub new-flush_children :
      (cs : List SstNode) (ps : List (List Entry)) (m : Manifest) (d : Disk)
      → All (λ c. c.entries_loaded ≡ true) cs
      → ((flush_children dir cs ps m d).new_child_ids ≡ ids (flush_children dir cs ps m d).children)
        × ((flush_children dir cs ps m d).manifest.root_id ≡ m.root_id)
        × (length (flush_children dir cs ps m d).children ≡ length cs)
  unfolding flush_children
  new-flush_children [] ps m d l = (refl, refl, refl)
  new-flush_children (c ∷ cs) [] m d l =
      let rest = new-flush_children cs [] m d l.1 in
      (ap (λ js. c.id ∷ js) rest.0, rest.1, ap suc rest.2)
  new-flush_children (c ∷ cs) ([] ∷ ps) m d l =
      let rest = new-flush_children cs ps m d l.1 in
      (ap (λ js. c.id ∷ js) rest.0, rest.1, ap suc rest.2)
  new-flush_children (c ∷ cs) ((e ∷ es) ∷ ps) m d l =
      let rest = new-flush_children cs ps (step c e es m d).1.0 (step c e es m d).1.1 l.1 in
      rw (flush_children-rewrite dir c cs e es ps m d l.0) (
        ap (λ js. (step c e es m d).0.id ∷ js) rest.0,
        rest.1 ∙ (next-rewrite_child c (e ∷ es) m d).2,
        ap suc rest.2,
      )

  pub distinct-flush_children :
      (cs : List SstNode) (ps : List (List Entry)) (m : Manifest) (d : Disk)
      → All (λ c. c.entries_loaded ≡ true) cs
      → m.next_id + length cs < 2 ^ 64
      → All (λ c. c.id < m.next_id) cs
      → AllDistinct cs
      → AllDistinct (flush_children dir cs ps m d).children
        × AllApart
            (flush_children dir cs ps m d).old_child_ids
            (flush_children dir cs ps m d).children
  unfolding flush_children
  distinct-flush_children [] ps m d l room h u = (tt, tt)
  distinct-flush_children (c ∷ cs) [] m d l room h u =
      let rest = distinct-flush_children cs [] m d l.1 (omega arith) h.1 u.1 in
      (
        (
          ids-flush_children (λ j. j ≢ c.id) cs [] m d l.1 (omega arith) u.0
              (λ j le. omega (arith, h.0)),
          rest.0,
        ),
        AllApart-cons c _ _
            (old-flush_children (λ o. c.id ≢ o) cs [] m d l.1
              (All_mono _ _ (λ x ne e. ne (sym e)) cs u.0))
            rest.1,
      )
  distinct-flush_children (c ∷ cs) ([] ∷ ps) m d l room h u =
      let rest = distinct-flush_children cs ps m d l.1 (omega arith) h.1 u.1 in
      (
        (
          ids-flush_children (λ j. j ≢ c.id) cs ps m d l.1 (omega arith) u.0
              (λ j le. omega (arith, h.0)),
          rest.0,
        ),
        AllApart-cons c _ _
            (old-flush_children (λ o. c.id ≢ o) cs ps m d l.1
              (All_mono _ _ (λ x ne e. ne (sym e)) cs u.0))
            rest.1,
      )
  distinct-flush_children (c ∷ cs) ((e ∷ es) ∷ ps) m d l room h u =
      let next = next-rewrite_child c (e ∷ es) m d in
      let s = step c e es m d in
      let inside : s.1.0.next_id + length cs < 2 ^ 64 = omega (arith, next.0) in
      let rest =
        distinct-flush_children cs ps s.1.0 s.1.1 l.1 inside
          (All_mono _ _ (λ x lt. omega (arith, lt, next.0)) cs h.1) u.1 in
      rw (flush_children-rewrite dir c cs e es ps m d l.0) (
        (
          ids-flush_children (λ j. j ≢ s.0.id) cs ps s.1.0 s.1.1 l.1 inside
              (All_mono _ _ (λ x lt. omega (arith, lt, next.1)) cs h.1)
              (λ j le. omega (arith, le, next.0, next.1)),
          rest.0,
        ),
        (
          (
            omega (arith, next.1, h.0),
            ids-flush_children (λ j. j ≢ c.id) cs ps s.1.0 s.1.1 l.1 inside u.0
                (λ j le. omega (arith, le, next.0, h.0)),
          ),
          AllApart-cons s.0 _ _
              (old-flush_children (λ o. s.0.id ≢ o) cs ps s.1.0 s.1.1 l.1
                (All_mono _ _ (λ x lt. omega (arith, lt, next.1)) cs h.1))
              rest.1,
        ),
      )

-- `refresh_children` of leaves
abbrev pub erased : List ℕ → NodeCache → NodeCache
erased [] cache = cache
erased (o ∷ old) cache = erase o cache

unfoldable pub restocked : List SstNode → List ℕ → NodeCache → NodeCache
restocked [] old cache = cache
restocked (c ∷ cs) old cache = restocked cs (rest_of old) (put c.id c (erased old cache))

pub find-restocked :
    (cs : List SstNode) (old : List ℕ) (cache : NodeCache) (j : ℕ)
    → All (λ c. c.id ≢ j) cs
    → All (λ o. j ≢ o) old
    → find j (restocked cs old cache) ≡ find j cache
unfolding restocked
find-restocked [] old cache j h k = refl
find-restocked (c ∷ cs) [] cache j h k =
    find-restocked cs [] (put c.id c cache) j h.1 tt ∙ ground (arith, find-put c.id j c cache, h.0)
find-restocked (c ∷ cs) (o ∷ old) cache j h k =
    find-restocked cs old (put c.id c (erase o cache)) j h.1 k.1
    ∙ ground (arith, find-put c.id j c (erase o cache), find-erase o j cache, h.0, k.0)

rest-AllApart :
    (old : List ℕ) (c : SstNode) (cs : List SstNode)
    → AllApart old (c ∷ cs)
    → AllApart (rest_of old) cs × All (λ o. c.id ≢ o) (rest_of old)
rest-AllApart [] c cs a = (tt, tt)
rest-AllApart (o ∷ old) c cs a =
    (All_mono _ _ (λ x h. h.1) old a.1, All_mono _ _ (λ x h. h.0) old a.1)

-- Each leaf is then found under its number.
pub below-restocked :
    (cs : List SstNode) (old : List ℕ) (cache : NodeCache)
    → AllDistinct cs
    → AllApart old cs
    → All (λ c. find c.id (restocked cs old cache) ≡ some c) cs
unfolding restocked
below-restocked [] old cache u a = tt
below-restocked (c ∷ cs) old cache u a =
    let rest = rest-AllApart old c cs a in
    (
      find-restocked cs (rest_of old) (put c.id c (erased old cache)) c.id u.0 rest.1
          ∙ ground (arith, find-put c.id c.id c (erased old cache)),
      below-restocked cs (rest_of old) (put c.id c (erased old cache)) u.1 rest.0,
    )
