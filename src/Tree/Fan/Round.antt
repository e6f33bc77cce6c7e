-- ===== src/Tree/Fan/Round.antt =====
-- A round of the flush thread on a root over leaves.
use gravtree.Prelude.{
  ℕ, suc, ◌+◌, ◌^◌, ◌<◌, ◌≡◌, ◌≢◌, refl, ap, sym, ◌∙◌, true, false, Option, some, List, [], ◌∷◌,
  ◌++◌, length, All, ◌==◌, ◌&&◌, arith, Bool-cases, inl, inr,
}
use gravtree.Key.{Str}
use gravtree.Entry.Newest.{newest, newer, newest-append}
use gravtree.Sort.{newest-stable_sort}
use gravtree.Bloom.Sizing.{Doubles}
use gravtree.SkipList.{to_sorted_vector, clear}
use gravtree.Node.{SstNode, buffer_full, is_leaf}
use gravtree.Flush.{route}
use gravtree.Flush.Local.{local_flush}
use gravtree.Flush.Local.Newest.{buffer_at}
use gravtree.Tree.{get_node}
use gravtree.Tree.Cache.{NodeCache, find, put, find-put}
use gravtree.Tree.State.{Tree, Outcome, returned, bind-returned, elim-true, elim-false}
use gravtree.Tree.Read.{get}
use gravtree.Tree.Write.{take_pending, fill_root}
use gravtree.Tree.Push.{do_flush}
use gravtree.Tree.Round.{settle_root, merge_round, flush_round, thread_round}
use gravtree.Tree.Cached.{get_node-find}
use gravtree.Tree.Cached.Laws.{IsOpen, get-open}
use gravtree.Tree.Cached.Moved.{BufferNewer, filled, drained, filled-IsReady, answers-root}
use gravtree.Tree.Fan.{leaves_ne, IsFan}
use gravtree.Tree.Fan.Numbers.{AllDistinct}
use gravtree.Tree.Fan.Flushing.{IsNewer, get-do_flush}

put_below :
    (rid : ℕ) (n : SstNode) (cache : NodeCache) (xs : List SstNode)
    → All (λ x. find x.id cache ≡ some x) xs
    → All (λ x. x.id ≢ rid) xs
    → All (λ x. find x.id (put rid n cache) ≡ some x) xs
put_below rid n cache [] h k = tt
put_below rid n cache (x ∷ xs) h k =
    (ground (arith, find-put rid x.id n cache, k.0) ∙ h.0, put_below rid n cache xs h.1 k.1)

-- The root takes what the write buffer had, and nothing else changes.
filled-IsFan :
    (t : Tree) (root c : SstNode) (cs : List SstNode)
    → IsOpen 1 t
    → IsFan t.cache t.manifest.root_id root c cs
    → IsFan (put t.manifest.root_id (filled t root) t.cache) t.manifest.root_id (filled t root) c cs
filled-IsFan t root c cs o f = record {
  found = ground (arith, find-put t.manifest.root_id t.manifest.root_id (filled t root) t.cache);
  level = f.level;
  ready = filled-IsReady 1 t root o f.ready;
  kids = f.kids;
  count = f.count;
  below =
      put_below t.manifest.root_id (filled t root) t.cache (c ∷ cs) f.below
        (leaves_ne t.cache t.manifest.root_id root f.found f.level (c ∷ cs) f.below f.leaves);
  leaves = f.leaves;
  rising = f.rising;
}

-- A counter changes no answer.
counted-IsOpen :
    (t : Tree) (bytes : ℕ)
    → IsOpen 1 t
    → IsOpen 1
        (record t { root_buf_bytes = bytes; flush_requested = false; flush_in_progress = false })
counted-IsOpen t bytes o = record {
  rooted = o.rooted;
  buffer = o.buffer;
  numbers = o.numbers;
  room = o.room;
}

get-counted :
    (t : Tree) (bytes fuel : ℕ) (k : Str)
    → IsOpen 1 t
    → 1 < fuel
    → (get fuel k
        (record t { root_buf_bytes = bytes; flush_requested = false; flush_in_progress = false })).0
      ≡ (get fuel k t).0
get-counted t bytes fuel k o h =
    let t' : Tree = record t {
      root_buf_bytes = bytes;
      flush_requested = false;
      flush_in_progress = false;
    } in
    ap (λ (p : Outcome (Option Str) × Tree). p.0)
      (get-open 1 fuel k t' (counted-IsOpen t bytes o) h)
    ∙ sym (ap (λ (p : Outcome (Option Str) × Tree). p.0) (get-open 1 fuel k t o h))

module _ ⦃fl : Doubles⦄ (t : Tree) (root c : SstNode) (cs : List SstNode) (o : IsOpen 1 t)
    (fan : IsFan t.cache t.manifest.root_id root c cs) (distinct : AllDistinct (c ∷ cs))
    (known : All (λ x. x.id < t.manifest.next_id) (c ∷ cs))
    (root_known : t.manifest.root_id < t.manifest.next_id)
    (room : t.manifest.next_id + length (c ∷ cs) < 2 ^ 64) where
  abbrev n : SstNode
  n = filled t root

  -- behind the drain, with the flag set
  abbrev begun : Tree
  begun = drained (record t { flush_in_progress = true }) n

  abbrev finished : Tree → Tree
  finished t = record t { root_buf_bytes = t.write_buf.bytes }

  fills :
      fill_root
        (to_sorted_vector t.write_buf)
        (record t { flush_in_progress = true; write_buf = clear t.write_buf })
      ≡ (returned (t.manifest.root_id, n), begun)
  unfolding fill_root
  fills =
      let t₁ : Tree = record t { flush_in_progress = true; write_buf = clear t.write_buf } in
      bind-returned (get_node t.manifest.root_id) _ t₁ t₁ root
        (get_node-find t.manifest.root_id t₁ root fan.found)

  rounds :
      (fuel : ℕ) (t₂ : Tree)
      → settle_root fuel t.manifest.root_id n begun ≡ (returned tt, t₂)
      → flush_round fuel (record t { flush_in_progress = true }) ≡ (returned tt, finished t₂)
  unfolding flush_round take_pending merge_round
  rounds fuel t₂ h =
      let t₁ : Tree = record t { flush_in_progress = true; write_buf = clear t.write_buf } in
      bind-returned (fill_root (to_sorted_vector t.write_buf)) _ t₁ begun (t.manifest.root_id, n)
        fills
      ∙ bind-returned (settle_root fuel t.manifest.root_id n) _ begun t₂ tt h

  -- A root that is not full stays,
  settles_small :
      (fuel : ℕ)
      → buffer_full n ≡ false
      → settle_root fuel t.manifest.root_id n begun ≡ (returned tt, begun)
  unfolding settle_root
  settles_small fuel q = elim-false (buffer_full n) _ _ begun q

  -- and a full one is flushed, since it has children.
  settles_full :
      (fuel : ℕ)
      → buffer_full n ≡ true
      → settle_root fuel t.manifest.root_id n begun ≡ do_flush fuel t.manifest.root_id begun
  unfolding settle_root is_leaf
  settles_full fuel q =
      elim-true (buffer_full n) _ _ begun q
      ∙ elim-false (is_leaf n && (n.num_children == 0)) _ _ begun (ground (arith, fan.level))
      ∙ elim-false (n.num_children == 0) _ _ begun (ground (arith, fan.count))

  after_settling :
      (t₂ : Tree) (k : Str) (fuel depth : ℕ)
      → settle_root depth t.manifest.root_id n begun ≡ (returned tt, t₂)
      → 1 < fuel
      → IsOpen 1 t₂
      → (get fuel k t₂).0 ≡ (get fuel k t).0
      → ((flush_round depth (record t { flush_in_progress = true })).0 ≡ returned tt)
        × IsOpen 1 (thread_round depth t)
        × ((get fuel k (thread_round depth t)).0 ≡ (get fuel k t).0)
  unfolding thread_round
  after_settling t₂ k fuel depth settled h opened same = rw (rounds depth t₂ settled) (
    refl,
    counted-IsOpen t₂ t₂.write_buf.bytes opened,
    get-counted t₂ t₂.write_buf.bytes fuel k opened h ∙ same,
  )

  -- In an open tree whose root is a node over leaves in memory (their ranges in ascending order,
  -- each beginning at its first entry, their numbers different and given out, numbers left for as
  -- many new ones), a round of the flush thread with a fuel of at least 1 throws nothing and does
  -- not diverge, leaves the tree open, and changes the answer of `get` for no key of which the
  -- write buffer has a newer entry than the root, and the root then no older one than the leaf
  -- that the key is sent to, where they have one; provided that a flush of the root would leave no
  -- leaf full.
  pub get-thread_round :
      All
        (λ x. buffer_full x ≡ false)
        (local_flush (filled t root) (c ∷ cs) t.manifest t.disk t.data_dir).1.children
      → (k : Str) (depth fuel : ℕ) → 1 < fuel
      → BufferNewer k t root
      → IsNewer k (filled t root).buffer (buffer_at (c ∷ cs) (route (c ∷ cs) k))
      → ((flush_round (suc depth) (record t { flush_in_progress = true })).0 ≡ returned tt)
        × IsOpen 1 (thread_round (suc depth) t)
        × ((get fuel k (thread_round (suc depth) t)).0 ≡ (get fuel k t).0)
  get-thread_round full k depth fuel h newer_buf newer_root =
      let rid = t.manifest.root_id in
      let merged : newest k n.buffer
          ≡ newer (newest k root.buffer) (newest k (to_sorted_vector t.write_buf)) =
        newest-stable_sort k (root.buffer ++ to_sorted_vector t.write_buf)
        ∙ newest-append k root.buffer (to_sorted_vector t.write_buf) in
      let kept =
        answers-root 1 fuel k t begun root n o h fan.found newer_buf refl refl
          (filled-IsReady 1 t root o fan.ready) merged refl refl refl refl in
      elim (Bool-cases (buffer_full n)) [
        | inr q ↦
            after_settling begun k fuel (suc depth) (settles_small (suc depth) q) h kept.0 kept.1
        | inl q ↦
            let flushed =
              get-do_flush begun n c cs kept.0 (filled-IsFan t root c cs o fan) distinct known
                root_known room full k depth fuel h newer_root in
            let all : do_flush (suc depth) rid begun
                ≡ (returned tt, (do_flush (suc depth) rid begun).1) =
              ap (λ (r : Outcome (Unit {0})). (r, (do_flush (suc depth) rid begun).1)) flushed.0 in
            after_settling (do_flush (suc depth) rid begun).1 k fuel (suc depth)
              (settles_full (suc depth) q ∙ all) h flushed.1 (flushed.3 ∙ kept.1)
      ]
