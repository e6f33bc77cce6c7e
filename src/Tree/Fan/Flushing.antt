-- ===== src/Tree/Fan/Flushing.antt =====
-- What `do_flush` of a root over leaves makes of the answers.
use gravtree.Prelude.{
  ℕ, suc, ◌+◌, ◌^◌, ◌<◌, ◌≤◌, ◌≡◌, refl, ap, sym, subst, ◌∙◌, true, false, Option, some, List, [],
  ◌∷◌, length, leb, All, All_mono, ◌==◌, arith, Option-cases, inl, inr,
}
use gravtree.Key.{Str}
use gravtree.Entry.{Entry}
use gravtree.Entry.Newest.{newest, newer}
use gravtree.Bloom.Sizing.{Doubles}
use gravtree.SkipList.{to_sorted_vector}
use gravtree.Node.{SstNode, buffer_full}
use gravtree.Flush.{route}
use gravtree.Flush.Local.{local_flush}
use gravtree.Flush.Local.Newest.{buffer_at, AllReady, newest-local_flush}
use gravtree.Tree.Cache.{find}
use gravtree.Tree.State.{Tree, Outcome, returned, bind-returned}
use gravtree.Tree.Read.{get}
use gravtree.Tree.Push.{push, overflow, do_flush}
use gravtree.Tree.Cached.Answers.{
  first_hit, first_hit-none, first_hit-some, first_hit-rest, layers, answered,
}
use gravtree.Tree.Cached.Laws.{IsOpen, get-open, first_hit-newest, all_layers}
use gravtree.Tree.Fan.{IsFan, IsFan-Rooted, IsLeaf, ids, fences}
use gravtree.Tree.Fan.Numbers.{AllDistinct}
use gravtree.Tree.Fan.Routes.{rank, rank-le, route-rank, layers-rank}
use gravtree.Tree.Fan.Steps.{overflow-none}
use gravtree.Tree.Fan.Pushed.{
  pushed, emptied, push-fan, pushed-IsFan, pushed-root_id, emptied-buffer,
}

-- What the upper buffer has of a key is not older than what the lower has of it.
abbrev pub IsNewer : Str → List Entry → List Entry → Type 0
IsNewer k upper lower =
    (e f : Entry) → newest k upper ≡ some e → newest k lower ≡ some f → f.seq_no ≤ e.seq_no

-- Two layers may become one below an empty one, if the upper wins.
first_hit-lowered :
    (k : Str) (p b m : List Entry)
    → IsNewer k p b
    → newest k m ≡ newer (newest k p) (newest k b)
    → first_hit k ([] ∷ m ∷ []) ≡ first_hit k (p ∷ b ∷ [])
first_hit-lowered k p b m h q =
    first_hit-none k [] (m ∷ []) (unfold newest in refl) ∙ elim (Option-cases (newest k p)) [
      | inl no_p ↦
          first_hit-newest k m b [] (q ∙ rw no_p (unfold newer in refl))
          ∙ sym (first_hit-none k p (b ∷ []) no_p)
      | inr (e, at_p) ↦ elim (Option-cases (newest k b)) [
        | inl no_b ↦
            first_hit-some k m [] e (q ∙ rw (at_p, no_b) (unfold newer in refl))
            ∙ sym (first_hit-some k p (b ∷ []) e at_p)
        | inr (f, at_b) ↦
            let later : leb f.seq_no e.seq_no ≡ true = ground (arith, h e f at_p at_b) in
            first_hit-some k m [] e (q ∙ rw (at_p, at_b) (unfold newer in rw later refl))
            ∙ sym (first_hit-some k p (b ∷ []) e at_p)
      ]
    ]

module _ ⦃fl : Doubles⦄ (t : Tree) (root c : SstNode) (cs : List SstNode) (o : IsOpen 1 t)
    (fan : IsFan t.cache t.manifest.root_id root c cs) (distinct : AllDistinct (c ∷ cs))
    (known : All (λ x. x.id < t.manifest.next_id) (c ∷ cs))
    (root_known : t.manifest.root_id < t.manifest.next_id)
    (room : t.manifest.next_id + length (c ∷ cs) < 2 ^ 64) where
  abbrev after : Tree
  after = pushed t t.manifest.root_id root c cs fan distinct known root_known room

  abbrev leaves_after : List SstNode
  leaves_after = (local_flush root (c ∷ cs) t.manifest t.disk t.data_dir).1.children

  newest_below :
      (k : Str)
      → newest k (buffer_at leaves_after (rank (fences cs) k))
        ≡ newer (newest k root.buffer) (newest k (buffer_at (c ∷ cs) (rank (fences cs) k)))
  newest_below k =
      let r = rank (fences cs) k in
      let here : route (c ∷ cs) k == r ≡ true = ground (arith, route-rank c cs k fan.rising) in
      let ready : AllReady (c ∷ cs) =
        All_mono _ _ (λ (x : SstNode) (l : IsLeaf x). (l.loaded, l.ready.0)) (c ∷ cs) fan.leaves in
      (newest-local_flush root (c ∷ cs) t.manifest t.disk t.data_dir ready k r
        (omega (arith, rank-le cs k))).1
      ∙ rw here refl

  runs :
      All (λ x. buffer_full x ≡ false) leaves_after
      → (depth : ℕ) → do_flush (suc depth) t.manifest.root_id t ≡ (returned tt, after)
  unfolding do_flush local_flush
  runs full depth =
      let rid = t.manifest.root_id in
      let (c', cs', here, same, fan') =
        pushed-IsFan t rid root c cs fan distinct known root_known room in
      bind-returned (push rid) (overflow (do_flush depth) depth rid) t after (ids leaves_after)
        (push-fan t rid root c cs fan distinct known root_known room)
      ∙ overflow-none (do_flush depth) depth rid leaves_after after
          (subst (λ xs. All (λ (x : SstNode). find x.id after.cache ≡ some x) xs) (sym here)
            fan'.below)
          full

  after-IsOpen : IsOpen 1 after
  after-IsOpen =
      let rid = t.manifest.root_id in
      let (c', cs', here, same, fan') =
        pushed-IsFan t rid root c cs fan distinct known root_known room in
      let top = pushed-root_id t rid root c cs fan distinct known root_known room in
      record {
        rooted = rw top (
            IsFan-Rooted after.cache rid
              (emptied t rid root c cs fan distinct known root_known room) c' cs' fan');
        buffer = o.buffer;
        numbers = o.numbers;
        room = o.room;
      }

  layers-after :
      (k : Str)
      → layers after.cache 1 k after.manifest.root_id
        ≡ [] ∷ buffer_at leaves_after (rank (fences cs) k) ∷ []
  unfolding local_flush
  layers-after k =
      let rid = t.manifest.root_id in
      let n = emptied t rid root c cs fan distinct known root_known room in
      let (c', cs', here, same, fan') =
        pushed-IsFan t rid root c cs fan distinct known root_known room in
      ap (λ id. layers after.cache 1 k id)
        (pushed-root_id t rid root c cs fan distinct known root_known room)
      ∙ layers-rank after.cache rid n c' cs' k fan'
      ∙ ap (λ b. b ∷ buffer_at (c' ∷ cs') (rank (fences cs') k) ∷ [])
          (emptied-buffer t rid root c cs fan distinct known root_known room)
      ∙ ap (λ fs. [] ∷ buffer_at (c' ∷ cs') (rank fs k) ∷ []) same
      ∙ ap (λ xs. [] ∷ buffer_at xs (rank (fences cs) k) ∷ []) (sym here)

  hit-after :
      (k : Str)
      → IsNewer k root.buffer (buffer_at (c ∷ cs) (route (c ∷ cs) k))
      → first_hit k (all_layers 1 k after) ≡ first_hit k (all_layers 1 k t)
  hit-after k newer_root =
      let r = rank (fences cs) k in
      first_hit-rest k (to_sorted_vector t.write_buf) _ _ (
        ap (λ bs. first_hit k bs) (layers-after k)
        ∙ first_hit-lowered k root.buffer (buffer_at (c ∷ cs) r) (buffer_at leaves_after r)
            (subst (λ i. IsNewer k root.buffer (buffer_at (c ∷ cs) i))
              (route-rank c cs k fan.rising) newer_root)
            (newest_below k)
        ∙ sym (ap (λ bs. first_hit k bs) (layers-rank t.cache t.manifest.root_id root c cs k fan)))

  -- In an open tree whose root is a node over leaves in memory (their ranges in ascending order,
  -- each beginning at its first entry, their numbers different and given out, numbers left for as
  -- many new ones), `do_flush` of the root with a fuel of at least 1, if it leaves no leaf full,
  -- returns without an exception, leaves the tree open, its root a node over leaves in memory
  -- (their ranges in ascending order, each beginning at its first entry) whose buffer is empty,
  -- and changes the answer of `get` for no key of which the root has no older entry than the leaf
  -- that the key is sent to.
  pub get-do_flush :
      All
        (λ x. buffer_full x ≡ false)
        (local_flush root (c ∷ cs) t.manifest t.disk t.data_dir).1.children
      → (k : Str) (depth fuel : ℕ) → 1 < fuel
      → IsNewer k root.buffer (buffer_at (c ∷ cs) (route (c ∷ cs) k))
      → ((do_flush (suc depth) t.manifest.root_id t).0 ≡ returned tt)
        × IsOpen 1 (do_flush (suc depth) t.manifest.root_id t).1
        × ((root' c' : SstNode) × (cs' : List SstNode) × (root'.buffer ≡ [])
            × IsFan
                (do_flush (suc depth) t.manifest.root_id t).1.cache
                t.manifest.root_id
                root'
                c'
                cs')
        × ((get fuel k (do_flush (suc depth) t.manifest.root_id t).1).0 ≡ (get fuel k t).0)
  get-do_flush full k depth fuel h newer_root =
      let rid = t.manifest.root_id in
      let (c', cs', here, same, fan') =
        pushed-IsFan t rid root c cs fan distinct known root_known room in
      let answers : (get fuel k after).0 ≡ (get fuel k t).0 =
        ap (λ (p : Outcome (Option Str) × Tree). p.0) (get-open 1 fuel k after after-IsOpen h)
        ∙ ap (λ x. returned (answered x)) (hit-after k newer_root)
        ∙ sym (ap (λ (p : Outcome (Option Str) × Tree). p.0) (get-open 1 fuel k t o h)) in
      rw (runs full depth) (
        refl,
        after-IsOpen,
        (
          emptied t rid root c cs fan distinct known root_known room,
          c',
          cs',
          emptied-buffer t rid root c cs fan distinct known root_known room,
          fan',
        ),
        answers,
      )
