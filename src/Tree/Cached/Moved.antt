-- ===== src/Tree/Cached/Moved.antt =====
-- A tree whose root has taken what the write buffer had.
use gravtree.Prelude.{
  ℕ, ◌<◌, ◌≤◌, ◌≡◌, refl, ap, sym, ◌∙◌, false, Option, some, List, [], ◌∷◌, ◌++◌, drop, leb,
  All_mono, All-append, arith, Option-cases, inl, inr,
}
use gravtree.Key.{Str}
use gravtree.Entry.{Entry}
use gravtree.Entry.Newest.{newest, newer, newer-none}
use gravtree.Sort.{stable_sort, stable_sort-IsSorted, All-stable_sort}
use gravtree.SkipList.{to_sorted_vector, clear}
use gravtree.SkipList.Valid.Laws.{clear-IsValid, to_sorted_vector-clear}
use gravtree.Node.{SstNode, max_seq}
use gravtree.Tree.{get_node, children_of}
use gravtree.Tree.Cache.{find, put}
use gravtree.Tree.State.{Tree, Outcome, returned, bind-returned}
use gravtree.Tree.Read.{get}
use gravtree.Tree.Write.{drain}
use gravtree.Tree.Cached.{IsReady, get_node-find}
use gravtree.Tree.Cached.Answers.{first_hit, first_hit-none, first_hit-some, layers, answered}
use gravtree.Tree.Cached.Root.{Rooted-root, layers-root, layers-head}
use gravtree.Tree.Cached.Laws.{IsOpen, all_layers, get-open, first_hit-newest}

-- What the write buffer has of a key is newer than what the root has of it.
abbrev pub BufferNewer : Str → Tree → SstNode → Type 0
BufferNewer k t root =
    (e f : Entry)
    → newest k (to_sorted_vector t.write_buf) ≡ some e
    → newest k root.buffer ≡ some f
    → f.seq_no < e.seq_no

-- Two layers may become one, if the upper is the newer.
pub first_hit-merged :
    (k : Str) (p r m : List Entry) (bs : List (List Entry))
    → ((e f : Entry) → newest k p ≡ some e → newest k r ≡ some f → f.seq_no < e.seq_no)
    → newest k m ≡ newer (newest k r) (newest k p)
    → first_hit k (m ∷ bs) ≡ first_hit k (p ∷ r ∷ bs)
first_hit-merged k p r m bs h q = elim (Option-cases (newest k p)) [
  | inl no_p ↦
      first_hit-newest k m r bs (q ∙ rw no_p (newer-none (newest k r)))
      ∙ sym (first_hit-none k p (r ∷ bs) no_p)
  | inr (e, at_p) ↦ elim (Option-cases (newest k r)) [
    | inl no_r ↦
        first_hit-some k m bs e (q ∙ rw (at_p, no_r) (unfold newer in refl))
        ∙ sym (first_hit-some k p (r ∷ bs) e at_p)
    | inr (f, at_r) ↦
        let older : leb e.seq_no f.seq_no ≡ false = ground (arith, h e f at_p at_r) in
        first_hit-some k m bs e (q ∙ rw (at_p, at_r) (unfold newer in rw older refl))
        ∙ sym (first_hit-some k p (r ∷ bs) e at_p)
  ]
]

-- the root with the entries of the write buffer
abbrev pub filled : Tree → SstNode → SstNode
filled t root = record root { buffer = stable_sort (root.buffer ++ to_sorted_vector t.write_buf) }

abbrev pub drained : Tree → SstNode → Tree
drained t root = record t {
  write_buf = clear t.write_buf;
  cache = put t.manifest.root_id root t.cache;
}

pub drain-found :
    (t : Tree) (root : SstNode)
    → find t.manifest.root_id t.cache ≡ some root
    → drain t ≡ (returned (t.manifest.root_id, filled t root), drained t (filled t root))
unfolding drain
drain-found t root h =
    bind-returned (get_node t.manifest.root_id) _ (record t { write_buf = clear t.write_buf })
      (record t { write_buf = clear t.write_buf }) root
      (get_node-find t.manifest.root_id (record t { write_buf = clear t.write_buf }) root h)

pub filled-IsReady :
    (l : ℕ) (t : Tree) (root : SstNode) → IsOpen l t → IsReady root → IsReady (filled t root)
filled-IsReady l t root o r = (
  stable_sort-IsSorted (root.buffer ++ to_sorted_vector t.write_buf),
  All-stable_sort (λ e. e.seq_no ≤ max_seq) (root.buffer ++ to_sorted_vector t.write_buf)
      (All-append (λ e. e.seq_no ≤ max_seq) root.buffer (to_sorted_vector t.write_buf) r.1
        (All_mono _ _ (λ e h. omega (arith, h, o.room)) (to_sorted_vector t.write_buf) o.numbers)),
)

-- A tree whose root has become `root'`, with the same children and an empty write buffer, is open, and
-- asks the new root and then what it asked before.
pub opened-root :
    (l fuel : ℕ) (k : Str) (t t' : Tree) (root root' : SstNode)
    → IsOpen l t
    → l < fuel
    → find t.manifest.root_id t.cache ≡ some root
    → root'.level ≡ root.level
    → children_of root' ≡ children_of root
    → IsReady root'
    → t'.cache ≡ put t.manifest.root_id root' t.cache
    → t'.manifest.root_id ≡ t.manifest.root_id
    → t'.write_buf ≡ clear t.write_buf
    → t'.seq ≡ t.seq
    → IsOpen l t'
      × ((get fuel k t').0
          ≡ returned (
              answered
                (first_hit k (root'.buffer ∷ drop 1 (layers t.cache l k t.manifest.root_id)))))
opened-root l fuel k t t' root root' o h found level kids ready cache rid buf seq =
    let stored = layers-root t.cache l k t.manifest.root_id root root' found o.rooted kids in
    let opened : IsOpen l t' = record {
      rooted =
          rw (cache, rid)
            (Rooted-root t.cache l t.manifest.root_id root root' found o.rooted level kids ready);
      buffer = rw buf (clear-IsValid t.write_buf);
      numbers = rw (buf, to_sorted_vector-clear) tt;
      room = rw seq o.room;
    } in
    let hit : first_hit k (all_layers l k t')
        ≡ first_hit k (root'.buffer ∷ drop 1 (layers t.cache l k t.manifest.root_id)) =
      rw (buf, to_sorted_vector-clear, cache, rid, stored)
        (first_hit-none k [] _ (unfold newest in refl)) in
    (
      opened,
      ap (λ (p : Outcome (Option Str) × Tree). p.0) (get-open l fuel k t' opened h)
          ∙ ap (λ o. returned (answered o)) hit,
    )

-- What is asked before: the write buffer, and the old root.
pub get-root :
    (l fuel : ℕ) (k : Str) (t : Tree) (root : SstNode)
    → IsOpen l t
    → l < fuel
    → find t.manifest.root_id t.cache ≡ some root
    → (get fuel k t).0
      ≡ returned (
          answered (
            first_hit k (
              to_sorted_vector t.write_buf
              ∷ root.buffer
              ∷ drop 1 (layers t.cache l k t.manifest.root_id))))
get-root l fuel k t root o h found =
    ap (λ (p : Outcome (Option Str) × Tree). p.0) (get-open l fuel k t o h)
    ∙ ap (λ bs. returned (answered (first_hit k (to_sorted_vector t.write_buf ∷ bs))))
        (layers-head t.cache l k t.manifest.root_id root found)

-- If the new root has what the old root and the write buffer had, the answers are the same.
pub answers-root :
    (l fuel : ℕ) (k : Str) (t t' : Tree) (root root' : SstNode)
    → IsOpen l t
    → l < fuel
    → find t.manifest.root_id t.cache ≡ some root
    → BufferNewer k t root
    → root'.level ≡ root.level
    → children_of root' ≡ children_of root
    → IsReady root'
    → newest k root'.buffer ≡ newer (newest k root.buffer) (newest k (to_sorted_vector t.write_buf))
    → t'.cache ≡ put t.manifest.root_id root' t.cache
    → t'.manifest.root_id ≡ t.manifest.root_id
    → t'.write_buf ≡ clear t.write_buf
    → t'.seq ≡ t.seq
    → IsOpen l t' × ((get fuel k t').0 ≡ (get fuel k t).0)
answers-root l fuel k t t' root root' o h found newer_buf level kids ready merged cache rid buf
      seq =
    let after = opened-root l fuel k t t' root root' o h found level kids ready cache rid buf seq in
    (
      after.0,
      after.1
          ∙ ap (λ o. returned (answered o))
              (first_hit-merged k (to_sorted_vector t.write_buf) root.buffer root'.buffer
                (drop 1 (layers t.cache l k t.manifest.root_id)) newer_buf merged)
          ∙ sym (get-root l fuel k t root o h found),
    )
