-- ===== src/Tree/Cached/Flushing.antt =====
-- What the flush of the write buffer into the root makes of the answers.
use gravtree.Prelude.{
  ℕ, ◌<◌, ◌≡◌, refl, ap, ◌∙◌, ◌⊎◌, some, List, [], ◌∷◌, ◌++◌, arith, ◌≤◌, leb, true, drop, inl, inr,
}
use gravtree.Key.{Str}
use gravtree.Entry.{Entry}
use gravtree.Disk.{Disk}
use gravtree.Entry.Newest.{newest, newer, newest-append}
use gravtree.Sort.{newest-stable_sort}
use gravtree.SkipList.{to_sorted_vector, clear}
use gravtree.Bloom.Sizing.{Doubles}
use gravtree.Node.{SstNode, refreshed, sort_buffer, sorted_unique, build_bloom, build_sparse_index}
use gravtree.Node.Dedup.{newest-sorted_unique}
use gravtree.File.{flush_to_disk}
use gravtree.Manifest.{register_node}
use gravtree.Manifest.Text.{save}
use gravtree.Tree.{children_of}
use gravtree.Tree.Cache.{find, put, put-put}
use gravtree.Tree.State.{Tree, returned, bind-returned}
use gravtree.Tree.Read.{answer, get}
use gravtree.Tree.Cached.Answers.{first_hit-some, layers, answered}
use gravtree.Tree.Write.{drain, persist_root, flush}
use gravtree.Tree.Cached.{IsReady, Rooted-found}
use gravtree.Tree.Cached.Laws.{IsOpen}
use gravtree.Tree.Cached.Made.{sorted_unique-IsReady}
use gravtree.Tree.Cached.Moved.{
  opened-root, get-root, BufferNewer, filled, drained, drain-found, filled-IsReady, answers-root,
}

module _ ⦃fl : Doubles⦄ where
  -- the tree behind the writing of a root with entries
  abbrev pub written : ℕ → SstNode → Tree → Tree
  written rid root t =
      let (root', d) = flush_to_disk t.data_dir root t.disk in
      let m = register_node rid root'.level root'.file_path t.manifest in
      record t { cache = put rid root' t.cache; manifest = m; disk = save m d }

  persist_root-nil :
      (rid : ℕ) (root : SstNode) (t : Tree)
      → root.buffer ≡ []
      → persist_root rid root t ≡ (returned tt, t)
  unfolding persist_root
  persist_root-nil rid root t h = rw h refl

  pub persist_root-cons :
      (rid : ℕ) (root : SstNode) (t : Tree) (e : Entry) (es : List Entry)
      → root.buffer ≡ e ∷ es
      → persist_root rid root t ≡ (returned tt, written rid root t)
  unfolding persist_root
  persist_root-cons rid root t e es h = rw h refl

  pub buffer-flush_to_disk :
      (dir : Str) (n : SstNode) (d : Disk)
      → (flush_to_disk dir n d).0.buffer ≡ sorted_unique n.buffer
  unfolding flush_to_disk refreshed sort_buffer build_bloom build_sparse_index
  buffer-flush_to_disk dir n d = refl

  pub shape-flush_to_disk :
      (dir : Str) (n : SstNode) (d : Disk)
      → ((flush_to_disk dir n d).0.level ≡ n.level)
        × (children_of (flush_to_disk dir n d).0 ≡ children_of n)
  unfolding flush_to_disk refreshed sort_buffer build_bloom build_sparse_index
  shape-flush_to_disk dir n d = (refl, refl)

  -- What `flush` leaves behind: the root has become `root'`.
  record Replaced (k : Str) (t t' : Tree) (root root' : SstNode) : Type 0 where
    level : root'.level ≡ root.level
    kids : children_of root' ≡ children_of root
    ready : IsReady root'
    merged :
        newest k root'.buffer
        ≡ newer (newest k root.buffer) (newest k (to_sorted_vector t.write_buf))
    cache : t'.cache ≡ put t.manifest.root_id root' t.cache
    root_id : t'.manifest.root_id ≡ t.manifest.root_id
    buffer : t'.write_buf ≡ clear t.write_buf
    seq : t'.seq ≡ t.seq

  flush-root :
      (l : ℕ) (k : Str) (t : Tree) (root : SstNode)
      → IsOpen l t
      → find t.manifest.root_id t.cache ≡ some root
      → ((flush t).0 ≡ returned tt) × (root' : SstNode) × Replaced k t (flush t).1 root root'
  unfolding flush register_node
  flush-root l k t root o found =
      let rid = t.manifest.root_id in
      let n = filled t root in
      let t₁ = drained t n in
      let ready' : IsReady root = (Rooted-found t.cache l rid root o.rooted found).1 in
      let full = filled-IsReady l t root o ready' in
      let merged : newest k n.buffer
          ≡ newer (newest k root.buffer) (newest k (to_sorted_vector t.write_buf)) =
        newest-stable_sort k (root.buffer ++ to_sorted_vector t.write_buf)
        ∙ newest-append k root.buffer (to_sorted_vector t.write_buf) in
      let first : flush t ≡ persist_root rid n t₁ =
        bind-returned drain (λ p. persist_root p.0 p.1) t t₁ (rid, n) (drain-found t root found) in
      elim (List-cases n.buffer) [
        | inl empty ↦ rw (first ∙ persist_root-nil rid n t₁ empty) (
          refl,
          n,
          record {
            level = refl;
            kids = refl;
            ready = full;
            merged = merged;
            cache = refl;
            root_id = refl;
            buffer = refl;
            seq = refl;
          },
        )
        | inr (e, es, some_entries) ↦
            let n' = (flush_to_disk t.data_dir n t.disk).0 in
            let shape = shape-flush_to_disk t.data_dir n t.disk in
            let buf = buffer-flush_to_disk t.data_dir n t.disk in
            rw (first ∙ persist_root-cons rid n t₁ e es some_entries) (
              refl,
              n',
              record {
                level = shape.0;
                kids = shape.1;
                ready = rw buf (sorted_unique-IsReady n.buffer full.1);
                merged = ap (λ es. newest k es) buf ∙ newest-sorted_unique k n.buffer ∙ merged;
                cache = put-put rid n' n t.cache;
                root_id = refl;
                buffer = refl;
                seq = refl;
              },
            )
      ]
    where
      List-cases : (es : List Entry) → (es ≡ []) ⊎ ((x : Entry) × (xs : List Entry) × (es ≡ x ∷ xs))
      List-cases [] = inl refl
      List-cases (x ∷ xs) = inr (x, xs, refl)

  -- In a tree that is open (its nodes in memory, sorted and level below level, its write buffer in
  -- shape, no number of it still to be given out), `flush` behind its wait returns without an
  -- exception, leaves the tree open, and changes the answer of `get` for no key of which the write
  -- buffer has a newer entry than the root, or not both have one; `get` is given more fuel than
  -- the root has levels below it.
  pub get-flush :
      (l fuel : ℕ) (k : Str) (t : Tree) (root : SstNode)
      → IsOpen l t
      → l < fuel
      → find t.manifest.root_id t.cache ≡ some root
      → BufferNewer k t root
      → ((flush t).0 ≡ returned tt)
        × IsOpen l (flush t).1
        × ((get fuel k (flush t).1).0 ≡ (get fuel k t).0)
  get-flush l fuel k t root o h found newer_buf =
      let (ends, root', r) = flush-root l k t root o found in
      let kept =
        answers-root l fuel k t (flush t).1 root root' o h found newer_buf r.level r.kids r.ready
          r.merged r.cache r.root_id r.buffer r.seq in
      (ends, kept.0, kept.1)

  -- In an open tree in which both the write buffer and the root have a key, and the newest entry
  -- of the write buffer has no higher number than that of the root, `get` with enough fuel answers
  -- from the write buffer before `flush`, and from the entry of the root behind it.
  pub get-flush_stale :
      (l fuel : ℕ) (k : Str) (t : Tree) (root : SstNode) (e f : Entry)
      → IsOpen l t
      → l < fuel
      → find t.manifest.root_id t.cache ≡ some root
      → newest k (to_sorted_vector t.write_buf) ≡ some e
      → newest k root.buffer ≡ some f
      → e.seq_no ≤ f.seq_no
      → ((get fuel k t).0 ≡ returned (answer e))
        × ((get fuel k (flush t).1).0 ≡ returned (answer f))
  get-flush_stale l fuel k t root e f o h found hot cold late =
      let (ends, root', r) = flush-root l k t root o found in
      let after =
        opened-root l fuel k t (flush t).1 root root' o h found r.level r.kids r.ready r.cache
          r.root_id r.buffer r.seq in
      let bottom = drop 1 (layers t.cache l k t.manifest.root_id) in
      let later : leb e.seq_no f.seq_no ≡ true = ground arith in
      (
        get-root l fuel k t root o h found
            ∙ ap (λ o. returned (answered o))
                (first_hit-some k (to_sorted_vector t.write_buf) (root.buffer ∷ bottom) e hot),
        after.1
            ∙ ap (λ o. returned (answered o))
                (first_hit-some k root'.buffer bottom f
                  (r.merged ∙ rw (cold, hot) (unfold newer in rw later refl))),
      )
