-- ===== src/Tree/Write.antt =====
-- src/tree.cpp: `insert`, `remove`, `flush`, `ensure_root` and `open`, and the part of the destructor
-- behind the join.
use gravtree.Prelude.{
  List, ℕ, ◌+◌, ◌%◌, ◌^◌, Bool, true, false, [], ◌∷◌, ◌++◌, leb, ◌==◌, if◌then◌else◌,
}
use gravtree.Key.{Str}
use gravtree.Entry.{Entry, invalid_node_id}
use gravtree.Sort.{stable_sort}
use gravtree.SkipList
use gravtree.SkipList.{to_sorted_vector, clear}
use gravtree.Bloom.Sizing.{Doubles}
use gravtree.Node.{SstNode, buffer_size_bytes}
use gravtree.File.{flush_to_disk, load_header, load_entries}
use gravtree.Manifest.{node_path, register_node, set_root}
use gravtree.Tree.{get_node}
use gravtree.Tree.State.{
  Tree, Action, ◌>>=◌, ◌>>◌, pure, gets, modify, results, on_disk, on_manifest, new_id,
  save_manifest, put_node, create_node,
}

-- The body of `insert` and `remove` behind `wait_for_flush_complete`: `next_seq`, the insertion, and
-- the signal, in which only the flag is state.
unfoldable pub write : Str → Str → Bool → Tree → Tree
write key value deleted t =
    let e : Entry = record { key = key; value = value; seq_no = t.seq; deleted = deleted } in
    let buf = SkipList.insert t.write_buf e in
    record t {
      seq = (t.seq + 1) % 2 ^ 64;
      write_buf = buf;
      flush_requested = if leb t.buffer_threshold buf.bytes then true else t.flush_requested;
    }

-- what a write does under `write_buf_mu_`
unfoldable pub store_entry : Str → Str → Bool → Tree → Tree
store_entry key value deleted t = record t {
  seq = (t.seq + 1) % 2 ^ 64;
  write_buf =
      SkipList.insert t.write_buf
        (record { key = key; value = value; seq_no = t.seq; deleted = deleted });
}

unfoldable pub insert : Str → Str → Tree → Tree
unfolding write
insert key value t = write key value false t

unfoldable pub remove : Str → Tree → Tree
unfolding write
remove key t = write key [] true t

-- whether `insert` and `remove` wait for a flush
unfoldable pub must_wait : Tree → Bool
must_wait t = leb t.hard_limit t.write_buf.bytes

-- `pending = write_buf_.to_sorted_vector(); write_buf_.clear();`, under `write_buf_mu_`
unfoldable pub take_pending : Action (List Entry)
take_pending = do
  pending ← gets (λ t. to_sorted_vector t.write_buf)
  modify (λ t. record t { write_buf = clear t.write_buf })
  pure pending

-- `pending` goes to the root's buffer, under `cache_mu_`. The result is the root's number and the
-- root.
unfoldable pub fill_root : List Entry → Action (ℕ × SstNode)
fill_root pending = do
  rid ← gets (λ t. t.manifest.root_id)
  root ← get_node rid
  let root' : SstNode = record root { buffer = stable_sort (root.buffer ++ pending) }
  put_node rid root'
  pure (rid, root')

unfoldable pub drain : Action (ℕ × SstNode)
unfolding take_pending fill_root
drain = take_pending >>= fill_root

module _ ⦃fl : Doubles⦄ where
  -- `root.flush_to_disk(…)`, `register_node(rid, …)` and `save`, of a root with entries
  unfoldable pub persist_root : ℕ → SstNode → Action (Unit {0})
  persist_root rid root = elim root.buffer [
    | [] ↦ pure tt
    | e ∷ es ↦ do
      root' ← on_disk (λ t. flush_to_disk t.data_dir root t.disk)
      put_node rid root'
      on_manifest (register_node rid root'.level root'.file_path)
      save_manifest
  ]

  -- the second critical section of `flush`
  unfoldable pub flush_pending : List Entry → Action (Unit {0})
  flush_pending pending = fill_root pending >>= λ p. persist_root p.0 p.1

  -- `flush` behind the wait for the flush thread
  unfoldable pub flush : Action (Unit {0})
  unfolding drain persist_root
  flush = drain >>= λ p. persist_root p.0 p.1

  -- the destructor behind the join, which catches every exception
  unfoldable pub close : Tree → Tree
  unfolding drain persist_root
  close t =
      let emptied = record t { write_buf = clear t.write_buf } in
      if t.manifest.root_id == invalid_node_id then emptied else (flush_all t).1
    where
      flush_all : Action (Unit {0})
      flush_all = drain >>= λ p. persist_root p.0 p.1

  -- `ensure_root` of an empty manifest
  abbrev pub first_root : Action (Unit {0})
  first_root = do
    rid ← new_id
    root ← create_node rid 0 [] []
    on_manifest (register_node rid 0 root.file_path)
    on_manifest (set_root rid)
    save_manifest
    modify (λ t. record t { root_buf_bytes = 0 })
    put_node rid root

  abbrev pub stored_root : ℕ → Action (Unit {0})
  stored_root rid = do
    path ← results (λ t. node_path t.manifest rid)
    header ← results (λ t. load_header path t.disk)
    root ← results (λ t. load_entries header t.disk)
    modify (λ t. record t { root_buf_bytes = buffer_size_bytes root })
    put_node root.id root

  unfoldable pub ensure_root : Action (Unit {0})
  ensure_root = do
    rid ← gets (λ t. t.manifest.root_id)
    elim (rid == invalid_node_id) [ true ↦ first_root | false ↦ stored_root rid ]
