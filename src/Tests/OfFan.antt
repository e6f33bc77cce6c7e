-- ===== src/Tests/OfFan.antt =====
-- Runs of the flush of a root over leaves.
use gravtree.Prelude.{ℕ, ◌≡◌, refl, ap, Option, none, some, true, false, List, [], ◌∷◌, All, arith}
use gravtree.Key.{cmp}
use gravtree.Entry.{Entry, before}
use gravtree.Entry.Newest.{newest, newer}
use gravtree.Sort.{stable_sort}
use gravtree.Flush.{
  partition_entries, distribute, push_at, route, route_below, merge_sorted_entries,
}
use gravtree.Flush.Local.{local_flush, flush_children, rewrite_child}
use gravtree.Flush.Local.Newest.{buffer_at}
use gravtree.File.{load_entries, create}
use gravtree.Node.{
  SstNode, fresh, build_bloom, build_sparse_index, sorted_unique, dedup_loop, back_has_key,
  buffer_full, buffer_size_bytes, entries_bytes,
}
use gravtree.Manifest.{next_node_id}
use gravtree.Tree.Cache.{find}
use gravtree.Tree.State.{Tree, returned}
use gravtree.Tree.Read.{get, answer}
use gravtree.Tree.Write.{flush}
use gravtree.Tree.Cached.Flushing.{get-flush_stale}
use gravtree.Tree.Push.{do_flush}
use gravtree.Tree.Cached.Laws.{IsOpen}
use gravtree.Tree.Fan.{IsFan, IsFan-Rooted, IsLeaf}
use gravtree.Tree.Fan.Flushing.{IsNewer, get-do_flush}
use gravtree.Tree.Fan.Round.{get-thread_round}
use gravtree.Tree.Round.{flush_round, thread_round}
use gravtree.Tree.Cached.Moved.{filled}
use gravtree.SkipList.{to_sorted_vector, insert}
use gravtree.Tests.Data.{apple, banana, cherry, put, leaf, sorted_a, whole_numbers}
use gravtree.Tests.OfSkipList.{one_entry-IsValid, one_entry_runs}
use gravtree.Tests.OfTree.{root, small_tree, small_tree-IsOpen, banana-BufferNewer}

-- The root has a newer banana than the leaf 2.
abbrev top : SstNode
top = record root { buffer = put banana 6 5 ∷ [] }

abbrev left : SstNode
left = leaf 2 apple sorted_a

abbrev right : SstNode
right = leaf 3 cherry (put cherry 9 4 ∷ [])

abbrev heavy : Tree
heavy = record small_tree { cache = (10, top) ∷ (2, left) ∷ (3, right) ∷ [] }

left-IsLeaf : IsLeaf left
unfolding before cmp
left-IsLeaf = record {
  loaded = refl;
  level = refl;
  childless = refl;
  ready = (
    ((refl, (refl, tt)), ((refl, tt), (tt, tt))),
    (omega arith, (omega arith, (omega arith, tt))),
  );
  filled = omega arith;
  fence = refl;
}

right-IsLeaf : IsLeaf right
right-IsLeaf = record {
  loaded = refl;
  level = refl;
  childless = refl;
  ready = ((tt, tt), (omega arith, tt));
  filled = omega arith;
  fence = refl;
}

heavy-IsFan : IsFan heavy.cache 10 top left (right ∷ [])
unfolding find cmp
heavy-IsFan = record {
  found = refl;
  level = refl;
  ready = ((tt, tt), (omega arith, tt));
  kids = refl;
  count = refl;
  below = (refl, (refl, tt));
  leaves = (left-IsLeaf, (right-IsLeaf, tt));
  rising = ((refl, tt), (tt, tt));
}

heavy-IsOpen : IsOpen 1 heavy
heavy-IsOpen = record {
  rooted = IsFan-Rooted heavy.cache 10 top left (right ∷ []) heavy-IsFan;
  buffer = one_entry-IsValid;
  numbers = rw one_entry_runs (omega arith, tt);
  room = omega arith;
}

none_full :
    All
      (λ x. buffer_full x ≡ false)
      (local_flush top (left ∷ right ∷ []) heavy.manifest heavy.disk heavy.data_dir).1.children
unfolding local_flush flush_children rewrite_child partition_entries distribute push_at route
    route_below merge_sorted_entries load_entries create fresh build_bloom build_sparse_index
    sorted_unique dedup_loop back_has_key buffer_full buffer_size_bytes entries_bytes stable_sort
    before cmp next_node_id
none_full = (refl, (refl, tt))

banana-IsNewer :
    IsNewer banana top.buffer (buffer_at (left ∷ right ∷ []) (route (left ∷ right ∷ []) banana))
unfolding newest newer cmp route route_below
banana-IsNewer e f upper lower =
    let a : 5 ≡ e.seq_no = ap seq_of upper in let b : 2 ≡ f.seq_no = ap seq_of lower in omega arith
  where
    seq_of : Option Entry → ℕ
    seq_of none = 0
    seq_of (some e) = e.seq_no

get-do_flush_example :
    ((do_flush 1 10 heavy).0 ≡ returned tt)
    × IsOpen 1 (do_flush 1 10 heavy).1
    × ((root' c' : SstNode) × (cs' : List SstNode) × (root'.buffer ≡ [])
        × IsFan (do_flush 1 10 heavy).1.cache 10 root' c' cs')
    × ((get 2 banana (do_flush 1 10 heavy).1).0 ≡ (get 2 banana heavy).0)
get-do_flush_example =
    get-do_flush heavy top left (right ∷ []) heavy-IsOpen heavy-IsFan
      (((omega arith), tt), (tt, tt)) (omega arith, (omega arith, tt)) (omega arith) (omega arith)
      none_full banana 0 2 (omega arith) banana-IsNewer

-- The same leaves, with an old banana in the root and a newer one in the write buffer.
small_tree-IsFan : IsFan small_tree.cache 10 root left (right ∷ [])
unfolding find cmp
small_tree-IsFan = record {
  found = refl;
  level = refl;
  ready = ((tt, tt), (omega arith, tt));
  kids = refl;
  count = refl;
  below = (refl, (refl, tt));
  leaves = (left-IsLeaf, (right-IsLeaf, tt));
  rising = ((refl, tt), (tt, tt));
}

none_full_filled :
    All
      (λ x. buffer_full x ≡ false)
      (local_flush
        (filled small_tree root)
        (left ∷ right ∷ [])
        small_tree.manifest
        small_tree.disk
        small_tree.data_dir).1.children
unfolding local_flush flush_children rewrite_child partition_entries distribute push_at route
    route_below merge_sorted_entries load_entries create fresh build_bloom build_sparse_index
    sorted_unique dedup_loop back_has_key buffer_full buffer_size_bytes entries_bytes stable_sort
    before cmp next_node_id to_sorted_vector insert
none_full_filled = (refl, (refl, tt))

filled_banana-IsNewer :
    IsNewer banana
      (filled small_tree root).buffer
      (buffer_at (left ∷ right ∷ []) (route (left ∷ right ∷ []) banana))
unfolding newest newer cmp route route_below stable_sort before to_sorted_vector insert
filled_banana-IsNewer e f upper lower =
    let a : 2 ≡ e.seq_no = ap seq_of upper in let b : 2 ≡ f.seq_no = ap seq_of lower in omega arith
  where
    seq_of : Option Entry → ℕ
    seq_of none = 0
    seq_of (some e) = e.seq_no

get-thread_round_example :
    ((flush_round 1 (record small_tree { flush_in_progress = true })).0 ≡ returned tt)
    × IsOpen 1 (thread_round 1 small_tree)
    × ((get 2 banana (thread_round 1 small_tree)).0 ≡ (get 2 banana small_tree).0)
get-thread_round_example =
    get-thread_round small_tree root left (right ∷ []) small_tree-IsOpen small_tree-IsFan
      (((omega arith), tt), (tt, tt)) (omega arith, (omega arith, tt)) (omega arith) (omega arith)
      none_full_filled banana 0 2 (omega arith) banana-BufferNewer filled_banana-IsNewer

-- The write that is not newer than what the root has gets lost.
get-flush_stale_example :
    ((get 2 banana heavy).0 ≡ returned (answer (put banana 1 2)))
    × ((get 2 banana (flush heavy).1).0 ≡ returned (answer (put banana 6 5)))
get-flush_stale_example =
    get-flush_stale 1 2 banana heavy top (put banana 1 2) (put banana 6 5) heavy-IsOpen
      (omega arith) (unfold find in refl) (rw one_entry_runs (unfold newest newer cmp in refl))
      (unfold newest newer cmp in refl) (omega arith)
