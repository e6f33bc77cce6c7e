-- ===== src/Tests/OfThreads.antt =====
-- Runs of the threads.
use gravtree.Prelude.{◌≡◌, refl, true, false, [], ◌∷◌, arith}
use gravtree.Key.{cmp}
use gravtree.Entry.{before}
use gravtree.Entry.Newest.{newest, newer}
use gravtree.Sort.{stable_sort}
use gravtree.SkipList.{to_sorted_vector, insert}
use gravtree.Node.{buffer_full, buffer_size_bytes}
use gravtree.Tree.{get_node}
use gravtree.Tree.Cache.{find}
use gravtree.Tree.State.{Tree, returned}
use gravtree.Tree.State.Front.{front}
use gravtree.Tree.Frame.{front-merge_round}
use gravtree.Tree.Read.{answer, get}
use gravtree.Tree.Write.{take_pending, store_entry, fill_root}
use gravtree.Tree.Round.{merge_round}
use gravtree.Tree.Cached.Answers.{first_hit, layers, answered}
use gravtree.Tree.Cached.Gap.{get-take_pending}
use gravtree.Tree.Threads.{
  FlusherPc, System, idle, storing, sizing, signalling, entry_of, FlusherStep, ClientStep, flusher,
  client, Reach, here, next, starting,
}
use gravtree.Tree.Threads.Held.{total}
use gravtree.Tree.Threads.Conserved.{Conserved, Reach-Conserved}
use gravtree.Tree.Threads.Flags.{IsFlagged, Reach-IsFlagged}
use gravtree.Tree.Threads.Asleep.{IsStuck, lost_wakeup}
use gravtree.Tree.Threads.Closing.{Shutdown, stopping, ShutdownReach, IsHung, lost_shutdown}
use gravtree.Tests.Data.{apple, banana, put, whole_numbers}
use gravtree.Tests.OfSkipList.{one_entry, one_entry-IsValid, one_entry_runs}
use gravtree.Tests.OfTree.{small_tree, small_tree-IsOpen}

-- The flush thread has begun a round, and client 0 is about to write.
abbrev racing : System
racing = record {
  tree = record small_tree { flush_requested = true; flush_in_progress = true };
  mutex_free = true;
  flusher = FlusherPc.draining;
  clients = storing apple (b'x' ∷ []) false ∷ idle ∷ [];
  log = put banana 1 2 ∷ [];
  handed = [];
}

-- The thread drains, the client writes.
abbrev raced : System
raced = record {
  tree = store_entry apple (b'x' ∷ []) false (take_pending racing.tree).1;
  mutex_free = true;
  flusher = FlusherPc.merging (to_sorted_vector one_entry);
  clients = sizing ∷ idle ∷ [];
  log = put banana 1 2 ∷ entry_of apple (b'x' ∷ []) false (take_pending racing.tree).1 ∷ [];
  handed = [];
}

race : Reach racing raced
race = next (next here (flusher (FlusherStep.take refl))) (client 0 (ClientStep.store refl))

racing-Conserved : Conserved racing
unfolding total
racing-Conserved = record { valid = one_entry-IsValid; kept = λ w. rw one_entry_runs (omega arith) }

front-merge_round_example :
    front (merge_round 0 (put apple 4 9 ∷ []) small_tree).1 ≡ front small_tree
front-merge_round_example = front-merge_round 0 (put apple 4 9 ∷ []) small_tree

Reach-Conserved_example : Conserved raced
Reach-Conserved_example = Reach-Conserved racing-Conserved race

Reach-IsFlagged_example : IsFlagged raced.flusher raced.tree
Reach-IsFlagged_example = Reach-IsFlagged racing-IsFlagged race
  where
    racing-IsFlagged : IsFlagged racing.flusher racing.tree
    racing-IsFlagged = record { progress = refl; requested = refl }

-- The thread has found its predicate false, and client 0 is about to signal.
abbrev calm : System
calm = record {
  tree = small_tree;
  mutex_free = false;
  flusher = FlusherPc.going;
  clients = signalling false ∷ idle ∷ [];
  log = put banana 1 2 ∷ [];
  handed = [];
}

lost_wakeup_example : (s' : System) × Reach calm s' × ((t : System) → Reach s' t → IsStuck t)
lost_wakeup_example =
    lost_wakeup calm 0 false refl refl refl ((λ n. cc), ((λ n. cc), tt))
      ((λ b. cc), ((λ b. cc), tt))

lost_shutdown_example :
    (d : Shutdown) × ShutdownReach (record { system = calm; closer = stopping }) d
    × ((e : Shutdown) → ShutdownReach d e → IsHung e)
lost_shutdown_example = lost_shutdown (record { system = calm; closer = stopping }) refl refl

-- The thread is at the beginning of a round, and client 0 is about to write.
abbrev begun : System
begun = record racing { tree = record small_tree { flush_requested = true }; flusher = starting }

-- the tree behind the first critical section, and behind the store of the client
abbrev drained : Tree
drained = (take_pending (record begun.tree { flush_in_progress = true })).1

abbrev written : Tree
written = store_entry apple (b'x' ∷ []) false drained

abbrev merged : Tree
merged = (merge_round 0 (to_sorted_vector one_entry) written).1

abbrev rested : System
rested = record {
  tree = record merged { flush_requested = false; flush_in_progress = false };
  mutex_free = true;
  flusher = FlusherPc.locking;
  clients = sizing ∷ idle ∷ [];
  log = put banana 1 2 ∷ entry_of apple (b'x' ∷ []) false drained ∷ [];
  handed = to_sorted_vector one_entry;
}

merged_returns : (merge_round 0 (to_sorted_vector one_entry) written).0 ≡ returned tt
unfolding take_pending merge_round fill_root get_node find stable_sort buffer_full buffer_size_bytes
    before cmp to_sorted_vector insert store_entry
merged_returns = refl

a_round : Reach begun rested
a_round =
    next
      (next
        (next
          (next
            (next
              (next (next here (flusher (FlusherStep.start refl)))
                (flusher (FlusherStep.take refl)))
              (client 0 (ClientStep.store refl)))
            (flusher (FlusherStep.merge 0 refl (rw merged_returns cc))))
          (flusher (FlusherStep.clear refl)))
        (flusher (FlusherStep.finish refl)))
      (flusher (FlusherStep.announce refl))

get-take_pending_example :
    ((get 2 banana small_tree).0 ≡ returned (answer (put banana 1 2)))
    × ((get 2 banana (take_pending small_tree).1).0
        ≡ returned (answered (first_hit banana (layers small_tree.cache 1 banana 10))))
get-take_pending_example =
    get-take_pending 1 2 banana small_tree (put banana 1 2) small_tree-IsOpen (omega arith)
      (rw one_entry_runs (unfold newest newer cmp in refl))
