-- ===== src/Tree/Threads/Rounds.antt =====
-- A round of the flush thread among the steps of the callers: it ends.
use gravtree.Prelude.{ℕ, ◌+◌, ◌≤◌, ◌≡◌, false, ◌&&◌, ◌==◌}
use gravtree.Entry.{Entry}
use gravtree.Bloom.Sizing.{Doubles}
use gravtree.Tree.Threads.{FlusherPc, System, Reach}
use gravtree.Tree.Threads.Held.{total, in_hands}
use gravtree.Tree.Threads.Conserved.{Conserved}
use gravtree.Tree.Threads.Stages.{requests}

module _ ⦃fl : Doubles⦄ where
  -- What holds at the end of a round that began in `s`: the thread is back at its mutex, the round is
  -- no longer announced as going on, the request is answered but for new ones, and every entry that
  -- was written before the round has been handed to the nodes, by the thread or by a caller, or is in
  -- the hands of a caller.
  pub record IsOver {s t : System} (r : Reach s t) : Type 0 where
    pub back : t.flusher ≡ FlusherPc.locking
    pub progress : t.tree.flush_in_progress ≡ false
    pub answered : ((requests r == 0) && t.tree.flush_requested) ≡ false
    pub written : (w : Entry → ℕ) → total w s.log ≤ total w t.handed + in_hands w t.clients
