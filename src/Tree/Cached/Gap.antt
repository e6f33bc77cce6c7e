-- ===== src/Tree/Cached/Gap.antt =====
-- `get` between the two critical sections of a round of the flush thread, or of `flush`.
use gravtree.Prelude.{ℕ, ◌<◌, ◌≡◌, refl, ap, ◌∙◌, Option, some}
use gravtree.Key.{Str}
use gravtree.Entry.{Entry}
use gravtree.Entry.Newest.{newest}
use gravtree.SkipList.{to_sorted_vector}
use gravtree.SkipList.Valid.Laws.{clear-IsValid, to_sorted_vector-clear}
use gravtree.Tree.State.{Tree, Outcome, returned}
use gravtree.Tree.Read.{answer, get}
use gravtree.Tree.Write.{take_pending}
use gravtree.Tree.Cached.Answers.{first_hit, first_hit-none, first_hit-some, layers, answered}
use gravtree.Tree.Cached.Laws.{IsOpen, get-open}

take_pending-IsOpen : (l : ℕ) (t : Tree) → IsOpen l t → IsOpen l (take_pending t).1
unfolding take_pending
take_pending-IsOpen l t o = record {
  rooted = o.rooted;
  buffer = clear-IsValid t.write_buf;
  numbers = rw (to_sorted_vector-clear t.write_buf) tt;
  room = o.room;
}

-- In an open tree whose write buffer has the key, `get` with enough fuel answers from the newest
-- entry of the key in the write buffer; behind the first critical section of a flush, and before
-- the second, it answers what the nodes alone say of the key.
pub get-take_pending :
    (l fuel : ℕ) (k : Str) (t : Tree) (e : Entry)
    → IsOpen l t
    → l < fuel
    → newest k (to_sorted_vector t.write_buf) ≡ some e
    → ((get fuel k t).0 ≡ returned (answer e))
      × ((get fuel k (take_pending t).1).0
          ≡ returned (answered (first_hit k (layers t.cache l k t.manifest.root_id))))
unfolding take_pending
get-take_pending l fuel k t e o h hot =
    let below = layers t.cache l k t.manifest.root_id in
    (
      ap (λ (p : Outcome (Option Str) × Tree). p.0) (get-open l fuel k t o h)
          ∙ ap (λ x. returned (answered x))
              (first_hit-some k (to_sorted_vector t.write_buf) below e hot),
      ap (λ (p : Outcome (Option Str) × Tree). p.0)
            (get-open l fuel k (take_pending t).1 (take_pending-IsOpen l t o) h)
          ∙ ap (λ x. returned (answered x))
              (first_hit-none k _ below
                (rw (to_sorted_vector-clear t.write_buf) (unfold newest in refl))),
    )
