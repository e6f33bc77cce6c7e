-- ===== src/Tree/Threads.antt =====
-- include/gravtree/tree.h and src/tree.cpp: the flush thread and the threads that call `insert`,
-- `remove`, `get` and `flush`, interleaved. A step is one access to what the threads share: an atomic
-- flag, a critical section under `write_buf_mu_` or `cache_mu_`, or a move on `flush_cv_mu_` and
-- `flush_cv_`. The calls to `size_bytes` outside the mutex are read as they stand.
pub mod Held
pub mod Conserved
pub mod Asleep
pub mod Hands
pub mod Stages
pub mod Rounds
pub mod Flags
pub mod Closing
use gravtree.Prelude.{
  ℕ, ◌≡◌, ◌≢◌, Bool, true, false, not, ◌||◌, Option, none, some, List, [], ◌∷◌, ◌++◌, map, leb,
  if◌then◌else◌, get_elem?, set, All,
}
use gravtree.Key.{Str}
use gravtree.Entry.{Entry}
use gravtree.Bloom.Sizing.{Doubles}
use gravtree.SkipList.{find_key, to_sorted_vector}
use gravtree.Tree.State.{Tree, diverged}
use gravtree.Tree.Write.{must_wait, store_entry, take_pending, flush_pending}
use gravtree.Tree.Read.{look_up}
use gravtree.Tree.Round.{merge_round}

-- where the flush thread stands in `flush_thread_fn`
pub data FlusherPc : Type 0 where
  locking : FlusherPc  -- before it has `flush_cv_mu_`
  testing : FlusherPc  -- before the test of the predicate
  going : FlusherPc  -- the predicate was false
  sleeping : FlusherPc  -- in `flush_cv_`
  awake : FlusherPc  -- behind the wait
  starting : FlusherPc  -- before `flush_in_progress_` is set
  draining : FlusherPc
  merging : List Entry → FlusherPc  -- with `pending`
  clearing : FlusherPc  -- before `flush_requested_` is cleared
  finishing : FlusherPc  -- before `flush_in_progress_` is cleared
  announcing : FlusherPc  -- before `notify_all`
  ended : FlusherPc

-- what a caller of `wait_for_flush_complete` does next
pub data Next : Type 0 where
  write : Str → Str → Bool → Next
  drain : Next

pub data ClientPc : Type 0 where
  idle : ClientPc
  locking : Next → ClientPc
  testing : Next → ClientPc
  going : Next → ClientPc
  sleeping : Next → ClientPc
  storing : Str → Str → Bool → ClientPc
  sizing : ClientPc  -- before the test of the soft threshold
  signalling : Bool → ClientPc  -- in `signal_flush`, called by `flush` or not
  notifying : Bool → ClientPc
  draining : ClientPc  -- in `flush`
  merging : List Entry → ClientPc
  looking : Str → ClientPc  -- in `get`, behind the write buffer

-- `log` and `handed` are no state of the program: what was written, and what was handed to a second
-- critical section, since the beginning.
pub record System : Type 0 where
  pub tree : Tree
  pub mutex_free : Bool
  pub flusher : FlusherPc
  pub clients : List ClientPc
  pub log : List Entry
  pub handed : List Entry

abbrev pub resume : Next → ClientPc
resume (write key value deleted) = storing key value deleted
resume drain = ClientPc.draining

abbrev pub behind_signal : Bool → ClientPc
behind_signal true = ClientPc.locking drain
behind_signal false = idle

abbrev pub behind_hot : Option Entry → Str → ClientPc
behind_hot none key = looking key
behind_hot (some e) key = idle

-- what `notify_all` does to a client
abbrev pub woken : ClientPc → ClientPc
woken (sleeping n) = ClientPc.locking n
woken pc = pc

abbrev pub IsAwake : ClientPc → Type 0
IsAwake pc = (n : Next) → pc ≢ ClientPc.sleeping n

-- the predicates of the two waits
abbrev pub has_work : Tree → Bool
has_work t = t.flush_requested || t.stop

abbrev pub is_complete : Tree → Bool
is_complete t = not t.flush_in_progress || t.stop

-- client `i` moves on
abbrev pub moved : ℕ → ClientPc → System → System
moved i pc s = record s { clients = set s.clients i pc }

abbrev pub At : System → ℕ → ClientPc → Type 0
At s i pc = get_elem? s.clients i ≡ some pc

abbrev pub entry_of : Str → Str → Bool → Tree → Entry
entry_of key value deleted t = record {
  key = key;
  value = value;
  seq_no = t.seq;
  deleted = deleted;
}

module _ ⦃fl : Doubles⦄ where
  pub data FlusherStep (s : System) : System → Type 0 where
    lock :
        s.flusher ≡ FlusherPc.locking
        → s.mutex_free ≡ true
        → FlusherStep s (record s { flusher = FlusherPc.testing; mutex_free = false })
    pass :
        s.flusher ≡ FlusherPc.testing
        → has_work s.tree ≡ true
        → FlusherStep s (record s { flusher = awake; mutex_free = true })
    fail :
        s.flusher ≡ FlusherPc.testing
        → has_work s.tree ≡ false
        → FlusherStep s (record s { flusher = FlusherPc.going })
    sleep :
        s.flusher ≡ FlusherPc.going
        → FlusherStep s (record s { flusher = FlusherPc.sleeping; mutex_free = true })
    quit : s.flusher ≡ awake → s.tree.stop ≡ true → FlusherStep s (record s { flusher = ended })
    go : s.flusher ≡ awake → s.tree.stop ≡ false → FlusherStep s (record s { flusher = starting })
    start :
        s.flusher ≡ starting
        → FlusherStep s (record s {
          flusher = FlusherPc.draining;
          tree = record s.tree { flush_in_progress = true };
        })
    take :
        s.flusher ≡ FlusherPc.draining
        → FlusherStep s (record s {
          flusher = FlusherPc.merging (to_sorted_vector s.tree.write_buf);
          tree = (take_pending s.tree).1;
        })
    -- An exception ends the section as a return does.
    merge :
        {pending : List Entry} (fuel : ℕ)
        → s.flusher ≡ FlusherPc.merging pending
        → (merge_round fuel pending s.tree).0 ≢ diverged
        → FlusherStep s (record s {
          flusher = clearing;
          tree = (merge_round fuel pending s.tree).1;
          handed = s.handed ++ pending;
        })
    clear :
        s.flusher ≡ clearing
        → FlusherStep s
            (record s { flusher = finishing; tree = record s.tree { flush_requested = false } })
    finish :
        s.flusher ≡ finishing
        → FlusherStep s
            (record s { flusher = announcing; tree = record s.tree { flush_in_progress = false } })
    announce :
        s.flusher ≡ announcing
        → FlusherStep s (record s { flusher = FlusherPc.locking; clients = map woken s.clients })

  pub data ClientStep (s : System) (i : ℕ) : System → Type 0 where
    call_write :
        (key value : Str) (deleted : Bool)
        → At s i idle
        → ClientStep s i (
            moved i
              (if must_wait s.tree
                then ClientPc.locking (write key value deleted)
                else storing key value deleted)
              s)
    call_flush : At s i idle → ClientStep s i (moved i (signalling true) s)
    call_get :
        (key : Str)
        → At s i idle
        → ClientStep s i (moved i (behind_hot (find_key s.tree.write_buf key) key) s)
    look :
        {key : Str} (fuel : ℕ)
        → At s i (looking key)
        → (look_up fuel key s.tree).0 ≢ diverged
        → ClientStep s i
            (record s { clients = set s.clients i idle; tree = (look_up fuel key s.tree).1 })
    lock :
        {n : Next}
        → At s i (ClientPc.locking n)
        → s.mutex_free ≡ true
        → ClientStep s i
            (record s { clients = set s.clients i (ClientPc.testing n); mutex_free = false })
    pass :
        {n : Next}
        → At s i (ClientPc.testing n)
        → is_complete s.tree ≡ true
        → ClientStep s i (record s { clients = set s.clients i (resume n); mutex_free = true })
    fail :
        {n : Next}
        → At s i (ClientPc.testing n)
        → is_complete s.tree ≡ false
        → ClientStep s i (moved i (ClientPc.going n) s)
    sleep :
        {n : Next}
        → At s i (ClientPc.going n)
        → ClientStep s i
            (record s { clients = set s.clients i (ClientPc.sleeping n); mutex_free = true })
    store :
        {key value : Str} {deleted : Bool}
        → At s i (storing key value deleted)
        → ClientStep s i (record s {
          clients = set s.clients i sizing;
          tree = store_entry key value deleted s.tree;
          log = s.log ++ entry_of key value deleted s.tree ∷ [];
        })
    size :
        At s i sizing
        → ClientStep s i (
            moved i
              (if leb s.tree.buffer_threshold s.tree.write_buf.bytes
                then signalling false
                else idle)
              s)
    -- `flush_requested_.exchange(true)`
    signal :
        {b : Bool}
        → At s i (signalling b)
        → ClientStep s i (record s {
          clients =
              set s.clients i (if s.tree.flush_requested then behind_signal b else notifying b);
          tree = record s.tree { flush_requested = true };
        })
    -- `notify_one` wakes one of the threads in `flush_cv_`, if there is any.
    notify_flusher :
        {b : Bool}
        → At s i (notifying b)
        → s.flusher ≡ FlusherPc.sleeping
        → ClientStep s i
            (record s { clients = set s.clients i (behind_signal b); flusher = FlusherPc.locking })
    notify_client :
        {b : Bool} {n : Next} (j : ℕ)
        → At s i (notifying b)
        → At s j (ClientPc.sleeping n)
        → ClientStep s i
            (record s { clients = set (set s.clients j (ClientPc.locking n)) i (behind_signal b) })
    notify_none :
        {b : Bool}
        → At s i (notifying b)
        → s.flusher ≢ FlusherPc.sleeping
        → All IsAwake s.clients
        → ClientStep s i (moved i (behind_signal b) s)
    take :
        At s i ClientPc.draining
        → ClientStep s i (record s {
          clients = set s.clients i (ClientPc.merging (to_sorted_vector s.tree.write_buf));
          tree = (take_pending s.tree).1;
        })
    merge :
        {pending : List Entry}
        → At s i (ClientPc.merging pending)
        → ClientStep s i (record s {
          clients = set s.clients i idle;
          tree = (flush_pending pending s.tree).1;
          handed = s.handed ++ pending;
        })

  pub data Step (s : System) : System → Type 0 where
    flusher : {s' : System} → FlusherStep s s' → Step s s'
    client : {s' : System} (i : ℕ) → ClientStep s i s' → Step s s'

  pub data Reach (s : System) : System → Type 0 where
    here : Reach s s
    next : {t u : System} → Reach s t → Step t u → Reach s u
