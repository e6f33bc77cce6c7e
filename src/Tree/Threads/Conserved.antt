-- ===== src/Tree/Threads/Conserved.antt =====
-- Where the entries are that were written: no interleaving loses one or makes two of one.
use gravtree.Prelude.{
  ℕ, ◌+◌, ◌≡◌, ◌≢◌, refl, ap, sym, ◌∙◌, Bool, true, false, some, [], ◌∷◌, leb, get_elem?, set,
  arith,
}
use gravtree.Entry.{Entry}
use gravtree.Bloom.Sizing.{Doubles}
use gravtree.SkipList.{to_sorted_vector, find_key}
use gravtree.SkipList.Valid.{IsValid}
use gravtree.SkipList.Valid.Laws.{
  insert-IsValid, to_sorted_vector-insert, clear-IsValid, to_sorted_vector-clear,
}
use gravtree.Tree.State.{Tree}
use gravtree.Tree.State.Front.{Front, front}
use gravtree.Tree.Frame.{front-merge_round, flush_pending-Keeps}
use gravtree.Tree.Frame.Reading.{look_up-Keeps}
use gravtree.Tree.Write.{must_wait, store_entry, take_pending, flush_pending}
use gravtree.Tree.Read.{look_up}
use gravtree.Tree.Round.{merge_round}
use gravtree.Tree.Threads.{
  FlusherPc, ClientPc, Next, System, idle, storing, sizing, signalling, notifying, looking, resume,
  behind_signal, At, moved, entry_of, FlusherStep, ClientStep, Step, flusher, client, Reach, here,
  next,
}
use gravtree.Tree.Threads.Held.{
  total, total-append, total-insert, held, held_by_flusher, in_hands, in_hands-set,
  get_elem?-set_ne, in_hands-woken, held-if, held-behind_signal, held-behind_hot, held-resume,
}

-- Every entry that was written is in the write buffer, in the hands of a thread between its two
-- critical sections, or was handed to the second one, and no entry is in two of these places: so
-- by every weight of entries.
pub record Conserved (s : System) : Type 0 where
  pub valid : IsValid s.tree.write_buf
  pub kept :
      (w : Entry → ℕ)
      → total w s.log
        ≡ total w (to_sorted_vector s.tree.write_buf)
          + total w (held_by_flusher s.flusher)
          + in_hands w s.clients
          + total w s.handed

-- A flusher that is not between its sections holds nothing.
pub flusher-weight :
    (w : Entry → ℕ) (p q : FlusherPc)
    → p ≡ q
    → total w (held_by_flusher p) ≡ total w (held_by_flusher q)
flusher-weight w p q h = ap (λ x. total w (held_by_flusher x)) h

pub buffer-front : (t t' : Tree) → front t' ≡ front t → t'.write_buf ≡ t.write_buf
buffer-front t t' h = ap (λ (f : Front). f.write_buf) h

-- A client that holds nothing moves on and holds nothing.
moved-Conserved :
    (s s' : System) (i : ℕ) (old pc : ClientPc)
    → Conserved s
    → At s i old
    → held old ≡ []
    → held pc ≡ []
    → s'.clients ≡ set s.clients i pc
    → s'.tree.write_buf ≡ s.tree.write_buf
    → held_by_flusher s'.flusher ≡ held_by_flusher s.flusher
    → s'.log ≡ s.log
    → s'.handed ≡ s.handed
    → Conserved s'
unfolding total
moved-Conserved s s' i old pc c at nothing still clients buf hand log handed = record {
  valid = rw buf c.valid;
  kept = λ w. omega (
    arith,
    c.kept w,
    in_hands-set w s.clients i old pc at,
    ap (λ es. total w es) nothing,
    ap (λ es. total w es) still,
    ap (λ l. in_hands w l) clients,
    ap (λ b. total w (to_sorted_vector b)) buf,
    ap (λ es. total w es) hand,
    ap (λ es. total w es) log,
    ap (λ es. total w es) handed,
  );
}

pub not_same :
    (s : System) (i j : ℕ) (b : Bool) (n : Next)
    → At s i (notifying b)
    → At s j (ClientPc.sleeping n)
    → j ≢ i
not_same s i j b n at other e =
    sleeping_ne (sym other ∙ ap (λ (k : ℕ). get_elem? s.clients k) e ∙ at)
  where
    sleeping_ne : some (ClientPc.sleeping n) ≡ some (notifying b) → ⊥
    sleeping_ne h = cc

module _ ⦃fl : Doubles⦄ where
  FlusherStep-Conserved : {s s' : System} → FlusherStep s s' → Conserved s → Conserved s'
  unfolding total take_pending
  FlusherStep-Conserved {s} (FlusherStep.lock e f) c = record {
    valid = c.valid;
    kept = λ w. omega (arith, c.kept w, flusher-weight w _ _ e);
  }
  FlusherStep-Conserved {s} (FlusherStep.pass e f) c = record {
    valid = c.valid;
    kept = λ w. omega (arith, c.kept w, flusher-weight w _ _ e);
  }
  FlusherStep-Conserved {s} (FlusherStep.fail e f) c = record {
    valid = c.valid;
    kept = λ w. omega (arith, c.kept w, flusher-weight w _ _ e);
  }
  FlusherStep-Conserved {s} (FlusherStep.sleep e) c = record {
    valid = c.valid;
    kept = λ w. omega (arith, c.kept w, flusher-weight w _ _ e);
  }
  FlusherStep-Conserved {s} (FlusherStep.quit e f) c = record {
    valid = c.valid;
    kept = λ w. omega (arith, c.kept w, flusher-weight w _ _ e);
  }
  FlusherStep-Conserved {s} (FlusherStep.go e f) c = record {
    valid = c.valid;
    kept = λ w. omega (arith, c.kept w, flusher-weight w _ _ e);
  }
  FlusherStep-Conserved {s} (FlusherStep.start e) c = record {
    valid = c.valid;
    kept = λ w. omega (arith, c.kept w, flusher-weight w _ _ e);
  }
  FlusherStep-Conserved {s} (FlusherStep.take e) c = record {
    valid = clear-IsValid s.tree.write_buf;
    kept = λ w. omega (
      arith,
      c.kept w,
      flusher-weight w _ _ e,
      ap (λ es. total w es) (to_sorted_vector-clear s.tree.write_buf),
    );
  }
  FlusherStep-Conserved {s} (FlusherStep.merge {pending} fuel e f) c =
      let same =
        buffer-front s.tree (merge_round fuel pending s.tree).1
          (front-merge_round fuel pending s.tree) in
      record {
        valid = rw same c.valid;
        kept = λ w. omega (
          arith,
          c.kept w,
          flusher-weight w _ _ e,
          ap (λ b. total w (to_sorted_vector b)) same,
          total-append w s.handed pending,
        );
      }
  FlusherStep-Conserved {s} (FlusherStep.clear e) c = record {
    valid = c.valid;
    kept = λ w. omega (arith, c.kept w, flusher-weight w _ _ e);
  }
  FlusherStep-Conserved {s} (FlusherStep.finish e) c = record {
    valid = c.valid;
    kept = λ w. omega (arith, c.kept w, flusher-weight w _ _ e);
  }
  FlusherStep-Conserved {s} (FlusherStep.announce e) c = record {
    valid = c.valid;
    kept = λ w. omega (arith, c.kept w, flusher-weight w _ _ e, in_hands-woken w s.clients);
  }

  ClientStep-Conserved : {s s' : System} {i : ℕ} → ClientStep s i s' → Conserved s → Conserved s'
  unfolding total take_pending store_entry
  ClientStep-Conserved {s} {i = i} (ClientStep.call_write key value deleted at) c =
      moved-Conserved s _ i idle _ c at refl
        (held-if (must_wait s.tree) (ClientPc.locking (Next.write key value deleted))
          (storing key value deleted) refl refl)
        refl refl refl refl refl
  ClientStep-Conserved {s} {i = i} (ClientStep.call_flush at) c =
      moved-Conserved s _ i idle (signalling true) c at refl refl refl refl refl refl refl
  ClientStep-Conserved {s} {i = i} (ClientStep.call_get key at) c =
      moved-Conserved s _ i idle _ c at refl (held-behind_hot (find_key s.tree.write_buf key) key)
        refl refl refl refl refl
  ClientStep-Conserved {s} {i = i} (ClientStep.look {key} fuel at ends) c =
      moved-Conserved s _ i (looking key) idle c at refl refl refl
        (buffer-front s.tree (look_up fuel key s.tree).1 (look_up-Keeps fuel key s.tree)) refl refl
        refl
  ClientStep-Conserved {s} {i = i} (ClientStep.lock {n} at f) c =
      moved-Conserved s _ i (ClientPc.locking n) (ClientPc.testing n) c at refl refl refl refl refl
        refl refl
  ClientStep-Conserved {s} {i = i} (ClientStep.pass {n} at f) c =
      moved-Conserved s _ i (ClientPc.testing n) (resume n) c at refl (held-resume n) refl refl refl
        refl refl
  ClientStep-Conserved {s} {i = i} (ClientStep.fail {n} at f) c =
      moved-Conserved s _ i (ClientPc.testing n) (ClientPc.going n) c at refl refl refl refl refl
        refl refl
  ClientStep-Conserved {s} {i = i} (ClientStep.sleep {n} at) c =
      moved-Conserved s _ i (ClientPc.going n) (ClientPc.sleeping n) c at refl refl refl refl refl
        refl refl
  ClientStep-Conserved {s} {i = i} (ClientStep.store {key} {value} {deleted} at) c =
      let e = entry_of key value deleted s.tree in
      record {
        valid = insert-IsValid s.tree.write_buf e c.valid;
        kept = λ w. omega (
          arith,
          c.kept w,
          in_hands-set w s.clients i (storing key value deleted) sizing at,
          total-append w s.log (e ∷ []),
          total-insert w e (to_sorted_vector s.tree.write_buf),
          ap (λ es. total w es) (to_sorted_vector-insert s.tree.write_buf e c.valid),
        );
      }
  ClientStep-Conserved {s} {i = i} (ClientStep.size at) c =
      moved-Conserved s _ i sizing _ c at refl
        (held-if (leb s.tree.buffer_threshold s.tree.write_buf.bytes) (signalling false) idle refl
          refl)
        refl refl refl refl refl
  ClientStep-Conserved {s} {i = i} (ClientStep.signal {b} at) c =
      moved-Conserved s _ i (signalling b) _ c at refl
        (held-if s.tree.flush_requested (behind_signal b) (notifying b) (held-behind_signal b) refl)
        refl refl refl refl refl
  ClientStep-Conserved {s} {i = i} (ClientStep.notify_flusher {b} at e) c =
      moved-Conserved s _ i (notifying b) (behind_signal b) c at refl (held-behind_signal b) refl
        refl (sym (ap (λ p. held_by_flusher p) e)) refl refl
  ClientStep-Conserved {s} {i = i} (ClientStep.notify_client {b} {n} j at other) c =
      let first =
        moved-Conserved s (moved j (ClientPc.locking n) s) j (ClientPc.sleeping n)
          (ClientPc.locking n) c other refl refl refl refl refl refl refl in
      let there : At (moved j (ClientPc.locking n) s) i (notifying b) =
        get_elem?-set_ne s.clients j i (ClientPc.locking n) (not_same s i j b n at other) ∙ at in
      moved-Conserved (moved j (ClientPc.locking n) s) _ i (notifying b) (behind_signal b) first
        there refl (held-behind_signal b) refl refl refl refl refl
  ClientStep-Conserved {s} {i = i} (ClientStep.notify_none {b} at f all) c =
      moved-Conserved s _ i (notifying b) (behind_signal b) c at refl (held-behind_signal b) refl
        refl refl refl refl
  ClientStep-Conserved {s} {i = i} (ClientStep.take at) c = record {
    valid = clear-IsValid s.tree.write_buf;
    kept = λ w. omega (
      arith,
      c.kept w,
      in_hands-set w s.clients i ClientPc.draining
          (ClientPc.merging (to_sorted_vector s.tree.write_buf)) at,
      ap (λ es. total w es) (to_sorted_vector-clear s.tree.write_buf),
    );
  }
  ClientStep-Conserved {s} {i = i} (ClientStep.merge {pending} at) c =
      let same =
        buffer-front s.tree (flush_pending pending s.tree).1 (flush_pending-Keeps pending s.tree) in
      record {
        valid = rw same c.valid;
        kept = λ w. omega (
          arith,
          c.kept w,
          in_hands-set w s.clients i (ClientPc.merging pending) idle at,
          ap (λ b. total w (to_sorted_vector b)) same,
          total-append w s.handed pending,
        );
      }

  Step-Conserved : {s s' : System} → Step s s' → Conserved s → Conserved s'
  Step-Conserved (flusher st) c = FlusherStep-Conserved st c
  Step-Conserved (client i st) c = ClientStep-Conserved st c

  -- Whatever the flush thread and the callers of `insert`, `remove`, `get` and `flush` do, and
  -- however their steps are interleaved: if every entry that was written is in the write buffer,
  -- in the hands of one thread between its two critical sections, or was handed to the second one,
  -- and none is in two of these places (counted by every weight of entries), and the write buffer
  -- is valid, then so it is in every state that is reached.
  pub Reach-Conserved : {s t : System} → Conserved s → Reach s t → Conserved t
  Reach-Conserved c here = c
  Reach-Conserved c (next r st) = Step-Conserved st (Reach-Conserved c r)
