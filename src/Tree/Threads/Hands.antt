-- ===== src/Tree/Threads/Hands.antt =====
-- What is in the hands of the threads, or was handed on, stays so.
use gravtree.Prelude.{ℕ, ◌+◌, ◌≤◌, ◌≡◌, refl, ap, sym, ◌∙◌, true, false, [], ◌∷◌, set, leb, arith}
use gravtree.Entry.{Entry}
use gravtree.Bloom.Sizing.{Doubles}
use gravtree.SkipList.{find_key, to_sorted_vector}
use gravtree.Tree.Write.{must_wait}
use gravtree.Tree.Threads.{
  ClientPc, Next, System, idle, storing, sizing, signalling, notifying, looking, resume,
  behind_signal, At, moved, entry_of, FlusherStep, ClientStep, Step, flusher, client, Reach, here,
  next,
}
use gravtree.Tree.Threads.Held.{
  total, total-append, held, held_by_flusher, in_hands, in_hands-set, get_elem?-set_ne,
  in_hands-woken, held-if, held-behind_signal, held-behind_hot, held-resume,
}
use gravtree.Tree.Threads.Conserved.{flusher-weight, not_same}

-- the weight of the entries that have left the write buffer
abbrev pub carried : (Entry → ℕ) → System → ℕ
carried w s = total w (held_by_flusher s.flusher) + in_hands w s.clients + total w s.handed

-- No entry goes back, and what was written stays written.
pub record IsOnward (s s' : System) : Type 0 where
  pub carry : (w : Entry → ℕ) → carried w s ≤ carried w s'
  pub log : (w : Entry → ℕ) → total w s.log ≤ total w s'.log

moved-IsOnward :
    (s s' : System) (i : ℕ) (old pc : ClientPc)
    → At s i old
    → held old ≡ []
    → held pc ≡ []
    → s'.clients ≡ set s.clients i pc
    → held_by_flusher s'.flusher ≡ held_by_flusher s.flusher
    → s'.log ≡ s.log
    → s'.handed ≡ s.handed
    → IsOnward s s'
unfolding total
moved-IsOnward s s' i old pc at nothing still clients hand log handed = record {
  carry = λ w. omega (
    arith,
    in_hands-set w s.clients i old pc at,
    ap (λ es. total w es) nothing,
    ap (λ es. total w es) still,
    ap (λ l. in_hands w l) clients,
    ap (λ es. total w es) hand,
    ap (λ es. total w es) handed,
  );
  log = λ w. omega (arith, ap (λ es. total w es) log);
}

IsOnward-trans : (s t u : System) → IsOnward s t → IsOnward t u → IsOnward s u
IsOnward-trans s t u a b = record {
  carry = λ w. omega (arith, a.carry w, b.carry w);
  log = λ w. omega (arith, a.log w, b.log w);
}

module _ ⦃fl : Doubles⦄ where
  FlusherStep-IsOnward : {s s' : System} → FlusherStep s s' → IsOnward s s'
  unfolding total
  FlusherStep-IsOnward {s} (FlusherStep.lock e f) = record {
    carry = λ w. omega (arith, flusher-weight w _ _ e);
    log = λ w. omega arith;
  }
  FlusherStep-IsOnward {s} (FlusherStep.pass e f) = record {
    carry = λ w. omega (arith, flusher-weight w _ _ e);
    log = λ w. omega arith;
  }
  FlusherStep-IsOnward {s} (FlusherStep.fail e f) = record {
    carry = λ w. omega (arith, flusher-weight w _ _ e);
    log = λ w. omega arith;
  }
  FlusherStep-IsOnward {s} (FlusherStep.sleep e) = record {
    carry = λ w. omega (arith, flusher-weight w _ _ e);
    log = λ w. omega arith;
  }
  FlusherStep-IsOnward {s} (FlusherStep.quit e f) = record {
    carry = λ w. omega (arith, flusher-weight w _ _ e);
    log = λ w. omega arith;
  }
  FlusherStep-IsOnward {s} (FlusherStep.go e f) = record {
    carry = λ w. omega (arith, flusher-weight w _ _ e);
    log = λ w. omega arith;
  }
  FlusherStep-IsOnward {s} (FlusherStep.start e) = record {
    carry = λ w. omega (arith, flusher-weight w _ _ e);
    log = λ w. omega arith;
  }
  FlusherStep-IsOnward {s} (FlusherStep.take e) = record {
    carry = λ w. omega (arith, flusher-weight w _ _ e);
    log = λ w. omega arith;
  }
  FlusherStep-IsOnward {s} (FlusherStep.merge {pending} fuel e f) = record {
    carry = λ w. omega (arith, flusher-weight w _ _ e, total-append w s.handed pending);
    log = λ w. omega arith;
  }
  FlusherStep-IsOnward {s} (FlusherStep.clear e) = record {
    carry = λ w. omega (arith, flusher-weight w _ _ e);
    log = λ w. omega arith;
  }
  FlusherStep-IsOnward {s} (FlusherStep.finish e) = record {
    carry = λ w. omega (arith, flusher-weight w _ _ e);
    log = λ w. omega arith;
  }
  FlusherStep-IsOnward {s} (FlusherStep.announce e) = record {
    carry = λ w. omega (arith, flusher-weight w _ _ e, in_hands-woken w s.clients);
    log = λ w. omega arith;
  }

  ClientStep-IsOnward : {s s' : System} {i : ℕ} → ClientStep s i s' → IsOnward s s'
  unfolding total
  ClientStep-IsOnward {s} {i = i} (ClientStep.call_write key value deleted at) =
      moved-IsOnward s _ i idle _ at refl
        (held-if (must_wait s.tree) (ClientPc.locking (Next.write key value deleted))
          (storing key value deleted) refl refl)
        refl refl refl refl
  ClientStep-IsOnward {s} {i = i} (ClientStep.call_flush at) =
      moved-IsOnward s _ i idle (signalling true) at refl refl refl refl refl refl
  ClientStep-IsOnward {s} {i = i} (ClientStep.call_get key at) =
      moved-IsOnward s _ i idle _ at refl (held-behind_hot (find_key s.tree.write_buf key) key) refl
        refl refl refl
  ClientStep-IsOnward {s} {i = i} (ClientStep.look {key} fuel at ends) =
      moved-IsOnward s _ i (looking key) idle at refl refl refl refl refl refl
  ClientStep-IsOnward {s} {i = i} (ClientStep.lock {n} at f) =
      moved-IsOnward s _ i (ClientPc.locking n) (ClientPc.testing n) at refl refl refl refl refl
        refl
  ClientStep-IsOnward {s} {i = i} (ClientStep.pass {n} at f) =
      moved-IsOnward s _ i (ClientPc.testing n) (resume n) at refl (held-resume n) refl refl refl
        refl
  ClientStep-IsOnward {s} {i = i} (ClientStep.fail {n} at f) =
      moved-IsOnward s _ i (ClientPc.testing n) (ClientPc.going n) at refl refl refl refl refl refl
  ClientStep-IsOnward {s} {i = i} (ClientStep.sleep {n} at) =
      moved-IsOnward s _ i (ClientPc.going n) (ClientPc.sleeping n) at refl refl refl refl refl refl
  ClientStep-IsOnward {s} {i = i} (ClientStep.store {key} {value} {deleted} at) = record {
    carry = λ w. omega (arith, in_hands-set w s.clients i (storing key value deleted) sizing at);
    log = λ w. omega (arith, total-append w s.log (entry_of key value deleted s.tree ∷ []));
  }
  ClientStep-IsOnward {s} {i = i} (ClientStep.size at) =
      moved-IsOnward s _ i sizing _ at refl
        (held-if (leb s.tree.buffer_threshold s.tree.write_buf.bytes) (signalling false) idle refl
          refl)
        refl refl refl refl
  ClientStep-IsOnward {s} {i = i} (ClientStep.signal {b} at) =
      moved-IsOnward s _ i (signalling b) _ at refl
        (held-if s.tree.flush_requested (behind_signal b) (notifying b) (held-behind_signal b) refl)
        refl refl refl refl
  ClientStep-IsOnward {s} {i = i} (ClientStep.notify_flusher {b} at e) =
      moved-IsOnward s _ i (notifying b) (behind_signal b) at refl (held-behind_signal b) refl
        (sym (ap (λ p. held_by_flusher p) e)) refl refl
  ClientStep-IsOnward {s} {i = i} (ClientStep.notify_client {b} {n} j at other) =
      let s₁ = moved j (ClientPc.locking n) s in
      let there : At s₁ i (notifying b) =
        get_elem?-set_ne s.clients j i (ClientPc.locking n) (not_same s i j b n at other) ∙ at in
      IsOnward-trans s s₁ _
        (moved-IsOnward s s₁ j (ClientPc.sleeping n) (ClientPc.locking n) other refl refl refl refl
          refl refl)
        (moved-IsOnward s₁ _ i (notifying b) (behind_signal b) there refl (held-behind_signal b)
          refl refl refl refl)
  ClientStep-IsOnward {s} {i = i} (ClientStep.notify_none {b} at f all) =
      moved-IsOnward s _ i (notifying b) (behind_signal b) at refl (held-behind_signal b) refl refl
        refl refl
  ClientStep-IsOnward {s} {i = i} (ClientStep.take at) = record {
    carry = λ w. omega (
      arith,
      in_hands-set w s.clients i ClientPc.draining
          (ClientPc.merging (to_sorted_vector s.tree.write_buf)) at,
    );
    log = λ w. omega arith;
  }
  ClientStep-IsOnward {s} {i = i} (ClientStep.merge {pending} at) = record {
    carry = λ w. omega (
      arith,
      in_hands-set w s.clients i (ClientPc.merging pending) idle at,
      total-append w s.handed pending,
    );
    log = λ w. omega arith;
  }

  pub Step-IsOnward : {s s' : System} → Step s s' → IsOnward s s'
  Step-IsOnward (flusher st) = FlusherStep-IsOnward st
  Step-IsOnward (client i st) = ClientStep-IsOnward st

  pub Reach-IsOnward : {s t : System} → Reach s t → IsOnward s t
  Reach-IsOnward here = record { carry = λ w. omega arith; log = λ w. omega arith }
  Reach-IsOnward (next r st) = IsOnward-trans _ _ _ (Reach-IsOnward r) (Step-IsOnward st)
