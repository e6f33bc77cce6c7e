-- ===== src/Tree/Threads/Flags.antt =====
-- What the two flags of the flush thread say of where it stands.
use gravtree.Prelude.{ℕ, ◌≡◌, refl, ap, sym, ◌∙◌, Bool, true, false, not, ◌||◌}
use gravtree.Bloom.Sizing.{Doubles}
use gravtree.Tree.State.{Tree}
use gravtree.Tree.State.Front.{Front, front}
use gravtree.Tree.Frame.{front-merge_round, flush_pending-Keeps}
use gravtree.Tree.Frame.Reading.{look_up-Keeps}
use gravtree.Tree.Write.{store_entry, take_pending, flush_pending}
use gravtree.Tree.Read.{look_up}
use gravtree.Tree.Round.{merge_round}
use gravtree.Tree.Threads.{
  FlusherPc, System, awake, starting, clearing, finishing, FlusherStep, ClientStep, Step, flusher,
  client, Reach, here, next,
}

-- the places between the two stores to `flush_in_progress_`
abbrev pub in_round : FlusherPc → Bool
in_round FlusherPc.draining = true
in_round (FlusherPc.merging pending) = true
in_round clearing = true
in_round finishing = true
in_round _ = false

-- the places from the test of the predicate that found it true to the store that clears
-- `flush_requested_`
abbrev pub is_answering : FlusherPc → Bool
is_answering awake = true
is_answering starting = true
is_answering FlusherPc.draining = true
is_answering (FlusherPc.merging pending) = true
is_answering clearing = true
is_answering _ = false

-- `flush_in_progress_` is set between its two stores and only there; while the thread answers a
-- request, `flush_requested_` is set or the thread is to stop.
pub record IsFlagged (pc : FlusherPc) (t : Tree) : Type 0 where
  pub progress : t.flush_in_progress ≡ in_round pc
  pub requested : (not (is_answering pc) || t.flush_requested || t.stop) ≡ true

same-IsFlagged :
    (pc : FlusherPc) (t t' : Tree) → IsFlagged pc t → front t' ≡ front t → IsFlagged pc t'
same-IsFlagged pc t t' k h = record {
  progress = ap (λ (f : Front). f.flush_in_progress) h ∙ k.progress;
  requested =
      ap (λ (f : Front). not (is_answering pc) || f.flush_requested || f.stop) h ∙ k.requested;
}

asked-IsFlagged :
    (pc : FlusherPc) (t : Tree)
    → IsFlagged pc t
    → IsFlagged pc (record t { flush_requested = true })
asked-IsFlagged pc t k = record { progress = k.progress; requested = asked (is_answering pc) }
  where
    asked : (b : Bool) → (not b || true || t.stop) ≡ true
    asked true = refl
    asked false = refl

module _ ⦃fl : Doubles⦄ where
  FlusherStep-IsFlagged :
      {s s' : System} → FlusherStep s s' → IsFlagged s.flusher s.tree → IsFlagged s'.flusher s'.tree
  unfolding take_pending
  FlusherStep-IsFlagged {s} (FlusherStep.lock e f) k = record {
    progress = k.progress ∙ ap (λ p. in_round p) e;
    requested = refl;
  }
  FlusherStep-IsFlagged {s} (FlusherStep.pass e f) k = record {
    progress = k.progress ∙ ap (λ p. in_round p) e;
    requested = f;
  }
  FlusherStep-IsFlagged {s} (FlusherStep.fail e f) k = record {
    progress = k.progress ∙ ap (λ p. in_round p) e;
    requested = refl;
  }
  FlusherStep-IsFlagged {s} (FlusherStep.sleep e) k = record {
    progress = k.progress ∙ ap (λ p. in_round p) e;
    requested = refl;
  }
  FlusherStep-IsFlagged {s} (FlusherStep.quit e f) k = record {
    progress = k.progress ∙ ap (λ p. in_round p) e;
    requested = refl;
  }
  FlusherStep-IsFlagged {s} (FlusherStep.go e f) k = record {
    progress = k.progress ∙ ap (λ p. in_round p) e;
    requested =
        sym (ap (λ p. not (is_answering p) || s.tree.flush_requested || s.tree.stop) e)
        ∙ k.requested;
  }
  FlusherStep-IsFlagged {s} (FlusherStep.start e) k = record {
    progress = refl;
    requested =
        sym (ap (λ p. not (is_answering p) || s.tree.flush_requested || s.tree.stop) e)
        ∙ k.requested;
  }
  FlusherStep-IsFlagged {s} (FlusherStep.take e) k = record {
    progress = k.progress ∙ ap (λ p. in_round p) e;
    requested =
        sym (ap (λ p. not (is_answering p) || s.tree.flush_requested || s.tree.stop) e)
        ∙ k.requested;
  }
  FlusherStep-IsFlagged {s} (FlusherStep.merge {pending} fuel e f) k =
      same-IsFlagged clearing s.tree (merge_round fuel pending s.tree).1
        (record {
          progress = k.progress ∙ ap (λ p. in_round p) e;
          requested =
              sym (ap (λ p. not (is_answering p) || s.tree.flush_requested || s.tree.stop) e)
              ∙ k.requested;
        })
        (front-merge_round fuel pending s.tree)
  FlusherStep-IsFlagged {s} (FlusherStep.clear e) k = record {
    progress = k.progress ∙ ap (λ p. in_round p) e;
    requested = refl;
  }
  FlusherStep-IsFlagged {s} (FlusherStep.finish e) k = record { progress = refl; requested = refl }
  FlusherStep-IsFlagged {s} (FlusherStep.announce e) k = record {
    progress = k.progress ∙ ap (λ p. in_round p) e;
    requested = refl;
  }

  ClientStep-IsFlagged :
      {s s' : System} {i : ℕ}
      → ClientStep s i s'
      → IsFlagged s.flusher s.tree
      → IsFlagged s'.flusher s'.tree
  unfolding take_pending store_entry
  ClientStep-IsFlagged {s} (ClientStep.call_write key value deleted at) k = k
  ClientStep-IsFlagged {s} (ClientStep.call_flush at) k = k
  ClientStep-IsFlagged {s} (ClientStep.call_get key at) k = k
  ClientStep-IsFlagged {s} (ClientStep.look {key} fuel at ends) k =
      same-IsFlagged s.flusher s.tree (look_up fuel key s.tree).1 k (look_up-Keeps fuel key s.tree)
  ClientStep-IsFlagged {s} (ClientStep.lock at f) k = k
  ClientStep-IsFlagged {s} (ClientStep.pass at f) k = k
  ClientStep-IsFlagged {s} (ClientStep.fail at f) k = k
  ClientStep-IsFlagged {s} (ClientStep.sleep at) k = k
  ClientStep-IsFlagged {s} (ClientStep.store at) k = record {
    progress = k.progress;
    requested = k.requested;
  }
  ClientStep-IsFlagged {s} (ClientStep.size at) k = k
  ClientStep-IsFlagged {s} (ClientStep.signal at) k = asked-IsFlagged s.flusher s.tree k
  ClientStep-IsFlagged {s} (ClientStep.notify_flusher at e) k = record {
    progress = k.progress ∙ ap (λ p. in_round p) e;
    requested = refl;
  }
  ClientStep-IsFlagged {s} (ClientStep.notify_client j at other) k = k
  ClientStep-IsFlagged {s} (ClientStep.notify_none at f all) k = k
  ClientStep-IsFlagged {s} (ClientStep.take at) k = record {
    progress = k.progress;
    requested = k.requested;
  }
  ClientStep-IsFlagged {s} (ClientStep.merge {pending} at) k =
      same-IsFlagged s.flusher s.tree (flush_pending pending s.tree).1 k
        (flush_pending-Keeps pending s.tree)

  Step-IsFlagged :
      {s s' : System} → Step s s' → IsFlagged s.flusher s.tree → IsFlagged s'.flusher s'.tree
  Step-IsFlagged (flusher st) k = FlusherStep-IsFlagged st k
  Step-IsFlagged (client i st) k = ClientStep-IsFlagged st k

  -- However the steps of the flush thread and the callers are interleaved, these stay true:
  -- `flush_in_progress_` is set exactly while the thread is between its two stores to it; and
  -- while the thread is between the test that found its predicate true and its store that clears
  -- `flush_requested_`, that flag is set or the thread is to stop.
  pub Reach-IsFlagged :
      {s t : System} → IsFlagged s.flusher s.tree → Reach s t → IsFlagged t.flusher t.tree
  Reach-IsFlagged k here = k
  Reach-IsFlagged k (next r st) = Step-IsFlagged st (Reach-IsFlagged k r)
