-- ===== src/Tree/Threads/Stages.antt =====
-- How the steps of the threads move a round of the flush thread on.
use gravtree.Prelude.{
  ℕ, suc, ◌+◌, ◌≤◌, ◌≡◌, ◌≢◌, refl, ap, sym, subst, ◌∙◌, ◌⊎◌, inl, inr, Bool, false, ◌&&◌, List,
  leb, ◌==◌, Bool-cases, arith,
}
use gravtree.Entry.{Entry}
use gravtree.Bloom.Sizing.{Doubles}
use gravtree.SkipList.{to_sorted_vector}
use gravtree.Tree.State.{diverged}
use gravtree.Tree.State.Front.{Front}
use gravtree.Tree.Frame.{flush_pending-Keeps}
use gravtree.Tree.Frame.Reading.{look_up-Keeps}
use gravtree.Tree.Write.{take_pending, store_entry}
use gravtree.Tree.Round.{merge_round}
use gravtree.Tree.Threads.{
  FlusherPc, System, starting, clearing, finishing, announcing, FlusherStep, ClientStep, flusher,
  client, Reach, here, next,
}
use gravtree.Tree.Threads.Held.{total}
use gravtree.Tree.Threads.Conserved.{Conserved, Reach-Conserved, flusher-weight}
use gravtree.Tree.Threads.Hands.{carried, Step-IsOnward, Reach-IsOnward}

-- how far the thread is in its round
abbrev pub stage : FlusherPc → ℕ
stage starting = 0
stage FlusherPc.draining = 1
stage (FlusherPc.merging pending) = 2
stage clearing = 3
stage finishing = 4
stage announcing = 5
stage FlusherPc.locking = 6
stage _ = 7

pub stage_six : (pc : FlusherPc) → stage pc ≡ 6 → pc ≡ FlusherPc.locking
stage_six pc h = ground arith

module _ ⦃fl : Doubles⦄ where
  -- how many of the steps are the thread's
  unfoldable pub own : {s t : System} → Reach s t → ℕ
  own here = 0
  own (next r (flusher st)) = suc (own r)
  own (next r (client i st)) = own r

  abbrev pub exchanges : {s s' : System} {i : ℕ} → ClientStep s i s' → ℕ
  exchanges (ClientStep.signal at) = 1
  exchanges _ = 0

  -- how many of the steps request a flush
  unfoldable pub requests : {s t : System} → Reach s t → ℕ
  requests here = 0
  requests (next r (flusher st)) = requests r
  requests (next r (client i st)) = exchanges st + requests r

  FlusherStep-stage :
      {s s' : System}
      → FlusherStep s s'
      → stage s.flusher ≤ 5
      → stage s'.flusher ≡ suc (stage s.flusher)
  FlusherStep-stage (FlusherStep.lock e f) h = absurd (omega (arith, ap (λ p. stage p) e))
  FlusherStep-stage (FlusherStep.pass e f) h = absurd (omega (arith, ap (λ p. stage p) e))
  FlusherStep-stage (FlusherStep.fail e f) h = absurd (omega (arith, ap (λ p. stage p) e))
  FlusherStep-stage (FlusherStep.sleep e) h = absurd (omega (arith, ap (λ p. stage p) e))
  FlusherStep-stage (FlusherStep.quit e f) h = absurd (omega (arith, ap (λ p. stage p) e))
  FlusherStep-stage (FlusherStep.go e f) h = absurd (omega (arith, ap (λ p. stage p) e))
  FlusherStep-stage (FlusherStep.start e) h = omega (arith, ap (λ p. stage p) e)
  FlusherStep-stage (FlusherStep.take e) h = omega (arith, ap (λ p. stage p) e)
  FlusherStep-stage (FlusherStep.merge fuel e f) h = omega (arith, ap (λ p. stage p) e)
  FlusherStep-stage (FlusherStep.clear e) h = omega (arith, ap (λ p. stage p) e)
  FlusherStep-stage (FlusherStep.finish e) h = omega (arith, ap (λ p. stage p) e)
  FlusherStep-stage (FlusherStep.announce e) h = omega (arith, ap (λ p. stage p) e)

  -- A caller does not move a thread that does not sleep.
  ClientStep-flusher :
      {s s' : System} {i : ℕ} → ClientStep s i s' → stage s.flusher ≤ 6 → s'.flusher ≡ s.flusher
  ClientStep-flusher (ClientStep.call_write key value deleted at) h = refl
  ClientStep-flusher (ClientStep.call_flush at) h = refl
  ClientStep-flusher (ClientStep.call_get key at) h = refl
  ClientStep-flusher (ClientStep.look fuel at ends) h = refl
  ClientStep-flusher (ClientStep.lock at f) h = refl
  ClientStep-flusher (ClientStep.pass at f) h = refl
  ClientStep-flusher (ClientStep.fail at f) h = refl
  ClientStep-flusher (ClientStep.sleep at) h = refl
  ClientStep-flusher (ClientStep.store at) h = refl
  ClientStep-flusher (ClientStep.size at) h = refl
  ClientStep-flusher (ClientStep.signal at) h = refl
  ClientStep-flusher (ClientStep.notify_flusher at e) h =
      absurd (omega (arith, ap (λ p. stage p) e))
  ClientStep-flusher (ClientStep.notify_client j at other) h = refl
  ClientStep-flusher (ClientStep.notify_none at f all) h = refl
  ClientStep-flusher (ClientStep.take at) h = refl
  ClientStep-flusher (ClientStep.merge at) h = refl

  pub Reach-stage :
      {s t : System} (r : Reach s t) → s.flusher ≡ starting → own r ≤ 6 → stage t.flusher ≡ own r
  unfolding own
  Reach-stage here e h = ap (λ p. stage p) e
  Reach-stage (next r (flusher st)) e h =
      let before = Reach-stage r e (omega (arith, h)) in
      FlusherStep-stage st (omega (arith, before, h)) ∙ ap (λ (n : ℕ). suc n) before
  Reach-stage (next r (client i st)) e h =
      let before = Reach-stage r e h in
      ap (λ p. stage p) (ClientStep-flusher st (omega (arith, before, h))) ∙ before

  -- Only an exchange changes the request, among the steps of the callers.
  ClientStep-request :
      {s s' : System} {i : ℕ} (st : ClientStep s i s')
      → (exchanges st ≡ 1) ⊎ (s'.tree.flush_requested ≡ s.tree.flush_requested)
  unfolding take_pending store_entry
  ClientStep-request (ClientStep.call_write key value deleted at) = inr refl
  ClientStep-request (ClientStep.call_flush at) = inr refl
  ClientStep-request (ClientStep.call_get key at) = inr refl
  ClientStep-request {s} (ClientStep.look {key} fuel at ends) =
      inr (ap (λ (f : Front). f.flush_requested) (look_up-Keeps fuel key s.tree))
  ClientStep-request (ClientStep.lock at f) = inr refl
  ClientStep-request (ClientStep.pass at f) = inr refl
  ClientStep-request (ClientStep.fail at f) = inr refl
  ClientStep-request (ClientStep.sleep at) = inr refl
  ClientStep-request (ClientStep.store at) = inr refl
  ClientStep-request (ClientStep.size at) = inr refl
  ClientStep-request (ClientStep.signal at) = inl refl
  ClientStep-request (ClientStep.notify_flusher at e) = inr refl
  ClientStep-request (ClientStep.notify_client j at other) = inr refl
  ClientStep-request (ClientStep.notify_none at f all) = inr refl
  ClientStep-request (ClientStep.take at) = inr refl
  ClientStep-request {s} (ClientStep.merge {pending} at) =
      inr (ap (λ (f : Front). f.flush_requested) (flush_pending-Keeps pending s.tree))

  -- From the reset on the request stays clear, if nobody requests a flush.
  abbrev pub IsCleared : ℕ → ℕ → Bool → Type 0
  IsCleared steps asked flag = (leb 4 steps && (asked == 0) && flag) ≡ false

  FlusherStep-request :
      {s s' : System} (st : FlusherStep s s') (asked : ℕ)
      → stage s.flusher ≤ 5
      → IsCleared (stage s.flusher) asked s.tree.flush_requested
      → IsCleared (suc (stage s.flusher)) asked s'.tree.flush_requested
  FlusherStep-request (FlusherStep.lock e f) asked h k = absurd (omega (arith, ap (λ p. stage p) e))
  FlusherStep-request (FlusherStep.pass e f) asked h k = absurd (omega (arith, ap (λ p. stage p) e))
  FlusherStep-request (FlusherStep.fail e f) asked h k = absurd (omega (arith, ap (λ p. stage p) e))
  FlusherStep-request (FlusherStep.sleep e) asked h k = absurd (omega (arith, ap (λ p. stage p) e))
  FlusherStep-request (FlusherStep.quit e f) asked h k = absurd (omega (arith, ap (λ p. stage p) e))
  FlusherStep-request (FlusherStep.go e f) asked h k = absurd (omega (arith, ap (λ p. stage p) e))
  FlusherStep-request (FlusherStep.start e) asked h k = rw (ap (λ p. stage p) e) refl
  FlusherStep-request (FlusherStep.take e) asked h k = rw (ap (λ p. stage p) e) refl
  FlusherStep-request (FlusherStep.merge fuel e f) asked h k = rw (ap (λ p. stage p) e) refl
  FlusherStep-request (FlusherStep.clear e) asked h k = rw (ap (λ p. stage p) e) (ground arith)
  FlusherStep-request (FlusherStep.finish e) asked h k =
      rw (ap (λ p. stage p) e) (rw (ap (λ p. stage p) e) at k)
  FlusherStep-request (FlusherStep.announce e) asked h k =
      rw (ap (λ p. stage p) e) (rw (ap (λ p. stage p) e) at k)

  pub Reach-request :
      {s t : System} (r : Reach s t)
      → s.flusher ≡ starting
      → own r ≤ 6
      → IsCleared (own r) (requests r) t.tree.flush_requested
  unfolding own requests
  Reach-request here e h = refl
  Reach-request (next {t = u} {u = t} r (flusher st)) e h =
      let before = Reach-stage r e (omega (arith, h)) in
      subst (λ n. IsCleared (suc n) (requests r) t.tree.flush_requested) before
        (FlusherStep-request st (requests r) (omega (arith, before, h)) (
          subst (λ n. IsCleared n (requests r) u.tree.flush_requested) (sym before)
            (Reach-request r e (omega (arith, h)))))
  Reach-request (next {t = u} {u = t} r (client i st)) e h =
      let before = Reach-request r e h in
      elim (ClientStep-request st) [
        | inl one ↦ ground (arith, one)
        | inr same ↦ ground (arith, same, before)
      ]

  -- The drain puts all of the write buffer into the thread's hands.
  take_all :
      {s s' : System}
      → FlusherStep s s'
      → stage s.flusher ≡ 1
      → (w : Entry → ℕ) → carried w s' ≡ carried w s + total w (to_sorted_vector s.tree.write_buf)
  unfolding total
  take_all (FlusherStep.lock e f) h w = absurd (omega (arith, h, ap (λ p. stage p) e))
  take_all (FlusherStep.pass e f) h w = absurd (omega (arith, h, ap (λ p. stage p) e))
  take_all (FlusherStep.fail e f) h w = absurd (omega (arith, h, ap (λ p. stage p) e))
  take_all (FlusherStep.sleep e) h w = absurd (omega (arith, h, ap (λ p. stage p) e))
  take_all (FlusherStep.quit e f) h w = absurd (omega (arith, h, ap (λ p. stage p) e))
  take_all (FlusherStep.go e f) h w = absurd (omega (arith, h, ap (λ p. stage p) e))
  take_all (FlusherStep.start e) h w = absurd (omega (arith, h, ap (λ p. stage p) e))
  take_all (FlusherStep.take e) h w = omega (arith, flusher-weight w _ _ e)
  take_all (FlusherStep.merge fuel e f) h w = absurd (omega (arith, h, ap (λ p. stage p) e))
  take_all (FlusherStep.clear e) h w = absurd (omega (arith, h, ap (λ p. stage p) e))
  take_all (FlusherStep.finish e) h w = absurd (omega (arith, h, ap (λ p. stage p) e))
  take_all (FlusherStep.announce e) h w = absurd (omega (arith, h, ap (λ p. stage p) e))

  -- So from the drain on all that was written before the round has left the write buffer.
  pub Reach-carried :
      {s t : System} (r : Reach s t)
      → s.flusher ≡ starting
      → Conserved s
      → own r ≤ 6
      → 2 ≤ own r
      → (w : Entry → ℕ) → total w s.log ≤ carried w t
  unfolding own
  Reach-carried here e c h two w = absurd (omega (arith, two))
  Reach-carried (next r (client i st)) e c h two w =
      omega (arith, Reach-carried r e c h two w, (Step-IsOnward (client i st)).carry w)
  Reach-carried (next r (flusher st)) e c h two w = elim (Bool-cases (leb 2 (own r))) [
    | inl q ↦
        let before = Reach-carried r e c (omega (arith, h)) (ground arith) w in
        omega (arith, before, (Step-IsOnward (flusher st)).carry w)
    | inr q ↦
        let at_drain : stage _ ≡ 1 = Reach-stage r e (omega (arith, h)) ∙ ground arith in
        omega
          (arith, take_all st at_drain w, (Reach-Conserved c r).kept w, (Reach-IsOnward r).log w)
  ]

  -- A thread in a round has a step of its own, if the merge ends.
  pub moves :
      (t : System) (pc : FlusherPc) (fuel : ℕ)
      → t.flusher ≡ pc
      → stage pc ≤ 5
      → ((pending : List Entry)
          → t.flusher ≡ FlusherPc.merging pending
          → (merge_round fuel pending t.tree).0 ≢ diverged)
      → (t' : System) × FlusherStep t t'
  moves t starting fuel e h m = (_, FlusherStep.start e)
  moves t FlusherPc.draining fuel e h m = (_, FlusherStep.take e)
  moves t (FlusherPc.merging pending) fuel e h m = (_, FlusherStep.merge fuel e (m pending e))
  moves t clearing fuel e h m = (_, FlusherStep.clear e)
  moves t finishing fuel e h m = (_, FlusherStep.finish e)
  moves t announcing fuel e h m = (_, FlusherStep.announce e)
  moves t FlusherPc.locking fuel e h m = absurd (omega (arith, h))
  moves t FlusherPc.testing fuel e h m = absurd (omega (arith, h))
  moves t FlusherPc.going fuel e h m = absurd (omega (arith, h))
  moves t FlusherPc.sleeping fuel e h m = absurd (omega (arith, h))
  moves t FlusherPc.awake fuel e h m = absurd (omega (arith, h))
  moves t FlusherPc.ended fuel e h m = absurd (omega (arith, h))
