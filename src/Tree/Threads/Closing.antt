-- ===== src/Tree/Threads/Closing.antt =====
-- The destructor and the flush thread: the store to `stop_`, `notify_all` without `flush_cv_mu_`, and
-- the join. No other call runs then.
use gravtree.Prelude.{◌≡◌, refl, ap, true, map}
use gravtree.Bloom.Sizing.{Doubles}
use gravtree.Tree.Threads.{FlusherPc, System, woken, ended, FlusherStep}
use gravtree.Tree.Threads.Asleep.{no-FlusherStep}

pub data CloserPc : Type 0 where
  stopping : CloserPc  -- before the store to `stop_`
  notifying : CloserPc
  joining : CloserPc
  joined : CloserPc

pub record Shutdown : Type 0 where
  pub system : System
  pub closer : CloserPc

-- what `notify_all` does to the flush thread
abbrev pub roused : FlusherPc → FlusherPc
roused FlusherPc.sleeping = FlusherPc.locking
roused pc = pc

module _ ⦃fl : Doubles⦄ where
  pub data ShutdownStep (c : Shutdown) : Shutdown → Type 0 where
    flusher : {s : System} → FlusherStep c.system s → ShutdownStep c (record c { system = s })
    stop :
        c.closer ≡ stopping
        → ShutdownStep c (record {
          system = record c.system { tree = record c.system.tree { stop = true } };
          closer = notifying;
        })
    notify :
        c.closer ≡ notifying
        → ShutdownStep c (record {
          system = record c.system {
            flusher = roused c.system.flusher;
            clients = map woken c.system.clients;
          };
          closer = joining;
        })
    join :
        c.closer ≡ joining
        → c.system.flusher ≡ ended
        → ShutdownStep c (record c { closer = joined })

  pub data ShutdownReach (c : Shutdown) : Shutdown → Type 0 where
    here : ShutdownReach c c
    next : {d e : Shutdown} → ShutdownReach c d → ShutdownStep d e → ShutdownReach c e

-- The thread sleeps, and the destructor waits for its end.
pub record IsHung (c : Shutdown) : Type 0 where
  pub sleeping : c.system.flusher ≡ FlusherPc.sleeping
  pub waits : c.closer ≡ joining

module _ ⦃fl : Doubles⦄ where
  step-IsHung : {c d : Shutdown} → IsHung c → ShutdownStep c d → IsHung d
  step-IsHung {c} k (ShutdownStep.flusher st) = absurd (no-FlusherStep st k.sleeping)
  step-IsHung {c} k (ShutdownStep.stop e) = cc
  step-IsHung {c} k (ShutdownStep.notify e) = cc
  step-IsHung {c} k (ShutdownStep.join e f) = cc

  reach-IsHung : {c d : Shutdown} → IsHung c → ShutdownReach c d → IsHung d
  reach-IsHung k here = k
  reach-IsHung k (next r st) = step-IsHung (reach-IsHung k r) st

  -- If the flush thread has found its predicate false and does not sleep yet when the destructor
  -- begins, then a state can be reached from which every state that is reached has the thread
  -- asleep and the destructor waiting for its end.
  pub lost_shutdown :
      (c : Shutdown)
      → c.closer ≡ stopping
      → c.system.flusher ≡ FlusherPc.going
      → (d : Shutdown) × ShutdownReach c d × ((e : Shutdown) → ShutdownReach d e → IsHung e)
  lost_shutdown c at going =
      let d₁ : Shutdown = record {
        system = record c.system { tree = record c.system.tree { stop = true } };
        closer = notifying;
      } in
      let d₂ : Shutdown = record {
        system = record d₁.system {
          flusher = roused d₁.system.flusher;
          clients = map woken d₁.system.clients;
        };
        closer = joining;
      } in
      let d₃ : Shutdown = record d₂ {
        system = record d₂.system { flusher = FlusherPc.sleeping; mutex_free = true };
      } in
      let reached : ShutdownReach c d₃ =
        next (next (next here (ShutdownStep.stop at)) (ShutdownStep.notify refl))
          (ShutdownStep.flusher (FlusherStep.sleep (ap (λ p. roused p) going))) in
      let hung : IsHung d₃ = record { sleeping = refl; waits = refl } in
      (d₃, reached, (λ e r. reach-IsHung hung r))
