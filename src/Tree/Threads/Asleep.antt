-- ===== src/Tree/Threads/Asleep.antt =====
-- A wakeup of the flush thread that is lost.
use gravtree.Prelude.{
  ℕ, zero, suc, ◌≡◌, ◌≢◌, refl, ap, sym, subst, ◌∙◌, Bool, true, false, Option, none, some, List,
  [], ◌∷◌, leb, if◌then◌else◌, get_elem?, set, All,
}
use gravtree.Key.{Str}
use gravtree.Entry.{Entry}
use gravtree.Bloom.Sizing.{Doubles}
use gravtree.Tree.State.{Tree}
use gravtree.Tree.State.Front.{Front, front}
use gravtree.Tree.Frame.{flush_pending-Keeps}
use gravtree.Tree.Frame.Reading.{look_up-Keeps}
use gravtree.SkipList.{find_key}
use gravtree.Tree.Write.{must_wait, store_entry, take_pending, flush_pending}
use gravtree.Tree.Read.{look_up}
use gravtree.Tree.Threads.{
  FlusherPc, ClientPc, Next, System, idle, storing, sizing, signalling, notifying, resume,
  behind_signal, behind_hot, At, IsAwake, moved, FlusherStep, ClientStep, Step, flusher, client,
  Reach, here, next,
}

abbrev pub IsQuiet : ClientPc → Type 0
IsQuiet pc = (b : Bool) → pc ≢ notifying b

-- The flush thread sleeps, although a flush is requested, and no client is about to notify it.
pub record IsStuck (s : System) : Type 0 where
  pub sleeping : s.flusher ≡ FlusherPc.sleeping
  pub requested : s.tree.flush_requested ≡ true
  pub quiet : All IsQuiet s.clients

All-set :
    (P : ClientPc → Type 0) (clients : List ClientPc) (i : ℕ) (pc : ClientPc)
    → P pc
    → All P clients
    → All P (set clients i pc)
All-set P [] i pc h a = tt
All-set P (c ∷ clients) zero pc h a = (h, a.1)
All-set P (c ∷ clients) (suc i) pc h a = (a.0, All-set P clients i pc h a.1)

All-at :
    (P : ClientPc → Type 0) (clients : List ClientPc) (i : ℕ) (pc : ClientPc)
    → get_elem? clients i ≡ some pc
    → All P clients
    → P pc
All-at P [] i pc h a = cc
All-at P (c ∷ clients) zero pc h a = subst (λ o. PIf o) h a.0
  where
    PIf : Option ClientPc → Type 0
    PIf none = Unit
    PIf (some pc) = P pc
All-at P (c ∷ clients) (suc i) pc h a = All-at P clients i pc h a.1

set-set :
    (clients : List ClientPc) (i : ℕ) (a b : ClientPc) → set (set clients i a) i b ≡ set clients i b
set-set [] i a b = refl
set-set (c ∷ clients) zero a b = refl
set-set (c ∷ clients) (suc i) a b = ap (λ l. c ∷ l) (set-set clients i a b)

get_elem?-set_self :
    (clients : List ClientPc) (i : ℕ) (old pc : ClientPc)
    → get_elem? clients i ≡ some old
    → get_elem? (set clients i pc) i ≡ some pc
get_elem?-set_self [] i old pc h = cc
get_elem?-set_self (c ∷ clients) zero old pc h = refl
get_elem?-set_self (c ∷ clients) (suc i) old pc h = get_elem?-set_self clients i old pc h

behind_signal-IsQuiet : (b : Bool) → IsQuiet (behind_signal b)
behind_signal-IsQuiet true c = cc
behind_signal-IsQuiet false c = cc

resume-IsQuiet : (n : Next) → IsQuiet (resume n)
resume-IsQuiet (Next.write key value deleted) c = cc
resume-IsQuiet Next.drain c = cc

if-IsQuiet : (b : Bool) (x y : ClientPc) → IsQuiet x → IsQuiet y → IsQuiet (if b then x else y)
if-IsQuiet true x y h k = h
if-IsQuiet false x y h k = k

requested-front : (t t' : Tree) → front t' ≡ front t → t'.flush_requested ≡ t.flush_requested
requested-front t t' h = ap (λ (f : Front). f.flush_requested) h

-- A client that moves on to a quiet place leaves things as they are.
moved-IsStuck :
    (s s' : System) (i : ℕ) (pc : ClientPc)
    → IsStuck s
    → IsQuiet pc
    → s'.clients ≡ set s.clients i pc
    → s'.tree.flush_requested ≡ true
    → s'.flusher ≡ s.flusher
    → IsStuck s'
moved-IsStuck s s' i pc k quiet clients requested same = record {
  sleeping = same ∙ k.sleeping;
  requested = requested;
  quiet = rw clients (All-set IsQuiet s.clients i pc quiet k.quiet);
}

module _ ⦃fl : Doubles⦄ where
  -- The thread has no step of its own,
  pub no-FlusherStep : {s s' : System} → FlusherStep s s' → s.flusher ≡ FlusherPc.sleeping → ⊥
  no-FlusherStep (FlusherStep.lock e f) h = cc
  no-FlusherStep (FlusherStep.pass e f) h = cc
  no-FlusherStep (FlusherStep.fail e f) h = cc
  no-FlusherStep (FlusherStep.sleep e) h = cc
  no-FlusherStep (FlusherStep.quit e f) h = cc
  no-FlusherStep (FlusherStep.go e f) h = cc
  no-FlusherStep (FlusherStep.start e) h = cc
  no-FlusherStep (FlusherStep.take e) h = cc
  no-FlusherStep (FlusherStep.merge fuel e f) h = cc
  no-FlusherStep (FlusherStep.clear e) h = cc
  no-FlusherStep (FlusherStep.finish e) h = cc
  no-FlusherStep (FlusherStep.announce e) h = cc

  -- and no client wakes it.
  ClientStep-IsStuck : {s s' : System} {i : ℕ} → ClientStep s i s' → IsStuck s → IsStuck s'
  unfolding take_pending store_entry
  ClientStep-IsStuck {s} {i = i} (ClientStep.call_write key value deleted at) k =
      moved-IsStuck s _ i _ k
        (if-IsQuiet (must_wait s.tree) (ClientPc.locking (Next.write key value deleted))
          (storing key value deleted) (λ b. cc) (λ b. cc))
        refl k.requested refl
  ClientStep-IsStuck {s} {i = i} (ClientStep.call_flush at) k =
      moved-IsStuck s _ i (signalling true) k (λ b. cc) refl k.requested refl
  ClientStep-IsStuck {s} {i = i} (ClientStep.call_get key at) k =
      moved-IsStuck s _ i _ k (hot (find_key s.tree.write_buf key) key) refl k.requested refl
    where
      hot : (o : Option Entry) (key : Str) → IsQuiet (behind_hot o key)
      hot none key b = cc
      hot (some e) key b = cc
  ClientStep-IsStuck {s} {i = i} (ClientStep.look {key} fuel at ends) k =
      moved-IsStuck s _ i idle k (λ b. cc) refl
        (requested-front s.tree (look_up fuel key s.tree).1 (look_up-Keeps fuel key s.tree)
          ∙ k.requested)
        refl
  ClientStep-IsStuck {s} {i = i} (ClientStep.lock {n} at f) k =
      moved-IsStuck s _ i (ClientPc.testing n) k (λ b. cc) refl k.requested refl
  ClientStep-IsStuck {s} {i = i} (ClientStep.pass {n} at f) k =
      moved-IsStuck s _ i (resume n) k (resume-IsQuiet n) refl k.requested refl
  ClientStep-IsStuck {s} {i = i} (ClientStep.fail {n} at f) k =
      moved-IsStuck s _ i (ClientPc.going n) k (λ b. cc) refl k.requested refl
  ClientStep-IsStuck {s} {i = i} (ClientStep.sleep {n} at) k =
      moved-IsStuck s _ i (ClientPc.sleeping n) k (λ b. cc) refl k.requested refl
  ClientStep-IsStuck {s} {i = i} (ClientStep.store at) k =
      moved-IsStuck s _ i sizing k (λ b. cc) refl k.requested refl
  ClientStep-IsStuck {s} {i = i} (ClientStep.size at) k =
      moved-IsStuck s _ i _ k
        (if-IsQuiet (leb s.tree.buffer_threshold s.tree.write_buf.bytes) (signalling false) idle
          (λ b. cc) (λ b. cc))
        refl k.requested refl
  ClientStep-IsStuck {s} {i = i} (ClientStep.signal {b} at) k =
      moved-IsStuck s _ i _ k (rw k.requested (behind_signal-IsQuiet b)) refl refl refl
  ClientStep-IsStuck {s} {i = i} (ClientStep.notify_flusher {b} at e) k =
      absurd (All-at IsQuiet s.clients i (notifying b) at k.quiet b refl)
  ClientStep-IsStuck {s} {i = i} (ClientStep.notify_client {b} j at other) k =
      absurd (All-at IsQuiet s.clients i (notifying b) at k.quiet b refl)
  ClientStep-IsStuck {s} {i = i} (ClientStep.notify_none {b} at f all) k =
      absurd (All-at IsQuiet s.clients i (notifying b) at k.quiet b refl)
  ClientStep-IsStuck {s} {i = i} (ClientStep.take at) k =
      moved-IsStuck s _ i _ k (λ b. cc) refl k.requested refl
  ClientStep-IsStuck {s} {i = i} (ClientStep.merge {pending} at) k =
      moved-IsStuck s _ i idle k (λ b. cc) refl
        (requested-front s.tree (flush_pending pending s.tree).1
            (flush_pending-Keeps pending s.tree)
          ∙ k.requested)
        refl

  Step-IsStuck : {s s' : System} → Step s s' → IsStuck s → IsStuck s'
  Step-IsStuck (flusher st) k = absurd (no-FlusherStep st k.sleeping)
  Step-IsStuck (client i st) k = ClientStep-IsStuck st k

  Reach-IsStuck : {s t : System} → IsStuck s → Reach s t → IsStuck t
  Reach-IsStuck k here = k
  Reach-IsStuck k (next r st) = Step-IsStuck st (Reach-IsStuck k r)

  -- If the flush thread has found its predicate false and does not sleep yet, no flush is
  -- requested, a caller is about to signal, no caller sleeps and none is about to notify, then a
  -- state can be reached from which every state that is reached has the thread asleep, a flush
  -- requested, and no caller about to notify it.
  pub lost_wakeup :
      (s : System) (i : ℕ) (b : Bool)
      → s.flusher ≡ FlusherPc.going
      → s.tree.flush_requested ≡ false
      → At s i (signalling b)
      → All IsAwake s.clients
      → All IsQuiet s.clients
      → (s' : System) × Reach s s' × ((t : System) → Reach s' t → IsStuck t)
  lost_wakeup s i b going fresh at awake quiet =
      let s₁ : System = record s {
        clients = set s.clients i (notifying b);
        tree = record s.tree { flush_requested = true };
      } in
      let s₂ : System = moved i (behind_signal b) s₁ in
      let s₃ : System = record s₂ { flusher = FlusherPc.sleeping; mutex_free = true } in
      let signal : Step s s₁ = client i (
        subst
          (λ (old : Bool). ClientStep s i (record s {
            clients = set s.clients i (if old then behind_signal b else notifying b);
            tree = record s.tree { flush_requested = true };
          }))
          fresh (ClientStep.signal at)) in
      let there : At s₁ i (notifying b) =
        get_elem?-set_self s.clients i (signalling b) (notifying b) at in
      let notify : Step s₁ s₂ = client i (
        ClientStep.notify_none there (λ e. not_asleep (sym going ∙ e))
          (All-set IsAwake s.clients i (notifying b) (λ n. cc) awake)) in
      let sleep : Step s₂ s₃ = flusher (FlusherStep.sleep going) in
      let stuck : IsStuck s₃ = record {
        sleeping = refl;
        requested = refl;
        quiet =
            rw (set-set s.clients i (notifying b) (behind_signal b))
              (All-set IsQuiet s.clients i (behind_signal b) (behind_signal-IsQuiet b) quiet);
      } in
      (s₃, next (next (next here signal) notify) sleep, (λ t r. Reach-IsStuck stuck r))
    where
      not_asleep : FlusherPc.going ≡ FlusherPc.sleeping → ⊥
      not_asleep h = cc
