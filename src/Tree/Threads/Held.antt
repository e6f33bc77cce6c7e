-- ===== src/Tree/Threads/Held.antt =====
-- What the threads hold between their critical sections, by weight.
use gravtree.Prelude.{
  ℕ, zero, suc, ◌+◌, ◌≡◌, ◌≢◌, refl, ap, Bool, true, false, Option, none, some, List, [], ◌∷◌, ◌++◌,
  map, if◌then◌else◌, get_elem?, set, arith,
}
use gravtree.Key.{Str}
use gravtree.Entry.{Entry}
use gravtree.Sort
use gravtree.Tree.Threads.{FlusherPc, ClientPc, Next, resume, behind_signal, behind_hot, woken}

-- the weight of a list, by a weight of entries
unfoldable pub total : (Entry → ℕ) → List Entry → ℕ
total w [] = 0
total w (e ∷ es) = w e + total w es

pub total-append :
    (w : Entry → ℕ) (xs ys : List Entry) → total w (xs ++ ys) ≡ total w xs + total w ys
unfolding total
total-append w [] ys = omega arith
total-append w (x ∷ xs) ys = omega (arith, total-append w xs ys)

pub total-insert :
    (w : Entry → ℕ) (e : Entry) (es : List Entry) → total w (Sort.insert e es) ≡ w e + total w es
unfolding total Sort.insert
total-insert w e [] = refl
total-insert w e (f ∷ es) = ground (arith, total-insert w e es)

-- what a thread holds between its critical sections
abbrev pub held : ClientPc → List Entry
held (ClientPc.merging pending) = pending
held _ = []

abbrev pub held_by_flusher : FlusherPc → List Entry
held_by_flusher (FlusherPc.merging pending) = pending
held_by_flusher _ = []

abbrev pub in_hands : (Entry → ℕ) → List ClientPc → ℕ
in_hands w [] = 0
in_hands w (pc ∷ clients) = total w (held pc) + in_hands w clients

pub in_hands-set :
    (w : Entry → ℕ) (clients : List ClientPc) (i : ℕ) (old pc : ClientPc)
    → get_elem? clients i ≡ some old
    → in_hands w (set clients i pc) + total w (held old) ≡ in_hands w clients + total w (held pc)
in_hands-set w [] i old pc h = cc
in_hands-set w (c ∷ clients) zero old pc h =
    let same : total w (held c) ≡ total w (held old) = ap (λ o. weight w o) h in omega arith
  where
    weight : (Entry → ℕ) → Option ClientPc → ℕ
    weight w none = 0
    weight w (some pc) = total w (held pc)
in_hands-set w (c ∷ clients) (suc i) old pc h = omega (arith, in_hands-set w clients i old pc h)

pub get_elem?-set_ne :
    (clients : List ClientPc) (i j : ℕ) (pc : ClientPc)
    → i ≢ j
    → get_elem? (set clients i pc) j ≡ get_elem? clients j
get_elem?-set_ne [] i j pc h = refl
get_elem?-set_ne (c ∷ clients) zero zero pc h = absurd (h refl)
get_elem?-set_ne (c ∷ clients) zero (suc j) pc h = refl
get_elem?-set_ne (c ∷ clients) (suc i) zero pc h = refl
get_elem?-set_ne (c ∷ clients) (suc i) (suc j) pc h =
    get_elem?-set_ne clients i j pc (λ e. h (ap (λ (k : ℕ). suc k) e))

pub held-woken : (pc : ClientPc) → held (woken pc) ≡ held pc
held-woken pc = ground arith

pub in_hands-woken :
    (w : Entry → ℕ) (clients : List ClientPc) → in_hands w (map woken clients) ≡ in_hands w clients
in_hands-woken w [] = refl
in_hands-woken w (pc ∷ clients) =
    let same : total w (held (woken pc)) ≡ total w (held pc) =
      ap (λ es. total w es) (held-woken pc) in
    omega (arith, in_hands-woken w clients)

pub held-if :
    (b : Bool) (x y : ClientPc) → held x ≡ [] → held y ≡ [] → held (if b then x else y) ≡ []
held-if true x y h k = h
held-if false x y h k = k

pub held-behind_signal : (b : Bool) → held (behind_signal b) ≡ []
held-behind_signal true = refl
held-behind_signal false = refl

pub held-behind_hot : (o : Option Entry) (key : Str) → held (behind_hot o key) ≡ []
held-behind_hot none key = refl
held-behind_hot (some e) key = refl

pub held-resume : (n : Next) → held (resume n) ≡ []
held-resume (Next.write key value deleted) = refl
held-resume Next.drain = refl
