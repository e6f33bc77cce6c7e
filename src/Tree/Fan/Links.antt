-- ===== src/Tree/Fan/Links.antt =====
-- The links of the parent behind `local_flush`: `relink` puts the numbers of the leaves in their places.
use gravtree.Prelude.{
  ℕ, zero, suc, ◌≡◌, refl, ap, true, List, [], ◌∷◌, take, length, get_or, All, if◌then◌else◌, arith,
  ◌⊎◌, inl, inr,
}
use gravtree.Key.{Str}
use gravtree.Entry.{Entry}
use gravtree.Disk.{Disk}
use gravtree.Bloom.Sizing.{Doubles}
use gravtree.Node.{SstNode}
use gravtree.Manifest.{Manifest}
use gravtree.Flush.Local.{rewrite_child, flush_children}
use gravtree.Flush.Local.Newest.{flush_children-rewrite}
use gravtree.Tree.Push.{is_old, relink}
use gravtree.Tree.Fan.{ids}

-- Each number is one that was replaced, or stands in the new list too.
abbrev pub AllKept : List ℕ → List ℕ → List ℕ → Type 0
AllKept old [] [] = Unit
AllKept old (c ∷ cs) (w ∷ ws) = ((is_old c old ≡ true) ⊎ (c ≡ w)) × AllKept old cs ws
AllKept old _ _ = ⊥

AllKept-cons : (o : ℕ) (old cs ws : List ℕ) → AllKept old cs ws → AllKept (o ∷ old) cs ws
unfolding is_old
AllKept-cons o old [] [] h = tt
AllKept-cons o old [] (w ∷ ws) h = h
AllKept-cons o old (c ∷ cs) [] h = h
AllKept-cons o old (c ∷ cs) (w ∷ ws) (inl e, h) =
    (inl (ground (arith, e)), AllKept-cons o old cs ws h)
AllKept-cons o old (c ∷ cs) (w ∷ ws) (inr e, h) = (inr e, AllKept-cons o old cs ws h)

pub take-relink :
    (n : ℕ) (slots cs new old : List ℕ)
    → take n slots ≡ cs
    → length cs ≡ n
    → AllKept old cs new
    → take n (relink n slots new old) ≡ new
unfolding relink
take-relink zero slots cs new old h len k = none_left cs new len k
  where
    none_left : (cs new : List ℕ) → length cs ≡ 0 → AllKept old cs new → [] ≡ new
    none_left [] [] len k = refl
    none_left [] (w ∷ new) len k = absurd k
    none_left (c ∷ cs) new len k = absurd (omega (arith, len))
take-relink (suc n) [] [] new old h len k = absurd (omega (arith, len))
take-relink (suc n) [] (c ∷ cs) new old h len k = cc
take-relink (suc n) (x ∷ slots) [] new old h len k = absurd (omega (arith, len))
take-relink (suc n) (x ∷ slots) (c ∷ cs) [] old h len k = absurd k
take-relink (suc n) (x ∷ slots) (c ∷ cs) (w ∷ new) old h len (k, ks) =
    let same : x ≡ c = ap (λ (l : List ℕ). get_or l 0 0) h in
    let rest =
      take-relink n slots cs new old (ap (λ (l : List ℕ). tail_of l) h) (omega (arith, len)) ks in
    rw rest (ap (λ (i : ℕ). i ∷ new) (kept same k))
  where
    tail_of : List ℕ → List ℕ
    tail_of [] = []
    tail_of (x ∷ xs) = xs

    kept : x ≡ c → ((is_old c old ≡ true) ⊎ (c ≡ w)) → (if is_old x old then w else x) ≡ w
    kept e (inl o) = rw (e, o) refl
    kept e (inr o) = ground (arith, e, o)

-- The last slot in use is one of them.
pub last_slot :
    (P : ℕ → Type 0) (n : ℕ) (slots cs : List ℕ) (other : ℕ)
    → take (suc n) slots ≡ cs
    → length cs ≡ suc n
    → All P cs
    → P (get_or slots n other)
last_slot P n [] [] other h len k = absurd (omega (arith, len))
last_slot P n [] (c ∷ cs) other h len k = cc
last_slot P n (x ∷ slots) [] other h len k = absurd (omega (arith, len))
last_slot P zero (x ∷ slots) (c ∷ cs) other h len k = rw (ap (λ (l : List ℕ). get_or l 0 0) h) k.0
last_slot P (suc n) (x ∷ slots) (c ∷ cs) other h len k =
    last_slot P n slots cs other (ap (λ (l : List ℕ). tail_of l) h) (omega (arith, len)) k.1
  where
    tail_of : List ℕ → List ℕ
    tail_of [] = []
    tail_of (x ∷ xs) = xs

module _ ⦃fl : Doubles⦄ (dir : Str) where
  pub flush_children-AllKept :
      (cs : List SstNode) (ps : List (List Entry)) (m : Manifest) (d : Disk)
      → All (λ c. c.entries_loaded ≡ true) cs
      → AllKept
          (flush_children dir cs ps m d).old_child_ids
          (ids cs)
          (flush_children dir cs ps m d).new_child_ids
  unfolding flush_children
  flush_children-AllKept [] ps m d l = tt
  flush_children-AllKept (c ∷ cs) [] m d l = (inr refl, flush_children-AllKept cs [] m d l.1)
  flush_children-AllKept (c ∷ cs) ([] ∷ ps) m d l = (inr refl, flush_children-AllKept cs ps m d l.1)
  flush_children-AllKept (c ∷ cs) ((e ∷ es) ∷ ps) m d l =
      let s = rewrite_child dir c (e ∷ es) m d in
      let rest = flush_children dir cs ps s.1.0 s.1.1 in
      rw (flush_children-rewrite dir c cs e es ps m d l.0) (
        inl (first_old c.id rest.old_child_ids),
        AllKept-cons c.id rest.old_child_ids (ids cs) rest.new_child_ids
            (flush_children-AllKept cs ps s.1.0 s.1.1 l.1),
      )
    where
      first_old : (j : ℕ) (old : List ℕ) → is_old j (j ∷ old) ≡ true
      first_old j old = unfold is_old in ground arith
