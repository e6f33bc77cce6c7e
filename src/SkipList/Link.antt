-- ===== src/SkipList/Link.antt =====
-- What the linking of a new node makes of the levels.
use gravtree.Prelude.{
  ℕ, zero, suc, ◌+◌, ◌≤◌, ◌≡◌, ◌≢◌, refl, ap, ◌∙◌, Option, some, List, [], ◌∷◌, ◌++◌, map, ltb, leb,
  ◌==◌, ==_iff, if◌then◌else◌, ◌&&◌, length, All, arith, Bool-cases, inl, inr,
}
use gravtree.SkipList.{SkipNode, set_next, link, values_from}
use gravtree.SkipList.Chain.{In, Distinct, Chain, last}

-- what level `lv` of a node is after its links were set at one level
next-set_next :
    (heap : ℕ → SkipNode) (p i : ℕ) (a : Option ℕ) (q lv : ℕ)
    → (set_next heap p i a q).next lv
      ≡ (if q == p then (if lv == i then a else (heap q).next lv) else (heap q).next lv)
unfolding set_next
next-set_next heap p i a q lv = ground arith

val-set_next :
    (heap : ℕ → SkipNode) (p i : ℕ) (a : Option ℕ) (q : ℕ)
    → (set_next heap p i a q).val ≡ (heap q).val
unfolding set_next
val-set_next heap p i a q = ground arith

pub val-link :
    (n i nd : ℕ) (prev : ℕ → ℕ) (heap : ℕ → SkipNode) (q : ℕ)
    → (link n i nd prev heap q).val ≡ (heap q).val
unfolding link
val-link zero i nd prev heap q = refl
val-link (suc n) i nd prev heap q =
    let heap' = set_next heap nd i ((heap (prev i)).next i) in
    val-link n (i + 1) nd prev (set_next heap' (prev i) i (some nd)) q
    ∙ val-set_next heap' (prev i) i (some nd) q
    ∙ val-set_next heap nd i ((heap (prev i)).next i) q

-- the pointer of `q` at a level at which `nd` is linked in behind `p`
abbrev pub linked : (ℕ → SkipNode) → ℕ → ℕ → ℕ → ℕ → Option ℕ
linked heap lv nd p q =
    if q == p then some nd else if q == nd then (heap p).next lv else (heap q).next lv

next-step :
    (heap : ℕ → SkipNode) (i nd p q lv : ℕ)
    → p ≢ nd
    → (set_next (set_next heap nd i ((heap p).next i)) p i (some nd) q).next lv
      ≡ (if lv == i then linked heap lv nd p q else (heap q).next lv)
next-step heap i nd p q lv h = ground (
  arith,
  next-set_next (set_next heap nd i ((heap p).next i)) p i (some nd) q lv,
  next-set_next heap nd i ((heap p).next i) q lv,
)

-- Each of the levels from `i` on, `n` of them, has the node linked in, and no other level changes.
pub next-link :
    (n i nd : ℕ) (prev : ℕ → ℕ) (heap : ℕ → SkipNode) (q lv : ℕ)
    → ((j : ℕ) → prev j ≢ nd)
    → (link n i nd prev heap q).next lv
      ≡ (if leb i lv && ltb lv (i + n) then linked heap lv nd (prev lv) q else (heap q).next lv)
unfolding link
next-link zero i nd prev heap q lv h = ground arith
next-link (suc n) i nd prev heap q lv h =
    let heap' = set_next (set_next heap nd i ((heap (prev i)).next i)) (prev i) i (some nd) in
    let rest = next-link n (i + 1) nd prev heap' q lv h in
    elim (Bool-cases (lv == i)) [
      | inl same ↦
          let e = (==_iff lv i).0 same in
          ground (arith, rest, next-step heap i nd (prev i) q lv (h i), e)
      | inr other ↦ ground (
        arith,
        rest,
        next-step heap i nd (prev i) q lv (h i),
        next-step heap i nd (prev i) (prev lv) lv (h i),
      )
    ]

-- A chain does not see changes elsewhere.
pub Chain-frame :
    (heap heap' : ℕ → SkipNode) (lv b : ℕ) (bs : List ℕ)
    → ((q : ℕ) → In q (b ∷ bs) → (heap' q).next lv ≡ (heap q).next lv)
    → Chain heap lv b bs
    → Chain heap' lv b bs
Chain-frame heap heap' lv b [] f c = f b (inl refl) ∙ c
Chain-frame heap heap' lv b (a ∷ l) f c =
    (f b (inl refl) ∙ c.0, Chain-frame heap heap' lv a l (λ q i. f q (inr i)) c.1)

last-ne : (p a : ℕ) (l : List ℕ) → All (λ b. b ≢ p) (a ∷ l) → last a l ≢ p
last-ne p a [] h = h.0
last-ne p a (b ∷ l) h = last-ne p b l h.1

append-All : (P : ℕ → Type 0) (xs ys : List ℕ) → All P (xs ++ ys) → All P xs × All P ys
append-All P [] ys h = (tt, h)
append-All P (x ∷ xs) ys h = let rest = append-All P xs ys h.1 in ((h.0, rest.0), rest.1)

In-ne : (q n : ℕ) (l : List ℕ) → All (λ b. b ≢ n) l → In q l → q ≢ n
In-ne q n [] h i = absurd i
In-ne q n (a ∷ l) h (inl e) = rw e h.0
In-ne q n (a ∷ l) h (inr i) = In-ne q n l h.1 i

-- The node that is linked in behind the front stands between the front and the back.
pub Chain-linked :
    (heap heap' : ℕ → SkipNode) (lv nd p : ℕ) (f b : List ℕ)
    → ((q : ℕ) → (heap' q).next lv ≡ linked heap lv nd (last p f) q)
    → Distinct (p ∷ (f ++ b))
    → All (λ a. a ≢ nd) (p ∷ (f ++ b))
    → Chain heap lv p (f ++ b)
    → Chain heap' lv p (f ++ nd ∷ b)
Chain-linked heap heap' lv nd p [] [] h d n c = (ground (arith, h p), ground (arith, h nd, n.0, c))
Chain-linked heap heap' lv nd p [] (b ∷ bs) h d n c = (
  ground (arith, h p),
  (
    ground (arith, h nd, n.0, c.0),
    Chain-frame heap heap' lv b bs
        (λ q i. ground (arith, h q, In-ne q p (b ∷ bs) d.0 i, In-ne q nd (b ∷ bs) n.1 i)) c.1,
  ),
)
Chain-linked heap heap' lv nd p (a ∷ f) b h d n c =
    let apart = last-ne p a f (append-All _ (a ∷ f) b d.0).0 in
    (ground (arith, h p, n.0, apart, c.0), Chain-linked heap heap' lv nd a f b h d.1 n.1 c.1)

-- The values of a chain.
pub values_from-Chain :
    (fuel : ℕ) (heap : ℕ → SkipNode) (p : ℕ) (l : List ℕ)
    → Chain heap 0 p l
    → length l ≤ fuel
    → values_from fuel heap ((heap p).next 0) ≡ map (λ a. (heap a).val) l
unfolding values_from
values_from-Chain zero heap p [] c h = refl
values_from-Chain zero heap p (a ∷ l) c h = absurd (omega arith)
values_from-Chain (suc fuel) heap p [] c h = rw c refl
values_from-Chain (suc fuel) heap p (a ∷ l) c h =
    rw c.0 (ap (◌∷◌ (heap a).val) (values_from-Chain fuel heap a l c.1 (omega arith)))
