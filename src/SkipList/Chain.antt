-- ===== src/SkipList/Chain.antt =====
-- The linked lists of the levels, as the lists of their addresses.
use gravtree.Prelude.{
  ℕ, zero, suc, ◌≤◌, ◌≡◌, ◌≢◌, ◌⊎◌, refl, sym, ◌∙◌, true, false, none, some, List, [], ◌∷◌, ◌++◌,
  if◌then◌else◌, length, All, arith, Bool-cases, inl, inr,
}
use gravtree.Entry.{Entry, before}
use gravtree.Entry.Order.{not_before_trans}
use gravtree.SkipList.{SkipNode, walk}

abbrev pub In : ℕ → List ℕ → Type 0
In x [] = ⊥
In x (a ∷ l) = (x ≡ a) ⊎ In x l

abbrev pub Distinct : List ℕ → Type 0
Distinct [] = Unit
Distinct (a ∷ l) = All (λ b. b ≢ a) l × Distinct l

-- From `p` on, level `lv` goes through `l` and ends.
abbrev pub Chain : (ℕ → SkipNode) → ℕ → ℕ → List ℕ → Type 0
Chain heap lv p [] = (heap p).next lv ≡ none
Chain heap lv p (a ∷ l) = ((heap p).next lv ≡ some a) × Chain heap lv a l

-- Nothing stands behind an entry that it comes before.
abbrev pub Ordered : (ℕ → SkipNode) → List ℕ → Type 0
Ordered heap [] = Unit
Ordered heap (a ∷ l) = All (λ b. before (heap b).val (heap a).val ≡ false) l × Ordered heap l

abbrev pub last : ℕ → List ℕ → ℕ
last p [] = p
last p (a ∷ l) = last a l

-- the addresses of a level up to the place of `val`, and those behind it
unfoldable pub front : (ℕ → SkipNode) → Entry → List ℕ → List ℕ
front heap val [] = []
front heap val (a ∷ l) = if before (heap a).val val then a ∷ front heap val l else []

unfoldable pub back : (ℕ → SkipNode) → Entry → List ℕ → List ℕ
back heap val [] = []
back heap val (a ∷ l) = if before (heap a).val val then back heap val l else a ∷ l

pub front-append-back :
    (heap : ℕ → SkipNode) (val : Entry) (l : List ℕ) → front heap val l ++ back heap val l ≡ l
unfolding front back
front-append-back heap val [] = refl
front-append-back heap val (a ∷ l) = ground (arith, front-append-back heap val l)

pub In-All {κ} : (P : ℕ → Type κ) (x : ℕ) (l : List ℕ) → All P l → In x l → P x
In-All P x [] h i = absurd i
In-All P x (a ∷ l) h (inl e) = rw e h.0
In-All P x (a ∷ l) h (inr i) = In-All P x l h.1 i

pub last-In : (p : ℕ) (l : List ℕ) → (last p l ≡ p) ⊎ In (last p l) l
last-In p [] = inl refl
last-In p (a ∷ l) = inr (last-In a l)

pub front-In :
    (heap : ℕ → SkipNode) (val : Entry) (l : List ℕ) (x : ℕ)
    → In x (front heap val l)
    → In x l × (before (heap x).val val ≡ true)
unfolding front
front-In heap val [] x i = absurd i
front-In heap val (a ∷ l) x i = elim (Bool-cases (before (heap a).val val)) [
  | inl q ↦ elim (rw q at i) [
    | inl e ↦ (inl e, rw e q)
    | inr j ↦ let rest = front-In heap val l x j in (inr rest.0, rest.1)
  ]
  | inr q ↦ absurd (rw q at i)
]

-- In an ordered level an address whose entry comes before `val` stands before the place of `val`.
pub In-front :
    (heap : ℕ → SkipNode) (val : Entry) (l : List ℕ) (x : ℕ)
    → Ordered heap l
    → In x l
    → before (heap x).val val ≡ true
    → In x (front heap val l)
unfolding front
In-front heap val [] x s i b = absurd i
In-front heap val (a ∷ l) x s (inl e) b =
    let q : before (heap a).val val ≡ true = rw e at b in rw q (inl e)
In-front heap val (a ∷ l) x s (inr i) b = elim (Bool-cases (before (heap a).val val)) [
  | inl q ↦ rw q (inr (In-front heap val l x s.1 i b))
  | inr q ↦
      let later = In-All (λ c. before (heap c).val (heap a).val ≡ false) x l s.0 i in
      let n = not_before_trans val (heap a).val (heap x).val q later in
      absurd (true_false (sym b ∙ n))
]
  where
    true_false : true ≡ false → ⊥
    true_false e = cc

-- The walk stops at the last address before the place,
pub walk-front :
    (fuel : ℕ) (heap : ℕ → SkipNode) (lv : ℕ) (val : Entry) (p : ℕ) (l : List ℕ)
    → Chain heap lv p l
    → length l ≤ fuel
    → walk fuel heap lv val p ≡ last p (front heap val l)
unfolding walk front
walk-front zero heap lv val p [] c h = refl
walk-front zero heap lv val p (a ∷ l) c h = absurd (omega arith)
walk-front (suc fuel) heap lv val p [] c h = rw (walk, c) refl
walk-front (suc fuel) heap lv val p (a ∷ l) c h = elim (Bool-cases (before (heap a).val val)) [
  | inl q ↦ rw (walk, c.0, q) (walk-front fuel heap lv val a l c.1 (omega arith))
  | inr q ↦ rw (walk, c.0, q) refl
]

-- wherever before that it starts.
pub walk-from :
    (fuel : ℕ) (heap : ℕ → SkipNode) (lv : ℕ) (val : Entry) (p x : ℕ) (l : List ℕ)
    → Chain heap lv p l
    → length l ≤ fuel
    → In x (front heap val l)
    → walk fuel heap lv val x ≡ last p (front heap val l)
unfolding front
walk-from fuel heap lv val p x [] c h i = absurd i
walk-from fuel heap lv val p x (a ∷ l) c h i = elim (Bool-cases (before (heap a).val val)) [
  | inl q ↦ rw q (elim (rw q at i) [
    | inl e ↦ rw e (walk-front fuel heap lv val a l c.1 (omega arith))
    | inr j ↦ walk-from fuel heap lv val a x l c.1 (omega arith) j
  ])
  | inr q ↦ absurd (rw q at i)
]
