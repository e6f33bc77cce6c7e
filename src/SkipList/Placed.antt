-- ===== src/SkipList/Placed.antt =====
-- A list of addresses with a new one at its place, and the height of the new node.
use gravtree.Prelude.{
  ℕ, zero, suc, ◌+◌, ◌≤◌, ◌≡◌, ◌≢◌, ◌⊎◌, refl, ap, sym, List, [], ◌∷◌, ◌++◌, ltb, length, All,
  arith, Bool-cases, inl, inr,
}
use gravtree.Entry.{Entry, before}
use gravtree.Sort
use gravtree.Sort.{insert-IsSorted}
use gravtree.SkipList.{SkipNode, max_height, rise, random_height}
use gravtree.SkipList.Chain.{In, Distinct, front, back}
use gravtree.SkipList.Valid.{values}

-- A random height is at least 1 and at most `max_height`.
rise_bounds :
    (n h : ℕ) (rng : ℕ → ℕ)
    → h ≤ max_height
    → (h ≤ (rise n h rng).0) × ((rise n h rng).0 ≤ max_height)
unfolding rise
rise_bounds zero h rng k = (omega arith, k)
rise_bounds (suc n) h rng k = elim (Bool-cases (ltb h max_height)) [
  | inl q ↦ ground (arith, rise_bounds n (h + 1) (λ i. rng (i + 1)))
  | inr q ↦ ground arith
]

-- Whatever the random numbers are, a height is at least 1 and at most `max_height`.
pub random_height_bounds :
    (rng : ℕ → ℕ) → (1 ≤ (random_height rng).0) × ((random_height rng).0 ≤ max_height)
unfolding random_height
random_height_bounds rng = rise_bounds max_height 1 rng (omega arith)

-- the addresses with a new one at the place of `val`
unfoldable pub placed : (ℕ → SkipNode) → Entry → ℕ → List ℕ → List ℕ
placed heap val nd l = front heap val l ++ nd ∷ back heap val l

pub In-placed : (f b : List ℕ) (nd x : ℕ) → In x (f ++ nd ∷ b) → (x ≡ nd) ⊎ In x (f ++ b)
In-placed [] b nd x i = i
In-placed (a ∷ f) b nd x (inl e) = inr (inl e)
In-placed (a ∷ f) b nd x (inr i) = elim (In-placed f b nd x i) [
  | inl e ↦ inl e
  | inr j ↦ inr (inr j)
]

pub placed-In : (f b : List ℕ) (nd x : ℕ) → (x ≡ nd) ⊎ In x (f ++ b) → In x (f ++ nd ∷ b)
placed-In [] b nd x i = i
placed-In (a ∷ f) b nd x (inl e) = inr (placed-In f b nd x (inl e))
placed-In (a ∷ f) b nd x (inr (inl e)) = inl e
placed-In (a ∷ f) b nd x (inr (inr i)) = inr (placed-In f b nd x (inr i))

pub All-placed :
    (P : ℕ → Type 0) (f b : List ℕ) (nd : ℕ) → P nd → All P (f ++ b) → All P (f ++ nd ∷ b)
All-placed P [] b nd h k = (h, k)
All-placed P (a ∷ f) b nd h k = (k.0, All-placed P f b nd h k.1)

pub Distinct-placed :
    (f b : List ℕ) (nd : ℕ)
    → Distinct (f ++ b)
    → All (λ a. a ≢ nd) (f ++ b)
    → Distinct (f ++ nd ∷ b)
Distinct-placed [] b nd d n = (n, d)
Distinct-placed (a ∷ f) b nd d n =
    (All-placed (λ c. c ≢ a) f b nd (λ e. n.0 (sym e)) d.0, Distinct-placed f b nd d.1 n.1)

pub values-same :
    (heap heap' : ℕ → SkipNode) (l : List ℕ)
    → All (λ a. (heap' a).val ≡ (heap a).val) l
    → values heap' l ≡ values heap l
values-same heap heap' [] k = refl
values-same heap heap' (b ∷ l) k = rw k.0 (ap (◌∷◌ (heap b).val) (values-same heap heap' l k.1))

pub values-placed :
    (heap heap' : ℕ → SkipNode) (val : Entry) (nd : ℕ) (l : List ℕ)
    → (heap' nd).val ≡ val
    → All (λ a. (heap' a).val ≡ (heap a).val) l
    → values heap' (placed heap val nd l) ≡ Sort.insert val (values heap l)
unfolding placed front back Sort.insert
values-placed heap heap' val nd [] h k = rw h refl
values-placed heap heap' val nd (a ∷ l) h k = elim (Bool-cases (before (heap a).val val)) [
  | inl q ↦ rw (q, k.0) (ap (◌∷◌ (heap a).val) (values-placed heap heap' val nd l h k.1))
  | inr q ↦ rw (q, h, k.0) (ap (λ es. val ∷ (heap a).val ∷ es) (values-same heap heap' l k.1))
]

pub length-placed :
    (heap : ℕ → SkipNode) (val : Entry) (nd : ℕ) (l : List ℕ)
    → length (placed heap val nd l) ≡ length l + 1
unfolding placed front back
length-placed heap val nd [] = refl
length-placed heap val nd (a ∷ l) = ground (arith, length-placed heap val nd l)
