-- ===== src/Flush/Partition.antt =====
-- Where `partition_entries` puts an entry.
use mathlib.Core.List.{append_assoc, append-nil}
use gravtree.Prelude.{
  ℕ, zero, suc, ◌<◌, ◌≡◌, refl, ap, sym, ◌∙◌, true, false, none, List, [], ◌∷◌, ◌++◌, ◌==◌, ==_iff,
  ◌⊎◌, if◌then◌else◌, length, get_or, replicate, All, arith, Bool-cases, inl, inr, length-replicate,
  length-set, get_or-set_self, get_or-set_ne,
}
use gravtree.Key.{Str, key_le}
use gravtree.Key.Order.{cmp_eq}
use gravtree.Entry.{Entry}
use gravtree.Entry.Order.{IsSorted}
use gravtree.Entry.Newest.{newest}
use gravtree.Node.{SstNode}
use gravtree.Flush.{min_key_at, route_below, route, push_at, distribute, partition_entries}

-- The entries that go to bucket `j`, in their order.
unfoldable pub bound_for : List SstNode → ℕ → List Entry → List Entry
bound_for children j [] = []
bound_for children j (e ∷ es) =
    let rest = bound_for children j es in if route children e.key == j then e ∷ rest else rest

route_below-le : (n : ℕ) (children : List SstNode) (k : Str) → 0 < n → route_below n children k < n
unfolding route_below
route_below-le zero children k h = absurd (omega arith)
route_below-le (suc zero) children k h = ground arith
route_below-le (suc (suc i)) children k h =
    ground (arith, route_below-le (suc i) children k (omega arith))

pub route-lt :
    (children : List SstNode) (k : Str) → 0 < length children → route children k < length children
unfolding route
route-lt children k h = route_below-le (length children) children k h

-- The target is the rightmost child that does not begin above the key, and the first child if all
-- do.
route_below-rightmost :
    (n : ℕ) (children : List SstNode) (k : Str)
    → ((route_below n children k ≡ 0)
        ⊎ (key_le (min_key_at children (route_below n children k)) k ≡ true))
      × ((j : ℕ) → route_below n children k < j → j < n → key_le (min_key_at children j) k ≡ false)
unfolding route_below
route_below-rightmost zero children k = (inl refl, λ j lo hi. absurd (omega arith))
route_below-rightmost (suc i) children k = elim (Bool-cases (key_le (min_key_at children i) k)) [
  | inl q ↦ rw q (inr q, λ j lo hi. absurd (omega arith))
  | inr q ↦
      let rest = route_below-rightmost i children k in
      rw q (
        rest.0,
        λ j lo hi. elim (Bool-cases (j == i)) [
          | inl same ↦ rw ((==_iff j i).0 same) q
          | inr other ↦ rest.1 j lo (ground arith)
        ],
      )
]

-- The child that a key is routed to is the first one or does not begin above the key, and every
-- child further right begins above it.
pub route-rightmost :
    (children : List SstNode) (k : Str)
    → ((route children k ≡ 0) ⊎ (key_le (min_key_at children (route children k)) k ≡ true))
      × ((j : ℕ)
          → route children k < j
          → j < length children
          → key_le (min_key_at children j) k ≡ false)
unfolding route
route-rightmost children k = route_below-rightmost (length children) children k

get_or-push_at :
    (t j : ℕ) (e : Entry) (buckets : List (List Entry))
    → t < length buckets
    → get_or (push_at t e buckets) j []
      ≡ (if t == j then get_or buckets j [] ++ e ∷ [] else get_or buckets j [])
unfolding push_at
get_or-push_at t j e buckets h = elim (Bool-cases (t == j)) [
  | inl same ↦
      let eq = (==_iff t j).0 same in
      rw (same, ← eq) (get_or-set_self buckets t (get_or buckets t [] ++ e ∷ []) [] h)
  | inr other ↦
      rw other (get_or-set_ne buckets t j (get_or buckets t [] ++ e ∷ []) [] (ground arith))
]

length-push_at :
    (t : ℕ) (e : Entry) (buckets : List (List Entry))
    → length (push_at t e buckets) ≡ length buckets
unfolding push_at
length-push_at t e buckets = length-set buckets t (get_or buckets t [] ++ e ∷ [])

get_or-distribute :
    (children : List SstNode) (es : List Entry) (buckets : List (List Entry)) (j : ℕ)
    → 0 < length children
    → length buckets ≡ length children
    → get_or (distribute children es buckets) j [] ≡ get_or buckets j [] ++ bound_for children j es
unfolding distribute bound_for
get_or-distribute children [] buckets j h w = sym (append-nil (get_or buckets j []))
get_or-distribute children (e ∷ es) buckets j h w =
    let t = route children e.key in
    let inside : t < length buckets = omega (arith, route-lt children e.key h) in
    let here = get_or-push_at t j e buckets inside in
    get_or-distribute children es (push_at t e buckets) j h (length-push_at t e buckets ∙ w)
    ∙ ap (λ (b : List Entry). b ++ bound_for children j es) here
    ∙ elim (Bool-cases (t == j)) [
      | inl q ↦ rw q (append_assoc (get_or buckets j []) (e ∷ []) (bound_for children j es))
      | inr q ↦ rw q
    ]

get_or-replicate : (n j : ℕ) → get_or {A = List Entry} (replicate n []) j [] ≡ []
get_or-replicate zero j = refl
get_or-replicate (suc n) zero = refl
get_or-replicate (suc n) (suc j) = get_or-replicate n j

-- With at least one child, bucket `j` holds the entries that are routed to child `j`, in their
-- order, and no others.
pub partition_entries-bucket :
    (entries : List Entry) (children : List SstNode) (j : ℕ)
    → 0 < length children
    → get_or (partition_entries entries children) j [] ≡ bound_for children j entries
unfolding partition_entries
partition_entries-bucket entries children j h =
    get_or-distribute children entries (replicate (length children) []) j h
      (length-replicate (length children) [])
    ∙ ap (λ (b : List Entry). b ++ bound_for children j entries)
        (get_or-replicate (length children) j)

pub All-bound_for {κ} :
    (P : Entry → Type κ) (children : List SstNode) (j : ℕ) (es : List Entry)
    → All P es
    → All P (bound_for children j es)
unfolding bound_for
All-bound_for P children j [] h = tt
All-bound_for P children j (e ∷ es) h = elim (Bool-cases (route children e.key == j)) [
  | inl q ↦ rw q (h.0, All-bound_for P children j es h.1)
  | inr q ↦ rw q (All-bound_for P children j es h.1)
]

pub bound_for-IsSorted :
    (children : List SstNode) (j : ℕ) (es : List Entry)
    → IsSorted es
    → IsSorted (bound_for children j es)
unfolding bound_for
bound_for-IsSorted children j [] s = tt
bound_for-IsSorted children j (e ∷ es) s = elim (Bool-cases (route children e.key == j)) [
  | inl q ↦ rw q (All-bound_for _ children j es s.0, bound_for-IsSorted children j es s.1)
  | inr q ↦ rw q (bound_for-IsSorted children j es s.1)
]

-- The child that a key is routed to gets all that the entries say of the key, and every other
-- child nothing of it.
pub newest-bound_for :
    (children : List SstNode) (j : ℕ) (k : Str) (es : List Entry)
    → newest k (bound_for children j es) ≡ (if route children k == j then newest k es else none)
unfolding bound_for newest
newest-bound_for children j k [] = ground arith
newest-bound_for children j k (e ∷ es) =
    ground (arith, newest-bound_for children j k es, cmp_eq e.key k)

-- With at least one child, the bucket of the child that a key is routed to has all that the
-- entries say of the key, and every other bucket nothing of it.
pub newest-partition_entries :
    (children : List SstNode) (j : ℕ) (k : Str) (es : List Entry)
    → 0 < length children
    → newest k (get_or (partition_entries es children) j [])
      ≡ (if route children k == j then newest k es else none)
newest-partition_entries children j k es h =
    rw (partition_entries-bucket es children j h) (newest-bound_for children j k es)

-- The buckets are as many as the children.
length-distribute :
    (children : List SstNode) (es : List Entry) (buckets : List (List Entry))
    → length (distribute children es buckets) ≡ length buckets
unfolding distribute
length-distribute children [] buckets = refl
length-distribute children (e ∷ es) buckets =
    length-distribute children es (push_at (route children e.key) e buckets)
    ∙ length-push_at (route children e.key) e buckets

pub length-partition_entries :
    (entries : List Entry) (children : List SstNode)
    → length (partition_entries entries children) ≡ length children
unfolding partition_entries
length-partition_entries entries children =
    length-distribute children entries (replicate (length children) [])
    ∙ length-replicate (length children) []
