-- ===== src/Tree/Scan.antt =====
-- What `range_scan` makes of the entries that it collected.
pub mod Whole
use gravtree.Prelude.{
  ◌≡◌, refl, ap, sym, ◌∙◌, Bool, true, false, List, [], ◌∷◌, ◌++◌, if◌then◌else◌, All, arith,
  Bool-cases, inl, inr,
}
use gravtree.Key.{Str}
use gravtree.Entry.{Entry}
use gravtree.Entry.Order.{IsSorted}
use gravtree.Entry.Newest.{newest}
use gravtree.Node.{back_has_key, dedup_loop}
use gravtree.Node.Dedup.{dedup_loop-unique, newest-unique, unique-IsAscending, IsAscending}
use gravtree.Tree.Read.{live_entries}

-- the entries that are no tombstones
unfoldable pub live : List Entry → List Entry
live [] = []
live (e ∷ es) = let rest = live es in if e.deleted then rest else e ∷ rest

pub live-tombstone : (e : Entry) (es : List Entry) → e.deleted ≡ true → live (e ∷ es) ≡ live es
unfolding live
live-tombstone e es q = ap (λ b. if b then live es else e ∷ live es) q

pub live-value : (e : Entry) (es : List Entry) → e.deleted ≡ false → live (e ∷ es) ≡ e ∷ live es
unfolding live
live-value e es q = ap (λ b. if b then live es else e ∷ live es) q

-- one round of the loop
added : Entry → List Entry → Bool → List Entry
added e result deleted =
    if back_has_key result e.key then result else if deleted then result else result ++ e ∷ []

skipped : (e : Entry) (result : List Entry) → added e result true ≡ result
unfolding added
skipped e result = ground arith

-- The loop removes duplicates among the live entries: it passes over the tombstones without a trace.
live_entries-dedup : (es result : List Entry) → live_entries es result ≡ dedup_loop (live es) result
live_entries-dedup [] result = unfold live_entries dedup_loop live in refl
live_entries-dedup (e ∷ es) result = elim (Bool-cases e.deleted) [
  | inl q ↦
      round e es result true q
      ∙ ap (λ r. live_entries es r) (skipped e result)
      ∙ live_entries-dedup es result
      ∙ ap (λ l. dedup_loop l result) (sym (live-tombstone e es q))
  | inr q ↦
      round e es result false q
      ∙ live_entries-dedup es (added e result false)
      ∙ kept e (live es) result
      ∙ ap (λ l. dedup_loop l result) (sym (live-value e es q))
]
  where
    round :
        (e : Entry) (es result : List Entry) (b : Bool)
        → e.deleted ≡ b
        → live_entries (e ∷ es) result ≡ live_entries es (added e result b)
    round e es result b q =
        unfold live_entries added in
        ap
          (λ b.
            live_entries es (
              if back_has_key result e.key then result else if b then result else result ++ e ∷ []))
          q

    kept :
        (e : Entry) (l result : List Entry)
        → dedup_loop l (added e result false) ≡ dedup_loop (e ∷ l) result
    kept e l result = unfold dedup_loop added in refl

All-live {κ} : (P : Entry → Type κ) (es : List Entry) → All P es → All P (live es)
All-live P [] h = unfold live in tt
All-live P (e ∷ es) h = elim (Bool-cases e.deleted) [
  | inl q ↦ rw (live-tombstone e es q) (All-live P es h.1)
  | inr q ↦ rw (live-value e es q) (h.0, All-live P es h.1)
]

live-IsSorted : (es : List Entry) → IsSorted es → IsSorted (live es)
live-IsSorted [] s = unfold live in tt
live-IsSorted (e ∷ es) s = elim (Bool-cases e.deleted) [
  | inl q ↦ rw (live-tombstone e es q) (live-IsSorted es s.1)
  | inr q ↦ rw (live-value e es q) (All-live _ es s.0, live-IsSorted es s.1)
]

-- Of sorted entries the last loop of `range_scan` keeps for each key the newest one that is no
-- tombstone, also where a newer tombstone deletes the key, and its result has the keys in strictly
-- ascending order.
pub newest-live_entries :
    (k : Str) (es : List Entry)
    → IsSorted es
    → (newest k (live_entries es []) ≡ newest k (live es)) × IsAscending (live_entries es [])
newest-live_entries k es s =
    let same = live_entries-dedup es [] ∙ dedup_loop-unique (live es) in
    let sorted = live-IsSorted es s in
    (
      ap (λ l. newest k l) same ∙ newest-unique k (live es) sorted,
      rw same (unique-IsAscending (live es) sorted),
    )
