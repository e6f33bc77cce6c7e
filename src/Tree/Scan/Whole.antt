-- ===== src/Tree/Scan/Whole.antt =====
-- `range_scan` of a tree whose nodes are loaded.
use gravtree.Prelude.{
  ℕ, ◌≡◌, refl, ap, sym, ◌∙◌, Bool, true, false, none, some, List, [], ◌∷◌, ◌++◌, ◌&&◌,
  if◌then◌else◌, All, arith, Bool-cases, inl, inr,
}
use gravtree.Key.{Str, key_le, key_eq}
use gravtree.Key.Order.{cmp_eq}
use gravtree.Entry.{Entry, before}
use gravtree.Entry.Newest.{newest, newest_swap, newest-cons}
use gravtree.Sort
use gravtree.Sort.{stable_sort, stable_sort-IsSorted}
use gravtree.SkipList.{to_sorted_vector}
use gravtree.Node.{SstNode}
use gravtree.Node.Dedup.{IsAscending}
use gravtree.File.{load_entries}
use gravtree.Flush.Local.Newest.{load_entries-loaded}
use gravtree.Tree.Cache.{NodeCache, find, put, put_same}
use gravtree.Tree.State.{Tree, returned, pure, results, bind-returned}
use gravtree.Tree.Read.{within, in_bounds, collect_nodes, live_entries, range_scan}
use gravtree.Tree.Scan.{live, live-tombstone, live-value, newest-live_entries}

-- what the nodes in memory have
abbrev pub node_entries : NodeCache → List Entry
node_entries [] = []
node_entries ((id, n) ∷ cache) = n.buffer ++ node_entries cache

-- everything that a tree has in memory
abbrev pub all_entries : Tree → List Entry
all_entries t = to_sorted_vector t.write_buf ++ node_entries t.cache

-- The nodes are found under their numbers, and their entries are loaded.
abbrev pub AllLoaded : NodeCache → NodeCache → Type 0
AllLoaded cache part =
    All (λ (p : ℕ × SstNode). (find p.0 cache ≡ some p.1) × (p.1.entries_loaded ≡ true)) part

within-append :
    (start end : Str) (xs ys : List Entry)
    → within start end (xs ++ ys) ≡ within start end xs ++ within start end ys
unfolding within
within-append start end [] ys = refl
within-append start end (e ∷ xs) ys = elim (Bool-cases (in_bounds start end e)) [
  | inl q ↦ rw q (ap (λ l. e ∷ l) (within-append start end xs ys))
  | inr q ↦ rw q (within-append start end xs ys)
]

collect_nodes-loaded :
    (start end : Str) (part : NodeCache) (t : Tree)
    → AllLoaded t.cache part
    → collect_nodes start end part t ≡ (returned (within start end (node_entries part)), t)
unfolding collect_nodes
collect_nodes-loaded start end [] t h = unfold within in refl
collect_nodes-loaded start end ((id, n) ∷ part) t h =
    bind-returned (results (λ t. load_entries n t.disk)) _ t t n
      (rw (load_entries-loaded n t.disk h.0.1) refl)
    ∙ bind-returned (collect_nodes start end part)
        (λ more. pure (within start end n.buffer ++ more)) (record t { cache = put id n t.cache }) t
        (within start end (node_entries part))
        (ap (λ cache. collect_nodes start end part (record t { cache = cache }))
            (put_same id n t.cache h.0.0)
          ∙ collect_nodes-loaded start end part t h.1)
    ∙ ap (λ es. (returned es, t)) (sym (within-append start end n.buffer (node_entries part)))

-- Which order live entries stand in changes no key's newest.
newest-live-insert :
    (k : Str) (e : Entry) (es : List Entry)
    → newest k (live (Sort.insert e es)) ≡ newest k (live (e ∷ es))
unfolding Sort.insert
newest-live-insert k e [] = refl
newest-live-insert k e (f ∷ es) = elim (Bool-cases (before f e)) [
  | inr q ↦ rw q
  | inl q ↦ rw q (elim (Bool-cases f.deleted) [
    | inl gone ↦
        ap (λ l. newest k l) (live-tombstone f (Sort.insert e es) gone)
        ∙ newest-live-insert k e es
        ∙ elim (Bool-cases e.deleted) [
          | inl r ↦
              rw (live-tombstone e es r, live-tombstone e (f ∷ es) r, live-tombstone f es gone) refl
          | inr r ↦ rw (live-value e es r, live-value e (f ∷ es) r, live-tombstone f es gone) refl
        ]
    | inr stays ↦
        ap (λ l. newest k l) (live-value f (Sort.insert e es) stays)
        ∙ newest-cons k f (live (Sort.insert e es)) (live (e ∷ es)) (newest-live-insert k e es)
        ∙ elim (Bool-cases e.deleted) [
          | inl r ↦
              rw (live-tombstone e es r, live-tombstone e (f ∷ es) r, live-value f es stays) refl
          | inr r ↦
              rw (live-value e es r, live-value e (f ∷ es) r, live-value f es stays)
                (newest_swap k e f (live es) q)
        ]
  ])
]

newest-live-cons :
    (k : Str) (e : Entry) (xs ys : List Entry)
    → newest k (live xs) ≡ newest k (live ys)
    → newest k (live (e ∷ xs)) ≡ newest k (live (e ∷ ys))
newest-live-cons k e xs ys h = elim (Bool-cases e.deleted) [
  | inl q ↦ rw (live-tombstone e xs q, live-tombstone e ys q) h
  | inr q ↦ rw (live-value e xs q, live-value e ys q) (newest-cons k e (live xs) (live ys) h)
]

newest-live-stable_sort :
    (k : Str) (es : List Entry) → newest k (live (stable_sort es)) ≡ newest k (live es)
unfolding stable_sort
newest-live-stable_sort k [] = refl
newest-live-stable_sort k (e ∷ es) =
    newest-live-insert k e (stable_sort es)
    ∙ newest-live-cons k e (stable_sort es) es (newest-live-stable_sort k es)

same_key : (e : Entry) (k : Str) → key_eq e.key k ≡ true → e.key ≡ k
same_key e k q = ground (arith, cmp_eq e.key k)

module _ (k start end : Str) where
  abbrev asked : Bool
  asked = key_le start k && key_le k end

  bounds_of : (e : Entry) → key_eq e.key k ≡ true → in_bounds start end e ≡ asked
  bounds_of e q = ap (λ j. key_le start j && key_le j end) (same_key e k q)

  -- An entry inside is kept on both sides,
  newest-kept :
      (e : Entry) (xs ys : List Entry)
      → in_bounds start end e ≡ true
      → newest k xs ≡ (if asked then newest k ys else none)
      → newest k (e ∷ xs) ≡ (if asked then newest k (e ∷ ys) else none)
  unfolding newest
  newest-kept e xs ys inside h = elim (Bool-cases (key_eq e.key k)) [
    | inr q ↦ rw q h
    | inl q ↦
        let yes : asked ≡ true = sym (bounds_of e q) ∙ inside in
        let same : newest k xs ≡ newest k ys = h ∙ ap (λ b. if b then newest k ys else none) yes in
        rw (q, yes, same) refl
  ]

  -- and one outside is not asked for.
  newest-left_out :
      (e : Entry) (xs ys : List Entry)
      → in_bounds start end e ≡ false
      → newest k xs ≡ (if asked then newest k ys else none)
      → newest k xs ≡ (if asked then newest k (e ∷ ys) else none)
  unfolding newest
  newest-left_out e xs ys outside h = elim (Bool-cases (key_eq e.key k)) [
    | inr q ↦ rw q h
    | inl q ↦
        let no : asked ≡ false = sym (bounds_of e q) ∙ outside in
        h
        ∙ ap (λ b. if b then newest k ys else none) no
        ∙ sym (ap (λ b. if b then newest k (e ∷ ys) else none) no)
  ]

  newest-live-within :
      (es : List Entry)
      → newest k (live (within start end es)) ≡ (if asked then newest k (live es) else none)
  unfolding within
  newest-live-within [] = elim (Bool-cases asked) [
    | inl q ↦ unfold live newest in rw q
    | inr q ↦ unfold live newest in rw q
  ]
  newest-live-within (e ∷ es) =
      let rest = newest-live-within es in
      elim (Bool-cases (in_bounds start end e)) [
        | inl q ↦ rw q (elim (Bool-cases e.deleted) [
          | inl r ↦ rw (live-tombstone e (within start end es) r, live-tombstone e es r) rest
          | inr r ↦
              rw (live-value e (within start end es) r, live-value e es r)
                (newest-kept e (live (within start end es)) (live es) q rest)
        ])
        | inr q ↦ rw q (elim (Bool-cases e.deleted) [
          | inl r ↦ rw (live-tombstone e es r) rest
          | inr r ↦
              rw (live-value e es r)
                (newest-left_out e (live (within start end es)) (live es) q rest)
        ])
      ]

-- In a tree each of whose nodes in memory is found under its number and loaded, `range_scan`
-- throws nothing and changes nothing; its result has, of every key between the bounds, the newest
-- entry that is no tombstone among all that the write buffer and the nodes in memory have, also
-- where a newer tombstone deletes the key, and nothing of any other key, and its keys are in
-- strictly ascending order.
pub newest-range_scan :
    (start end k : Str) (t : Tree)
    → AllLoaded t.cache t.cache
    → (result : List Entry) × (range_scan start end t ≡ (returned result, t))
      × (newest k result
          ≡ (if key_le start k && key_le k end then newest k (live (all_entries t)) else none))
      × IsAscending result
unfolding range_scan
newest-range_scan start end k t h =
    let hot = to_sorted_vector t.write_buf in
    let found = within start end (all_entries t) in
    let scanned = newest-live_entries k (stable_sort found) (stable_sort-IsSorted found) in
    (
      live_entries (stable_sort found) [],
      bind-returned (collect_nodes start end t.cache) _ t t
            (within start end (node_entries t.cache)) (collect_nodes-loaded start end t.cache t h)
          ∙ ap (λ es. (returned (live_entries (stable_sort es) []), t))
              (sym (within-append start end hot (node_entries t.cache))),
      scanned.0 ∙ newest-live-stable_sort k found ∙ newest-live-within k start end (all_entries t),
      scanned.1,
    )
