-- ===== src/Tree/Cached/Answers.antt =====
-- What `get` answers in a tree whose nodes are all in memory.
use gravtree.Prelude.{
  ℕ, ◌<◌, ◌≤◌, ◌≡◌, refl, ap, sym, ◌∙◌, true, false, Option, none, some, List, [], ◌∷◌, map, All,
  Bool-cases, Option-cases, inl, inr,
}
use gravtree.Key.{Str}
use gravtree.Entry.{Entry}
use gravtree.Entry.Newest.{newest}
use gravtree.SkipList.{to_sorted_vector}
use gravtree.SkipList.Valid.{IsValid}
use gravtree.SkipList.Valid.Laws.{find_key-newest}
use gravtree.Node.{SstNode, might_contain, max_seq}
use gravtree.Node.Search.{get-newest}
use gravtree.Tree.{get_node, find_path}
use gravtree.Tree.Cache.{NodeCache, find}
use gravtree.Tree.State.{Tree, returned, Action, ◌>>=◌, pure, bind-returned, elim-true, elim-false}
use gravtree.Tree.Read.{answer, search_path, get}
use gravtree.Tree.Cached.{IsReady, Rooted, way, get_node-find, find_path-way, way-IsReady}

-- the first layer that has an entry of the key
unfoldable pub first_hit : Str → List (List Entry) → Option Entry
first_hit key [] = none
first_hit key (b ∷ bs) = elim (newest key b) [ none ↦ first_hit key bs | some e ↦ some e ]

pub first_hit-none :
    (key : Str) (b : List Entry) (bs : List (List Entry))
    → newest key b ≡ none
    → first_hit key (b ∷ bs) ≡ first_hit key bs
unfolding first_hit
first_hit-none key b bs h = rw (first_hit, h) refl

pub first_hit-some :
    (key : Str) (b : List Entry) (bs : List (List Entry)) (e : Entry)
    → newest key b ≡ some e
    → first_hit key (b ∷ bs) ≡ some e
unfolding first_hit
first_hit-some key b bs e h = rw (first_hit, h) refl

pub first_hit-rest :
    (key : Str) (b : List Entry) (bs bs' : List (List Entry))
    → first_hit key bs ≡ first_hit key bs'
    → first_hit key (b ∷ bs) ≡ first_hit key (b ∷ bs')
first_hit-rest key b bs bs' h = elim (Option-cases (newest key b)) [
  | inl q ↦ first_hit-none key b bs q ∙ h ∙ sym (first_hit-none key b bs' q)
  | inr (e, q) ↦ first_hit-some key b bs e q ∙ sym (first_hit-some key b bs' e q)
]

abbrev pub buffer_of : Option SstNode → List Entry
buffer_of none = []
buffer_of (some n) = n.buffer

-- the entries of the nodes on the way of a key, from the root down
abbrev pub layers : NodeCache → ℕ → Str → ℕ → List (List Entry)
layers cache l key id = map (λ j. buffer_of (find j cache)) (way cache l key id)

abbrev pub answered : Option Entry → Option Str
answered none = none
answered (some e) = answer e

-- What the filter rules out is not there.
ruled_out :
    (n : SstNode) (key : Str) (b : List Entry)
    → n.buffer ≡ b
    → might_contain n key ≡ false
    → newest key n.buffer ≡ none
unfolding might_contain
ruled_out n key [] e h = rw e (unfold newest in refl)
ruled_out n key (x ∷ es) e h = absurd (true_false (rw e at h))
  where
    true_false : true ≡ false → ⊥
    true_false e = cc

search_path-first_hit :
    (key : Str) (path : List ℕ) (t : Tree)
    → All (λ j. (n : SstNode) × (find j t.cache ≡ some n) × IsReady n) path
    → search_path key path t
      ≡ (returned (answered (first_hit key (map (λ j. buffer_of (find j t.cache)) path))), t)
unfolding search_path
search_path-first_hit key [] t h = unfold first_hit in refl
search_path-first_hit key (id ∷ path) t ((n, e, ready), h) =
    let rest = search_path-first_hit key path t h in
    bind-returned (get_node id) _ t t n (get_node-find id t n e)
    ∙ elim (Bool-cases (might_contain n key)) [
      | inr q ↦
          elim-false (might_contain n key) _ _ t q
          ∙ rest
          ∙ rw (e, first_hit-none key n.buffer _ (ruled_out n key n.buffer refl q)) refl
      | inl q ↦
          elim-true (might_contain n key) _ _ t q
          ∙ ap
              (λ (o : Option Entry).
                (elim o as (λ _. Action (Option Str)) [
                  | none ↦ search_path key path
                  | some e ↦ pure (answer e)
                ])
                  t)
              (get-newest n key ready.0 ready.1)
          ∙ elim (Option-cases (newest key n.buffer)) [
            | inl none_here ↦ rw (none_here, e, first_hit-none key n.buffer _ none_here) rest
            | inr (x, found) ↦ rw (found, e, first_hit-some key n.buffer _ x found) refl
          ]
    ]

-- In a tree whose nodes are in memory, sorted and level below level, with a valid write buffer,
-- numbers that fit 64 bits and more fuel than the root has levels below it, `get` returns what the
-- first layer says of the key that says anything, from the write buffer over the root down the way
-- of the key, a tombstone being no value, and changes nothing.
pub get-first_hit :
    (l fuel : ℕ) (key : Str) (t : Tree)
    → IsValid t.write_buf
    → All (λ e. e.seq_no ≤ max_seq) (to_sorted_vector t.write_buf)
    → Rooted t.cache l t.manifest.root_id
    → l < fuel
    → get fuel key t ≡ (
      returned (
          answered (
            first_hit key
              (to_sorted_vector t.write_buf ∷ layers t.cache l key t.manifest.root_id))),
      t,
    )
unfolding get
get-first_hit l fuel key t v b r h =
    let walked = find_path-way l fuel key t r h in
    ap
      (λ (o : Option Entry).
        (elim o as (λ _. Action (Option Str)) [
          | some e ↦ pure (answer e)
          | none ↦ find_path fuel key >>= search_path key
        ])
          t)
      (find_key-newest t.write_buf key v b)
    ∙ elim (Option-cases (newest key (to_sorted_vector t.write_buf))) [
      | inl q ↦
          rw (q, first_hit-none key (to_sorted_vector t.write_buf) _ q)
            (bind-returned (find_path fuel key) (search_path key) t t _ walked
              ∙ search_path-first_hit key (way t.cache l key t.manifest.root_id) t
                  (way-IsReady t.cache l key t.manifest.root_id r))
      | inr (x, q) ↦ rw (q, first_hit-some key (to_sorted_vector t.write_buf) _ x q) refl
    ]
