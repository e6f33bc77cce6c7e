-- ===== src/Manifest/Laws.antt =====
-- The methods of the manifest, as its users see them.
use gravtree.Prelude.{
  ℕ, ◌+◌, ◌^◌, ◌<◌, ◌≡◌, ◌≢◌, refl, true, false, none, [], ◌∷◌, ◌==◌, ==_iff, if◌then◌else◌, arith,
  All, All_mono, Bool-cases, inl, inr,
}
use gravtree.Key.{Str}
use gravtree.Result.{ok, err, unknown_node}
use gravtree.Manifest.Table.{
  NodeTable, NodeMeta, lookup, assign, set_valid_false, lookup-assign, lookup-set_valid_false,
}
use gravtree.Manifest.{Manifest, next_node_id, register_node, invalidate_node, set_root, node_path}

-- A node that is registered has the path that it is registered with, and the answer of `node_path`
-- changes for no other node.
pub node_path-register_node :
    (id level : ℕ) (path : Str) (m : Manifest) (j : ℕ)
    → node_path (register_node id level path m) j ≡ (if id == j then ok path else node_path m j)
unfolding node_path register_node
node_path-register_node id level path m j = ground (
  arith,
  lookup-assign id j (record { id = id; level = level; file_path = path; valid = true }) m.nodes,
)

-- `node_path` throws for a node that is invalidated, and its answer changes for no other node.
pub node_path-invalidate_node :
    (id : ℕ) (m : Manifest) (j : ℕ)
    → node_path (invalidate_node id m) j ≡ (if id == j then err unknown_node else node_path m j)
unfolding node_path invalidate_node
node_path-invalidate_node id m j = ground (arith, lookup-set_valid_false id j m.nodes)

-- Every key of the table is a number that was given out, is the number of its entry, and stands
-- once.
abbrev pub KeysBelow : ℕ → NodeTable → Type 0
KeysBelow n t = All (λ p. (p.0 < n) × (p.1.id ≡ p.0)) t

abbrev pub KeysUnique : NodeTable → Type 0
KeysUnique [] = Unit
KeysUnique (p ∷ t) = All (λ q. q.0 ≢ p.0) t × KeysUnique t

pub record IsValid (m : Manifest) : Type 0 where
  pub keys : KeysBelow m.next_id m.nodes
  pub unique : KeysUnique m.nodes
  pub positive : 0 < m.next_id

KeysBelow-lookup : (n : ℕ) (t : NodeTable) → KeysBelow n t → lookup n t ≡ none
unfolding lookup
KeysBelow-lookup n [] h = refl
KeysBelow-lookup n ((j, m) ∷ t) h = ground (arith, KeysBelow-lookup n t)

-- In a valid manifest with numbers left, the number that `next_node_id` gives out is that of no
-- registered node and below all that it will give out, and the manifest stays valid.
pub next_node_id_fresh :
    (m : Manifest)
    → IsValid m
    → m.next_id + 1 < 2 ^ 64
    → (node_path m (next_node_id m).0 ≡ err unknown_node)
      × ((next_node_id m).0 < (next_node_id m).1.next_id)
      × IsValid (next_node_id m).1
unfolding next_node_id node_path
next_node_id_fresh m v room = (
  rw (KeysBelow-lookup m.next_id m.nodes v.keys),
  omega arith,
  record {
    keys = All_mono _ _ (λ p h. (omega (arith, h.0), h.1)) m.nodes v.keys;
    unique = v.unique;
    positive = omega arith;
  },
)

All-assign {κ} :
    (P : ℕ × NodeMeta → Type κ) (id : ℕ) (n : NodeMeta) (t : NodeTable)
    → P (id, n)
    → All P t
    → All P (assign id n t)
unfolding assign
All-assign P id n [] h k = (h, tt)
All-assign P id n ((j, m) ∷ t) h k = elim (Bool-cases (j == id)) [
  | inl q ↦ rw q (h, k.1)
  | inr q ↦ rw q (k.0, All-assign P id n t h k.1)
]

KeysUnique-assign :
    (id : ℕ) (n : NodeMeta) (t : NodeTable) → KeysUnique t → KeysUnique (assign id n t)
unfolding assign
KeysUnique-assign id n [] u = (tt, tt)
KeysUnique-assign id n ((j, m) ∷ t) u = elim (Bool-cases (j == id)) [
  | inl q ↦ rw q (rw (← (==_iff j id).0 q) u.0, u.1)
  | inr q ↦
      rw q (All-assign (λ p. p.0 ≢ j) id n t (λ e. ground arith) u.0, KeysUnique-assign id n t u.1)
]

-- Registering a number that was given out leaves a valid manifest valid: every key of the table
-- was given out, is the number of its entry, and stands once.
pub register_node-IsValid :
    (id level : ℕ) (path : Str) (m : Manifest)
    → IsValid m
    → id < m.next_id
    → IsValid (register_node id level path m)
unfolding register_node
register_node-IsValid id level path m v h = record {
  keys = All-assign _ id _ m.nodes (h, refl) v.keys;
  unique = KeysUnique-assign id _ m.nodes v.unique;
  positive = v.positive;
}

All-set_valid_false :
    (P : ℕ × NodeMeta → Type 0) (id : ℕ) (t : NodeTable)
    → ((j : ℕ) (n : NodeMeta) → P (j, n) → P (j, record n { valid = false }))
    → All P t
    → All P (set_valid_false id t)
unfolding set_valid_false
All-set_valid_false P id [] f h = tt
All-set_valid_false P id ((j, n) ∷ t) f h = elim (Bool-cases (j == id)) [
  | inl q ↦ rw q (f j n h.0, h.1)
  | inr q ↦ rw q (h.0, All-set_valid_false P id t f h.1)
]

KeysUnique-set_valid_false :
    (id : ℕ) (t : NodeTable) → KeysUnique t → KeysUnique (set_valid_false id t)
unfolding set_valid_false
KeysUnique-set_valid_false id [] u = tt
KeysUnique-set_valid_false id ((j, n) ∷ t) u = elim (Bool-cases (j == id)) [
  | inl q ↦ rw q u
  | inr q ↦ rw q (
    All-set_valid_false (λ p. p.0 ≢ j) id t (λ i m h. h) u.0,
    KeysUnique-set_valid_false id t u.1,
  )
]

pub invalidate_node-IsValid : (id : ℕ) (m : Manifest) → IsValid m → IsValid (invalidate_node id m)
unfolding invalidate_node
invalidate_node-IsValid id m v = record {
  keys = All-set_valid_false _ id m.nodes (λ j n h. h) v.keys;
  unique = KeysUnique-set_valid_false id m.nodes v.unique;
  positive = v.positive;
}

pub set_root-IsValid : (id : ℕ) (m : Manifest) → IsValid m → IsValid (set_root id m)
unfolding set_root
set_root-IsValid id m v = record { keys = v.keys; unique = v.unique; positive = v.positive }
