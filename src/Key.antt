-- ===== src/Key.antt =====
-- Keys and values: `std::string` as its bytes. `std::string::compare` goes byte by byte as unsigned
-- characters, and a proper prefix is smaller.
pub mod Order
use gravtree.Prelude.{ℕ, compare, Ordering, Bool, true, false, List, [], ◌∷◌}

abbrev pub Str : Type 0
Str = List ℕ

unfoldable pub cmp : Str → Str → Ordering
cmp [] [] = Ordering.eq
cmp [] (y ∷ ys) = Ordering.lt
cmp (x ∷ xs) [] = Ordering.gt
cmp (x ∷ xs) (y ∷ ys) = elim (compare x y) [
  | Ordering.lt ↦ Ordering.lt
  | Ordering.gt ↦ Ordering.gt
  | Ordering.eq ↦ cmp xs ys
]

-- `a < b`, `a <= b` and `a == b`
abbrev pub key_lt : Str → Str → Bool
key_lt a b = elim (cmp a b) [ Ordering.lt ↦ true | _ ↦ false ]

abbrev pub key_le : Str → Str → Bool
key_le a b = elim (cmp a b) [ Ordering.gt ↦ false | _ ↦ true ]

abbrev pub key_eq : Str → Str → Bool
key_eq a b = elim (cmp a b) [ Ordering.eq ↦ true | _ ↦ false ]

-- `s.empty()`
abbrev pub is_empty : Str → Bool
is_empty [] = true
is_empty (x ∷ xs) = false
