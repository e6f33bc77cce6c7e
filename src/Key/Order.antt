-- ===== src/Key/Order.antt =====
-- `cmp` is a total order on keys.
use gravtree.Prelude.{Ordering, [], ◌∷◌, ◌≡◌, refl, arith}
use gravtree.Key.{Str, cmp}

abbrev pub flip : Ordering → Ordering
flip Ordering.lt = Ordering.gt
flip Ordering.eq = Ordering.eq
flip Ordering.gt = Ordering.lt

pub cmp_refl : (a : Str) → cmp a a ≡ Ordering.eq
unfolding cmp
cmp_refl [] = refl
cmp_refl (x ∷ xs) = ground (arith, cmp_refl xs)

pub cmp_eq : (a b : Str) → cmp a b ≡ Ordering.eq → a ≡ b
unfolding cmp
cmp_eq [] [] h = refl
cmp_eq [] (y ∷ ys) h = cc
cmp_eq (x ∷ xs) [] h = cc
cmp_eq (x ∷ xs) (y ∷ ys) h = ground (arith, cmp_eq xs ys)

pub cmp-flip : (a b : Str) → cmp b a ≡ flip (cmp a b)
unfolding cmp
cmp-flip [] [] = refl
cmp-flip [] (y ∷ ys) = refl
cmp-flip (x ∷ xs) [] = refl
cmp-flip (x ∷ xs) (y ∷ ys) = ground (arith, cmp-flip xs ys)

pub cmp_trans :
    (a b c : Str) → cmp a b ≡ Ordering.lt → cmp b c ≡ Ordering.lt → cmp a c ≡ Ordering.lt
unfolding cmp
cmp_trans [] [] c h k = cc
cmp_trans [] (y ∷ ys) [] h k = cc
cmp_trans [] (y ∷ ys) (z ∷ zs) h k = refl
cmp_trans (x ∷ xs) [] c h k = cc
cmp_trans (x ∷ xs) (y ∷ ys) [] h k = cc
cmp_trans (x ∷ xs) (y ∷ ys) (z ∷ zs) h k = ground (arith, cmp_trans xs ys zs)
