-- ===== src/Entry/Order.antt =====
-- `before` is a strict weak order, and what it means for a list to be sorted by it.
use gravtree.Prelude.{true, false, List, [], ◌∷◌, ◌≡◌, All, arith}
use gravtree.Key.Order.{cmp_refl, cmp_eq, cmp-flip, cmp_trans}
use gravtree.Entry.{Entry, before}

pub before_irrefl : (e : Entry) → before e e ≡ false
unfolding before
before_irrefl e = ground (arith, cmp_refl e.key)

pub before_asymm : (e f : Entry) → before e f ≡ true → before f e ≡ false
unfolding before
before_asymm e f h = ground (arith, cmp-flip e.key f.key)

-- `f` is not after `e`, and `g` not after `f`
pub not_before_trans :
    (e f g : Entry) → before f e ≡ false → before g f ≡ false → before g e ≡ false
unfolding before
not_before_trans e f g h k = ground (
  arith,
  cmp-flip e.key f.key,
  cmp-flip f.key g.key,
  cmp-flip e.key g.key,
  cmp_trans e.key f.key g.key,
  cmp_eq e.key f.key,
  cmp_eq f.key g.key,
  cmp_eq e.key g.key,
  cmp_refl e.key,
)

-- no entry of the list comes before `e`
abbrev pub IsBelow : Entry → List Entry → Type 0
IsBelow e es = All (λ f. before f e ≡ false) es

abbrev pub IsSorted : List Entry → Type 0
IsSorted [] = Unit
IsSorted (e ∷ es) = IsBelow e es × IsSorted es

pub IsBelow-trans :
    (e f : Entry) (es : List Entry) → before f e ≡ false → IsBelow f es → IsBelow e es
IsBelow-trans e f [] h b = tt
IsBelow-trans e f (g ∷ es) h b = (not_before_trans e f g h b.0, IsBelow-trans e f es h b.1)
