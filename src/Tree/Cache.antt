-- ===== src/Tree/Cache.antt =====
-- `std::unordered_map<NodeId, SSTNode>`: the nodes in memory. The order of iteration, which the
-- standard leaves open, is the order of the list.
use gravtree.Prelude.{ℕ, ◌≡◌, refl, Option, none, some, List, [], ◌∷◌, ◌==◌, if◌then◌else◌, arith}
use gravtree.Node.{SstNode}

abbrev pub NodeCache : Type 0
NodeCache = List (ℕ × SstNode)

unfoldable pub find : ℕ → NodeCache → Option SstNode
find id [] = none
find id ((j, n) ∷ cache) = if j == id then some n else find id cache

-- `cache_[id] = std::move(node)`
unfoldable pub put : ℕ → SstNode → NodeCache → NodeCache
put id node [] = (id, node) ∷ []
put id node ((j, n) ∷ cache) = if j == id then (j, node) ∷ cache else (j, n) ∷ put id node cache

unfoldable pub erase : ℕ → NodeCache → NodeCache
erase id [] = []
erase id ((j, n) ∷ cache) = let rest = erase id cache in if j == id then rest else (j, n) ∷ rest

pub find-put :
    (id j : ℕ) (node : SstNode) (cache : NodeCache)
    → find j (put id node cache) ≡ (if id == j then some node else find j cache)
unfolding find put
find-put id j node [] = refl
find-put id j node ((i, n) ∷ cache) = ground (arith, find-put id j node cache)

pub find-erase :
    (id j : ℕ) (cache : NodeCache)
    → find j (erase id cache) ≡ (if id == j then none else find j cache)
unfolding find erase
find-erase id j [] = ground arith
find-erase id j ((i, n) ∷ cache) = ground (arith, find-erase id j cache)

pub put_same :
    (id : ℕ) (n : SstNode) (cache : NodeCache) → find id cache ≡ some n → put id n cache ≡ cache
unfolding find put
put_same id n [] h = cc
put_same id n ((j, m) ∷ cache) h = ground (arith, put_same id n cache)

pub put-put :
    (id : ℕ) (a b : SstNode) (cache : NodeCache) → put id a (put id b cache) ≡ put id a cache
unfolding put
put-put id a b [] = ground arith
put-put id a b ((j, n) ∷ cache) = ground (arith, put-put id a b cache)
