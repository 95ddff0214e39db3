-- ===== src/Iavl/Shape.antt =====
-- trees/src/iavl/tree.rs: when a node is balanced.
pub mod Bounds
use gears.Base.{ℕ, ◌+◌, ◌≤◌, ◌≡◌, ◌⊎◌, true, if◌then◌else◌}
use gears.Base.Order.{Bytes}
use gears.KvStore.Bounds.{lt_bytes}
use gears.Iavl.Node.{Node, leaf, inner, get_key, get_height, get_size, max}

-- Heights and sizes are those of the children, whose heights differ by at most 1.
unfoldable pub IsBalanced : Node → Type 0
unfolding get_height get_size
IsBalanced (leaf k v w) = Unit
IsBalanced (inner m l r) =
    (m.height ≡ 1 + max (get_height l) (get_height r))
    × (m.size ≡ get_size l + get_size r)
    × (get_height l ≤ get_height r + 1)
    × (get_height r ≤ get_height l + 1)
    × IsBalanced l
    × IsBalanced r

-- The child on the side of a key is the higher one, and the key is not the node's.
unfoldable pub Leans : Bytes → Node → Type 0
unfolding get_height
Leans key (leaf k v w) = ⊥
Leans key (inner m l r) =
    if lt_bytes key m.key
    then (get_height l ≡ get_height r + 1)
    else ((lt_bytes m.key key ≡ true) × (get_height r ≡ get_height l + 1))

-- What an insertion does to a height.
unfoldable pub Grown : Bytes → ℕ → Node → Type 0
unfolding get_height Leans
Grown key height t =
    (get_height t ≡ height) ⊎ ((get_height t ≡ height + 1) × ((height ≡ 0) ⊎ Leans key t))
