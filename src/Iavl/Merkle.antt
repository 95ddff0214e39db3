-- ===== src/Iavl/Merkle.antt =====
-- trees/src/iavl/tree.rs: the hashes that an inner node stores.
use gears.Base.{◌≡◌}
use gears.Iavl.Node.{Node, leaf, inner, Hasher, hash}

-- They are those of its children.
unfoldable pub IsHashed : Hasher → Node → Type 0
unfolding hash
IsHashed h (leaf k v w) = Unit
IsHashed h (inner m l r) =
    (m.left_hash ≡ hash h l) × (m.right_hash ≡ hash h r) × IsHashed h l × IsHashed h r
