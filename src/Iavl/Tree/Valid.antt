-- ===== src/Iavl/Tree/Valid.antt =====
-- trees/src/iavl/tree.rs: what holds of every tree, and the entries that it stands for.
use gears.Base.{none, some, []}
use gears.Base.Order.{Bytes, bytes_ord}
use gears.Base.Maps.{BtreeMap, IsAscending}
use gears.Iavl.Node.{Node, Hasher}
use gears.Iavl.Shape.{IsBalanced}
use gears.Iavl.Keys.{to_list, IsKeyed}
use gears.Iavl.Merkle.{IsHashed}
use gears.Iavl.Tree.{Tree}

-- Balanced, with the right keys and hashes in the inner nodes, and the entries in order.
abbrev pub IsSound : Hasher → Node → Type 0
IsSound h n = IsBalanced n × IsKeyed n × IsAscending (to_list n) × IsHashed h n

unfoldable pub IsValid : Hasher → Tree → Type 0
unfolding IsBalanced IsKeyed to_list IsHashed
IsValid h t = elim t.root [ none ↦ Unit | some n ↦ IsSound h n ]

unfoldable pub entries : Tree → BtreeMap Bytes Bytes
unfolding to_list
entries t = elim t.root [ none ↦ [] | some n ↦ to_list n ]
