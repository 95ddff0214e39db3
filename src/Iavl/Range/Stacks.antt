-- ===== src/Iavl/Range/Stacks.antt =====
-- trees/src/iavl/range: the nodes that are left to visit.
use gears.Base.{◌+◌, ◌≤◌, Bool, true, false, List, [], ◌∷◌, arith}
use gears.Base.Order.{bytes_ord}
use gears.Base.Maps.{IsAscending}
use gears.Iavl.Node.{Node, leaf, inner}
use gears.Iavl.Keys.{to_list, IsKeyed}
use gears.Iavl.Range.{push_if, weight, total_weight}

abbrev pub IsSearch : Node → Type 0
IsSearch n = IsKeyed n × IsAscending (to_list n)

abbrev pub AllSearch : List Node → Type 0
AllSearch [] = Unit
AllSearch (n ∷ s) = IsSearch n × AllSearch s

pub weight_positive : (n : Node) → 1 ≤ weight n
weight_positive (leaf k v w) = omega arith
weight_positive (inner m l r) = omega arith

pub push_if-AllSearch :
    (c : Bool) (n : Node) (s : List Node) → IsSearch n → AllSearch s → AllSearch (push_if c n s)
push_if-AllSearch true n s a b = (a, b)
push_if-AllSearch false n s a b = b

pub push_if-weight :
    (c : Bool) (n : Node) (s : List Node) → total_weight (push_if c n s) ≤ weight n + total_weight s
push_if-weight true n s = omega arith
push_if-weight false n s = omega arith
