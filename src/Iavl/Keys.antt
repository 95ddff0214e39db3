-- ===== src/Iavl/Keys.antt =====
-- trees/src/iavl/tree.rs: the entries of a tree, and the key of an inner node.
pub mod Sides
use gears.Base.{◌≡◌, refl, sym, ◌∙◌, ap, some, All, [], ◌∷◌, ◌++◌, arith}
use gears.Base.Order.{Bytes, bytes_ord, ◌≺◌}
use gears.Base.Maps.{BtreeMap, IsAscending, first_key, below_start, IsAscending-append}
use gears.Iavl.Node.{Node, leaf, inner, InnerNode, leftmost_leaf_key}

-- The entries of the leaves, from left to right.
unfoldable pub to_list : Node → BtreeMap Bytes Bytes
to_list (leaf k v w) = (k, v) ∷ []
to_list (inner m l r) = to_list l ++ to_list r

-- The key of an inner node is the least one below its right child.
unfoldable pub IsKeyed : Node → Type 0
unfolding leftmost_leaf_key
IsKeyed (leaf k v w) = Unit
IsKeyed (inner m l r) = (m.key ≡ leftmost_leaf_key r) × IsKeyed l × IsKeyed r

All-first :
    (j k : Bytes) (m : BtreeMap Bytes Bytes)
    → first_key m ≡ some j
    → All (λ (e : Bytes × Bytes). e.0 ≺ k) m
    → j ≺ k
All-first j k [] e a = absurd cc
All-first j k ((i, w) ∷ m) e a = ground arith

first_key-append :
    (j : Bytes) (xs ys : BtreeMap Bytes Bytes)
    → first_key xs ≡ some j
    → first_key (xs ++ ys) ≡ some j
first_key-append j [] ys e = absurd cc
first_key-append j (x ∷ xs) ys e = e

pub first_key-to_list : (t : Node) → first_key (to_list t) ≡ some (leftmost_leaf_key t)
unfolding to_list leftmost_leaf_key
first_key-to_list (leaf k v w) = refl
first_key-to_list (inner m l r) =
    first_key-append (leftmost_leaf_key l) (to_list l) (to_list r) (first_key-to_list l)

-- The leftmost key is that of the entries.
pub leftmost_leaf_key_of :
    (t : Node) (j : Bytes) → first_key (to_list t) ≡ some j → leftmost_leaf_key t ≡ j
leftmost_leaf_key_of t j e = ground (arith, first_key-to_list t)

pub leftmost_leaf_key-Same :
    (t u : Node) → to_list t ≡ to_list u → leftmost_leaf_key t ≡ leftmost_leaf_key u
leftmost_leaf_key-Same t u e =
    leftmost_leaf_key_of t (leftmost_leaf_key u) (ap first_key e ∙ first_key-to_list u)

-- The leftmost key of a node is below the node's key.
pub leftmost_below :
    (m : InnerNode) (l r : Node)
    → IsKeyed (inner m l r)
    → IsAscending (to_list (inner m l r))
    → leftmost_leaf_key l ≺ m.key
unfolding to_list IsKeyed
leftmost_below m l r (a, b, c) s =
    All-first (leftmost_leaf_key l) m.key (to_list l) (first_key-to_list l)
      (below_start m.key (to_list l) (to_list r) (first_key-to_list r ∙ ap some (sym a)) s)
