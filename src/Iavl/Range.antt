-- ===== src/Iavl/Range.antt =====
-- trees/src/iavl/range/mod.rs and range/rev.rs: the entries of a range, from either end.
pub mod Stacks
pub mod Skips
pub mod Forward
pub mod Backward
use gears.Base.{
  ℕ, ◌+◌, suc, zero, Bool, true, false, ◌&&◌, Option, none, some, List, [], ◌∷◌, if◌then◌else◌,
}
use gears.Base.Order.{Bytes}
use gears.KvStore.Bounds.{Bounds, after_start, before_end}
use gears.Iavl.Node.{Node, leaf, inner}

-- The nodes that are left to visit; the top of each stack is the head of the list.
pub record Range : Type 0 where
  pub range : Bounds
  pub delayed_nodes : List Node
  pub delayed_nodes_rev : List Node

abbrev single : Option Node → List Node
single none = []
single (some n) = n ∷ []

-- `Range::new`
unfoldable pub new_range : Bounds → Option Node → Range
new_range range root = record {
  range = range;
  delayed_nodes = single root;
  delayed_nodes_rev = single root;
}

abbrev pub push_if : Bool → Node → List Node → List Node
push_if b n s = if b then n ∷ s else s

-- The calls of itself are on fuel.
unfoldable pub traverse : ℕ → Bounds → List Node → Option (Bytes × Bytes) × List Node
traverse fuel range [] = (none, [])
traverse zero range (n ∷ s) = (none, n ∷ s)
traverse (suc fuel) range (leaf k v w ∷ s) =
    let rest = traverse fuel range s in
    if after_start range.start k && before_end range.end k then (some (k, v), s) else rest
traverse (suc fuel) range (inner m l r ∷ s) =
    traverse fuel range
      (push_if (after_start range.start m.key) l (push_if (before_end range.end m.key) r s))

unfoldable pub traverse_rev : ℕ → Bounds → List Node → Option (Bytes × Bytes) × List Node
traverse_rev fuel range [] = (none, [])
traverse_rev zero range (n ∷ s) = (none, n ∷ s)
traverse_rev (suc fuel) range (leaf k v w ∷ s) =
    let rest = traverse_rev fuel range s in
    if after_start range.start k && before_end range.end k then (some (k, v), s) else rest
traverse_rev (suc fuel) range (inner m l r ∷ s) =
    traverse_rev fuel range
      (push_if (before_end range.end m.key) r (push_if (after_start range.start m.key) l s))

-- The number of nodes.
abbrev pub weight : Node → ℕ
weight (leaf k v w) = 1
weight (inner m l r) = 1 + weight l + weight r

abbrev pub total_weight : List Node → ℕ
total_weight [] = 0
total_weight (n ∷ s) = weight n + total_weight s

unfoldable pub next : Range → Option (Bytes × Bytes) × Range
unfolding traverse
next r =
    let (item, s) = traverse (total_weight r.delayed_nodes) r.range r.delayed_nodes in
    (item, record r { delayed_nodes = s })

unfoldable pub next_back : Range → Option (Bytes × Bytes) × Range
unfolding traverse_rev
next_back r =
    let (item, s) = traverse_rev (total_weight r.delayed_nodes_rev) r.range r.delayed_nodes_rev in
    (item, record r { delayed_nodes_rev = s })

-- The items that an iterator returns before it ends, within a number of steps.
unfoldable pub collect : (Range → Option (Bytes × Bytes) × Range) → ℕ → Range → List (Bytes × Bytes)
collect step zero r = []
collect step (suc fuel) r =
    let rest = collect step fuel (step r).1 in elim (step r).0 [ none ↦ [] | some e ↦ e ∷ rest ]
