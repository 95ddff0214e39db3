-- ===== src/Iavl/Tree/Heights.antt =====
-- trees/src/iavl/tree.rs: the size and the height of the trees that insertions and removals make.
use gears.Base.{◌^◌, ◌<◌, ◌≡◌, Option, none, some, length}
use gears.Base.Order.{Bytes}
use gears.Base.Results.{ok}
use gears.Iavl.Node.{Node, Hasher, get_height, get_size}
use gears.Iavl.Keys.{to_list}
use gears.Iavl.Tree.{Tree, set, remove}

module _ (h : Hasher) where
  -- The trees that insertions and removals make of an empty one.
  pub data IsBuilt : Tree → Type 0 where
    empty : (t : Tree) → t.root ≡ none → IsBuilt t
    after_set : (k v : Bytes) (t u : Tree) → IsBuilt t → set h k v t ≡ ok u → IsBuilt u
    after_remove :
        (k : Bytes) (found : Option Bytes) (t u : Tree)
        → IsBuilt t
        → remove h k t ≡ ok (found, u)
        → IsBuilt u

  -- The stored size and the number of leaves of a root, and its height.
  abbrev pub IsLow : Option Node → Type 0
  IsLow none = Unit
  IsLow (some n) =
      length (to_list n) < 2 ^ 32 → (get_size n ≡ length (to_list n)) × (get_height n < 64)
