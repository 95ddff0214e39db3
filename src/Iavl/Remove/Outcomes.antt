-- ===== src/Iavl/Remove/Outcomes.antt =====
-- trees/src/iavl/tree.rs: the three ways in which `recursive_remove` returns.
use gears.Base.{true, Option, none, some}
use gears.Base.Order.{Bytes}
use gears.Iavl.Node.{Node, Hasher}
use gears.Iavl.Remove.{Removed, not_found, changed}

-- The key is not there, the node is the leaf to remove, or the entry was removed below the node.
pub data Outcome (h : Hasher) (Absent : Node → Type 0) (Cut : Bytes → Node → Type 0)
    (Changed : Bytes → Option Bytes → Node → Type 0) : Removed → Type 0 where
  missing : (u : Node) → Absent u → Outcome h Absent Cut Changed (not_found u)
  cut :
      (v : Bytes) (u : Node)
      → Cut v u
      → Outcome h Absent Cut Changed
          (record { value = some v; new_hash = none; leaf_cut = true; new_key = none; node = u })
  done :
      (v : Bytes) (new_key : Option Bytes) (u : Node)
      → Changed v new_key u
      → Outcome h Absent Cut Changed (changed h (some v) new_key u)
