-- ===== src/KvStore/Tree.antt =====
-- What the stores ask of the persistent tree (trees/src/iavl/tree.rs) behind their shared pointer.
use gears.Base.{◌≡◌, false, Option, none, some, List, if◌then◌else◌}
use gears.Base.Order.{Bytes, bytes_ord, ◌≟◌}
use gears.Base.Maps.{IsAscending}
use gears.Base.Maps
use gears.KvStore.Bounds.{Bounds, contains_key}

-- A value of `Tree` is a state of the shared tree; the operations that write return the next one.
-- `IsValid` is the tree's own invariant. `save_version` fails where it would overwrite a version.
pub record PersistentTree : Type 1 where
  pub Tree : Type 0
  pub Hash : Type 0
  pub get : Tree → Bytes → Option Bytes
  pub set : Tree → Bytes → Bytes → Tree
  pub remove : Tree → Bytes → Tree
  pub range : Tree → Bounds → List (Bytes × Bytes)
  pub save_version : Tree → Option (Hash × Tree)
  pub IsValid : Tree → Type 0
  pub set-IsValid : (t : Tree) (k v : Bytes) → IsValid t → IsValid (set t k v)
  pub remove-IsValid : (t : Tree) (k : Bytes) → IsValid t → IsValid (remove t k)
  pub get-set :
      (t : Tree) (k v j : Bytes)
      → IsValid t
      → get (set t k v) j ≡ (if k ≟ j then some v else get t j)
  -- A key is removed where another key is stored beside it.
  pub get-remove :
      (t : Tree) (k j other w : Bytes)
      → IsValid t
      → (k ≟ other) ≡ false
      → get t other ≡ some w
      → get (remove t k) j ≡ (if k ≟ j then none else get t j)
  pub get-save_version :
      (t t' : Tree) (h : Hash) (j : Bytes) → save_version t ≡ some (h, t') → get t' j ≡ get t j
  pub range-IsAscending : (t : Tree) (r : Bounds) → IsValid t → IsAscending (range t r)
  pub get-range :
      (t : Tree) (r : Bounds) (j : Bytes)
      → IsValid t
      → Maps.get j (range t r) ≡ (if contains_key r j then get t j else none)
