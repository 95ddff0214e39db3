-- ===== src/Iavl/NodeDb.antt =====
-- trees/src/iavl/node_db.rs: the saved nodes and the hashes of the saved roots. The cache in front
-- of the database holds what the database holds, and has no part here.
pub mod Persists
use gears.Base.{ℕ, zero, suc, false, Option, none, some, if◌then◌else◌}
use gears.Base.Order.{Bytes, bytes_ord, nat_ord, ◌≟◌}
use gears.Base.Results.{Result, ok, err, ◌>>=◌}
use gears.Base.Maps.{BtreeMap}
use gears.Base.Maps
use gears.Iavl.Node.{Node, InnerNode, leaf, inner, Hasher, hash}

pub data Error : Type 0 where
  version_not_found : ℕ → Error
  overwrite corrupt : Error

-- A node as the database keeps it: an inner node has the hashes of its children and not the
-- children.
pub data Stored : Type 0 where
  stored_leaf : Bytes → Bytes → ℕ → Stored
  stored_inner : InnerNode → Stored

-- The values under the keys of roots, by version, and under those of nodes, by hash.
pub record NodeDb : Type 0 where
  pub roots : BtreeMap ℕ Bytes
  pub nodes : BtreeMap Bytes Stored

abbrev pub unloaded : InnerNode → InnerNode
unloaded m = record m { left_loaded = false; right_loaded = false }

-- What of a node is stored.
unfoldable pub stored_node : Node → Stored
stored_node (leaf k v w) = stored_leaf k v w
stored_node (inner m l r) = stored_inner (unloaded m)

-- No child is loaded, so that each child is what the database holds, with no child loaded.
unfoldable pub shallow_clone : Node → Node
shallow_clone (leaf k v w) = leaf k v w
shallow_clone (inner m l r) = inner (unloaded m) (shallow_clone l) (shallow_clone r)

unfoldable pub get_root_hash : NodeDb → ℕ → Result Error Bytes
unfolding Maps.get
get_root_hash db version = elim (Maps.get version db.roots) [
  | none ↦ err (version_not_found version)
  | some root_hash ↦ ok root_hash
]

abbrev pub both : InnerNode → Option Node → Option Node → Option Node
both m (some l) (some r) = some (inner m l r)
both m (some l) none = none
both m none r = none

abbrev pub restored : (Bytes → Option Node) → Option Stored → Option Node
restored child none = none
restored child (some (stored_leaf k v w)) = some (leaf k v w)
restored child (some (stored_inner m)) = both m (child m.left_hash) (child m.right_hash)

-- A node with what is below it, level by level. The code reads a child when it comes to it, and
-- panics where it is not there; here the node is not there then.
unfoldable pub get_node : ℕ → NodeDb → Bytes → Option Node
unfolding Maps.get
get_node zero db node_hash = none
get_node (suc f) db node_hash = restored (λ k. get_node f db k) (Maps.get node_hash db.nodes)

-- The heights that a `u8` holds.
abbrev pub levels : ℕ
levels = 256

-- `empty_hash` is `EMPTY_HASH`.
unfoldable pub get_root_node : Bytes → NodeDb → ℕ → Result Error (Option Node)
unfolding get_root_hash get_node
get_root_node empty_hash db version = get_root_hash db version >>= λ root_hash.
    if root_hash ≟ empty_hash
    then ok none
    else elim (get_node levels db root_hash) [ none ↦ err corrupt | some n ↦ ok (some n) ]

unfoldable pub save_node : Node → Bytes → NodeDb → NodeDb
unfolding Maps.insert stored_node
save_node n node_hash db = record db { nodes = Maps.insert node_hash (stored_node n) db.nodes }

unfoldable pub recursive_tree_save : Node → Bytes → NodeDb → NodeDb
unfolding save_node
recursive_tree_save (leaf k v w) node_hash db = save_node (leaf k v w) node_hash db
recursive_tree_save (inner m l r) node_hash db =
    let left = if m.left_loaded then recursive_tree_save l m.left_hash else λ d. d in
    let right = if m.right_loaded then recursive_tree_save r m.right_hash else λ d. d in
    save_node (inner m l r) node_hash (right (left db))

-- The hash of the root, the root without its children, and the database.
unfoldable pub save_tree : Hasher → Node → NodeDb → Bytes × Node × NodeDb
unfolding recursive_tree_save shallow_clone hash
save_tree h root db = (hash h root, shallow_clone root, recursive_tree_save root (hash h root) db)

unfoldable pub save_root : ℕ → Bytes → NodeDb → NodeDb
unfolding Maps.insert
save_root version root_hash db = record db { roots = Maps.insert version root_hash db.roots }
