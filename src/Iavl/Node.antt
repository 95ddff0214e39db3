-- ===== src/Iavl/Node.antt =====
-- trees/src/iavl/tree.rs: nodes, and their hashes.
use gears.Base.{ℕ, ◌+◌, ◌≤◌, ◌≡◌, ◌⊎◌, arith, Bool, ◌++◌, ltb, length, if◌then◌else◌}
use gears.Base.Order.{Bytes}

-- `InnerNode` without the children. A child that is not loaded is the node that the node database
-- holds under the child's hash.
pub record InnerNode : Type 0 where
  pub left_loaded : Bool
  pub right_loaded : Bool
  pub height : ℕ
  pub size : ℕ
  pub left_hash : Bytes
  pub right_hash : Bytes
  pub key : Bytes
  pub version : ℕ

-- The key, the value and the version of a leaf, or an inner node and its children.
pub data Node : Type 0 where
  leaf : Bytes → Bytes → ℕ → Node
  inner : InnerNode → Node → Node → Node

pub data InternalError : Type 0 where
  rotate_error balancing unreachable node_deserialize out_of_range : InternalError

unfoldable pub get_key : Node → Bytes
get_key (leaf k v w) = k
get_key (inner m l r) = m.key

unfoldable pub get_height : Node → ℕ
get_height (leaf k v w) = 0
get_height (inner m l r) = m.height

unfoldable pub get_size : Node → ℕ
get_size (leaf k v w) = 1
get_size (inner m l r) = m.size

unfoldable pub leftmost_leaf_key : Node → Bytes
leftmost_leaf_key (leaf k v w) = k
leftmost_leaf_key (inner m l r) = leftmost_leaf_key l

unfoldable pub max : ℕ → ℕ → ℕ
max a b = if ltb a b then b else a

pub max-cases : (a b : ℕ) → ((b ≤ a) × (max a b ≡ a)) ⊎ ((a ≤ b) × (max a b ≡ b))
unfolding max
max-cases a b = ground arith

-- The update of `update_height_and_size_get_balance_factor`. The balance factor that it returns is
-- the height of the left child less that of the right one.
unfoldable pub update_height_and_size : InnerNode → Node → Node → InnerNode
update_height_and_size m l r = record m {
  height = 1 + max (get_height l) (get_height r);
  size = get_size l + get_size r;
}

-- `Sha256::digest`, and the variable-length integers of another crate.
pub record Hasher : Type 0 where
  pub digest : Bytes → Bytes
  pub encode_var : ℕ → Bytes

module _ (h : Hasher) where
  unfoldable pub encode_bytes : Bytes → Bytes
  encode_bytes bz = h.encode_var (length bz) ++ bz

  abbrev pub leaf_hash_serialize : Bytes → Bytes → ℕ → Bytes
  leaf_hash_serialize key value version =
      h.encode_var 0
      ++ h.encode_var 1
      ++ h.encode_var version
      ++ encode_bytes key
      ++ encode_bytes (h.digest value)

  unfoldable pub hash_serialize : Node → Bytes
  unfolding encode_bytes
  hash_serialize (leaf key value version) = leaf_hash_serialize key value version
  hash_serialize (inner m l r) =
      h.encode_var m.height
      ++ h.encode_var m.size
      ++ h.encode_var m.version
      ++ encode_bytes m.left_hash
      ++ encode_bytes m.right_hash

  unfoldable pub hash : Node → Bytes
  unfolding hash_serialize
  hash n = h.digest (hash_serialize n)
