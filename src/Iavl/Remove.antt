-- ===== src/Iavl/Remove.antt =====
-- trees/src/iavl/tree.rs: `recursive_remove`, without the list of orphaned nodes, which `remove`
-- drops.
pub mod Outcomes
pub mod Shrinks
pub mod Contents
pub mod Hashes
use gears.Base.{ℕ, Bool, true, false, Option, none, some, Ordering, if◌then◌else◌}
use gears.Base.Order.{Bytes, bytes_ord, cmp_bytes, ◌≟◌}
use gears.Base.Results.{Result, ok, err, ◌>>=◌}
use gears.KvStore.Bounds.{lt_bytes}
use gears.Iavl.Node.{
  Node, leaf, inner, InnerNode, InternalError, unreachable, Hasher, hash, leftmost_leaf_key,
}
use gears.Iavl.Rotate.{update_height_and_size_and_balance}

-- The four values that are returned, and the node that is left.
pub record Removed : Type 0 where
  pub value : Option Bytes
  pub new_hash : Option Bytes
  pub leaf_cut : Bool
  pub new_key : Option Bytes
  pub node : Node

abbrev pub not_found : Node → Removed
not_found n = record { value = none; new_hash = none; leaf_cut = false; new_key = none; node = n }

abbrev pub left_hash_set : ℕ → Bytes → InnerNode → InnerNode
left_hash_set version new_hash m = record m {
  left_loaded = true;
  left_hash = new_hash;
  version = version;
}

abbrev pub right_hash_set : ℕ → Bytes → InnerNode → InnerNode
right_hash_set version new_hash m = record m {
  right_loaded = true;
  right_hash = new_hash;
  version = version;
}

abbrev pub rekeyed : Option Bytes → InnerNode → InnerNode
rekeyed none m = m
rekeyed (some k) m = record m { key = k }

module _ (h : Hasher) where
  abbrev pub changed : Option Bytes → Option Bytes → Node → Removed
  changed value new_key n = record {
    value = value;
    new_hash = some (hash h n);
    leaf_cut = false;
    new_key = new_key;
    node = n;
  }

  -- After the call on the left child.
  unfoldable pub after_left : ℕ → InnerNode → Node → Removed → Result InternalError Removed
  unfolding update_height_and_size_and_balance leftmost_leaf_key hash
  after_left version m r removed = elim removed.value [
    | none ↦ ok (not_found (inner (record m { left_loaded = true }) removed.node r))
    | some v ↦ elim removed.leaf_cut [
      | true ↦ ok (changed (some v) (some (leftmost_leaf_key r)) r)
      | false ↦ elim removed.new_hash [
        | none ↦ err unreachable
        | some new_hash ↦
            update_height_and_size_and_balance h version
              (inner (left_hash_set version new_hash m) removed.node r)
            >>= λ n. ok (changed (some v) removed.new_key n)
      ]
    ]
  ]

  -- After the call on the right child.
  unfoldable pub after_right : ℕ → InnerNode → Node → Removed → Result InternalError Removed
  unfolding update_height_and_size_and_balance hash
  after_right version m l removed = elim removed.value [
    | none ↦ ok (not_found (inner (record m { right_loaded = true }) l removed.node))
    | some v ↦ elim removed.leaf_cut [
      | true ↦ ok (changed (some v) none l)
      | false ↦ elim removed.new_hash [
        | none ↦ err unreachable
        | some new_hash ↦
            update_height_and_size_and_balance h version
              (inner (rekeyed removed.new_key (right_hash_set version new_hash m)) l removed.node)
            >>= λ n. ok (changed (some v) none n)
      ]
    ]
  ]

  unfoldable pub recursive_remove : ℕ → Bytes → Node → Result InternalError Removed
  unfolding after_left after_right
  recursive_remove version key (leaf k v w) =
      if k ≟ key
      then ok (record {
        value = some v;
        new_hash = none;
        leaf_cut = true;
        new_key = none;
        node = leaf k v w;
      })
      else ok (not_found (leaf k v w))
  recursive_remove version key (inner m l r) =
      let from_left = recursive_remove version key l in
      let from_right = recursive_remove version key r in
      if lt_bytes key m.key
      then (from_left >>= after_left version m r)
      else (from_right >>= after_right version m l)
