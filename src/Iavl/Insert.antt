-- ===== src/Iavl/Insert.antt =====
-- trees/src/iavl/tree.rs: `recursive_set`.
pub mod Cases
pub mod Climbs
pub mod Grows
pub mod Contents
pub mod Hashes
use gears.Base.{ℕ, ◌+◌, Bool, true, false, Ordering, ltb, if◌then◌else◌}
use gears.Base.Order.{Bytes, cmp_bytes}
use gears.Base.Results.{Result, ok, err, ◌>>=◌}
use gears.KvStore.Bounds.{lt_bytes}
use gears.Iavl.Node.{
  Node, leaf, inner, InnerNode, InternalError, Hasher, hash, get_key, get_height,
  update_height_and_size,
}
use gears.Iavl.Rotate.{right_rotate, left_rotate}

module _ (h : Hasher) where
  -- Two leaves under a new node of the right one's key.
  unfoldable pub joined : ℕ → Bytes → Node → Node → Node
  unfolding hash
  joined version key l r =
      inner
        (record {
          left_loaded = true;
          right_loaded = true;
          height = 1;
          size = 2;
          left_hash = hash h l;
          right_hash = hash h r;
          key = key;
          version = version;
        })
        l r

  -- What follows the recursive call: the update, and a rotation where the balance factor is over 1
  -- or under -1.
  unfoldable pub rebalance : ℕ → Bytes → InnerNode → Node → Node → Result InternalError Node
  unfolding update_height_and_size get_height get_key right_rotate left_rotate
  rebalance version key m l r =
      let updated = record (update_height_and_size m l r) { version = version } in
      if ltb (get_height r + 1) (get_height l)
      then (let loaded = record updated { left_loaded = true } in
          if lt_bytes key (get_key l)
          then right_rotate h version (inner loaded l r)
          else (left_rotate h version l >>= λ l'. right_rotate h version (inner loaded l' r)))
      else if ltb (get_height l + 1) (get_height r)
      then (let loaded = record updated { right_loaded = true } in
          if lt_bytes (get_key r) key
          then left_rotate h version (inner loaded l r)
          else (right_rotate h version r >>= λ r'. left_rotate h version (inner loaded l r')))
      else ok (inner updated l r)

  abbrev pub set_left : InnerNode → Node → InnerNode
  set_left m l = record m { left_loaded = true; left_hash = hash h l }

  abbrev pub set_right : InnerNode → Node → InnerNode
  set_right m r = record m { right_loaded = true; right_hash = hash h r }

  unfoldable pub recursive_set : ℕ → Bytes → Bytes → Node → Result InternalError Node
  unfolding joined rebalance hash
  recursive_set version key value (leaf k v w) = elim (cmp_bytes key k) [
    | Ordering.lt ↦ ok (joined version k (leaf key value version) (leaf k v w))
    | Ordering.eq ↦ ok (leaf k value version)
    | Ordering.gt ↦ ok (joined version key (leaf k v w) (leaf key value version))
  ]
  recursive_set version key value (inner m l r) =
      let below_left = recursive_set version key value l in
      let below_right = recursive_set version key value r in
      if lt_bytes key m.key
      then (below_left >>= λ l'. rebalance version key (set_left m l') l' r)
      else (below_right >>= λ r'. rebalance version key (set_right m r') l r')
