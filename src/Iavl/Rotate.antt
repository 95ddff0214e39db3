-- ===== src/Iavl/Rotate.antt =====
-- trees/src/iavl/tree.rs: the rotations, and the balancing after a removal.
pub mod Balance
pub mod Restores
pub mod Keys
pub mod Entries
pub mod Hashes
use gears.Base.{ℕ, ◌+◌, Bool, true, false, ltb, leb, ◌==◌, if◌then◌else◌}
use gears.Base.Results.{Result, ok, err, ◌>>=◌}
use gears.Iavl.Node.{
  Node, leaf, inner, InnerNode, InternalError, rotate_error, balancing, Hasher, hash, get_height,
  update_height_and_size,
}

-- get_balance_factor() <= 0
abbrev pub right_or_even : Node → Bool
right_or_even (leaf k v w) = true
right_or_even (inner m l r) = leb (get_height l) (get_height r)

-- get_balance_factor() >= 0
abbrev pub left_or_even : Node → Bool
left_or_even (leaf k v w) = true
left_or_even (inner m l r) = leb (get_height r) (get_height l)

module _ (h : Hasher) where
  unfoldable pub right_rotate : ℕ → Node → Result InternalError Node
  unfolding update_height_and_size hash
  right_rotate version (leaf k v w) = err rotate_error
  right_rotate version (inner z (leaf k v w) r) = err rotate_error
  right_rotate version (inner z (inner y t1 t3) r) =
      let moved = record z { left_loaded = y.right_loaded; left_hash = y.right_hash } in
      let z' = inner (record (update_height_and_size moved t3 r) { version = version }) t3 r in
      let above = record y { right_hash = hash h z'; right_loaded = true } in
      ok (inner (record (update_height_and_size above t1 z') { version = version }) t1 z')

  unfoldable pub left_rotate : ℕ → Node → Result InternalError Node
  unfolding update_height_and_size hash
  left_rotate version (leaf k v w) = err rotate_error
  left_rotate version (inner z l (leaf k v w)) = err rotate_error
  left_rotate version (inner z l (inner y t2 t4)) =
      let moved = record z { right_loaded = y.left_loaded; right_hash = y.left_hash } in
      let z' = inner (record (update_height_and_size moved l t2) { version = version }) l t2 in
      let above = record y { left_hash = hash h z'; left_loaded = true } in
      ok (inner (record (update_height_and_size above z' t4) { version = version }) z' t4)

  -- The branch of the balance factor -2.
  unfoldable pub balance_right : ℕ → InnerNode → Node → Node → Result InternalError Node
  unfolding right_rotate left_rotate get_height
  balance_right version m l r =
      if right_or_even r
      then left_rotate version (inner (record m { right_loaded = true }) l r)
      else (right_rotate version r >>= λ r'.
          left_rotate version (inner (record m { right_loaded = true }) l r'))

  -- The branch of the balance factor 2.
  unfoldable pub balance_left : ℕ → InnerNode → Node → Node → Result InternalError Node
  unfolding right_rotate left_rotate get_height
  balance_left version m l r =
      if left_or_even l
      then right_rotate version (inner (record m { left_loaded = true }) l r)
      else (left_rotate version l >>= λ l'.
          right_rotate version (inner (record m { left_loaded = true }) l' r))

  unfoldable pub update_height_and_size_and_balance : ℕ → Node → Result InternalError Node
  unfolding update_height_and_size balance_right balance_left get_height
  update_height_and_size_and_balance version (leaf k v w) = ok (leaf k v w)
  update_height_and_size_and_balance version (inner m l r) =
      let updated = update_height_and_size m l r in
      if get_height r == get_height l + 2
      then balance_right version updated l r
      else if get_height l == get_height r + 2
      then balance_left version updated l r
      else if ltb (get_height l + 1) (get_height r)
      then err balancing
      else if ltb (get_height r + 1) (get_height l)
      then err balancing
      else ok (inner updated l r)
