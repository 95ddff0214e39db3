-- ===== src/Iavl/Rotate/Entries.antt =====
-- trees/src/iavl/tree.rs: the entries after the balancing that follows a removal.
use gears.Base.{ℕ, ◌+◌, refl, true, ltb, ◌==◌}
use gears.Iavl.Node.{Node, leaf, inner, InnerNode, Hasher, get_height, update_height_and_size}
use gears.Iavl.Keys.{to_list, IsKeyed}
use gears.Iavl.Rotate.{
  update_height_and_size_and_balance, balance_left, balance_right, right_or_even, left_or_even,
}
use gears.Iavl.Rotate.Keys.{
  Keeps, if-Keeps, right_rotate-Keeps, left_rotate-Keeps, left_right_rotate-Keeps,
  right_left_rotate-Keeps,
}

module _ (h : Hasher) (version : ℕ) where
  balance_right-Keeps :
      (m : InnerNode) (l r : Node) → Keeps (inner m l r) (balance_right h version m l r)
  unfolding balance_right to_list IsKeyed
  balance_right-Keeps m l r =
      let loaded = record m { right_loaded = true } in
      if-Keeps (inner m l r) (right_or_even r) _ _ (left_rotate-Keeps h version (inner loaded l r))
        (right_left_rotate-Keeps h version loaded l r)

  balance_left-Keeps :
      (m : InnerNode) (l r : Node) → Keeps (inner m l r) (balance_left h version m l r)
  unfolding balance_left to_list IsKeyed
  balance_left-Keeps m l r =
      let loaded = record m { left_loaded = true } in
      if-Keeps (inner m l r) (left_or_even l) _ _ (right_rotate-Keeps h version (inner loaded l r))
        (left_right_rotate-Keeps h version loaded l r)

  pub update_height_and_size_and_balance-Keeps :
      (t : Node) → Keeps t (update_height_and_size_and_balance h version t)
  unfolding update_height_and_size_and_balance update_height_and_size to_list IsKeyed
  update_height_and_size_and_balance-Keeps (leaf k v w) = (refl, λ x. x)
  update_height_and_size_and_balance-Keeps (inner m l r) =
      let t = inner m l r in
      let updated = update_height_and_size m l r in
      if-Keeps t (get_height r == get_height l + 2) _ _ (balance_right-Keeps updated l r) (
        if-Keeps t (get_height l == get_height r + 2) _ _ (balance_left-Keeps updated l r) (
          if-Keeps t (ltb (get_height l + 1) (get_height r)) _ _ tt
            (if-Keeps t (ltb (get_height r + 1) (get_height l)) _ _ tt (refl, λ x. x))))
