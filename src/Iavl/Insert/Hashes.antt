-- ===== src/Iavl/Insert/Hashes.antt =====
-- trees/src/iavl/tree.rs: the hashes after an insertion.
use gears.Base.{ℕ, ◌+◌, refl, true, inl, inr, ltb, Bool-cases}
use gears.Base.Order.{Bytes, cmp_bytes, Ordering-cases}
use gears.Base.Results.{bind-Answers}
use gears.KvStore.Bounds.{lt_bytes}
use gears.Iavl.Node.{
  Node, leaf, inner, InnerNode, Hasher, get_height, get_key, update_height_and_size,
}
use gears.Iavl.Merkle.{IsHashed}
use gears.Iavl.Rotate.Hashes.{
  Hashes, if-Hashes, right_rotate-Hashes, left_rotate-Hashes, left_right_rotate-Hashes,
  right_left_rotate-Hashes,
}
use gears.Iavl.Insert.{joined, rebalance, set_left, set_right, recursive_set}

module _ (h : Hasher) (version : ℕ) (key : Bytes) where
  rebalance-Hashes :
      (m : InnerNode) (l r : Node)
      → IsHashed h (inner m l r)
      → Hashes h (rebalance h version key m l r)
  unfolding rebalance update_height_and_size IsHashed
  rebalance-Hashes m l r (a, b, c, d) =
      let updated = record (update_height_and_size m l r) { version = version } in
      let loaded_left = record updated { left_loaded = true } in
      let loaded_right = record updated { right_loaded = true } in
      if-Hashes h (ltb (get_height r + 1) (get_height l)) _ _
        (if-Hashes h (lt_bytes key (get_key l)) _ _
          (right_rotate-Hashes h version loaded_left l r c d b)
          (left_right_rotate-Hashes h version loaded_left l r c d b))
        (if-Hashes h (ltb (get_height l + 1) (get_height r)) _ _
          (if-Hashes h (lt_bytes (get_key r) key) _ _
            (left_rotate-Hashes h version loaded_right l r c d a)
            (right_left_rotate-Hashes h version loaded_right l r c d a))
          (a, b, c, d))

  pub recursive_set-Hashes :
      (value : Bytes) (t : Node) → IsHashed h t → Hashes h (recursive_set h version key value t)
  unfolding recursive_set joined IsHashed
  recursive_set-Hashes value (leaf k v w) hs = elim (Ordering-cases (cmp_bytes key k)) [
    | inl e ↦ rw (e, recursive_set) (refl, refl, tt, tt)
    | inr (inl e) ↦ rw (e, recursive_set) tt
    | inr (inr e) ↦ rw (e, recursive_set) (refl, refl, tt, tt)
  ]
  recursive_set-Hashes value (inner m l r) (a, b, c, d) = elim (Bool-cases (lt_bytes key m.key)) [
    | inl less ↦
        rw (less, recursive_set)
          (bind-Answers _ _ (recursive_set h version key value l) _ (recursive_set-Hashes value l c)
            λ l' x. rebalance-Hashes (set_left h m l') l' r (refl, b, x, d))
    | inr more ↦
        rw (more, recursive_set)
          (bind-Answers _ _ (recursive_set h version key value r) _ (recursive_set-Hashes value r d)
            λ r' x. rebalance-Hashes (set_right h m r') l r' (a, refl, c, x))
  ]
