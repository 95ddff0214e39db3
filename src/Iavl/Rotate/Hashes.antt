-- ===== src/Iavl/Rotate/Hashes.antt =====
-- trees/src/iavl/tree.rs: the hashes after the rotations and the balancing.
use gears.Base.{ℕ, ◌+◌, ◌≡◌, refl, Bool, true, false, ltb, ◌==◌, if◌then◌else◌}
use gears.Base.Results.{Result, ◌>>=◌, Answers, bind-Answers}
use gears.Iavl.Node.{
  Node, leaf, inner, InnerNode, InternalError, Hasher, hash, get_height, update_height_and_size,
}
use gears.Iavl.Merkle.{IsHashed}
use gears.Iavl.Rotate.{
  update_height_and_size_and_balance, balance_left, balance_right, right_or_even, left_or_even,
  right_rotate, left_rotate,
}

-- If it returns, the hashes are right.
abbrev pub Hashes : Hasher → Result InternalError Node → Type 0
Hashes h r = Answers r (IsHashed h) (λ _. Unit)

pub if-Hashes :
    (h : Hasher) (b : Bool) (x y : Result InternalError Node)
    → Hashes h x
    → Hashes h y
    → Hashes h (if b then x else y)
if-Hashes h true x y p q = p
if-Hashes h false x y p q = q

module _ (h : Hasher) (version : ℕ) where
  -- The hash of the left child is not read.
  pub right_rotate-Hashes :
      (m : InnerNode) (l r : Node)
      → IsHashed h l
      → IsHashed h r
      → (m.right_hash ≡ hash h r)
      → Hashes h (right_rotate h version (inner m l r))
  unfolding right_rotate IsHashed update_height_and_size
  right_rotate-Hashes m (leaf k v w) r hl hr e = tt
  right_rotate-Hashes m (inner y t1 t3) r (a, b, c, d) hr e = (a, refl, c, (b, e, d, hr))

  -- The hash of the right child is not read.
  pub left_rotate-Hashes :
      (m : InnerNode) (l r : Node)
      → IsHashed h l
      → IsHashed h r
      → (m.left_hash ≡ hash h l)
      → Hashes h (left_rotate h version (inner m l r))
  unfolding left_rotate IsHashed update_height_and_size
  left_rotate-Hashes m l (leaf k v w) hl hr e = tt
  left_rotate-Hashes m l (inner y t2 t4) hl (a, b, c, d) e = (refl, b, (e, a, hl, c), d)

  left_child-Hashes : (t : Node) → IsHashed h t → Hashes h (left_rotate h version t)
  unfolding left_rotate IsHashed
  left_child-Hashes (leaf k v w) hs = tt
  left_child-Hashes (inner m l r) (a, b, c, d) = left_rotate-Hashes m l r c d a

  right_child-Hashes : (t : Node) → IsHashed h t → Hashes h (right_rotate h version t)
  unfolding right_rotate IsHashed
  right_child-Hashes (leaf k v w) hs = tt
  right_child-Hashes (inner m l r) (a, b, c, d) = right_rotate-Hashes m l r c d b

  pub left_right_rotate-Hashes :
      (m : InnerNode) (l r : Node)
      → IsHashed h l
      → IsHashed h r
      → (m.right_hash ≡ hash h r)
      → Hashes h (left_rotate h version l >>= λ l'. right_rotate h version (inner m l' r))
  left_right_rotate-Hashes m l r hl hr e =
      bind-Answers (IsHashed h) (λ _. Unit) (left_rotate h version l)
        (λ l'. right_rotate h version (inner m l' r)) (left_child-Hashes l hl)
        λ l' x. right_rotate-Hashes m l' r x hr e

  pub right_left_rotate-Hashes :
      (m : InnerNode) (l r : Node)
      → IsHashed h l
      → IsHashed h r
      → (m.left_hash ≡ hash h l)
      → Hashes h (right_rotate h version r >>= λ r'. left_rotate h version (inner m l r'))
  right_left_rotate-Hashes m l r hl hr e =
      bind-Answers (IsHashed h) (λ _. Unit) (right_rotate h version r)
        (λ r'. left_rotate h version (inner m l r')) (right_child-Hashes r hr)
        λ r' x. left_rotate-Hashes m l r' hl x e

  balance_right-Hashes :
      (m : InnerNode) (l r : Node)
      → IsHashed h (inner m l r)
      → Hashes h (balance_right h version m l r)
  unfolding balance_right IsHashed
  balance_right-Hashes m l r (a, b, c, d) =
      let loaded = record m { right_loaded = true } in
      if-Hashes h (right_or_even r) _ _ (left_rotate-Hashes loaded l r c d a)
        (right_left_rotate-Hashes loaded l r c d a)

  balance_left-Hashes :
      (m : InnerNode) (l r : Node)
      → IsHashed h (inner m l r)
      → Hashes h (balance_left h version m l r)
  unfolding balance_left IsHashed
  balance_left-Hashes m l r (a, b, c, d) =
      let loaded = record m { left_loaded = true } in
      if-Hashes h (left_or_even l) _ _ (right_rotate-Hashes loaded l r c d b)
        (left_right_rotate-Hashes loaded l r c d b)

  pub update_height_and_size_and_balance-Hashes :
      (t : Node) → IsHashed h t → Hashes h (update_height_and_size_and_balance h version t)
  unfolding update_height_and_size_and_balance update_height_and_size IsHashed
  update_height_and_size_and_balance-Hashes (leaf k v w) hs = hs
  update_height_and_size_and_balance-Hashes (inner m l r) hs =
      let updated = update_height_and_size m l r in
      if-Hashes h (get_height r == get_height l + 2) _ _ (balance_right-Hashes updated l r hs) (
        if-Hashes h (get_height l == get_height r + 2) _ _ (balance_left-Hashes updated l r hs) (
          if-Hashes h (ltb (get_height l + 1) (get_height r)) _ _ tt
            (if-Hashes h (ltb (get_height r + 1) (get_height l)) _ _ tt hs)))
