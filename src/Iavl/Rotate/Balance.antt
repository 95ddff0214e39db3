-- ===== src/Iavl/Rotate/Balance.antt =====
-- trees/src/iavl/tree.rs: the heights after the rotations.
use gears.Base.{ℕ, ◌+◌, ◌≤◌, ◌≡◌, refl, arith}
use gears.Base.Results.{◌>>=◌, Answers}
use gears.Iavl.Node.{
  Node, inner, InnerNode, Hasher, get_height, get_size, update_height_and_size, max, max-cases,
}
use gears.Iavl.Shape.{IsBalanced}
use gears.Iavl.Rotate.{right_rotate, left_rotate}

-- It returns a balanced node of a height.
abbrev pub Balances : ℕ → Node → Type 0
Balances height t = IsBalanced t × (get_height t ≡ height)

module _ (h : Hasher) (version : ℕ) where
  pub right_rotate-IsBalanced :
      (z y : InnerNode) (t1 t3 r : Node)
      → IsBalanced t1
      → IsBalanced t3
      → IsBalanced r
      → get_height t1 ≡ get_height r + 1
      → get_height t3 ≤ get_height t1
      → get_height t1 ≤ get_height t3 + 1
      → Answers
          (right_rotate h version (inner z (inner y t1 t3) r))
          (Balances (get_height t3 + 2))
          (λ _. ⊥)
  unfolding IsBalanced right_rotate get_height get_size update_height_and_size
  right_rotate-IsBalanced z y t1 t3 r b1 b3 br e a b =
      let c = max-cases (get_height t3) (get_height r) in
      let d = max-cases (get_height t1) (1 + max (get_height t3) (get_height r)) in
      (
        (refl, refl, omega arith, omega arith, b1, (refl, refl, omega arith, omega arith, b3, br)),
        omega arith,
      )

  pub left_rotate-IsBalanced :
      (z y : InnerNode) (l t2 t4 : Node)
      → IsBalanced l
      → IsBalanced t2
      → IsBalanced t4
      → get_height t4 ≡ get_height l + 1
      → get_height t2 ≤ get_height t4
      → get_height t4 ≤ get_height t2 + 1
      → Answers
          (left_rotate h version (inner z l (inner y t2 t4)))
          (Balances (get_height t2 + 2))
          (λ _. ⊥)
  unfolding IsBalanced left_rotate get_height get_size update_height_and_size
  left_rotate-IsBalanced z y l t2 t4 bl b2 b4 e a b =
      let c = max-cases (get_height l) (get_height t2) in
      let d = max-cases (1 + max (get_height l) (get_height t2)) (get_height t4) in
      (
        (refl, refl, omega arith, omega arith, (refl, refl, omega arith, omega arith, bl, b2), b4),
        omega arith,
      )

  pub left_right_rotate-IsBalanced :
      (z y x : InnerNode) (t1 t2 t3 r : Node)
      → IsBalanced t1
      → IsBalanced t2
      → IsBalanced t3
      → IsBalanced r
      → get_height t1 ≡ get_height r
      → get_height t2 ≤ get_height r
      → get_height r ≤ get_height t2 + 1
      → get_height t3 ≤ get_height r
      → get_height r ≤ get_height t3 + 1
      → Answers
          (left_rotate h version (inner y t1 (inner x t2 t3)) >>= λ l.
            right_rotate h version (inner z l r))
          (Balances (get_height r + 2))
          (λ _. ⊥)
  unfolding IsBalanced right_rotate left_rotate get_height get_size update_height_and_size
  left_right_rotate-IsBalanced z y x t1 t2 t3 r b1 b2 b3 br e a b c d =
      let p = max-cases (get_height t1) (get_height t2) in
      let q = max-cases (get_height t3) (get_height r) in
      let s =
        max-cases (1 + max (get_height t1) (get_height t2))
          (1 + max (get_height t3) (get_height r)) in
      (
        (
          refl,
          refl,
          omega arith,
          omega arith,
          (refl, refl, omega arith, omega arith, b1, b2),
          (refl, refl, omega arith, omega arith, b3, br),
        ),
        omega arith,
      )

  pub right_left_rotate-IsBalanced :
      (z y x : InnerNode) (l t2 t3 t4 : Node)
      → IsBalanced l
      → IsBalanced t2
      → IsBalanced t3
      → IsBalanced t4
      → get_height t4 ≡ get_height l
      → get_height t2 ≤ get_height l
      → get_height l ≤ get_height t2 + 1
      → get_height t3 ≤ get_height l
      → get_height l ≤ get_height t3 + 1
      → Answers
          (right_rotate h version (inner y (inner x t2 t3) t4) >>= λ r.
            left_rotate h version (inner z l r))
          (Balances (get_height l + 2))
          (λ _. ⊥)
  unfolding IsBalanced right_rotate left_rotate get_height get_size update_height_and_size
  right_left_rotate-IsBalanced z y x l t2 t3 t4 bl b2 b3 b4 e a b c d =
      let p = max-cases (get_height l) (get_height t2) in
      let q = max-cases (get_height t3) (get_height t4) in
      let s =
        max-cases (1 + max (get_height l) (get_height t2))
          (1 + max (get_height t3) (get_height t4)) in
      (
        (
          refl,
          refl,
          omega arith,
          omega arith,
          (refl, refl, omega arith, omega arith, bl, b2),
          (refl, refl, omega arith, omega arith, b3, b4),
        ),
        omega arith,
      )
