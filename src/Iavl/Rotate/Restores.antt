-- ===== src/Iavl/Rotate/Restores.antt =====
-- trees/src/iavl/tree.rs: the height after the balancing that follows a removal.
use gears.Base.{ℕ, ◌+◌, ◌≤◌, ◌≡◌, refl, true, inl, inr, leb, leb→le, leb→lt, Bool-cases, arith}
use gears.Base.Results.{Result, ok, err, ◌>>=◌, Answers}
use gears.Iavl.Node.{
  Node, leaf, inner, InnerNode, InternalError, Hasher, get_height, update_height_and_size, max,
  max-cases,
}
use gears.Iavl.Shape.{IsBalanced}
use gears.Iavl.Rotate.{
  balance_left, balance_right, update_height_and_size_and_balance, right_rotate, left_rotate,
}
use gears.Iavl.Rotate.Balance.{
  Balances, right_rotate-IsBalanced, left_rotate-IsBalanced, left_right_rotate-IsBalanced,
  right_left_rotate-IsBalanced,
}

-- Balanced, and of a height or 1 less.
abbrev pub Shrunk : ℕ → Node → Type 0
Shrunk height u = IsBalanced u × get_height u ≤ height × height ≤ get_height u + 1

module _ (h : Hasher) (version : ℕ) where
  shrunk :
      (a height : ℕ)
      → a ≤ height
      → height ≤ a + 1
      → (r : Result InternalError Node) → Answers r (Balances a) (λ _. ⊥)
      → Answers r (Shrunk height) (λ _. ⊥)
  shrunk a height e f (ok u) (b, g) = (b, omega arith, omega arith)
  shrunk a height e f (err x) b = b

  far_left :
      (m y : InnerNode) (height : ℕ) (t1 t2 r : Node)
      → IsBalanced t1
      → IsBalanced t2
      → IsBalanced r
      → get_height t2 ≡ get_height r + 1
      → get_height t1 ≡ get_height r
      → height ≡ get_height r + 3
      → Answers
          (left_rotate h version (inner y t1 t2) >>= λ l. right_rotate h version (inner m l r))
          (Shrunk height)
          (λ _. ⊥)
  unfolding IsBalanced get_height
  far_left m y height t1 (leaf k v w) r b1 b2 br e f g = absurd (omega arith)
  far_left m y height t1 (inner x t2 t3) r b1 (eh, es, a, b, b2, b3) br e f g =
      let c = max-cases (get_height t2) (get_height t3) in
      shrunk (get_height r + 2) height (omega arith) (omega arith) _ (
        left_right_rotate-IsBalanced h version m y x t1 t2 t3 r b1 b2 b3 br f (omega arith)
          (omega arith) (omega arith) (omega arith))

  far_right :
      (m y : InnerNode) (height : ℕ) (l t2 t4 : Node)
      → IsBalanced l
      → IsBalanced t2
      → IsBalanced t4
      → get_height t2 ≡ get_height l + 1
      → get_height t4 ≡ get_height l
      → height ≡ get_height l + 3
      → Answers
          (right_rotate h version (inner y t2 t4) >>= λ r. left_rotate h version (inner m l r))
          (Shrunk height)
          (λ _. ⊥)
  unfolding IsBalanced get_height
  far_right m y height l (leaf k v w) t4 bl b2 b4 e f g = absurd (omega arith)
  far_right m y height l (inner x t2 t3) t4 bl (eh, es, a, b, b2, b3) b4 e f g =
      let c = max-cases (get_height t2) (get_height t3) in
      shrunk (get_height l + 2) height (omega arith) (omega arith) _ (
        right_left_rotate-IsBalanced h version m y x l t2 t3 t4 bl b2 b3 b4 f (omega arith)
          (omega arith) (omega arith) (omega arith))

  balance_left-Shrunk :
      (m : InnerNode) (height : ℕ) (l r : Node)
      → IsBalanced l
      → IsBalanced r
      → get_height l ≡ get_height r + 2
      → height ≡ get_height l + 1
      → Answers (balance_left h version m l r) (Shrunk height) (λ _. ⊥)
  unfolding balance_left IsBalanced get_height
  balance_left-Shrunk m height (leaf k v w) r bl br e f = absurd (omega arith)
  balance_left-Shrunk m height (inner y t1 t2) r (eh, es, a, b, b1, b2) br e f =
      let c = max-cases (get_height t1) (get_height t2) in
      let loaded = record m { left_loaded = true } in
      elim (Bool-cases (leb (get_height t2) (get_height t1))) [
        | inl even ↦
            let g = leb→le (get_height t2) (get_height t1) even in
            rw even (
              shrunk (get_height t2 + 2) height (omega arith) (omega arith)
                (right_rotate h version (inner loaded (inner y t1 t2) r))
                (right_rotate-IsBalanced h version loaded y t1 t2 r b1 b2 br (omega arith)
                  (omega arith) (omega arith)))
        | inr right ↦
            let g = leb→lt (get_height t2) (get_height t1) right in
            rw right
              (far_left loaded y height t1 t2 r b1 b2 br (omega arith) (omega arith) (omega arith))
      ]

  balance_right-Shrunk :
      (m : InnerNode) (height : ℕ) (l r : Node)
      → IsBalanced l
      → IsBalanced r
      → get_height r ≡ get_height l + 2
      → height ≡ get_height r + 1
      → Answers (balance_right h version m l r) (Shrunk height) (λ _. ⊥)
  unfolding balance_right IsBalanced get_height
  balance_right-Shrunk m height l (leaf k v w) bl br e f = absurd (omega arith)
  balance_right-Shrunk m height l (inner y t2 t4) bl (eh, es, a, b, b2, b4) e f =
      let c = max-cases (get_height t2) (get_height t4) in
      let loaded = record m { right_loaded = true } in
      elim (Bool-cases (leb (get_height t2) (get_height t4))) [
        | inl even ↦
            let g = leb→le (get_height t2) (get_height t4) even in
            rw even (
              shrunk (get_height t2 + 2) height (omega arith) (omega arith)
                (left_rotate h version (inner loaded l (inner y t2 t4)))
                (left_rotate-IsBalanced h version loaded y l t2 t4 bl b2 b4 (omega arith)
                  (omega arith) (omega arith)))
        | inr left ↦
            let g = leb→lt (get_height t2) (get_height t4) left in
            rw left
              (far_right loaded y height l t2 t4 bl b2 b4 (omega arith) (omega arith) (omega arith))
      ]

  at_right :
      (m : InnerNode) (l r : Node)
      → get_height r ≡ get_height l + 2
      → update_height_and_size_and_balance h version (inner m l r)
        ≡ balance_right h version (update_height_and_size m l r) l r
  unfolding update_height_and_size_and_balance
  at_right m l r e = ground arith

  at_left :
      (m : InnerNode) (l r : Node)
      → get_height l ≡ get_height r + 2
      → update_height_and_size_and_balance h version (inner m l r)
        ≡ balance_left h version (update_height_and_size m l r) l r
  unfolding update_height_and_size_and_balance
  at_left m l r e = ground arith

  at_even :
      (m : InnerNode) (l r : Node)
      → get_height l ≤ get_height r + 1
      → get_height r ≤ get_height l + 1
      → update_height_and_size_and_balance h version (inner m l r)
        ≡ ok (inner (update_height_and_size m l r) l r)
  unfolding update_height_and_size_and_balance
  at_even m l r e f = ground arith

  -- From children whose heights differ by at most 2, a balanced node.
  pub update_height_and_size_and_balance-Shrunk :
      (m : InnerNode) (height : ℕ) (l r : Node)
      → IsBalanced l
      → IsBalanced r
      → get_height l ≤ get_height r + 2
      → get_height r ≤ get_height l + 2
      → 1 + max (get_height l) (get_height r) ≤ height
      → height ≤ 2 + max (get_height l) (get_height r)
      → (get_height l ≡ get_height r + 2 → height ≡ get_height l + 1)
      → (get_height r ≡ get_height l + 2 → height ≡ get_height r + 1)
      → Answers
          (update_height_and_size_and_balance h version (inner m l r))
          (Shrunk height)
          (λ _. ⊥)
  unfolding IsBalanced get_height update_height_and_size
  update_height_and_size_and_balance-Shrunk m height l r bl br a b c d e f =
      elim (Bool-cases (leb (get_height l) (get_height r + 1))) [
        | inl x ↦
            let p = leb→le (get_height l) (get_height r + 1) x in
            elim (Bool-cases (leb (get_height r) (get_height l + 1))) [
              | inl y ↦
                  let q = leb→le (get_height r) (get_height l + 1) y in
                  rw (at_even m l r p q) ((refl, refl, p, q, bl, br), c, omega arith)
              | inr y ↦
                  let q = leb→lt (get_height r) (get_height l + 1) y in
                  let s : get_height r ≡ get_height l + 2 = omega arith in
                  rw (at_right m l r s) (balance_right-Shrunk _ height l r bl br s (f s))
            ]
        | inr x ↦
            let p = leb→lt (get_height l) (get_height r + 1) x in
            let s : get_height l ≡ get_height r + 2 = omega arith in
            rw (at_left m l r s) (balance_left-Shrunk _ height l r bl br s (e s))
      ]
