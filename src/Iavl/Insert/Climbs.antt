-- ===== src/Iavl/Insert/Climbs.antt =====
-- trees/src/iavl/tree.rs: the heights after an insertion.
use gears.Base.{
  ℕ, ◌+◌, ◌≤◌, ◌≡◌, refl, inl, inr, true, ltb, Bool-cases, ltb→lt, ltb→le, subst, arith,
}
use gears.Base.Order.{Bytes}
use gears.KvStore.Bounds.{lt_bytes, lt_bytes_asym}
use gears.Iavl.Node.{Node, leaf, inner, InnerNode, Hasher, get_height, max, max-cases}
use gears.Iavl.Shape.{IsBalanced, Leans, Grown}
use gears.Iavl.Insert.{rebalance}
use gears.Iavl.Insert.Cases.{
  Fits, settled, near_left, far_left, near_right, far_right, Leans-left, Leans-right,
}

module _ (h : Hasher) (version : ℕ) (key : Bytes) (m : InnerNode) where
  rotated_left :
      (l r : Node)
      → IsBalanced l
      → IsBalanced r
      → Leans key l
      → get_height l ≡ get_height r + 2
      → Fits h version key m (get_height r + 2) (rebalance h version key m l r)
  unfolding Leans IsBalanced get_height
  rotated_left (leaf k v w) r b br lean e = absurd lean
  rotated_left (inner y t1 t2) r b br lean e = elim (Bool-cases (lt_bytes key y.key)) [
    | inl near ↦
        near_left h version key m y t1 t2 r b br (Leans-left h version key m y t1 t2 near lean) e
          near
    | inr far ↦
        far_left h version key m y t1 t2 r b br (Leans-right h version key m y t1 t2 far lean).1 e
          far
  ]

  rotated_right :
      (l r : Node)
      → IsBalanced l
      → IsBalanced r
      → Leans key r
      → get_height r ≡ get_height l + 2
      → Fits h version key m (get_height l + 2) (rebalance h version key m l r)
  unfolding Leans IsBalanced get_height
  rotated_right l (leaf k v w) bl b lean e = absurd lean
  rotated_right l (inner y t2 t4) bl b lean e = elim (Bool-cases (lt_bytes key y.key)) [
    | inl far ↦
        far_right h version key m y l t2 t4 bl b (Leans-left h version key m y t2 t4 far lean) e
          (lt_bytes_asym key y.key far)
    | inr near ↦
        near_right h version key m y l t2 t4 bl b (Leans-right h version key m y t2 t4 near lean).1
          e (Leans-right h version key m y t2 t4 near lean).0
  ]

  climbed_left :
      (height : ℕ) (l r : Node)
      → IsBalanced l
      → IsBalanced r
      → get_height l ≡ height + 1
      → get_height l ≤ get_height r + 1
      → get_height r ≤ height + 1
      → lt_bytes key m.key ≡ true
      → Fits h version key m (1 + max height (get_height r)) (rebalance h version key m l r)
  climbed_left height l r bl br g a b e =
      let c = max-cases height (get_height r) in
      let d = max-cases (get_height l) (get_height r) in
      elim (Bool-cases (ltb height (get_height r))) [
        | inl low ↦
            let f = ltb→lt height (get_height r) low in
            settled h version key m _ l r bl br a (omega arith) (inl (omega arith))
        | inr high ↦
            let f = ltb→le height (get_height r) high in
            settled h version key m _ l r bl br a (omega arith)
              (inr (omega arith, rw (e) (omega arith)))
      ]

  climbed_right :
      (height : ℕ) (l r : Node)
      → IsBalanced l
      → IsBalanced r
      → get_height r ≡ height + 1
      → get_height r ≤ get_height l + 1
      → get_height l ≤ height + 1
      → lt_bytes m.key key ≡ true
      → Fits h version key m (1 + max (get_height l) height) (rebalance h version key m l r)
  climbed_right height l r bl br g a b e =
      let c = max-cases (get_height l) height in
      let d = max-cases (get_height l) (get_height r) in
      elim (Bool-cases (ltb height (get_height l))) [
        | inl low ↦
            let f = ltb→lt height (get_height l) low in
            settled h version key m _ l r bl br (omega arith) a (inl (omega arith))
        | inr high ↦
            let f = ltb→le height (get_height l) high in
            settled h version key m _ l r bl br (omega arith) a
              (inr (omega arith, rw (lt_bytes_asym m.key key e) (e, omega arith)))
      ]

  -- The insertion was below the left child.
  pub rebalance-left :
      (height : ℕ) (l r : Node)
      → IsBalanced l
      → IsBalanced r
      → Grown key height l
      → height ≤ get_height r + 1
      → get_height r ≤ height + 1
      → lt_bytes key m.key ≡ true
      → Fits h version key m (1 + max height (get_height r)) (rebalance h version key m l r)
  unfolding Grown
  rebalance-left height l r bl br (inl g) a b e =
      settled h version key m _ l r bl br (omega arith) (omega arith) (inl (rw (g) refl))
  rebalance-left height l r bl br (inr (g, inl z)) a b e =
      climbed_left height l r bl br g (omega arith) b e
  rebalance-left height l r bl br (inr (g, inr lean)) a b e =
      let c = max-cases height (get_height r) in
      elim (Bool-cases (ltb (get_height r + 1) (get_height l))) [
        | inl high ↦
            let f = ltb→lt _ _ high in
            subst (λ n. Fits h version key m n (rebalance h version key m l r)) (omega arith)
              (rotated_left l r bl br lean (omega arith))
        | inr low ↦ climbed_left height l r bl br g (ltb→le _ _ low) b e
      ]

  pub rebalance-right :
      (height : ℕ) (l r : Node)
      → IsBalanced l
      → IsBalanced r
      → Grown key height r
      → lt_bytes m.key key ≡ true
      → get_height l ≤ height + 1
      → height ≤ get_height l + 1
      → Fits h version key m (1 + max (get_height l) height) (rebalance h version key m l r)
  unfolding Grown
  rebalance-right height l r bl br (inl g) e a b =
      settled h version key m _ l r bl br (omega arith) (omega arith) (inl (rw (g) refl))
  rebalance-right height l r bl br (inr (g, inl z)) e a b =
      climbed_right height l r bl br g (omega arith) a e
  rebalance-right height l r bl br (inr (g, inr lean)) e a b =
      let c = max-cases (get_height l) height in
      elim (Bool-cases (ltb (get_height l + 1) (get_height r))) [
        | inl high ↦
            let f = ltb→lt _ _ high in
            subst (λ n. Fits h version key m n (rebalance h version key m l r)) (omega arith)
              (rotated_right l r bl br lean (omega arith))
        | inr low ↦ climbed_right height l r bl br g (ltb→le _ _ low) a e
      ]
