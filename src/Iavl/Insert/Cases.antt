-- ===== src/Iavl/Insert/Cases.antt =====
-- trees/src/iavl/tree.rs: the rotations after an insertion, case by case.
use gears.Base.{ℕ, ◌+◌, ◌≤◌, ◌≡◌, refl, ◌∙◌, ◌⊎◌, inl, inr, true, false, if◌then◌else◌, arith}
use gears.Base.Order.{Bytes}
use gears.Base.Results.{Result, ok, err, ◌>>=◌, Answers}
use gears.KvStore.Bounds.{lt_bytes}
use gears.Iavl.Node.{
  Node, leaf, inner, InnerNode, InternalError, Hasher, get_height, get_size, get_key,
  update_height_and_size, max, max-cases,
}
use gears.Iavl.Shape.{IsBalanced, Leans, Grown}
use gears.Iavl.Insert.{rebalance}
use gears.Iavl.Rotate.{right_rotate, left_rotate}
use gears.Iavl.Rotate.Balance.{
  Balances, right_rotate-IsBalanced, left_rotate-IsBalanced, left_right_rotate-IsBalanced,
  right_left_rotate-IsBalanced,
}

module _ (h : Hasher) (version : ℕ) (key : Bytes) (m : InnerNode) where
  -- Balanced, and grown from a height.
  abbrev pub Fits : ℕ → Result InternalError Node → Type 0
  Fits height r = Answers r (λ t. IsBalanced t × Grown key height t) (λ _. ⊥)

  still :
      (l r : Node)
      → get_height l ≤ get_height r + 1
      → get_height r ≤ get_height l + 1
      → rebalance h version key m l r
        ≡ ok (inner (record (update_height_and_size m l r) { version = version }) l r)
  unfolding rebalance
  still l r a b = ground arith

  pub settled :
      (height : ℕ) (l r : Node)
      → IsBalanced l
      → IsBalanced r
      → get_height l ≤ get_height r + 1
      → get_height r ≤ get_height l + 1
      → (1 + max (get_height l) (get_height r) ≡ height)
        ⊎ ((1 + max (get_height l) (get_height r) ≡ height + 1)
            × (if lt_bytes key m.key
                then (get_height l ≡ get_height r + 1)
                else ((lt_bytes m.key key ≡ true) × (get_height r ≡ get_height l + 1))))
      → Fits height (rebalance h version key m l r)
  unfolding IsBalanced Grown Leans get_height get_size update_height_and_size
  settled height l r bl br a b (inl e) = rw (still l r a b) ((refl, refl, a, b, bl, br), inl e)
  settled height l r bl br a b (inr (e, lean)) =
      rw (still l r a b) ((refl, refl, a, b, bl, br), inr (e, inr lean))

  rebalance_near_left :
      (y : InnerNode) (t1 t2 r : Node)
      → y.height ≡ get_height r + 2
      → lt_bytes key y.key ≡ true
      → rebalance h version key m (inner y t1 t2) r
        ≡ right_rotate h version (
            inner
              (record (update_height_and_size m (inner y t1 t2) r) {
                version = version;
                left_loaded = true;
              })
              (inner y t1 t2)
              r)
  unfolding rebalance get_height get_key
  rebalance_near_left y t1 t2 r a b = ground arith

  rebalance_far_left :
      (y : InnerNode) (t1 t2 r : Node)
      → y.height ≡ get_height r + 2
      → lt_bytes key y.key ≡ false
      → rebalance h version key m (inner y t1 t2) r ≡ (
          left_rotate h version (inner y t1 t2) >>= λ l. right_rotate h version (
            inner
              (record (update_height_and_size m (inner y t1 t2) r) {
                version = version;
                left_loaded = true;
              })
              l
              r))
  unfolding rebalance get_height get_key
  rebalance_far_left y t1 t2 r a b = ground arith

  -- The heights of the children are as before.
  pub kept :
      (l r : Node)
      → IsBalanced l
      → IsBalanced r
      → get_height l ≤ get_height r + 1
      → get_height r ≤ get_height l + 1
      → Answers
          (rebalance h version key m l r)
          (Balances (1 + max (get_height l) (get_height r)))
          (λ _. ⊥)
  unfolding IsBalanced get_height get_size update_height_and_size
  kept l r bl br a b = rw (still l r a b) ((refl, refl, a, b, bl, br), refl)

  fits :
      (a height : ℕ)
      → a ≡ height
      → (r : Result InternalError Node) → Answers r (Balances a) (λ _. ⊥)
      → Fits height r
  unfolding Grown
  fits a height e (ok t) b = (b.0, inl (b.1 ∙ e))
  fits a height e (err x) b = b

  pub Leans-left :
      (y : InnerNode) (t1 t2 : Node)
      → lt_bytes key y.key ≡ true
      → Leans key (inner y t1 t2)
      → get_height t1 ≡ get_height t2 + 1
  unfolding Leans
  Leans-left y t1 t2 near lean = ground arith

  pub Leans-right :
      (y : InnerNode) (t1 t2 : Node)
      → lt_bytes key y.key ≡ false
      → Leans key (inner y t1 t2)
      → (lt_bytes y.key key ≡ true) × get_height t2 ≡ get_height t1 + 1
  unfolding Leans
  Leans-right y t1 t2 near lean = ground arith

  -- The insertion was below the left child of the left child.
  pub near_left :
      (y : InnerNode) (t1 t2 r : Node)
      → IsBalanced (inner y t1 t2)
      → IsBalanced r
      → get_height t1 ≡ get_height t2 + 1
      → y.height ≡ get_height r + 2
      → lt_bytes key y.key ≡ true
      → Fits (get_height r + 2) (rebalance h version key m (inner y t1 t2) r)
  unfolding IsBalanced
  near_left y t1 t2 r (height, size, b1, b2, b3, b4) br lean e near =
      let c = max-cases (get_height t1) (get_height t2) in
      rw (rebalance_near_left y t1 t2 r e near) (
        fits (get_height t2 + 2) (get_height r + 2) (omega arith) _ (
          right_rotate-IsBalanced h version _ y t1 t2 r b3 b4 br (omega arith) (omega arith)
            (omega arith)))

  pub far_left :
      (y : InnerNode) (t1 t2 r : Node)
      → IsBalanced (inner y t1 t2)
      → IsBalanced r
      → get_height t2 ≡ get_height t1 + 1
      → y.height ≡ get_height r + 2
      → lt_bytes key y.key ≡ false
      → Fits (get_height r + 2) (rebalance h version key m (inner y t1 t2) r)
  unfolding IsBalanced get_height
  far_left y t1 (leaf k v w) r b br lean e far = absurd (omega arith)
  far_left y t1 (inner x t2 t3) r (height, size, b1, b2, b3, (xh, xs, b4, b5, b6, b7)) br lean e
        far =
      let c = max-cases (get_height t1) x.height in
      let d = max-cases (get_height t2) (get_height t3) in
      rw (rebalance_far_left y t1 (inner x t2 t3) r e far) (
        fits _ _ refl _ (
          left_right_rotate-IsBalanced h version _ y x t1 t2 t3 r b3 b6 b7 br (omega arith)
            (omega arith) (omega arith) (omega arith) (omega arith)))

  rebalance_near_right :
      (y : InnerNode) (l t2 t4 : Node)
      → y.height ≡ get_height l + 2
      → lt_bytes y.key key ≡ true
      → rebalance h version key m l (inner y t2 t4)
        ≡ left_rotate h version (
            inner
              (record (update_height_and_size m l (inner y t2 t4)) {
                version = version;
                right_loaded = true;
              })
              l
              (inner y t2 t4))
  unfolding rebalance get_height get_key
  rebalance_near_right y l t2 t4 a b = ground arith

  rebalance_far_right :
      (y : InnerNode) (l t2 t4 : Node)
      → y.height ≡ get_height l + 2
      → lt_bytes y.key key ≡ false
      → rebalance h version key m l (inner y t2 t4) ≡ (
          right_rotate h version (inner y t2 t4) >>= λ r. left_rotate h version (
            inner
              (record (update_height_and_size m l (inner y t2 t4)) {
                version = version;
                right_loaded = true;
              })
              l
              r))
  unfolding rebalance get_height get_key
  rebalance_far_right y l t2 t4 a b = ground arith

  pub near_right :
      (y : InnerNode) (l t2 t4 : Node)
      → IsBalanced l
      → IsBalanced (inner y t2 t4)
      → get_height t4 ≡ get_height t2 + 1
      → y.height ≡ get_height l + 2
      → lt_bytes y.key key ≡ true
      → Fits (get_height l + 2) (rebalance h version key m l (inner y t2 t4))
  unfolding IsBalanced
  near_right y l t2 t4 bl (height, size, b1, b2, b3, b4) lean e near =
      let c = max-cases (get_height t2) (get_height t4) in
      rw (rebalance_near_right y l t2 t4 e near) (
        fits (get_height t2 + 2) (get_height l + 2) (omega arith) _ (
          left_rotate-IsBalanced h version _ y l t2 t4 bl b3 b4 (omega arith) (omega arith)
            (omega arith)))

  pub far_right :
      (y : InnerNode) (l t2 t4 : Node)
      → IsBalanced l
      → IsBalanced (inner y t2 t4)
      → get_height t2 ≡ get_height t4 + 1
      → y.height ≡ get_height l + 2
      → lt_bytes y.key key ≡ false
      → Fits (get_height l + 2) (rebalance h version key m l (inner y t2 t4))
  unfolding IsBalanced get_height
  far_right y l (leaf k v w) t4 bl b lean e far = absurd (omega arith)
  far_right y l (inner x t2 t3) t4 bl (height, size, b1, b2, (xh, xs, b4, b5, b6, b7), b3) lean e
        far =
      let c = max-cases x.height (get_height t4) in
      let d = max-cases (get_height t2) (get_height t3) in
      rw (rebalance_far_right y l (inner x t2 t3) t4 e far) (
        fits _ _ refl _ (
          right_left_rotate-IsBalanced h version _ y x l t2 t3 t4 bl b6 b7 b3 (omega arith)
            (omega arith) (omega arith) (omega arith) (omega arith)))
