-- ===== src/Iavl/Remove/Shrinks.antt =====
-- trees/src/iavl/tree.rs: the heights after a removal.
use gears.Base.{ℕ, ◌≡◌, refl, inl, inr, none, some, Bool-cases, arith}
use gears.Base.Order.{Bytes, bytes_ord, ◌≟◌}
use gears.Base.Results.{ok, Answers, bind-Answers}
use gears.KvStore.Bounds.{lt_bytes}
use gears.Iavl.Node.{Node, leaf, inner, InnerNode, Hasher, hash, get_height, get_size, max-cases}
use gears.Iavl.Shape.{IsBalanced}
use gears.Iavl.Rotate.{update_height_and_size_and_balance}
use gears.Iavl.Rotate.Restores.{Shrunk, update_height_and_size_and_balance-Shrunk}
use gears.Iavl.Remove.{
  Removed, changed, rekeyed, left_hash_set, right_hash_set, after_left, after_right,
  recursive_remove,
}
use gears.Iavl.Remove.Outcomes.{Outcome, missing, cut, done}

module _ (h : Hasher) (version : ℕ) where
  -- A tree without the key keeps its height, and the height of another falls by 1 at most.
  abbrev pub Shrinks : Node → Removed → Type 0
  Shrinks t =
      Outcome h (λ u. IsBalanced u × (get_height u ≡ get_height t) × (get_size u ≡ get_size t))
        (λ _ u. (get_height t ≡ 0) × IsBalanced u) (λ _ _ u. Shrunk (get_height t) u)

  after_left-Shrinks :
      (m : InnerNode) (l r : Node)
      → IsBalanced (inner m l r)
      → (x : Removed) → Shrinks l x
      → Answers (after_left h version m r x) (Shrinks (inner m l r)) (λ _. ⊥)
  unfolding after_left IsBalanced get_height get_size
  after_left-Shrinks m l r (eh, es, a, b, bl, br) x (missing u (bu, e, f)) =
      missing _ ((rw e eh, rw f es, rw e a, rw e b, bu, br), refl, refl)
  after_left-Shrinks m l r (eh, es, a, b, bl, br) x (cut v u (e, _)) =
      let c = max-cases (get_height l) (get_height r) in done v _ r (br, omega arith, omega arith)
  after_left-Shrinks m l r (eh, es, a, b, bl, br) x (done v k u (bu, e, f)) =
      let c = max-cases (get_height l) (get_height r) in
      let d = max-cases (get_height u) (get_height r) in
      let n = left_hash_set version (hash h u) m in
      bind-Answers (Shrinks (inner m l r)) (λ _. ⊥)
        (update_height_and_size_and_balance h version (inner n u r))
        (λ n. ok (changed h (some v) k n))
        (update_height_and_size_and_balance-Shrunk h version n m.height u r bu br (omega arith)
          (omega arith) (omega arith) (omega arith) (λ i. omega arith) (λ i. omega arith))
        λ n s. done v k n s

  after_right-Shrinks :
      (m : InnerNode) (l r : Node)
      → IsBalanced (inner m l r)
      → (x : Removed) → Shrinks r x
      → Answers (after_right h version m l x) (Shrinks (inner m l r)) (λ _. ⊥)
  unfolding after_right IsBalanced get_height get_size
  after_right-Shrinks m l r (eh, es, a, b, bl, br) x (missing u (bu, e, f)) =
      missing _ ((rw e eh, rw f es, rw e a, rw e b, bl, bu), refl, refl)
  after_right-Shrinks m l r (eh, es, a, b, bl, br) x (cut v u (e, _)) =
      let c = max-cases (get_height l) (get_height r) in done v _ l (bl, omega arith, omega arith)
  after_right-Shrinks m l r (eh, es, a, b, bl, br) x (done v k u (bu, e, f)) =
      let c = max-cases (get_height l) (get_height r) in
      let d = max-cases (get_height l) (get_height u) in
      let n = rekeyed k (right_hash_set version (hash h u) m) in
      bind-Answers (Shrinks (inner m l r)) (λ _. ⊥)
        (update_height_and_size_and_balance h version (inner n l u))
        (λ n. ok (changed h (some v) none n))
        (update_height_and_size_and_balance-Shrunk h version n m.height l u bl bu (omega arith)
          (omega arith) (omega arith) (omega arith) (λ i. omega arith) (λ i. omega arith))
        λ n s. done v none n s

  pub recursive_remove-Shrinks :
      (key : Bytes) (t : Node)
      → IsBalanced t
      → Answers (recursive_remove h version key t) (Shrinks t) (λ _. ⊥)
  unfolding recursive_remove get_height IsBalanced
  recursive_remove-Shrinks key (leaf k v w) b = elim (Bool-cases (k ≟ key)) [
    | inl same ↦ rw (same, recursive_remove) (cut v (leaf k v w) (refl, tt))
    | inr other ↦ rw (other, recursive_remove) (missing (leaf k v w) (tt, refl, refl))
  ]
  recursive_remove-Shrinks key (inner m l r) (eh, es, a, b, bl, br) =
      elim (Bool-cases (lt_bytes key m.key)) [
        | inl less ↦
            rw (less, recursive_remove)
              (bind-Answers _ _ (recursive_remove h version key l) _
                (recursive_remove-Shrinks key l bl)
                (after_left-Shrinks m l r (eh, es, a, b, bl, br)))
        | inr more ↦
            rw (more, recursive_remove)
              (bind-Answers _ _ (recursive_remove h version key r) _
                (recursive_remove-Shrinks key r br)
                (after_right-Shrinks m l r (eh, es, a, b, bl, br)))
      ]
