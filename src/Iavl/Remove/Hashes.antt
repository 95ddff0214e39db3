-- ===== src/Iavl/Remove/Hashes.antt =====
-- trees/src/iavl/tree.rs: the hashes after a removal.
use gears.Base.{ℕ, ◌≡◌, refl, sym, ◌∙◌, true, inl, inr, Option, none, some, Bool-cases}
use gears.Base.Order.{Bytes, bytes_ord, ◌≟◌}
use gears.Base.Results.{ok, Answers, bind-Answers}
use gears.KvStore.Bounds.{lt_bytes}
use gears.Iavl.Node.{Node, leaf, inner, InnerNode, Hasher, hash}
use gears.Iavl.Merkle.{IsHashed}
use gears.Iavl.Rotate.{update_height_and_size_and_balance}
use gears.Iavl.Rotate.Hashes.{update_height_and_size_and_balance-Hashes}
use gears.Iavl.Remove.{
  Removed, changed, rekeyed, left_hash_set, right_hash_set, after_left, after_right,
  recursive_remove,
}
use gears.Iavl.Remove.Outcomes.{Outcome, missing, cut, done}

module _ (h : Hasher) (version : ℕ) where
  -- The hashes stay right, and a tree without the key keeps its own.
  abbrev pub Rehashes : Node → Removed → Type 0
  Rehashes t =
      Outcome h (λ u. IsHashed h u × (hash h u ≡ hash h t)) (λ _ u. IsHashed h u)
        (λ _ _ u. IsHashed h u)

  after_left-Rehashes :
      (m : InnerNode) (l r : Node)
      → IsHashed h (inner m l r)
      → (x : Removed) → Rehashes l x
      → Answers (after_left h version m r x) (Rehashes (inner m l r)) (λ _. Unit)
  unfolding after_left IsHashed hash
  after_left-Rehashes m l r (a, b, c, d) x (missing u (hu, e)) =
      missing (inner (record m { left_loaded = true }) u r) ((a ∙ sym e, b, hu, d), refl)
  after_left-Rehashes m l r (a, b, c, d) x (cut v u e) = done v _ r d
  after_left-Rehashes m l r (a, b, c, d) x (done v k u hu) =
      let t = inner (left_hash_set version (hash h u) m) u r in
      bind-Answers (Rehashes (inner m l r)) (λ _. Unit)
        (update_height_and_size_and_balance h version t) (λ n. ok (changed h (some v) k n))
        (update_height_and_size_and_balance-Hashes h version t (refl, b, hu, d)) λ n s. done v k n s

  rekeyed-IsHashed :
      (k : Option Bytes) (m : InnerNode) (l u : Node)
      → IsHashed h (inner m l u)
      → IsHashed h (inner (rekeyed k m) l u)
  unfolding IsHashed
  rekeyed-IsHashed none m l u hs = hs
  rekeyed-IsHashed (some k) m l u hs = hs

  after_right-Rehashes :
      (m : InnerNode) (l r : Node)
      → IsHashed h (inner m l r)
      → (x : Removed) → Rehashes r x
      → Answers (after_right h version m l x) (Rehashes (inner m l r)) (λ _. Unit)
  unfolding after_right IsHashed hash
  after_right-Rehashes m l r (a, b, c, d) x (missing u (hu, e)) =
      missing (inner (record m { right_loaded = true }) l u) ((a, b ∙ sym e, c, hu), refl)
  after_right-Rehashes m l r (a, b, c, d) x (cut v u e) = done v _ l c
  after_right-Rehashes m l r (a, b, c, d) x (done v k u hu) =
      let n = right_hash_set version (hash h u) m in
      let t = inner (rekeyed k n) l u in
      bind-Answers (Rehashes (inner m l r)) (λ _. Unit)
        (update_height_and_size_and_balance h version t) (λ n. ok (changed h (some v) none n))
        (update_height_and_size_and_balance-Hashes h version t
          (rekeyed-IsHashed k n l u (a, refl, c, hu)))
        λ n s. done v none n s

  pub recursive_remove-Rehashes :
      (key : Bytes) (t : Node)
      → IsHashed h t
      → Answers (recursive_remove h version key t) (Rehashes t) (λ _. Unit)
  unfolding recursive_remove IsHashed
  recursive_remove-Rehashes key (leaf k v w) b = elim (Bool-cases (k ≟ key)) [
    | inl same ↦ rw (same, recursive_remove) (cut v (leaf k v w) tt)
    | inr other ↦ rw (other, recursive_remove) (missing (leaf k v w) (tt, refl))
  ]
  recursive_remove-Rehashes key (inner m l r) (a, b, c, d) =
      elim (Bool-cases (lt_bytes key m.key)) [
        | inl less ↦
            rw (less, recursive_remove)
              (bind-Answers _ _ (recursive_remove h version key l) _
                (recursive_remove-Rehashes key l c) (after_left-Rehashes m l r (a, b, c, d)))
        | inr more ↦
            rw (more, recursive_remove)
              (bind-Answers _ _ (recursive_remove h version key r) _
                (recursive_remove-Rehashes key r d) (after_right-Rehashes m l r (a, b, c, d)))
      ]
