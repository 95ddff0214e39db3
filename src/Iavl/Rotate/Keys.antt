-- ===== src/Iavl/Rotate/Keys.antt =====
-- trees/src/iavl/tree.rs: the entries and the keys after the rotations.
use gears.Base.{ℕ, ◌≡◌, sym, ◌∙◌, ◌++◌, ap, false, true, Bool, if◌then◌else◌}
use gears.Base.Results.{Result, ok, err, Answers, bind-Answers, ◌>>=◌}
use gears.Iavl.Node.{
  Node, leaf, inner, InnerNode, InternalError, Hasher, leftmost_leaf_key, update_height_and_size,
}
use gears.Iavl.Keys.{to_list, IsKeyed, leftmost_leaf_key-Same}
use gears.Iavl.Rotate.{right_rotate, left_rotate}
use mathlib.Core.List.{append_assoc}

-- If it returns, the entries are the same, and the keys of the inner nodes are right if they were.
abbrev pub Keeps : Node → Result InternalError Node → Type 0
Keeps t r = Answers r (λ u. (to_list u ≡ to_list t) × (IsKeyed t → IsKeyed u)) (λ _. Unit)

pub if-Keeps :
    (t : Node) (b : Bool) (x y : Result InternalError Node)
    → Keeps t x
    → Keeps t y
    → Keeps t (if b then x else y)
if-Keeps t true x y p q = p
if-Keeps t false x y p q = q

module _ (h : Hasher) (version : ℕ) where
  pub right_rotate-Keeps : (t : Node) → Keeps t (right_rotate h version t)
  unfolding right_rotate to_list IsKeyed leftmost_leaf_key update_height_and_size
  right_rotate-Keeps (leaf k v w) = tt
  right_rotate-Keeps (inner z (leaf k v w) r) = tt
  right_rotate-Keeps (inner z (inner y t1 t3) r) = (
    sym (append_assoc (to_list t1) (to_list t3) (to_list r)),
    λ (a, (b, c, d), e). (b, c, (a, d, e)),
  )

  pub left_rotate-Keeps : (t : Node) → Keeps t (left_rotate h version t)
  unfolding left_rotate to_list IsKeyed leftmost_leaf_key update_height_and_size
  left_rotate-Keeps (leaf k v w) = tt
  left_rotate-Keeps (inner z l (leaf k v w)) = tt
  left_rotate-Keeps (inner z l (inner y t2 t4)) =
      (append_assoc (to_list l) (to_list t2) (to_list t4), λ (a, b, (c, d, e)). (c, (a, b, d), e))

  Keeps-trans :
      (t u : Node)
      → to_list u ≡ to_list t
      → (IsKeyed t → IsKeyed u)
      → (r : Result InternalError Node) → Keeps u r
      → Keeps t r
  Keeps-trans t u e f (ok n) (g, k) = (g ∙ e, λ x. k (f x))
  Keeps-trans t u e f (err x) k = tt

  -- A rotation of the left child, then one of the node.
  pub left_right_rotate-Keeps :
      (m : InnerNode) (l r : Node)
      → Keeps
          (inner m l r)
          (left_rotate h version l >>= λ l'. right_rotate h version (inner m l' r))
  unfolding to_list IsKeyed
  left_right_rotate-Keeps m l r =
      bind-Answers _ _ (left_rotate h version l) _ (left_rotate-Keeps l) λ l' (e, f).
        Keeps-trans (inner m l r) (inner m l' r) (ap (λ x. x ++ to_list r) e)
          (λ (a, b, c). (a, f b, c)) _ (right_rotate-Keeps (inner m l' r))

  -- A rotation of the right child, then one of the node.
  pub right_left_rotate-Keeps :
      (m : InnerNode) (l r : Node)
      → Keeps
          (inner m l r)
          (right_rotate h version r >>= λ r'. left_rotate h version (inner m l r'))
  unfolding to_list IsKeyed
  right_left_rotate-Keeps m l r =
      bind-Answers _ _ (right_rotate h version r) _ (right_rotate-Keeps r) λ r' (e, f).
        Keeps-trans (inner m l r) (inner m l r') (ap (λ x. to_list l ++ x) e)
          (λ (a, b, c). (a ∙ leftmost_leaf_key-Same r r' (sym e), b, f c)) _
          (left_rotate-Keeps (inner m l r'))
