-- ===== src/Iavl/Shape/Bounds.antt =====
-- trees/src/iavl/tree.rs: the size and the height of a balanced node.
use gears.Base.{
  ℕ, zero, suc, ◌*◌, ◌^◌, ◌≤◌, ◌<◌, ◌≡◌, ltb, length, length-append, inl, inr, Bool-cases, ltb→lt,
  ltb→le, refl, arith,
}
use gears.Iavl.Node.{Node, leaf, inner, get_height, get_size, max-cases}
use gears.Iavl.Shape.{IsBalanced}
use gears.Iavl.Keys.{to_list}

size_positive : (n : Node) → IsBalanced n → 1 ≤ get_size n
unfolding get_size IsBalanced
size_positive (leaf k v w) b = omega arith
size_positive (inner m l r) (eh, es, a, b, bl, br) = let p = size_positive l bl in omega arith

-- Of a height of at least 2 n, there are at least 2 ^ n leaves.
size_of_height : (k : ℕ) (n : Node) → IsBalanced n → 2 * k ≤ get_height n → 2 ^ k ≤ get_size n
unfolding get_size get_height IsBalanced
size_of_height zero n b e = size_positive n b
size_of_height (suc k) (leaf _ v w) b e = absurd (omega arith)
size_of_height (suc k) (inner m l r) (eh, es, a, b, bl, br) e =
    let c = max-cases (get_height l) (get_height r) in
    let p = size_of_height k l bl (omega arith) in
    let q = size_of_height k r br (omega arith) in omega arith

get_size-to_list : (n : Node) → IsBalanced n → get_size n ≡ length (to_list n)
unfolding get_size IsBalanced to_list
get_size-to_list (leaf k v w) b = refl
get_size-to_list (inner m l r) (eh, es, a, b, bl, br) =
    let p = get_size-to_list l bl in
    let q = get_size-to_list r br in let c = length-append (to_list l) (to_list r) in omega arith

-- The size of a balanced node is the number of its leaves, and with fewer than 2 ^ 32 of them the
-- height is below 64.
pub IsBalanced-bounds :
    (n : Node)
    → IsBalanced n
    → length (to_list n) < 2 ^ 32
    → (get_size n ≡ length (to_list n)) × (get_height n < 64)
IsBalanced-bounds n b f = (get_size-to_list n b, height n b (get_size-to_list n b) f)
  where
    height :
        (n : Node)
        → IsBalanced n
        → get_size n ≡ length (to_list n)
        → length (to_list n) < 2 ^ 32
        → get_height n < 64
    height n b e f = elim (Bool-cases (ltb (get_height n) 64)) [
      | inl x ↦ ltb→lt (get_height n) 64 x
      | inr x ↦
          let y = ltb→le (get_height n) 64 x in
          let z = size_of_height 32 n b (omega arith) in absurd (omega arith)
    ]
