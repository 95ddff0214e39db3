-- ===== src/Merkle/Roots.antt =====
-- trees/src/merkle.rs: the root hash is that of a tree over the items in order.
use gears.Base.{
  ℕ, zero, suc, ◌+◌, ◌≤◌, ◌≡◌, refl, sym, ◌∙◌, ap, subst, List, [], ◌∷◌, ◌++◌, length, take, drop,
  length-append, arith,
}
use gears.Base.Order.{Bytes}
use gears.Merkle.{empty_hash, get_split_point, leaf_hash, inner_hash, root_hash_on, root_hash}
use gears.Merkle.Split.{Splits, get_split_point-Splits}

-- The hash of a tree: of no items, of a leaf, or of two parts, of which the first has the largest
-- power of two of items that leaves some for the second.
pub data IsRoot (digest : Bytes → Bytes) : List Bytes → Bytes → Type 0 where
  no_items : IsRoot digest [] empty_hash
  one_leaf : (x : Bytes) → IsRoot digest (x ∷ []) (leaf_hash digest x)
  two_parts :
      (l r items : List Bytes) (h k : Bytes)
      → items ≡ l ++ r
      → Splits (length items) (length l)
      → IsRoot digest l h
      → IsRoot digest r k
      → IsRoot digest items (inner_hash digest h k)

take-drop : (n : ℕ) (xs : List Bytes) → take n xs ++ drop n xs ≡ xs
take-drop zero xs = refl
take-drop (suc n) [] = refl
take-drop (suc n) (x ∷ xs) = ap (λ z. x ∷ z) (take-drop n xs)

length-take : (n : ℕ) (xs : List Bytes) → n ≤ length xs → length (take n xs) ≡ n
length-take zero xs h = refl
length-take (suc n) [] h = absurd (omega arith)
length-take (suc n) (x ∷ xs) h = omega (arith, length-take n xs)

length-drop : (n : ℕ) (xs : List Bytes) → length (take n xs) + length (drop n xs) ≡ length xs
length-drop n xs = sym (length-append (take n xs) (drop n xs)) ∙ ap length (take-drop n xs)

module _ (digest : Bytes → Bytes) where
  root_hash_on-IsRoot :
      (f : ℕ) (items : List Bytes)
      → length items ≤ f
      → IsRoot digest items (root_hash_on digest f items)
  unfolding root_hash_on
  root_hash_on-IsRoot f [] h = no_items
  root_hash_on-IsRoot f (x ∷ []) h = one_leaf x
  root_hash_on-IsRoot zero (x ∷ y ∷ items) h = absurd (omega arith)
  root_hash_on-IsRoot (suc f) (x ∷ y ∷ items) h =
      let all = x ∷ y ∷ items in
      let k = get_split_point (length all) in
      let s = get_split_point-Splits (length all) (omega arith) in
      let t : length (take k all) ≡ k = length-take k all (omega arith) in
      let d = length-drop k all in
      two_parts (take k all) (drop k all) all _ _ (sym (take-drop k all))
        (subst (Splits (length all)) (sym t) s) (root_hash_on-IsRoot f (take k all) (omega arith))
        (root_hash_on-IsRoot f (drop k all) (omega arith))

  -- `root_hash` ends, and is the hash of a tree whose leaves are the items in order, split at each
  -- level at the largest power of two below the number of items.
  pub root_hash-IsRoot : (items : List Bytes) → IsRoot digest items (root_hash digest items)
  unfolding root_hash
  root_hash-IsRoot items = root_hash_on-IsRoot (length items) items (omega arith)
