-- ===== src/Merkle.antt =====
-- trees/src/merkle.rs: the root hash of a list of items. `digest` is the hash of another crate.
pub mod Split
pub mod Roots
use gears.Base.{
  ℕ, zero, suc, ◌*◌, ◌/◌, List, [], ◌∷◌, ◌++◌, ltb, ◌==◌, length, take, drop, if◌then◌else◌,
}
use gears.Base.Order.{Bytes}

abbrev pub empty_hash : Bytes
empty_hash =
    227 ∷ 176 ∷ 196 ∷ 66 ∷ 152 ∷ 252 ∷ 28 ∷ 20 ∷ 154 ∷ 251 ∷ 244 ∷ 200 ∷ 153 ∷ 111 ∷ 185 ∷ 36 ∷ 39
    ∷ 174 ∷ 65 ∷ 228 ∷ 100 ∷ 155 ∷ 147 ∷ 76 ∷ 164 ∷ 149 ∷ 153 ∷ 27 ∷ 120 ∷ 82 ∷ 184 ∷ 85 ∷ []

-- `usize::ilog2`, with fuel
unfoldable pub ilog2_on : ℕ → ℕ → ℕ
ilog2_on zero n = 0
ilog2_on (suc f) n = let rest = suc (ilog2_on f (n / 2)) in if ltb n 2 then 0 else rest

-- `1 << n`
unfoldable pub shifted_one : ℕ → ℕ
shifted_one zero = 1
shifted_one (suc n) = 2 * shifted_one n

-- The code panics on 0, which `root_hash` does not ask for.
unfoldable pub get_split_point : ℕ → ℕ
unfolding ilog2_on shifted_one
get_split_point length =
    let k = shifted_one (ilog2_on length length) in if k == length then k / 2 else k

module _ (digest : Bytes → Bytes) where
  unfoldable pub leaf_hash : Bytes → Bytes
  leaf_hash leaf = digest (0 ∷ leaf)

  unfoldable pub inner_hash : Bytes → Bytes → Bytes
  inner_hash left right = digest (1 ∷ left ++ right)

  unfoldable pub root_hash_on : ℕ → List Bytes → Bytes
  unfolding leaf_hash inner_hash get_split_point
  root_hash_on f [] = empty_hash
  root_hash_on f (x ∷ []) = leaf_hash x
  root_hash_on zero (x ∷ y ∷ items) = empty_hash
  root_hash_on (suc f) (x ∷ y ∷ items) =
      let k = get_split_point (length (x ∷ y ∷ items)) in
      inner_hash (root_hash_on f (take k (x ∷ y ∷ items))) (root_hash_on f (drop k (x ∷ y ∷ items)))

  -- As many levels as items are enough.
  unfoldable pub root_hash : List Bytes → Bytes
  unfolding root_hash_on
  root_hash items = root_hash_on (length items) items
