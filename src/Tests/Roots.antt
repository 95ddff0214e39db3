-- ===== src/Tests/Roots.antt =====
-- The theorem of Merkle, on three items, with a digest that keeps what it is given.
use gears.Base.{◌≡◌, refl, List, [], ◌∷◌}
use gears.Base.Order.{Bytes}
use gears.Merkle.{root_hash, get_split_point}
use gears.Merkle.Roots.{IsRoot, root_hash-IsRoot}

abbrev kept : Bytes → Bytes
kept bytes = bytes

abbrev three : List Bytes
three = (7 ∷ []) ∷ (8 ∷ []) ∷ (9 ∷ []) ∷ []

split_hundred : get_split_point 100 ≡ 64
unfolding get_split_point
split_hundred = refl

three_hash : root_hash kept three ≡ 1 ∷ 1 ∷ 0 ∷ 7 ∷ 0 ∷ 8 ∷ 0 ∷ 9 ∷ []
unfolding root_hash
three_hash = refl

root_hash-IsRoot_example : IsRoot kept three (root_hash kept three)
root_hash-IsRoot_example = root_hash-IsRoot kept three
