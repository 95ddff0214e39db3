-- ===== src/Base/Maps/Sums.antt =====
-- The sum of a measure of the values of a map.
use gears.Base.Order.{Ord, cmp_self, equal_of_cmp, less_of_greater, greater_of_less}
use Prim.Native.Nat.{ℕ, ◌+◌}
use mathlib.Core.Path.{◌≡◌}
use mathlib.Core.Option.{Option, none, some}
use mathlib.Core.List.{[], ◌∷◌}
use native.Mathlib.Omega.{arith}
use gears.Base.Maps.Btree.{BtreeMap, get, insert, IsAscending, get-above, above_trans}

module _ {κ} {V : Type κ} (size : V → ℕ) where
  abbrev pub size_of : Option V → ℕ
  size_of none = 0
  size_of (some v) = size v

  abbrev pub sum {ℓ} : {K : Type ℓ} → BtreeMap K V → ℕ
  sum [] = 0
  sum ((_, v) ∷ m) = size v + sum m

module _ {ℓ κ} {K : Type ℓ} {V : Type κ} ⦃o : Ord K⦄ (size : V → ℕ) where
  pub sum-insert :
      (k : K) (v : V) (m : BtreeMap K V)
      → IsAscending m
      → sum size (insert k v m) + size_of size (get k m) ≡ sum size m + size v
  unfolding insert get
  sum-insert k v [] s = omega arith
  sum-insert k v ((j, w) ∷ m) s = ground (
    arith,
    sum-insert k v m s.1,
    equal_of_cmp k j,
    less_of_greater k j,
    greater_of_less k j,
    cmp_self k,
    get-above k m,
    above_trans k j m,
  )
