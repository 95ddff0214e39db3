-- ===== src/Coins/Decimal.antt =====
-- gears/src/types/base/coins/decimal.rs
pub mod Laws
pub mod Subtract
use gears.Base.{
  ℕ, Bool, true, false, not, ◌&&◌, Option, none, some, List, [], ◌∷◌, ltb, leb, ◌==◌, if◌then◌else◌,
}
use gears.Base.Results.{Result, ok, err, ◌>>=◌}
use gears.Coins.{Coin, CoinsError, invalid_amount, amount_of, new}
use gears.Coins.Combine.{Arithmetic, checked_calculate_iterate}

-- The loop of `is_all_gte`.
unfoldable pub is_all_gte : List Coin → List Coin → Bool
is_all_gte self [] = true
is_all_gte self (c ∷ other) =
    if ltb (amount_of self c.denom) c.amount then false else is_all_gte self other

-- filter(|c| !c.amount.is_zero())
unfoldable pub drop_zeros : List Coin → List Coin
drop_zeros [] = []
drop_zeros (c ∷ cs) = let rest = drop_zeros cs in if c.amount == 0 then rest else c ∷ rest

abbrev min : ℕ → ℕ → ℕ
min a b = if ltb b a then b else a

-- The coins of `intersect` before the filter.
unfoldable pub common : List Coin → List Coin → List Coin
common [] other = []
common (c ∷ self) other =
    record c { amount = min c.amount (amount_of other c.denom) } ∷ common self other

unfoldable pub intersect : List Coin → List Coin → Result CoinsError (List Coin)
unfolding drop_zeros common
intersect self other = new (drop_zeros (common self other))

module _ (u : Arithmetic) where
  unfoldable pub checked_add : List Coin → List Coin → Result CoinsError (List Coin)
  checked_add self other = checked_calculate_iterate u.checked_add self other >>= new

  unfoldable pub checked_sub : List Coin → List Coin → Result CoinsError (List Coin)
  unfolding drop_zeros
  checked_sub self other =
      if is_all_gte self other
      then (checked_calculate_iterate u.checked_sub self other >>= λ coins. new (drop_zeros coins))
      else err invalid_amount
