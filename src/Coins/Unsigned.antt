-- ===== src/Coins/Unsigned.antt =====
-- gears/src/types/base/coins/unsigned.rs. Its walk over two lists is `checked_calculate_iterate`.
pub mod Laws
use gears.Base.{Bool, true, false, List, [], ◌∷◌, ◌++◌, leb, if◌then◌else◌}
use gears.Base.Results.{Result, ok, err, ◌>>=◌}
use gears.Coins.{Coin, CoinsError, invalid_amount, amount_of, new}
use gears.Coins.Combine.{Arithmetic, checked_calculate_iterate}
use gears.Coins.Decimal.{drop_zeros}

unfoldable pub checked_add : List Coin → List Coin → Result CoinsError (List Coin)
checked_add self other = new (self ++ other)

-- The loop of `is_all_gte`, which asks for more than the amount of each coin.
unfoldable pub is_all_gte : List Coin → List Coin → Bool
is_all_gte self [] = true
is_all_gte self (c ∷ other) =
    if leb (amount_of self c.denom) c.amount then false else is_all_gte self other

unfoldable pub checked_sub : Arithmetic → List Coin → List Coin → Result CoinsError (List Coin)
checked_sub u self other =
    if is_all_gte self other
    then (checked_calculate_iterate u.checked_sub self other >>= λ coins. new (drop_zeros coins))
    else err invalid_amount
