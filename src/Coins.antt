-- ===== src/Coins.antt =====
-- gears/src/types/base/coins/mod.rs: lists of coins. A denomination is its bytes; an amount is the
-- number that a `Uint256`, or the atomics of a `Decimal256`, stand for.
pub mod Valid
pub mod Combine
pub mod Decimal
pub mod Unsigned
use Prim.Native.String.{String}
use gears.Base.{ℕ, Bool, true, false, ◌||◌, List, [], ◌∷◌, ◌==◌, Ordering, length, if◌then◌else◌}
use gears.Base.Order.{Bytes, bytes_ord, cmp_bytes, ◌≟◌}
use gears.Base.Results.{Result, ok, err, ◌>>=◌, ◌>>◌}

-- `UnsignedCoin`, `DecimalCoin`
pub record Coin : Type 0 where
  pub denom : Bytes
  pub amount : ℕ

pub data CoinsError : Type 0 where
  empty_list invalid_amount duplicates unsorted : CoinsError
  coin : String → CoinsError

-- coins.iter().any(|this| this.amount().is_zero())
unfoldable pub any_zero : List Coin → Bool
any_zero [] = false
any_zero (c ∷ cs) = (c.amount == 0) || any_zero cs

-- The loop over the coins after the first.
unfoldable pub check_order : Bytes → List Coin → Result CoinsError (Unit {0})
check_order previous [] = ok tt
check_order previous (c ∷ cs) = elim (cmp_bytes c.denom previous) [
  | Ordering.lt ↦ err unsorted
  | Ordering.eq ↦ err duplicates
  | Ordering.gt ↦ check_order c.denom cs
]

-- `Coins::new`, which returns the list it is given
unfoldable pub new : List Coin → Result CoinsError (List Coin)
unfolding any_zero check_order
new [] = err empty_list
new (c ∷ cs) =
    if any_zero (c ∷ cs) then err invalid_amount else (check_order c.denom cs >> ok (c ∷ cs))

unfoldable pub amount_of : List Coin → Bytes → ℕ
amount_of [] d = 0
amount_of (c ∷ cs) d = if c.denom ≟ d then c.amount else amount_of cs d
