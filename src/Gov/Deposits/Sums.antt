-- ===== src/Gov/Deposits/Sums.antt =====
-- x/gov/src/keeper.rs: the sum of the deposits in the store.
use gears.Base.{ℕ, ◌+◌, ◌≡◌, List, [], ◌∷◌, ◌++◌, arith}
use gears.Base.Maps.{BtreeMap, sum}
use gears.Base.Order.{Bytes, bytes_ord}
use gears.Base.Results.{ok}
use gears.Bank.Moves.{total}
use gears.Coins.{Coin}
use gears.Coins.Valid.{new-exact}
use gears.Coins.Unsigned.{checked_add}
use gears.Gov.Deposits.{Deposit}

-- The coins of a denomination in all the deposits.
abbrev pub deposited : BtreeMap Bytes Deposit → Bytes → ℕ
deposited m d = sum (λ (x : Deposit). total x.amount d) m

pub total-append : (a b : List Coin) (d : Bytes) → total (a ++ b) d ≡ total a d + total b d
total-append [] b d = omega arith
total-append (c ∷ a) b d = omega (arith, total-append a b d)

pub checked_add-total :
    (a b c : List Coin) (d : Bytes) → checked_add a b ≡ ok c → total c d ≡ total a d + total b d
unfolding checked_add
checked_add-total a b c d e = rw (((new-exact (a ++ b) c).0 e).1) (total-append a b d)
