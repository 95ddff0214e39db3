-- ===== src/Tests/Amounts.antt =====
-- The theorems on coins, on lists of one and two coins.
use gears.Base.{
  ◌≡◌, refl, ◌+◌, ◌-◌, ◌<◌, ◌≤◌, none, some, List, [], ◌∷◌, ℕ, arith, All, if◌then◌else◌, leb,
}
use gears.Base.Order.{Bytes, bytes_ord}
use gears.Base.Results.{ok}
use gears.Coins.{Coin, amount_of, new}
use gears.Coins.Valid.{IsValid}
use gears.Coins.Combine.{Arithmetic}
use gears.Coins.Combine
use gears.Coins.Decimal
use gears.Coins.Decimal.Laws.{checked_add-exact}
use gears.Coins.Decimal.Subtract.{checked_sub-exact}
use gears.Coins.Unsigned

-- The arithmetic of 256 bits.
abbrev pub top : ℕ
top = 115792089237316195423570985008687907853269984665640564039457584007913129639935

abbrev pub uint256 : Arithmetic
uint256 = record {
  limit = top;
  checked_add = λ a b. if leb (a + b) top then some (a + b) else none;
  checked_sub = λ a b. if leb b a then some (a - b) else none;
  add_lem = λ a b. refl;
  sub_lem = λ a b. refl;
}

abbrev pub coin : ℕ → ℕ → Coin
coin d n = record { denom = d ∷ []; amount = n }

abbrev purse : List Coin
purse = coin 97 5 ∷ coin 98 7 ∷ []

abbrev price : List Coin
price = coin 97 3 ∷ []

purse-IsValid : IsValid purse
purse-IsValid = (tt, (omega arith, (refl, tt), (omega arith, tt, tt)))

price-IsValid : IsValid price
price-IsValid = (tt, (omega arith, tt, tt))

fits : (d : Bytes) → amount_of purse d + amount_of price d ≤ uint256.limit
unfolding amount_of
fits d = ground arith

checked_add-exact_example :
    (c : List Coin) × (Decimal.checked_add uint256 purse price ≡ ok c)
    × IsValid c
    × ((d : Bytes) → amount_of c d ≡ amount_of purse d + amount_of price d)
checked_add-exact_example = checked_add-exact uint256 purse price purse-IsValid price-IsValid fits

covered : All (λ (c : Coin). c.amount ≤ amount_of purse c.denom) price
unfolding amount_of
covered = (omega arith, tt)

exceeded : amount_of price (98 ∷ []) < amount_of purse (98 ∷ [])
unfolding amount_of
exceeded = omega arith

checked_sub-exact_example :
    (c : List Coin) × (Decimal.checked_sub uint256 purse price ≡ ok c)
    × IsValid c
    × ((d : Bytes) → amount_of c d + amount_of price d ≡ amount_of purse d)
checked_sub-exact_example =
    checked_sub-exact uint256 purse price purse-IsValid price-IsValid covered (98 ∷ []) exceeded

below : All (λ (c : Coin). c.amount < amount_of purse c.denom) price
unfolding amount_of
below = (omega arith, tt)

abbrev left : List Coin
left = coin 97 2 ∷ coin 98 7 ∷ []

subtracted : Unsigned.checked_sub uint256 purse price ≡ ok left
unfolding Unsigned.checked_sub Unsigned.is_all_gte Decimal.drop_zeros amount_of new
    Combine.checked_calculate_iterate
subtracted = refl
