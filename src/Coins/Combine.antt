-- ===== src/Coins/Combine.antt =====
-- `checked_calculate_iterate` of coins/unsigned.rs and coins/decimal.rs (the two bodies agree): two
-- ordered lists walked together, with an operation on the amounts of a common denomination.
pub mod Amounts
pub mod Total
use gears.Base.{
  ℕ, ◌≤◌, ◌<◌, ◌+◌, ◌-◌, ◌≡◌, Option, none, some, List, [], ◌∷◌, Ordering, leb, if◌then◌else◌,
}
use gears.Base.Order.{cmp_bytes}
use gears.Base.Results.{Result, ok, err, ◌>>=◌}
use gears.Coins.{Coin, CoinsError, invalid_amount}

-- The arithmetic of `Uint256`, or of `Decimal256` on its atomics, as its crate documents it: the
-- checked operations fail where the result is not a value of the type.
pub record Arithmetic : Type 0 where
  pub limit : ℕ
  pub checked_add : ℕ → ℕ → Option ℕ
  pub checked_sub : ℕ → ℕ → Option ℕ
  pub add_lem : (a b : ℕ) → checked_add a b ≡ (if leb (a + b) limit then some (a + b) else none)
  pub sub_lem : (a b : ℕ) → checked_sub a b ≡ (if leb b a then some (a - b) else none)

abbrev pub push : Coin → Result CoinsError (List Coin) → Result CoinsError (List Coin)
push c rest = rest >>= λ cs. ok (c ∷ cs)

abbrev pub push_result :
    Coin → Option ℕ → Result CoinsError (List Coin) → Result CoinsError (List Coin)
push_result c none rest = err invalid_amount
push_result c (some n) rest = push (record c { amount = n }) rest

unfoldable pub checked_calculate_iterate :
    (ℕ → ℕ → Option ℕ) → List Coin → List Coin → Result CoinsError (List Coin)
checked_calculate_iterate op [] bs = ok bs
checked_calculate_iterate op (a ∷ l) [] = ok (a ∷ l)
checked_calculate_iterate op (a ∷ l) (b ∷ bs) = elim (cmp_bytes a.denom b.denom) [
  | Ordering.lt ↦ push a (checked_calculate_iterate op l (b ∷ bs))
  | Ordering.eq ↦ push_result a (op a.amount b.amount) (checked_calculate_iterate op l bs)
  | Ordering.gt ↦ push b (checked_calculate_iterate op (a ∷ l) bs)
]
