-- ===== src/Coins/Decimal/Laws.antt =====
-- Sums, differences and intersections of coins, denomination by denomination.
use gears.Base.{ℕ, ◌+◌, ◌≤◌, ◌≡◌, ◌↔◌, refl, ◌∙◌, true, List, [], ◌∷◌, arith, All}
use gears.Base.Order.{Bytes, bytes_ord, cmp_bytes-eq}
use gears.Base.Results.{ok}
use gears.Coins.{Coin, amount_of}
use gears.Coins.Valid.{IsSorted, IsValid, new-exact}
use gears.Coins.Combine.{Arithmetic}
use gears.Coins.Combine.Amounts.{merged, amount_of-merged}
use gears.Coins.Combine.Total.{walk-total, merged-IsSorted, merged-IsNonempty}
use gears.Coins.Decimal.{is_all_gte, checked_add}

abbrev add : ℕ → ℕ → ℕ
add m n = m + n

module _ (u : Arithmetic) where
  -- The sum of two valid lists, where no sum of amounts passes the limit: it succeeds, the result is
  -- valid, and holds of every denomination the sum of the two amounts.
  pub checked_add-exact :
      (a b : List Coin)
      → IsValid a
      → IsValid b
      → ((d : Bytes) → amount_of a d + amount_of b d ≤ u.limit)
      → (c : List Coin) × (checked_add u a b ≡ ok c)
        × IsValid c
        × ((d : Bytes) → amount_of c d ≡ amount_of a d + amount_of b d)
  unfolding checked_add
  checked_add-exact a b (na, sa) (nb, sb) small =
      let c = merged add a b in
      let valid : IsValid c =
        (merged-IsNonempty add a b na, merged-IsSorted add (λ m n p q. omega arith) a b sa sb) in
      let sum =
        walk-total add u.checked_add a b sa sb
          (λ d p q. u.add_lem (amount_of a d) (amount_of b d) ∙ ground (arith, small d)) in
      (
        c,
        rw sum ((new-exact c c).1 (valid, refl)),
        valid,
        λ d. amount_of-merged add (λ n. omega arith) (λ n. omega arith) a b d sa sb,
      )

-- `is_all_gte` holds exactly where `self` covers the amount of every coin of `other`.
pub is_all_gte-exact :
    (a b : List Coin)
    → (is_all_gte a b ≡ true) ↔ All (λ (c : Coin). c.amount ≤ amount_of a c.denom) b
unfolding is_all_gte
is_all_gte-exact a [] = (λ h. tt, λ h. refl)
is_all_gte-exact a (c ∷ b) =
    let rest = is_all_gte-exact a b in (λ h. ground (arith, rest.0), λ h. ground (arith, rest.1))

-- Of an ordered list, that is the amount of every denomination.
pub covered :
    (a b : List Coin)
    → IsSorted b
    → All (λ (c : Coin). c.amount ≤ amount_of a c.denom) b
    → (d : Bytes) → amount_of b d ≤ amount_of a d
unfolding amount_of
covered a [] s h d = omega arith
covered a (c ∷ b) s h d = ground (arith, covered a b s.2 h.1 d, cmp_bytes-eq c.denom d)
