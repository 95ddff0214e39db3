-- ===== src/Coins/Unsigned/Laws.antt =====
-- When the sum and the difference of two lists of unsigned coins are defined.
use gears.Base.{◌+◌, ◌≤◌, ◌<◌, ◌≡◌, ◌↔◌, refl, true, List, [], ◌∷◌, ◌++◌, arith, All}
use gears.Base.Order.{Bytes, bytes_ord}
use gears.Base.Results.{ok}
use gears.Coins.{Coin, amount_of}
use gears.Coins.Valid.{Above, IsSorted, IsValid, new-exact}
use gears.Coins.Combine.{Arithmetic}
use gears.Coins.Combine.Amounts.{merged}
use gears.Coins.Combine.Total.{amount_of-head}
use gears.Coins.Decimal.{drop_zeros}
use gears.Coins.Decimal.Laws.{covered}
use gears.Coins.Decimal.Subtract.{
  less, difference, holding-IsNonempty, drop_zeros-IsSorted, merged-IsAscending,
}
use gears.Coins.Unsigned.{checked_add, is_all_gte, checked_sub}

-- Every denomination of the first list is below every one of the second.
abbrev pub IsBefore : List Coin → List Coin → Type 0
IsBefore a b = All (λ (c : Coin). Above c.denom b) a

Above-append : (d : Bytes) (a b : List Coin) → Above d (a ++ b) ↔ (Above d a × Above d b)
Above-append d [] b = (λ h. (tt, h), λ h. h.1)
Above-append d (c ∷ a) b =
    let rest = Above-append d a b in
    (λ h. ((h.0, (rest.0 h.1).0), (rest.0 h.1).1), λ h. (h.0.0, rest.1 (h.0.1, h.1)))

IsSorted-append : (a b : List Coin) → IsSorted (a ++ b) ↔ (IsSorted a × IsBefore a b × IsSorted b)
IsSorted-append [] b = (λ h. (tt, tt, h), λ h. h.2)
IsSorted-append (c ∷ a) b =
    let rest = IsSorted-append a b in
    let above = Above-append c.denom a b in
    (λ h. ground (arith, rest.0, above.0), λ h. ground (arith, rest.1, above.1))

-- The sum of two valid lists of unsigned coins is defined exactly where every denomination of the
-- first is below every one of the second, and is then the two lists one after the other.
pub checked_add-chains :
    (a b c : List Coin)
    → IsValid a
    → IsValid b
    → (checked_add a b ≡ ok c) ↔ (IsBefore a b × (c ≡ a ++ b))
unfolding checked_add
checked_add-chains [] b c (na, sa) vb = absurd na
checked_add-chains (x ∷ a) b c (na, sa) (nb, sb) =
    let exact = new-exact (x ∷ a ++ b) c in
    let sorted = IsSorted-append (x ∷ a) b in
    (
      λ h. ((sorted.0 (exact.0 h).0.1).1, (exact.0 h).1),
      λ h. exact.1 ((tt, sorted.1 (sa, h.0, sb)), h.1),
    )

is_all_gte-exact :
    (a b : List Coin)
    → (is_all_gte a b ≡ true) ↔ All (λ (c : Coin). c.amount < amount_of a c.denom) b
unfolding is_all_gte
is_all_gte-exact a [] = (λ h. tt, λ h. refl)
is_all_gte-exact a (c ∷ b) =
    let rest = is_all_gte-exact a b in (λ h. ground (arith, rest.0), λ h. ground (arith, rest.1))

strict-le :
    (a b : List Coin)
    → All (λ (c : Coin). c.amount < amount_of a c.denom) b
    → All (λ (c : Coin). c.amount ≤ amount_of a c.denom) b
strict-le a [] h = tt
strict-le a (c ∷ b) h = (omega (arith, h.0), strict-le a b h.1)

-- Where `self` holds strictly more of each coin of `other`, it holds strictly more of some
-- denomination.
more :
    (a b : List Coin)
    → IsValid a
    → IsValid b
    → All (λ (c : Coin). c.amount < amount_of a c.denom) b
    → (d : Bytes) × (amount_of b d < amount_of a d)
more a [] va (nb, sb) h = absurd nb
more a (c ∷ b) va vb h = (c.denom, rw (amount_of-head c b) h.0)

-- The difference of two valid lists of unsigned coins, where the first holds strictly more than each
-- coin of the second: it succeeds, the result is valid, and adding the second again gives the first.
pub checked_sub-adds_back :
    (u : Arithmetic) (a b : List Coin)
    → IsValid a
    → IsValid b
    → All (λ (c : Coin). c.amount < amount_of a c.denom) b
    → (c : List Coin) × (checked_sub u a b ≡ ok c)
      × IsValid c
      × ((d : Bytes) → amount_of c d + amount_of b d ≡ amount_of a d)
unfolding checked_sub
checked_sub-adds_back u a b (na, sa) (nb, sb) all =
    let (walk, sums) = difference u a b sa sb (covered a b sb (strict-le a b all)) in
    let (d, m) = more a b (na, sa) (nb, sb) all in
    let c = drop_zeros (merged less a b) in
    let valid : IsValid c = (
      holding-IsNonempty c d (omega (arith, sums d, m)),
      drop_zeros-IsSorted (merged less a b) (merged-IsAscending less a b sa sb),
    ) in
    let gte = (is_all_gte-exact a b).1 all in
    (c, rw (gte, walk) ((new-exact c c).1 (valid, refl)), valid, sums)

-- Nothing is subtracted unless every coin of the second list is strictly below what the first
-- holds: equal amounts are an error too.
pub checked_sub-strict :
    (u : Arithmetic) (a b c : List Coin)
    → checked_sub u a b ≡ ok c
    → All (λ (c : Coin). c.amount < amount_of a c.denom) b
unfolding checked_sub
checked_sub-strict u a b c h = (is_all_gte-exact a b).0 (ground arith)
