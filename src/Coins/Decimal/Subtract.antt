-- ===== src/Coins/Decimal/Subtract.antt =====
-- The difference of two lists of coins, once the zeros are dropped.
use gears.Base.{
  ℕ, ◌+◌, ◌-◌, ◌≤◌, ◌<◌, ◌≡◌, refl, ◌∙◌, List, [], ◌∷◌, arith, ◌==◌, All, if◌then◌else◌,
}
use gears.Base.Order.{Bytes, bytes_ord, cmp_bytes-eq, cmp_bytes-gt}
use gears.Base.Results.{ok}
use gears.Coins.{Coin, amount_of}
use gears.Coins.Valid.{
  Above, IsSorted, IsNonempty, IsValid, new-exact, amount_of-Above, Above-trans,
}
use gears.Coins.Combine.{Arithmetic, checked_calculate_iterate}
use gears.Coins.Combine.Amounts.{merged, merged-Above, amount_of-merged}
use gears.Coins.Combine.Total.{walk-total}
use gears.Coins.Decimal.{drop_zeros, checked_sub}
use gears.Coins.Decimal.Laws.{is_all_gte-exact, covered}

-- The order of the denominations alone.
abbrev pub IsAscending : List Coin → Type 0
IsAscending [] = Unit
IsAscending (c ∷ cs) = Above c.denom cs × IsAscending cs

pub merged-IsAscending :
    (f : ℕ → ℕ → ℕ) (a b : List Coin) → IsSorted a → IsSorted b → IsAscending (merged f a b)
unfolding merged
merged-IsAscending f [] [] s t = tt
merged-IsAscending f [] (y ∷ b) s t = (t.1, merged-IsAscending f [] b tt t.2)
merged-IsAscending f (x ∷ a) [] s t = (s.1, ascending a s.2)
  where
    ascending : (cs : List Coin) → IsSorted cs → IsAscending cs
    ascending [] s = tt
    ascending (c ∷ cs) s = (s.1, ascending cs s.2)
merged-IsAscending f (x ∷ a) (y ∷ b) s t = ground (
  arith,
  merged-IsAscending f a (y ∷ b) s.2 t,
  merged-IsAscending f a b s.2 t.2,
  merged-IsAscending f (x ∷ a) b s t.2,
  merged-Above f x.denom a (y ∷ b) s.1,
  merged-Above f x.denom a b s.1,
  merged-Above f y.denom (x ∷ a) b,
  Above-trans x.denom y.denom b,
  Above-trans y.denom x.denom a,
  cmp_bytes-eq x.denom y.denom,
  cmp_bytes-gt x.denom y.denom,
)

drop_zeros-Above : (d : Bytes) (cs : List Coin) → Above d cs → Above d (drop_zeros cs)
unfolding drop_zeros
drop_zeros-Above d [] h = tt
drop_zeros-Above d (c ∷ cs) h = ground (arith, drop_zeros-Above d cs h.1)

pub drop_zeros-IsSorted : (cs : List Coin) → IsAscending cs → IsSorted (drop_zeros cs)
unfolding drop_zeros
drop_zeros-IsSorted [] h = tt
drop_zeros-IsSorted (c ∷ cs) h =
    ground (arith, drop_zeros-IsSorted cs h.1, drop_zeros-Above c.denom cs h.0)

-- Dropping the zeros changes no amount.
pub amount_of-drop_zeros :
    (cs : List Coin) (d : Bytes) → IsAscending cs → amount_of (drop_zeros cs) d ≡ amount_of cs d
unfolding drop_zeros amount_of
amount_of-drop_zeros [] d h = refl
amount_of-drop_zeros (c ∷ cs) d h =
    ground (arith, amount_of-drop_zeros cs d h.1, amount_of-Above d cs, cmp_bytes-eq c.denom d)

pub holding-IsNonempty : (cs : List Coin) (d : Bytes) → 0 < amount_of cs d → IsNonempty cs
unfolding amount_of
holding-IsNonempty [] d h = omega arith
holding-IsNonempty (c ∷ cs) d h = tt

-- Subtraction where the other side is 0 on the left.
abbrev pub less : ℕ → ℕ → ℕ
less m n = if m == 0 then n else m - n

module _ (u : Arithmetic) (a b : List Coin) where
  pub difference :
      IsSorted a
      → IsSorted b
      → ((d : Bytes) → amount_of b d ≤ amount_of a d)
      → (checked_calculate_iterate u.checked_sub a b ≡ ok (merged less a b))
        × ((d : Bytes) → amount_of (drop_zeros (merged less a b)) d + amount_of b d ≡ amount_of a d)
  difference sa sb le = (
    walk-total less u.checked_sub a b sa sb
        (λ d p q. u.sub_lem (amount_of a d) (amount_of b d) ∙ ground (arith, le d)),
    λ d. ground (
      arith,
      amount_of-drop_zeros (merged less a b) d (merged-IsAscending less a b sa sb),
      amount_of-merged less (λ n. ground arith) (λ n. ground arith) a b d sa sb,
      le d,
    ),
  )

  -- The difference of two valid lists, where the first covers the second and holds more of some
  -- denomination: it succeeds, the result is valid, and adding the second again gives the first.
  pub checked_sub-exact :
      IsValid a
      → IsValid b
      → All (λ (c : Coin). c.amount ≤ amount_of a c.denom) b
      → (d : Bytes) → amount_of b d < amount_of a d
      → (c : List Coin) × (checked_sub u a b ≡ ok c)
        × IsValid c
        × ((e : Bytes) → amount_of c e + amount_of b e ≡ amount_of a e)
  unfolding checked_sub
  checked_sub-exact (na, sa) (nb, sb) all d more =
      let c = drop_zeros (merged less a b) in
      let (walk, sums) = difference sa sb (covered a b sb all) in
      let valid : IsValid c = (
        holding-IsNonempty c d (omega (arith, sums d, more)),
        drop_zeros-IsSorted (merged less a b) (merged-IsAscending less a b sa sb),
      ) in
      let gte = (is_all_gte-exact a b).1 all in
      (c, rw (gte, walk) ((new-exact c c).1 (valid, refl)), valid, sums)
