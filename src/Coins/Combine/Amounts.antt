-- ===== src/Coins/Combine/Amounts.antt =====
-- What the walk makes of each denomination: a merge that cannot fail serves as its specification.
use gears.Base.{ℕ, ◌≡◌, refl, Option, some, List, [], ◌∷◌, arith, Ordering}
use gears.Base.Order.{Bytes, bytes_ord, cmp_bytes, cmp_bytes-eq, cmp_bytes-gt}
use gears.Base.Results.{Result, ok, err}
use gears.Coins.{Coin, CoinsError, amount_of}
use gears.Coins.Valid.{Above, IsSorted, Above-trans, amount_of-Above}
use gears.Coins.Combine.{checked_calculate_iterate}

module _ (f : ℕ → ℕ → ℕ) where
  unfoldable pub merged : List Coin → List Coin → List Coin
  merged [] bs = bs
  merged (a ∷ l) [] = a ∷ l
  merged (a ∷ l) (b ∷ bs) = elim (cmp_bytes a.denom b.denom) [
    | Ordering.lt ↦ a ∷ merged l (b ∷ bs)
    | Ordering.eq ↦ record a { amount = f a.amount b.amount } ∷ merged l bs
    | Ordering.gt ↦ b ∷ merged (a ∷ l) bs
  ]

  -- A result of the walk is the merge; a failure is one of the operation.
  abbrev pub Agrees : Result CoinsError (List Coin) → List Coin → Type 0
  Agrees (ok c) m = c ≡ m
  Agrees (err e) m = Unit

  pub walk-Agrees :
      (op : ℕ → ℕ → Option ℕ)
      → ((m n k : ℕ) → op m n ≡ some k → k ≡ f m n)
      → (a b : List Coin) → Agrees (checked_calculate_iterate op a b) (merged a b)
  unfolding checked_calculate_iterate merged
  walk-Agrees op law [] b = refl
  walk-Agrees op law (x ∷ a) [] = refl
  walk-Agrees op law (x ∷ a) (y ∷ b) = grind (
    arith,
    walk-Agrees op law a (y ∷ b),
    walk-Agrees op law a b,
    walk-Agrees op law (x ∷ a) b,
    law,
  )

  pub merged-Above : (d : Bytes) (a b : List Coin) → Above d a → Above d b → Above d (merged a b)
  unfolding merged
  merged-Above d [] b p q = q
  merged-Above d (x ∷ a) [] p q = p
  merged-Above d (x ∷ a) (y ∷ b) p q =
      ground
        (arith, merged-Above d a (y ∷ b) p.1, merged-Above d a b p.1, merged-Above d (x ∷ a) b p)

  -- Where the operation leaves an amount alone against 0, the merge of two ordered lists holds of
  -- each denomination what the operation makes of the two amounts.
  pub amount_of-merged :
      (left : (n : ℕ) → f n 0 ≡ n) (right : (n : ℕ) → f 0 n ≡ n)
      → (a b : List Coin) (d : Bytes) → IsSorted a
      → IsSorted b
      → amount_of (merged a b) d ≡ f (amount_of a d) (amount_of b d)
  unfolding merged amount_of
  amount_of-merged left right [] b d s t = ground (arith, right (amount_of b d))
  amount_of-merged left right (x ∷ a) [] d s t = ground (arith, left (amount_of (x ∷ a) d))
  amount_of-merged left right (x ∷ a) (y ∷ b) d s t = ground (
    arith,
    amount_of-merged left right a (y ∷ b) d s.2 t,
    amount_of-merged left right a b d s.2 t.2,
    amount_of-merged left right (x ∷ a) b d s t.2,
    left x.amount,
    right y.amount,
    cmp_bytes-eq x.denom y.denom,
    cmp_bytes-eq x.denom d,
    cmp_bytes-eq y.denom d,
    cmp_bytes-gt x.denom y.denom,
    amount_of-Above d b,
    amount_of-Above d a,
    Above-trans x.denom y.denom b,
    Above-trans y.denom x.denom a,
  )
