-- ===== src/Coins/Combine/Total.antt =====
-- Where the operation is defined on the common denominations, the walk succeeds.
use gears.Base.{ℕ, ◌<◌, ◌≡◌, refl, sym, subst, Option, some, List, [], ◌∷◌, arith}
use gears.Base.Order.{Bytes, bytes_ord, cmp_bytes-eq, cmp_bytes-gt, cmp_bytes_refl}
use gears.Base.Results.{ok}
use gears.Coins.{Coin, amount_of}
use gears.Coins.Valid.{IsSorted, IsNonempty, Above-trans, amount_of-Above}
use gears.Coins.Combine.{checked_calculate_iterate}
use gears.Coins.Combine.Amounts.{merged, merged-Above}

pub amount_of-tail :
    (x : Coin) (a : List Coin) (d : Bytes)
    → IsSorted (x ∷ a)
    → 0 < amount_of a d
    → amount_of (x ∷ a) d ≡ amount_of a d
unfolding amount_of
amount_of-tail x a d s h = ground (arith, amount_of-Above x.denom a s.1, cmp_bytes-eq x.denom d)

pub amount_of-head : (x : Coin) (a : List Coin) → amount_of (x ∷ a) x.denom ≡ x.amount
unfolding amount_of
amount_of-head x a = ground (arith, cmp_bytes_refl x.denom)

module _ (f : ℕ → ℕ → ℕ) (op : ℕ → ℕ → Option ℕ) where
  -- The operation is defined, as `f`, on the amounts of each common denomination.
  abbrev pub IsDefinedOn : List Coin → List Coin → Type 0
  IsDefinedOn a b =
      (d : Bytes)
      → 0 < amount_of a d
      → 0 < amount_of b d
      → op (amount_of a d) (amount_of b d) ≡ some (f (amount_of a d) (amount_of b d))

  left_tail :
      (x : Coin) (a b : List Coin) → IsSorted (x ∷ a) → IsDefinedOn (x ∷ a) b → IsDefinedOn a b
  left_tail x a b s h d p q =
      let e = amount_of-tail x a d s p in
      subst (λ n. op n (amount_of b d) ≡ some (f n (amount_of b d))) e
        (h d (subst (λ n. 0 < n) (sym e) p) q)

  right_tail :
      (y : Coin) (a b : List Coin) → IsSorted (y ∷ b) → IsDefinedOn a (y ∷ b) → IsDefinedOn a b
  right_tail y a b s h d p q =
      let e = amount_of-tail y b d s q in
      subst (λ n. op (amount_of a d) n ≡ some (f (amount_of a d) n)) e
        (h d p (subst (λ n. 0 < n) (sym e) q))

  at_heads :
      (x y : Coin) (a b : List Coin)
      → IsSorted (x ∷ a)
      → IsSorted (y ∷ b)
      → IsDefinedOn (x ∷ a) (y ∷ b)
      → x.denom ≡ y.denom
      → op x.amount y.amount ≡ some (f x.amount y.amount)
  at_heads x y a b s t h e =
      let ex = amount_of-head x a in
      let ey : amount_of (y ∷ b) x.denom ≡ y.amount = rw e (amount_of-head y b) in
      rw (ex, ey) at (h x.denom (subst (λ n. 0 < n) (sym ex) s.0) (subst (λ n. 0 < n) (sym ey) t.0))

  pub walk-total :
      (a b : List Coin)
      → IsSorted a
      → IsSorted b
      → IsDefinedOn a b
      → checked_calculate_iterate op a b ≡ ok (merged f a b)
  unfolding checked_calculate_iterate merged
  walk-total [] b s t h = refl
  walk-total (x ∷ a) [] s t h = refl
  walk-total (x ∷ a) (y ∷ b) s t h = ground (
    arith,
    walk-total a (y ∷ b) s.2 t (left_tail x a (y ∷ b) s h),
    walk-total a b s.2 t.2 (left_tail x a b s (right_tail y (x ∷ a) b t h)),
    walk-total (x ∷ a) b s t.2 (right_tail y (x ∷ a) b t h),
    at_heads x y a b s t h,
    cmp_bytes-eq x.denom y.denom,
  )

-- A merge of ordered lists is ordered, where the operation keeps amounts positive.
pub merged-IsSorted :
    (f : ℕ → ℕ → ℕ) (positive : (m n : ℕ) → 0 < m → 0 < n → 0 < f m n)
    → (a b : List Coin) → IsSorted a
    → IsSorted b
    → IsSorted (merged f a b)
unfolding merged
merged-IsSorted f positive [] b s t = t
merged-IsSorted f positive (x ∷ a) [] s t = s
merged-IsSorted f positive (x ∷ a) (y ∷ b) s t = ground (
  arith,
  merged-IsSorted f positive a (y ∷ b) s.2 t,
  merged-IsSorted f positive a b s.2 t.2,
  merged-IsSorted f positive (x ∷ a) b s t.2,
  merged-Above f x.denom a (y ∷ b) s.1,
  merged-Above f x.denom a b s.1,
  merged-Above f y.denom (x ∷ a) b,
  positive x.amount y.amount s.0 t.0,
  Above-trans x.denom y.denom b,
  Above-trans y.denom x.denom a,
  cmp_bytes-eq x.denom y.denom,
  cmp_bytes-gt x.denom y.denom,
)

pub merged-IsNonempty : (f : ℕ → ℕ → ℕ) (a b : List Coin) → IsNonempty a → IsNonempty (merged f a b)
unfolding merged
merged-IsNonempty f [] b h = absurd h
merged-IsNonempty f (x ∷ a) [] h = tt
merged-IsNonempty f (x ∷ a) (y ∷ b) h = ground arith
