-- ===== src/Base/Maps/Btree.antt =====
-- `BTreeMap`: `get`, `insert`, `remove`, and their laws.
use gears.Base.Order.{
  Ord, cmp_self, equal_of_cmp, less_of_greater, greater_of_less, eq_of_≟, ◌≟◌, ◌≺◌,
}
use Prim.Native.Nat.Ordering.{lt, eq, gt}
use mathlib.Core.Path.{◌≡◌, refl, subst}
use mathlib.Core.Bool.{Bool, true, false}
use mathlib.Core.Option.{Option, none, some}
use mathlib.Core.List.{List, [], ◌∷◌}
use native.Mathlib.Omega.{arith}
use gears.Base.Tests.{if◌then◌else◌}
use gears.Base.Lists.{All}

abbrev pub BtreeMap {ℓ κ} : Type ℓ → Type κ → Type (ℓ ⊔ κ)
BtreeMap K V = List (K × V)

module _ {ℓ κ} {K : Type ℓ} {V : Type κ} ⦃o : Ord K⦄ where
  unfoldable pub get : K → BtreeMap K V → Option V
  get k [] = none
  get k ((j, v) ∷ m) = if j ≟ k then some v else get k m

  unfoldable pub insert : K → V → BtreeMap K V → BtreeMap K V
  insert k v [] = (k, v) ∷ []
  insert k v ((j, w) ∷ m) = elim (o.cmp k j) [
    | lt ↦ (k, v) ∷ (j, w) ∷ m
    | eq ↦ (k, v) ∷ m
    | gt ↦ (j, w) ∷ insert k v m
  ]

  unfoldable pub remove : K → BtreeMap K V → BtreeMap K V
  remove k [] = []
  remove k ((j, w) ∷ m) = let rest = remove k m in if j ≟ k then rest else (j, w) ∷ rest

  pub get-insert :
      (k j : K) (v : V) (m : BtreeMap K V)
      → get j (insert k v m) ≡ (if k ≟ j then some v else get j m)
  unfolding get insert
  get-insert k j v [] = refl
  get-insert k j v ((i, w) ∷ m) = ground (
    arith,
    get-insert k j v m,
    equal_of_cmp k i,
    equal_of_cmp k j,
    equal_of_cmp i j,
    cmp_self j,
    cmp_self k,
  )

  pub get-remove :
      (k j : K) (m : BtreeMap K V) → get j (remove k m) ≡ (if k ≟ j then none else get j m)
  unfolding get remove
  get-remove k j [] = ground arith
  get-remove k j ((i, w) ∷ m) = ground (
    arith,
    get-remove k j m,
    equal_of_cmp i k,
    equal_of_cmp k j,
    equal_of_cmp i j,
    cmp_self j,
    cmp_self k,
  )

  -- Keys ascend, with no key twice.
  abbrev pub IsAscending : BtreeMap K V → Type 0
  IsAscending [] = Unit
  IsAscending ((k, v) ∷ m) = All (λ (e : K × V). k ≺ e.0) m × IsAscending m

  pub All-insert {μ} :
      (P : K × V → Type μ) (k : K) (v : V) (m : BtreeMap K V)
      → P (k, v)
      → All P m
      → All P (insert k v m)
  unfolding insert
  All-insert P k v [] p a = (p, tt)
  All-insert P k v ((j, w) ∷ m) p a = ground (arith, All-insert P k v m)

  All-remove {μ} : (P : K × V → Type μ) (k : K) (m : BtreeMap K V) → All P m → All P (remove k m)
  unfolding remove
  All-remove P k [] a = tt
  All-remove P k ((j, w) ∷ m) a = ground (arith, All-remove P k m)

  pub above_trans :
      (k j : K) (m : BtreeMap K V)
      → k ≺ j
      → All (λ (e : K × V). j ≺ e.0) m
      → All (λ (e : K × V). k ≺ e.0) m
  above_trans k j [] h a = tt
  above_trans k j ((i, w) ∷ m) h a = (o.cmp_trans j h a.0, above_trans k j m h a.1)

  -- A key below all the others is not there.
  pub get-above : (k : K) (m : BtreeMap K V) → All (λ (e : K × V). k ≺ e.0) m → get k m ≡ none
  unfolding get
  get-above k [] a = refl
  get-above k ((j, w) ∷ m) a = ground (arith, get-above k m a.1, greater_of_less k j)

  -- `insert` keeps the order of the entries.
  pub insert-IsAscending :
      (k : K) (v : V) (m : BtreeMap K V) → IsAscending m → IsAscending (insert k v m)
  unfolding insert
  insert-IsAscending k v [] s = (tt, tt)
  insert-IsAscending k v ((j, w) ∷ m) s = ground (
    arith,
    insert-IsAscending k v m s.1,
    equal_of_cmp k j,
    less_of_greater k j,
    above_trans k j m,
    All-insert (λ (e : K × V). j ≺ e.0) k v m,
  )

  -- `remove` keeps the order of the entries.
  pub remove-IsAscending : (k : K) (m : BtreeMap K V) → IsAscending m → IsAscending (remove k m)
  unfolding remove
  remove-IsAscending k [] s = tt
  remove-IsAscending k ((j, w) ∷ m) s =
      ground (arith, remove-IsAscending k m s.1, All-remove (λ (e : K × V). j ≺ e.0) k m s.0)

  found-All {μ} :
      (P : K × V → Type μ) (k j : K) (v w : V) (m : BtreeMap K V) (b : Bool)
      → (j ≟ k) ≡ b
      → P (j, w)
      → (get k m ≡ some v → P (k, v))
      → (if b then some w else get k m) ≡ some v
      → P (k, v)
  found-All P k j v w m true h p f e =
      let value : w ≡ v = ground arith in
      subst (λ x. P (x, v)) (eq_of_≟ j k h) (subst (λ y. P (j, y)) value p)
  found-All P k j v w m false h p f e = f e

  -- What is found stands among the entries.
  pub get-All {μ} :
      (P : K × V → Type μ) (k : K) (v : V) (m : BtreeMap K V)
      → All P m
      → get k m ≡ some v
      → P (k, v)
  unfolding get
  get-All P k v [] a e = absurd cc
  get-All P k v ((j, w) ∷ m) a e = found-All P k j v w m (j ≟ k) refl a.0 (get-All P k v m a.1) e
