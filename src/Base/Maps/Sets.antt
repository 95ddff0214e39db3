-- ===== src/Base/Maps/Sets.antt =====
-- `HashSet`.
use gears.Base.Order.{Ord, cmp_self, equal_of_cmp, ◌≟◌}
use mathlib.Core.Path.{◌≡◌}
use mathlib.Core.Bool.{Bool, true, false, ◌||◌}
use mathlib.Core.List.{List, [], ◌∷◌}
use native.Mathlib.Omega.{arith}
use gears.Base.Tests.{if◌then◌else◌}

abbrev pub HashSet {ℓ} : Type ℓ → Type ℓ
HashSet K = List K

module _ {ℓ} {K : Type ℓ} ⦃o : Ord K⦄ where
  unfoldable pub contains : K → HashSet K → Bool
  contains k [] = false
  contains k (j ∷ s) = (j ≟ k) || contains k s

  unfoldable pub discard : K → HashSet K → HashSet K
  discard k [] = []
  discard k (j ∷ s) = let rest = discard k s in if j ≟ k then rest else j ∷ rest

  unfoldable pub add : K → HashSet K → HashSet K
  unfolding discard
  add k s = k ∷ discard k s

  pub contains-discard :
      (k j : K) (s : HashSet K) → contains j (discard k s) ≡ (if k ≟ j then false else contains j s)
  unfolding contains discard
  contains-discard k j [] = ground arith
  contains-discard k j (i ∷ s) = ground (
    arith,
    contains-discard k j s,
    equal_of_cmp i k,
    equal_of_cmp k j,
    equal_of_cmp i j,
    cmp_self j,
    cmp_self k,
  )

  pub contains-add :
      (k j : K) (s : HashSet K) → contains j (add k s) ≡ (if k ≟ j then true else contains j s)
  unfolding add contains
  contains-add k j s = ground (arith, contains-discard k j s)
