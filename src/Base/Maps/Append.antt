-- ===== src/Base/Maps/Append.antt =====
-- `BTreeMap`: the entries of two maps in a row.
use gears.Base.Order.{Ord, cmp_self, equal_of_cmp, less_of_greater, greater_of_less, ◌≺◌}
use gears.Base.Maps.Btree.{BtreeMap, IsAscending, above_trans, get-above, get, insert, remove}
use mathlib.Core.Path.{◌≡◌, refl, ap, ◌∙◌, subst}
use mathlib.Core.Option.{Option, none, some}
use mathlib.Core.List.{[], ◌∷◌, ◌++◌}
use native.Mathlib.Omega.{arith}
use gears.Base.Lists.{All}

below_at_least {ℓ} : {K : Type ℓ} ⦃o : Ord K⦄ (i j k : K) → i ≺ j → (k ≺ j → ⊥) → i ≺ k
below_at_least ⦃o = o⦄ i j k a n =
    ground (arith, o.cmp_trans {a = i} {c = k} j a, equal_of_cmp k j, less_of_greater k j)

not_less_of_less {ℓ} : {K : Type ℓ} ⦃o : Ord K⦄ (i j : K) → j ≺ i → i ≺ j → ⊥
not_less_of_less ⦃o = o⦄ i j a b = ground (arith, greater_of_less i j)

not_less_self {ℓ} : {K : Type ℓ} ⦃o : Ord K⦄ (i j : K) → i ≡ j → i ≺ j → ⊥
not_less_self ⦃o = o⦄ i j a b = ground (arith, cmp_self i)

module _ {ℓ κ} {K : Type ℓ} {V : Type κ} ⦃o : Ord K⦄ where
  abbrev pub first_key : BtreeMap K V → Option K
  first_key [] = none
  first_key ((k, v) ∷ m) = some k

  pub All-append {μ} :
      (P : K × V → Type μ) (xs ys : BtreeMap K V) → All P (xs ++ ys) → All P xs × All P ys
  All-append P [] ys a = (tt, a)
  All-append P (x ∷ xs) ys (p, a) = let (b, c) = All-append P xs ys a in ((p, b), c)

  pub IsAscending-append :
      (xs ys : BtreeMap K V) → IsAscending (xs ++ ys) → IsAscending xs × IsAscending ys
  IsAscending-append [] ys s = (tt, s)
  IsAscending-append ((k, v) ∷ xs) ys s =
      let (b, c) = IsAscending-append xs ys s.1 in (((All-append _ xs ys s.0).0, b), c)

  -- What stands before an ascending map that starts with a key is below the key.
  pub below_start :
      (j : K) (xs ys : BtreeMap K V)
      → first_key ys ≡ some j
      → IsAscending (xs ++ ys)
      → All (λ (e : K × V). e.0 ≺ j) xs
  below_start j [] ys h s = tt
  below_start j ((k, v) ∷ xs) [] h s = absurd cc
  below_start j ((k, v) ∷ xs) ((i, w) ∷ ys) h s = (
    ground (arith, All-append (λ (e : K × V). k ≺ e.0) xs ((i, w) ∷ ys) s.0),
    below_start j xs ((i, w) ∷ ys) h s.1,
  )

  pub insert-append_left :
      (k : K) (v : V) (j : K) (xs ys : BtreeMap K V)
      → first_key ys ≡ some j
      → k ≺ j
      → insert k v (xs ++ ys) ≡ insert k v xs ++ ys
  unfolding insert
  insert-append_left k v j [] [] h l = absurd cc
  insert-append_left k v j [] ((i, w) ∷ ys) h l = ground arith
  insert-append_left k v j ((i, w) ∷ xs) ys h l = ground (arith, insert-append_left k v j xs ys h l)

  pub insert-append_right :
      (k : K) (v : V) (xs ys : BtreeMap K V)
      → All (λ (e : K × V). e.0 ≺ k) xs
      → insert k v (xs ++ ys) ≡ xs ++ insert k v ys
  unfolding insert
  insert-append_right k v [] ys a = refl
  insert-append_right k v ((i, w) ∷ xs) ys a =
      ground (arith, insert-append_right k v xs ys a.1, greater_of_less i k)

  pub first_key-insert :
      (k : K) (v : V) (j : K) (ys : BtreeMap K V)
      → first_key ys ≡ some j
      → (k ≺ j → ⊥)
      → first_key (insert k v ys) ≡ some j
  unfolding insert
  first_key-insert k v j [] h n = absurd cc
  first_key-insert k v j ((i, w) ∷ ys) h n = ground (arith, equal_of_cmp k i)

  pub get-append_left :
      (k j : K) (xs ys : BtreeMap K V)
      → first_key ys ≡ some j
      → IsAscending ys
      → k ≺ j
      → get k (xs ++ ys) ≡ get k xs
  unfolding get
  get-append_left k j [] ((i, w) ∷ ys) h s l =
      ground (arith, get-above k ys, above_trans k i ys, greater_of_less k i)
  get-append_left k j [] [] h s l = absurd cc
  get-append_left k j ((i, w) ∷ xs) ys h s l = ground (arith, get-append_left k j xs ys h s l)

  pub get-append_right :
      (k : K) (xs ys : BtreeMap K V) → All (λ (e : K × V). e.0 ≺ k) xs → get k (xs ++ ys) ≡ get k ys
  unfolding get
  get-append_right k [] ys a = refl
  get-append_right k ((i, w) ∷ xs) ys a = ground (arith, get-append_right k xs ys a.1)

  pub remove-append :
      (k : K) (xs ys : BtreeMap K V) → remove k (xs ++ ys) ≡ remove k xs ++ remove k ys
  unfolding remove
  remove-append k [] ys = refl
  remove-append k ((i, w) ∷ xs) ys = ground (arith, remove-append k xs ys)

  -- To remove a key that is not there changes nothing.
  pub remove_absent : (k : K) (m : BtreeMap K V) → get k m ≡ none → remove k m ≡ m
  unfolding remove get
  remove_absent k [] h = refl
  remove_absent k ((i, w) ∷ m) h = ground (arith, remove_absent k m)

  -- A key above all the others is not there.
  pub get-below : (k : K) (m : BtreeMap K V) → All (λ (e : K × V). e.0 ≺ k) m → get k m ≡ none
  unfolding get
  get-below k [] a = refl
  get-below k ((j, w) ∷ m) a = ground (arith, get-below k m a.1)

  pub below_trans :
      (j k : K) (m : BtreeMap K V)
      → All (λ (e : K × V). e.0 ≺ j) m
      → (k ≺ j → ⊥)
      → All (λ (e : K × V). e.0 ≺ k) m
  below_trans j k [] a n = tt
  below_trans j k ((i, w) ∷ m) a n = (below_at_least i j k a.0 n, below_trans j k m a.1 n)

  get-start :
      (k j : K) (ys : BtreeMap K V)
      → first_key ys ≡ some j
      → IsAscending ys
      → k ≺ j
      → get k ys ≡ none
  unfolding get
  get-start k j ys h s l = get-append_left k j [] ys h s l

  pub remove-append_left :
      (k j : K) (xs ys : BtreeMap K V)
      → first_key ys ≡ some j
      → IsAscending ys
      → k ≺ j
      → remove k (xs ++ ys) ≡ remove k xs ++ ys
  remove-append_left k j xs ys h s l =
      remove-append k xs ys
      ∙ ap (λ (m : BtreeMap K V). remove k xs ++ m) (remove_absent k ys (get-start k j ys h s l))

  pub remove-append_right :
      (k : K) (xs ys : BtreeMap K V)
      → All (λ (e : K × V). e.0 ≺ k) xs
      → remove k (xs ++ ys) ≡ xs ++ remove k ys
  remove-append_right k xs ys a =
      remove-append k xs ys
      ∙ ap (λ (m : BtreeMap K V). m ++ remove k ys) (remove_absent k xs (get-below k xs a))

  pub get_single : (k : K) (v : V) → get k ((k, v) ∷ []) ≡ some v
  unfolding get
  get_single k v = ground (arith, cmp_self k)

  pub remove_single : (k : K) (v : V) → remove k ((k, v) ∷ []) ≡ []
  unfolding remove
  remove_single k v = ground (arith, cmp_self k)

  above-not_below :
      (j : K) (m : BtreeMap K V)
      → All (λ (e : K × V). j ≺ e.0) m
      → All (λ (e : K × V). e.0 ≺ j → ⊥) m
  above-not_below j [] a = tt
  above-not_below j ((i, w) ∷ m) a = (not_less_of_less i j a.0, above-not_below j m a.1)

  -- No key of an ascending map is below the first one.
  pub from_start :
      (j : K) (ys : BtreeMap K V)
      → first_key ys ≡ some j
      → IsAscending ys
      → All (λ (e : K × V). e.0 ≺ j → ⊥) ys
  from_start j [] h s = tt
  from_start j ((i, w) ∷ ys) h s =
      let e : i ≡ j = cc in
      (
        not_less_self i j e,
        subst (λ z. All (λ (e : K × V). e.0 ≺ z → ⊥) ys) e (above-not_below i ys s.0),
      )
