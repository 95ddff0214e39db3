-- ===== src/Base/Order.antt =====
-- Rust's `Ord`, with the laws that the trait asks of `cmp`, and the two instances in use: numbers
-- and byte strings (`Vec<u8>`, and a `String` as its bytes), which compare lexicographically.
use Prim.Native.Nat.{ℕ, compare, Ordering}
use Prim.Native.Nat.Ordering.{lt, eq, gt}
use mathlib.Core.Path.{◌≡◌, refl, subst}
use mathlib.Core.Bool.{Bool, true, false}
use mathlib.Core.Logic.{◌≢◌, ◌↔◌, ◌⊎◌, inl, inr}
use mathlib.Core.List.{List, [], ◌∷◌}
use native.Mathlib.Omega.{arith}

-- `Ordering::reverse`
abbrev pub reverse : Ordering → Ordering
reverse lt = gt
reverse eq = eq
reverse gt = lt

-- The laws that the trait asks for: the two directions of a comparison agree, `Equal` is equality,
-- and `Less` is transitive.
pub record Ord {ℓ} (K : Type ℓ) : Type ℓ where
  pub cmp : K → K → Ordering
  pub cmp-reverse : (a b : K) → cmp b a ≡ reverse (cmp a b)
  pub cmp_iff : (a b : K) → (cmp a b ≡ eq) ↔ (a ≡ b)
  pub cmp_trans : {a c : K} (b : K) → cmp a b ≡ lt → cmp b c ≡ lt → cmp a c ≡ lt

-- To split on a comparison and keep the equation.
pub Ordering-cases : (x : Ordering) → (x ≡ lt) ⊎ (x ≡ eq) ⊎ (x ≡ gt)
Ordering-cases lt = inl refl
Ordering-cases eq = inr (inl refl)
Ordering-cases gt = inr (inr refl)

abbrev pub Bytes : Type 0
Bytes = List ℕ

abbrev pub cmp_bytes : Bytes → Bytes → Ordering
cmp_bytes [] [] = eq
cmp_bytes [] (y ∷ ys) = lt
cmp_bytes (x ∷ xs) [] = gt
cmp_bytes (x ∷ xs) (y ∷ ys) = elim (compare x y) [ lt ↦ lt | eq ↦ cmp_bytes xs ys | gt ↦ gt ]

pub cmp_bytes_refl : (a : Bytes) → cmp_bytes a a ≡ eq
cmp_bytes_refl [] = refl
cmp_bytes_refl (x ∷ xs) = ground (arith, cmp_bytes_refl xs)

pub cmp_bytes-eq : (a b : Bytes) → cmp_bytes a b ≡ eq → a ≡ b
cmp_bytes-eq [] [] h = refl
cmp_bytes-eq [] (y ∷ ys) h = cc
cmp_bytes-eq (x ∷ xs) [] h = cc
cmp_bytes-eq (x ∷ xs) (y ∷ ys) h = ground (arith, cmp_bytes-eq xs ys)

pub cmp_bytes-reverse : (a b : Bytes) → cmp_bytes b a ≡ reverse (cmp_bytes a b)
cmp_bytes-reverse [] [] = refl
cmp_bytes-reverse [] (y ∷ ys) = refl
cmp_bytes-reverse (x ∷ xs) [] = refl
cmp_bytes-reverse (x ∷ xs) (y ∷ ys) = ground (arith, cmp_bytes-reverse xs ys)

pub cmp_bytes-gt : (a b : Bytes) → cmp_bytes a b ≡ gt → cmp_bytes b a ≡ lt
cmp_bytes-gt a b h = ground (arith, cmp_bytes-reverse a b)

pub cmp_bytes-lt : (a b : Bytes) → cmp_bytes a b ≡ lt → cmp_bytes b a ≡ gt
cmp_bytes-lt a b h = ground (arith, cmp_bytes-reverse a b)

pub cmp_bytes_trans : (a b c : Bytes) → cmp_bytes a b ≡ lt → cmp_bytes b c ≡ lt → cmp_bytes a c ≡ lt
cmp_bytes_trans [] [] c h k = cc
cmp_bytes_trans [] (y ∷ ys) [] h k = cc
cmp_bytes_trans [] (y ∷ ys) (z ∷ zs) h k = refl
cmp_bytes_trans (x ∷ xs) [] c h k = cc
cmp_bytes_trans (x ∷ xs) (y ∷ ys) [] h k = cc
cmp_bytes_trans (x ∷ xs) (y ∷ ys) (z ∷ zs) h k = ground (arith, cmp_bytes_trans xs ys zs)

pub cmp_bytes_iff : (a b : Bytes) → (cmp_bytes a b ≡ eq) ↔ (a ≡ b)
cmp_bytes_iff a b = (cmp_bytes-eq a b, λ e. subst (λ x. cmp_bytes a x ≡ eq) e (cmp_bytes_refl a))

pub compare-reverse : (a b : ℕ) → compare b a ≡ reverse (compare a b)
compare-reverse a b = ground arith

pub compare_iff : (a b : ℕ) → (compare a b ≡ eq) ↔ (a ≡ b)
compare_iff a b = (λ h. ground arith, λ h. ground arith)

pub compare_trans : (a b c : ℕ) → compare a b ≡ lt → compare b c ≡ lt → compare a c ≡ lt
compare_trans a b c h k = ground arith

instance abbrev pub bytes_ord : Ord Bytes
bytes_ord = record {
  cmp = cmp_bytes;
  cmp-reverse = cmp_bytes-reverse;
  cmp_iff = cmp_bytes_iff;
  cmp_trans = λ {a} {c} b. cmp_bytes_trans a b c;
}

instance abbrev pub nat_ord : Ord ℕ
nat_ord = record {
  cmp = compare;
  cmp-reverse = compare-reverse;
  cmp_iff = compare_iff;
  cmp_trans = λ {a} {c} b. compare_trans a b c;
}

module _ {ℓ} {K : Type ℓ} ⦃o : Ord K⦄ where
  infix 50 ◌≟◌
  -- `==`
  abbrev pub ◌≟◌ : K → K → Bool
  a ≟ b = elim (o.cmp a b) [ eq ↦ true | _ ↦ false ]

  -- `<`
  infix 50 ◌≺◌
  abbrev pub ◌≺◌ : K → K → Type 0
  a ≺ b = o.cmp a b ≡ lt

  pub cmp_self : (a : K) → o.cmp a a ≡ eq
  cmp_self a = (o.cmp_iff a a).1 refl

  pub equal_of_cmp : (a b : K) → o.cmp a b ≡ eq → a ≡ b
  equal_of_cmp a b = (o.cmp_iff a b).0

  pub less_of_greater : (a b : K) → o.cmp a b ≡ gt → o.cmp b a ≡ lt
  less_of_greater a b h = ground (arith, o.cmp-reverse a b)

  pub greater_of_less : (a b : K) → o.cmp a b ≡ lt → o.cmp b a ≡ gt
  greater_of_less a b h = ground (arith, o.cmp-reverse a b)

  pub ≟_refl : (a : K) → (a ≟ a) ≡ true
  ≟_refl a = ground (arith, cmp_self a)

  pub eq_of_≟ : (a b : K) → (a ≟ b) ≡ true → a ≡ b
  eq_of_≟ a b h = ground (arith, equal_of_cmp a b)

  pub ≟_iff : (a b : K) → ((a ≟ b) ≡ true) ↔ (a ≡ b)
  ≟_iff a b = (eq_of_≟ a b, λ e. ground (arith, ≟_refl a))

  pub ne_of_≟ : (a b : K) → (a ≟ b) ≡ false → a ≢ b
  ne_of_≟ a b h e = ground (arith, (≟_iff a b).1 e)
