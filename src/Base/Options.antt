-- ===== src/Base/Options.antt =====
-- `?` on an `Option`, as bind, and what holds of an option that is there.
use mathlib.Core.Option.{Option, none, some}
use mathlib.Core.Path.{◌≡◌, refl}
use mathlib.Core.Bool.{Bool, true, false}
use gears.Base.Tests.{if◌then◌else◌}

module _ {ℓ κ} {A : Type ℓ} {B : Type κ} where
  infixl 10 ◌>>=◌
  abbrev pub ◌>>=◌ : Option A → (A → Option B) → Option B
  none >>= f = none
  some a >>= f = f a

module _ {ℓ} {A : Type ℓ} where
  -- What holds of a result, if there is one.
  abbrev pub Gives : Option A → (A → Type 0) → Type 0
  Gives none P = Unit
  Gives (some a) P = P a

  pub gives : {P : A → Type 0} (r : Option A) → ((a : A) → r ≡ some a → P a) → Gives r P
  gives none f = tt
  gives (some a) f = f a refl

module _ {ℓ κ} {A : Type ℓ} {B : Type κ} where
  pub bind-Gives :
      {P : A → Type 0} (R : B → Type 0) (r : Option A) (f : A → Option B)
      → Gives r P
      → ((a : A) → P a → Gives (f a) R)
      → Gives (r >>= f) R
  bind-Gives R none f p g = tt
  bind-Gives R (some a) f p g = g a p

  -- The same, from the equation of the first result.
  pub bind-gives :
      (R : B → Type 0) (r : Option A) (f : A → Option B)
      → ((a : A) → r ≡ some a → Gives (f a) R)
      → Gives (r >>= f) R
  bind-gives R none f g = tt
  bind-gives R (some a) f g = g a refl

module _ {ℓ} {A : Type ℓ} where
  pub if-Gives :
      (P : A → Type 0) (b : Bool) (x y : Option A)
      → (b ≡ true → Gives x P)
      → (b ≡ false → Gives y P)
      → Gives (if b then x else y) P
  if-Gives P true x y f g = f refl
  if-Gives P false x y f g = g refl
