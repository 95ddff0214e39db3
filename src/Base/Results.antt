-- ===== src/Base/Results.antt =====
-- Rust's `Result<A, E>`, its `?` operator as bind, and the conversions in use.
use mathlib.Core.Option.{Option, none, some}
use mathlib.Core.Path.{◌≡◌, refl}
use mathlib.Core.Bool.{Bool, true, false}
use native.Mathlib.Omega.{arith}
use gears.Base.Tests.{if◌then◌else◌}

pub data Result {ℓ κ} (E : Type ℓ) (A : Type κ) : Type (ℓ ⊔ κ) where
  ok : A → Result E A
  err : E → Result E A

module _ {ℓ κ} {E : Type ℓ} {A : Type κ} where
  -- `ok_or`
  abbrev pub ok_or : E → Option A → Result E A
  ok_or e none = err e
  ok_or e (some a) = ok a

module _ {ℓ κ μ} {E : Type ℓ} {F : Type κ} {A : Type μ} where
  abbrev pub map_err : (E → F) → Result E A → Result F A
  map_err f (ok a) = ok a
  map_err f (err e) = err (f e)

module _ {ℓ κ μ} {E : Type ℓ} {A : Type κ} {B : Type μ} where
  infixl 5 ◌>>=◌
  -- `let a = m?; ...`
  abbrev pub ◌>>=◌ : Result E A → (A → Result E B) → Result E B
  ok a >>= f = f a
  err e >>= f = err e

  infixl 5 ◌>>◌
  -- `m?; ...`
  abbrev pub ◌>>◌ : Result E A → Result E B → Result E B
  ok _ >> m = m
  err e >> m = err e

-- What holds of a result, on either branch.
module _ {ℓ} {E A : Type ℓ} where
  abbrev pub Answers : Result E A → (A → Type 0) → (E → Type 0) → Type 0
  Answers (ok a) P Q = P a
  Answers (err e) P Q = Q e

  pub answers :
      {P : A → Type 0}
      → {Q : E → Type 0} → (r : Result E A) → ((a : A) → r ≡ ok a → P a)
      → ((e : E) → r ≡ err e → Q e)
      → Answers r P Q
  answers (ok a) f g = f a refl
  answers (err e) f g = g e refl

module _ {ℓ} {E A B : Type ℓ} where
  pub bind-Answers :
      {P : A → Type 0} (R : B → Type 0) (Q : E → Type 0) (r : Result E A) (f : A → Result E B)
      → Answers r P Q
      → ((a : A) → P a → Answers (f a) R Q)
      → Answers (r >>= f) R Q
  bind-Answers R Q (ok a) f p g = g a p
  bind-Answers R Q (err e) f q g = q

module _ {ℓ} {E A : Type ℓ} where
  pub if-Answers :
      (P : A → Type 0) (Q : E → Type 0) (b : Bool) (x y : Result E A)
      → (b ≡ true → Answers x P Q)
      → (b ≡ false → Answers y P Q)
      → Answers (if b then x else y) P Q
  if-Answers P Q true x y f g = f refl
  if-Answers P Q false x y f g = g refl

  pub weaken-Answers :
      (P R : A → Type 0) (Q : E → Type 0) (r : Result E A)
      → Answers r P Q
      → ((a : A) → P a → R a)
      → Answers r R Q
  weaken-Answers P R Q (ok a) p f = f a p
  weaken-Answers P R Q (err e) p f = p

  -- A second theorem on what is returned, if it is returned.
  pub both-Answers :
      (P R : A → Type 0) (Q : E → Type 0) (r : Result E A)
      → Answers r P Q
      → Answers r R (λ _. Unit)
      → Answers r (λ a. P a × R a) Q
  both-Answers P R Q (ok a) p q = (p, q)
  both-Answers P R Q (err e) p q = p

pub map_err-ok :
    {E F A : Type 0} (f : E → F) (r : Result E A) (a : A) → map_err f r ≡ ok a → r ≡ ok a
map_err-ok f (ok b) a h = ground arith
map_err-ok f (err e) a h = cc

pub ok_or-ok : {E A : Type 0} (e : E) (r : Option A) (a : A) → ok_or e r ≡ ok a → r ≡ some a
ok_or-ok e none a h = cc
ok_or-ok e (some b) a h = ground arith
