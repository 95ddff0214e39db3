-- ===== src/Base/Exec/Ensures.antt =====
-- What a method that succeeds ensures of the state before it, its value and the state after it.
use mathlib.Core.Path.{◌≡◌, refl}
use mathlib.Core.Bool.{Bool, true, false}
use gears.Base.Tests.{if◌then◌else◌}
use gears.Base.Results.{Result, ok, err}
use gears.Base.Exec.{Exec, continue, ◌>>=◌}

pub record Ensures {S E A : Type 0} (m : Exec S E A) (R : S → A → S → Type 0) : Type 0 where
  pub holds : (s : S) (a : A) → (m s).0 ≡ ok a → R s a (m s).1

module _ {S E A B : Type 0} where
  continue-Ensures :
      (f : A → Exec S E B) (P : A → Type 0) (Q : A → S → B → S → Type 0) (T : B → S → Type 0)
      → ((a : A) → Ensures (f a) (Q a))
      → (t : S) → ((a : A) (b : B) (u : S) → P a → Q a t b u → T b u)
      → (r : Result E A) → ((a : A) → r ≡ ok a → P a)
      → (b : B) → (continue r f t).0 ≡ ok b
      → T b (continue r f t).1
  continue-Ensures f P Q T after t join (ok a) before b h =
      join a b (f a t).1 (before a refl) ((after a).holds t b h)
  continue-Ensures f P Q T after t join (err e) before b h = cc

  pub bind-Ensures :
      (m : Exec S E A) (f : A → Exec S E B) {R : S → A → S → Type 0}
      → {Q : A → S → B → S → Type 0} → {T : S → B → S → Type 0} → Ensures m R
      → ((a : A) → Ensures (f a) (Q a))
      → ((s : S) (a : A) (t : S) (b : B) (u : S) → R s a t → Q a t b u → T s b u)
      → Ensures (m >>= f) T
  bind-Ensures m f {R = R} {Q = Q} {T = T} before after join = record {
    holds = λ s b h.
        continue-Ensures f (λ a. R s a (m s).1) Q (T s) after (m s).1
          (λ a b u p q. join s a (m s).1 b u p q) (m s).0 (λ a e. before.holds s a e) b h;
  }

module _ {S E A : Type 0} where
  pub if-Ensures :
      {R : S → A → S → Type 0}
      → (b : Bool) (x y : Exec S E A) → (b ≡ true → Ensures x R)
      → (b ≡ false → Ensures y R)
      → Ensures (if b then x else y) R
  if-Ensures true x y f g = f refl
  if-Ensures false x y f g = g refl

  pub weaken-Ensures :
      {m : Exec S E A} {R Q : S → A → S → Type 0}
      → Ensures m R
      → ((s : S) (a : A) (t : S) → R s a t → Q s a t)
      → Ensures m Q
  weaken-Ensures {m = m} h f = record { holds = λ s a e. f s a (m s).1 (h.holds s a e) }

  -- A failure ensures anything.
  pub fail-Ensures : (e : E) {R : S → A → S → Type 0} → Ensures (λ s. (err e, s)) R
  fail-Ensures e = record { holds = λ s a h. cc }
