-- ===== src/Base/Int.antt =====
-- Signed integers over the native numbers, with the checked operations of the machine types.
use Prim.Native.Nat.{ℕ, suc, ◌+◌, ◌-◌, ◌*◌, ◌/◌, ◌%◌, ◌≤◌, ◌<◌}
use mathlib.Core.Path.{◌≡◌}
use mathlib.Core.Bool.{Bool, ◌&&◌}
use mathlib.Core.Option.{Option, none, some}
use native.Mathlib.Omega.{arith}
use gears.Base.Tests.{ltb, leb, if◌then◌else◌}

-- `negsuc n` is -(n + 1).
pub data ℤ : Type 0 where
  pos : ℕ → ℤ
  negsuc : ℕ → ℤ

abbrev pub pos_part : ℤ → ℕ
pos_part (pos n) = n
pos_part (negsuc n) = 0

abbrev pub neg_part : ℤ → ℕ
neg_part (pos n) = 0
neg_part (negsuc n) = suc n

-- a - b, as an integer.
abbrev pub sub_ℕ : ℕ → ℕ → ℤ
sub_ℕ a b = if leb b a then pos (a - b) else negsuc (b - a - 1)

infixl 65 ◌+ℤ◌ ◌-ℤ◌
unfoldable pub ◌+ℤ◌ : ℤ → ℤ → ℤ
a +ℤ b = sub_ℕ (pos_part a + pos_part b) (neg_part a + neg_part b)

unfoldable pub ◌-ℤ◌ : ℤ → ℤ → ℤ
a -ℤ b = sub_ℕ (pos_part a + neg_part b) (neg_part a + pos_part b)

infix 50 ◌≤ℤ◌
abbrev pub ◌≤ℤ◌ : ℤ → ℤ → Type 0
a ≤ℤ b = pos_part a + neg_part b ≤ pos_part b + neg_part a

abbrev pub ltb_ℤ : ℤ → ℤ → Bool
ltb_ℤ a b = ltb (pos_part a + neg_part b) (pos_part b + neg_part a)

-- `a * k`
unfoldable pub times : ℤ → ℕ → ℤ
times a k = sub_ℕ (pos_part a * k) (neg_part a * k)

-- `a / k` and `a % k` of the machine integers, towards zero.
unfoldable pub quotient : ℤ → ℕ → ℤ
quotient a k = sub_ℕ (pos_part a / k) (neg_part a / k)

unfoldable pub remainder : ℤ → ℕ → ℤ
remainder a k = sub_ℕ (pos_part a % k) (neg_part a % k)

pub +ℤ_parts :
    (a b : ℤ)
    → pos_part (a +ℤ b) + neg_part a + neg_part b ≡ neg_part (a +ℤ b) + pos_part a + pos_part b
unfolding ◌+ℤ◌
+ℤ_parts a b = ground arith

pub -ℤ_parts :
    (a b : ℤ)
    → pos_part (a -ℤ b) + neg_part a + pos_part b ≡ neg_part (a -ℤ b) + pos_part a + neg_part b
unfolding ◌-ℤ◌
-ℤ_parts a b = ground arith

pub times_parts :
    (a : ℤ) (k : ℕ) → pos_part (times a k) + neg_part a * k ≡ neg_part (times a k) + pos_part a * k
unfolding times
times_parts a k = ground arith

pub eq_of_parts : (a b : ℤ) → pos_part a + neg_part b ≡ pos_part b + neg_part a → a ≡ b
eq_of_parts a b h = ground arith

pub ruleset int_laws = (arith, +ℤ_parts, -ℤ_parts, times_parts, eq_of_parts)

-- The number is one of the machine type with this greatest value.
unfoldable pub fits : ℕ → ℤ → Bool
fits max a = leb (pos_part a) max && leb (neg_part a) (max + 1)

abbrev pub i32_max : ℕ
i32_max = 2147483647

abbrev pub i64_max : ℕ
i64_max = 9223372036854775807

abbrev pub i128_max : ℕ
i128_max = 170141183460469231731687303715884105727

-- `checked_add` and `checked_sub`
unfoldable pub add_within : ℕ → ℤ → ℤ → Option ℤ
unfolding ◌+ℤ◌ fits
add_within max a b = let c = a +ℤ b in if fits max c then some c else none

unfoldable pub sub_within : ℕ → ℤ → ℤ → Option ℤ
unfolding ◌-ℤ◌ fits
sub_within max a b = let c = a -ℤ b in if fits max c then some c else none

pub +ℤ_bounds :
    (a b : ℤ)
    → (pos_part (a +ℤ b) ≤ pos_part a + pos_part b) × (neg_part (a +ℤ b) ≤ neg_part a + neg_part b)
unfolding ◌+ℤ◌
+ℤ_bounds a b = ground arith

pub -ℤ_bounds :
    (a b : ℤ)
    → (pos_part (a -ℤ b) ≤ pos_part a + neg_part b) × (neg_part (a -ℤ b) ≤ neg_part a + pos_part b)
unfolding ◌-ℤ◌
-ℤ_bounds a b = ground arith

pub times_bounds :
    (a : ℤ) (k : ℕ)
    → (pos_part (times a k) ≤ pos_part a * k) × (neg_part (times a k) ≤ neg_part a * k)
unfolding times
times_bounds a k = ground arith

pub ruleset int_bounds = (arith, +ℤ_bounds, -ℤ_bounds, times_bounds)

-- `as` an unsigned type with this many values.
unfoldable pub wrap : ℕ → ℤ → ℕ
wrap values (pos n) = n % values
wrap values (negsuc n) = values - 1 - n % values

pub wrap_bound : (values : ℕ) (z : ℤ) → 0 < values → wrap values z < values
unfolding wrap
wrap_bound values (pos n) h = ground arith
wrap_bound values (negsuc n) h = omega arith
