-- ===== src/Gas/Amount/Exact.antt =====
-- The checked operations give the true result where it fits in 63 bits, and nothing elsewhere.
use gears.Base.{
  ℕ, ◌+◌, ◌-◌, ◌*◌, ◌/◌, ◌≤◌, ◌<◌, ◌≡◌, false, Option, none, some, leb, ltb, arith, Bool-cases, inl,
  inr, ltb→lt, zero, suc, if◌then◌else◌,
}
use native.Mathlib.Decide.{dec_le}
use native.Mathlib.Nat.{div-lt_iff_lt-mul, mul_comm}
use gears.Gas.Amount.{max, checked_add, checked_sub, checked_mul}

-- A test on whether a result fits.
abbrev fits : ℕ → Option ℕ
fits n = if leb n max then some n else none

checked_add-fits : (a b : ℕ) → a ≤ max → checked_add a b ≡ fits (a + b)
unfolding checked_add
checked_add-fits a b h = ground arith

not_lt_of_ltb : (m n : ℕ) → ltb m n ≡ false → m < n → ⊥
not_lt_of_ltb m n h k = ground arith

checked_mul-fits : (a b : ℕ) → checked_mul a b ≡ fits (a * b)
unfolding checked_mul
checked_mul-fits zero b = ground arith
checked_mul-fits (suc a) b =
    let e = div-lt_iff_lt-mul {k = suc a} {x = max} {y = b} (omega arith) in
    elim (Bool-cases (ltb (max / suc a) b)) [
      | inl over ↦
          let big : max < suc a * b = rw mul_comm (e.0 (ltb→lt (max / suc a) b over)) in
          ground arith
      | inr fit ↦ elim (dec_le (suc a * b) max) [
        | yes small ↦ ground arith
        | no n ↦
            let over : max / suc a < b = e.1 (rw mul_comm (omega arith)) in
            absurd (not_lt_of_ltb (max / suc a) b fit over)
      ]
    ]

-- On amounts, the checked sum and product are the sum and the product where these are at most
-- `max`, and absent elsewhere; the checked difference is the difference where it is not negative.
pub checked-exact :
    (a b : ℕ)
    → a ≤ max
    → (checked_add a b ≡ fits (a + b))
      × (checked_mul a b ≡ fits (a * b))
      × (checked_sub a b ≡ (if ltb a b then none else some (a - b)))
unfolding checked_sub
checked-exact a b h = (checked_add-fits a b h, checked_mul-fits a b, ground arith)
