-- ===== src/Tests/Validators.antt =====
-- The theorems of Staking, with one decimal digit.
use gears.Base.{
  ℕ, ◌+◌, ◌-◌, ◌*◌, ◌/◌, refl, false, Option, none, some, leb, ◌==◌, if◌then◌else◌, arith,
}
use native.Mathlib.Nat.{div-mul-le_self}
use gears.Staking.Validator.{
  Validator, bonded, Decimals, RoundsDown, add_tokens_from_del, remove_del_shares,
}
use gears.Staking.Validator.Rate.{KeepsRate, Removal, remove_del_shares-rate}
use gears.Staking.Validator.Steps.{Reaches, stay, delegate, undelegate, Reaches-KeepsRate}

abbrev subtract : ℕ → ℕ → Option ℕ
subtract a b = if leb b a then some (a - b) else none

abbrev divide : ℕ → ℕ → Option ℕ
divide a b = if b == 0 then none else some (a * 10 / b)

abbrev pub tenths : Decimals
tenths = record {
  scale = 10;
  uint_add = λ a b. some (a + b);
  uint_sub = subtract;
  from_atomics = λ a. some (a * 10);
  checked_add = λ a b. some (a + b);
  checked_sub = subtract;
  checked_mul = λ a b. some (a * b / 10);
  checked_div = divide;
  to_uint_floor = λ a. a / 10;
}

pub tenths-RoundsDown : RoundsDown tenths
tenths-RoundsDown = record {
  scale_positive = omega arith;
  uint_add_exact = λ a b c e. ground arith;
  uint_sub_exact = λ a b c e. ground arith;
  from_atomics_exact = λ a c e. ground arith;
  checked_add_exact = λ a b c e. ground arith;
  checked_sub_exact = λ a b c e. ground arith;
  uint_sub_none = λ a b e. ground arith;
  checked_sub_none = λ a b e. ground arith;
  checked_mul_floor = λ a b c e. ground arith;
  checked_div_floor = λ a b c e. ground (arith, div-mul-le_self (a * 10) b);
  to_uint_floor_le = λ a. omega arith;
}

abbrev held : Validator
held = record { tokens = 9; delegator_shares = 100; jailed = false; status = bonded }

remove_del_shares-rate_example :
    Removal tenths tenths-RoundsDown held 50 (remove_del_shares tenths 50 held)
remove_del_shares-rate_example = remove_del_shares-rate tenths tenths-RoundsDown 50 held

abbrev joined : Validator
joined = record held { tokens = 14; delegator_shares = 155 }

half_left : Reaches tenths held (record joined { tokens = 10; delegator_shares = 105 })
unfolding add_tokens_from_del remove_del_shares
half_left = delegate 5 55 held joined _ (omega arith) refl (
    undelegate 50 4 joined (record joined { tokens = 10; delegator_shares = 105 }) _ (omega arith)
      refl (stay _ (omega arith)))

Reaches-KeepsRate_example :
    KeepsRate tenths tenths-RoundsDown held (record joined { tokens = 10; delegator_shares = 105 })
Reaches-KeepsRate_example =
    Reaches-KeepsRate tenths tenths-RoundsDown held
      (record joined { tokens = 10; delegator_shares = 105 }) half_left
