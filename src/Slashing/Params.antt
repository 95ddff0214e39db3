-- ===== src/Slashing/Params.antt =====
-- x/slashing/src/params.rs: the parameters, and the blocks of a window that have to be signed.
pub mod Rounds
use gears.Base.{ℕ, ◌+◌, ◌-◌, ◌*◌, ◌%◌, ◌^◌, ◌≤◌, ◌<◌, ◌≡◌, Option, none, some, leb, if◌then◌else◌}
use gears.Base.Int.{ℤ, wrap}
use gears.Base.Results.{Result, ok, err, ok_or, ◌>>=◌}
use gears.Staking.Validator.{Decimals}

pub record SlashingParams : Type 0 where
  pub signed_blocks_window : ℤ
  pub min_signed_per_window : ℕ
  pub downtime_jail_duration : ℤ
  pub slash_fraction_double_sign : ℕ
  pub slash_fraction_downtime : ℕ

pub data ParamsError : Type 0 where
  numeric not_u32 panicked : ParamsError

-- The division and the multiplication of a `Uint256` by a `Decimal256` that round up, of the crate
-- of both. They panic where the result does not fit.
pub record Ceilings : Type 0 where
  pub div_ceil : ℕ → ℕ → Option ℕ
  pub mul_ceil : ℕ → ℕ → Option ℕ

-- `PRECISION_REUSE`, the atomics of 10^18
abbrev pub precision_reuse : ℕ
precision_reuse = 1000000000000000000000000000000000000

abbrev pub u256_values : ℕ
u256_values = 115792089237316195423570985008687907853269984665640564039457584007913129639936

-- `Uint256::wrapping_sub`
abbrev pub wrapping_sub : ℕ → ℕ → ℕ
wrapping_sub a b = (a + u256_values - b) % u256_values

module _ (d : Decimals) (c : Ceilings) where
  -- `unwrap`
  abbrev pub unwrap : Option ℕ → Result ParamsError ℕ
  unwrap r = ok_or panicked r

  -- What is left of the quotient with one decimal decides how the whole quotient is rounded.
  unfoldable pub round_to_u32 : ℕ → Result ParamsError ℕ
  round_to_u32 mul = unwrap (c.div_ceil mul precision_reuse) >>= λ full.
      if leb full 4294967295
      then (unwrap (d.from_atomics 10) >>= λ ten.
          unwrap (d.checked_div precision_reuse ten) >>= λ fraction.
          unwrap (c.div_ceil mul fraction) >>= λ full_dec.
          unwrap (c.mul_ceil full ten) >>= λ tenths.
          ok (if leb 5 (wrapping_sub tenths full_dec) then wrapping_sub full 1 else full))
      else err not_u32

  unfoldable pub min_signed_per_window_u32 : SlashingParams → Result ParamsError ℕ
  unfolding round_to_u32 wrap
  min_signed_per_window_u32 p =
      unwrap (d.from_atomics (wrap 18446744073709551616 p.signed_blocks_window)) >>= λ window.
      ok_or numeric (d.checked_mul p.min_signed_per_window window) >>= λ mul. round_to_u32 mul
