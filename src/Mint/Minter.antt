-- ===== src/Mint/Minter.antt =====
-- x/mint/src/types/minter.rs: the rate of inflation and what it provides. A decimal is its atomics;
-- `none` is a result that does not fit.
use gears.Base.{ℕ, Option, some, ltb, if◌then◌else◌}
use gears.Base.Options.{◌>>=◌}
use gears.Base.Order.{Bytes}
use gears.Coins.{Coin}
use gears.Staking.Validator.{Decimals}

pub record MintParams : Type 0 where
  pub mint_denom : Bytes
  pub inflation_rate_change : ℕ
  pub inflation_max : ℕ
  pub inflation_min : ℕ
  pub goal_bonded : ℕ
  pub blocks_per_year : ℕ

pub record Minter : Type 0 where
  pub inflation : ℕ
  pub annual_provisions : ℕ

-- The two tests after the sum.
unfoldable pub clamp : MintParams → ℕ → ℕ
clamp params inflation =
    let below = if ltb params.inflation_max inflation then params.inflation_max else inflation in
    if ltb below params.inflation_min then params.inflation_min else below

module _ (d : Decimals) where
  unfoldable pub next_inflation_rate : Minter → MintParams → ℕ → Option ℕ
  unfolding clamp
  next_inflation_rate m params bonded_ratio =
      d.checked_div bonded_ratio params.goal_bonded >>= λ ratio.
      d.checked_sub d.scale ratio >>= λ missing.
      d.checked_mul missing params.inflation_rate_change >>= λ inflation_change_per_year.
      d.checked_div inflation_change_per_year params.blocks_per_year >>= λ inflation_rate_change.
      d.checked_add m.inflation inflation_rate_change >>= λ inflation. some (clamp params inflation)

  unfoldable pub next_annual_provision : Minter → ℕ → Option ℕ
  next_annual_provision m total_supply = d.checked_mul m.inflation total_supply

  unfoldable pub block_provision : Minter → MintParams → Option Coin
  block_provision m params =
      d.checked_div m.annual_provisions params.blocks_per_year >>= λ provision.
      some (record { denom = params.mint_denom; amount = d.to_uint_floor provision })
