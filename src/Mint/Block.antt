-- ===== src/Mint/Block.antt =====
-- x/mint/src/keeper.rs and `begin_block` of x/mint/src/abci_handler.rs. `none` is a panic.
pub mod Provisions
use gears.Base.{ℕ, Option, none, some, List, [], ◌∷◌, ltb, if◌then◌else◌}
use gears.Base.Options.{◌>>=◌}
use gears.Base.Results.{Result, ok, err}
use gears.Coins.{Coin, CoinsError, new}
use gears.Staking.Validator.{Decimals}
use gears.Mint.Minter.{
  Minter, MintParams, next_inflation_rate, next_annual_provision, block_provision,
}

-- What the module asks of the bank and of the staking keeper, which are traits of the source: the
-- supply of the staking denomination, the bonded tokens, and the two calls that mint the coins and
-- hand them to the collector of fees, which panic where they fail.
pub record Keepers (S : Type 0) : Type 0 where
  pub staking_token_supply : S → Option ℕ
  pub total_bonded_tokens : S → ℕ
  pub mint_coins : List Coin → S → Option S
  pub collect_fees : List Coin → S → Option S

-- The minter under its key, and what the keepers write to.
pub record State (S : Type 0) : Type 0 where
  pub minter : Option Minter
  pub bank : S

-- `unwrap_or_default`
abbrev pub or_zero : Option ℕ → ℕ
or_zero none = 0
or_zero (some n) = n

module _ {S : Type 0} (k : Keepers S) (d : Decimals) where
  unfoldable pub bonded_ratio : S → Option ℕ
  bonded_ratio s =
      let stake_supply = or_zero (k.staking_token_supply s) in
      if ltb 0 stake_supply then d.checked_div (k.total_bonded_tokens s) stake_supply else some 0

  -- No coin is minted where the list of the one coin is not valid.
  unfoldable pub mint : Minter → Coin → State S → Option (State S)
  unfolding new
  mint minter minted_coin s = elim (new (minted_coin ∷ [])) [
    | err e ↦ some (record s { minter = some minter })
    | ok minted_coins ↦
        (k.mint_coins minted_coins s.bank >>= λ minted.
        k.collect_fees minted_coins minted >>= λ bank.
        some (record { minter = some minter; bank = bank }))
  ]

  unfoldable pub begin_block : MintParams → State S → Option (State S)
  unfolding bonded_ratio next_inflation_rate next_annual_provision block_provision mint
  begin_block params s = s.minter >>= λ minter. bonded_ratio s.bank >>= λ ratio.
      next_inflation_rate d minter params ratio >>= λ inflation.
      next_annual_provision d (record minter { inflation = inflation })
        (or_zero (k.staking_token_supply s.bank))
      >>= λ provisions.
          (let next : Minter = record { inflation = inflation; annual_provisions = provisions } in
            block_provision d next params >>= λ minted_coin. mint next minted_coin s)
