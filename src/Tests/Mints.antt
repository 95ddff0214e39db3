-- ===== src/Tests/Mints.antt =====
-- The theorems of Mint, with one decimal digit.
use native.Mathlib.Nat.{lt-div-mul-add}
use gears.Base.{ℕ, zero, suc, subst, ◌/◌, ◌<◌, ◌+◌, ◌*◌, ◌≡◌, refl, none, some, [], ◌∷◌, arith}
use gears.Mint.Minter.{MintParams}
use gears.Mint.Block.{Keepers, State, begin_block, bonded_ratio}
use gears.Mint.Block.Provisions.{begin_block-over_goal}
use gears.Tests.Validators.{tenths, tenths-RoundsDown}

abbrev params : MintParams
params = record {
  mint_denom = 1 ∷ [];
  inflation_rate_change = 1;
  inflation_max = 2;
  inflation_min = 1;
  goal_bonded = 6;
  blocks_per_year = 2;
}

-- The bank counts the calls.
abbrev keepers : ℕ → Keepers ℕ
keepers bonded = record {
  staking_token_supply = λ s. some 90;
  total_bonded_tokens = λ s. bonded;
  mint_coins = λ coins s. some (s + 1);
  collect_fees = λ coins s. some (s + 10);
}

abbrev start : State ℕ
start = record { minter = some (record { inflation = 1; annual_provisions = 0 }); bank = 0 }

minted :
    begin_block (keepers 27) tenths params start
    ≡ some (record { minter = some (record { inflation = 1; annual_provisions = 9 }); bank = 11 })
unfolding begin_block
minted = refl

tenths_least : (a b r : ℕ) → tenths.checked_div a b ≡ some r → a * 10 < (r + 1) * b
tenths_least a zero r e = absurd cc
tenths_least a (suc b) r e =
    let q : a * 10 / suc b ≡ r = ground arith in
    let hi : a * 10 < a * 10 / suc b * suc b + suc b = lt-div-mul-add (omega arith) in
    let hi' : a * 10 < r * suc b + suc b = subst (λ z. a * 10 < z * suc b + suc b) q hi in
    omega arith

all_bonded : bonded_ratio (keepers 90) tenths 0 ≡ some 10
unfolding bonded_ratio
all_bonded = refl

begin_block-over_goal_example : begin_block (keepers 90) tenths params start ≡ none
begin_block-over_goal_example =
    begin_block-over_goal (keepers 90) tenths tenths-RoundsDown tenths_least params start 10
      all_bonded (omega arith)
